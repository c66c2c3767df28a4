-- ===== src/Store/Ids.antt =====
-- The ids that AddEntry generates: encodings of what the random source gave.
use onetimelink.Prelude.{
  ℕ, List, Option, All, ◌≡◌, some, [], length, arith, inl, inr, suc, Option-cases, zero,
}
use onetimelink.Store.{
  add_entry, choose_id, find_id, new_id, store_under, SecretStore, StoreEntry, id_bytes,
}
use onetimelink.Prelude.GoMap.{GoMap, lookup}
use onetimelink.Prelude.Text.{str_eq, Bytes}
use onetimelink.Base64.Laws.{
  IsByte, IsUrlSafe, raw_url_encode_injective, length-raw_url_encode, raw_url_encode-IsUrlSafe,
}
use onetimelink.Prelude.Clock.{Time}
use onetimelink.Prelude.Result.{ok, Result-cases}
use mathlib.Core.Path.{subst}
use onetimelink.Base64.{raw_url_encode}

-- The random source gives bytes.
abbrev pub GivesBytes : (ℕ → Option (List ℕ)) → Type 0
GivesBytes draws = (i : ℕ) (b : List ℕ) → draws i ≡ some b → All IsByte b

find_id-IsUrlSafe :
    (m : GoMap StoreEntry) (draws : ℕ → Option (List ℕ)) (rounds i : ℕ) (k : Bytes)
    → GivesBytes draws
    → find_id m draws rounds i ≡ ok k
    → All IsUrlSafe k
unfolding find_id new_id
find_id-IsUrlSafe m draws zero i k g h =
    let same : [] ≡ k = ground arith in subst (All IsUrlSafe) same tt
find_id-IsUrlSafe m draws (suc rounds) i k g h = elim (Option-cases (draws i)) [
  | inl failed ↦ absurd (ground arith)
  | inr (b, drawn) ↦ elim (Option-cases (lookup (raw_url_encode b) m)) [
    | inl free ↦
        let same : raw_url_encode b ≡ k = ground arith in
        subst (All IsUrlSafe) same (raw_url_encode-IsUrlSafe b (g i b drawn))
    | inr (v, taken) ↦ find_id-IsUrlSafe m draws rounds (suc i) k g (ground arith)
  ]
]

-- A generated id consists of letters, digits, '-' and '_', and is not empty.
pub choose_id-IsUrlSafe :
    (m : GoMap StoreEntry) (draws : ℕ → Option (List ℕ)) (k : Bytes)
    → GivesBytes draws
    → choose_id m [] draws ≡ ok k
    → All IsUrlSafe k
unfolding choose_id str_eq
choose_id-IsUrlSafe m draws k g h = elim (Result-cases (find_id m draws 10 0)) [
  | inl (c, found) ↦
      let same : c ≡ k = ground arith in
      subst (All IsUrlSafe) same (find_id-IsUrlSafe m draws 10 0 c g found)
  | inr (x, failed) ↦ absurd (ground arith)
]

pub add_entry-IsUrlSafe :
    (st : SecretStore) (e : StoreEntry) (now : Time) (draws : ℕ → Option (List ℕ)) (k : Bytes)
    → GivesBytes draws
    → (add_entry st e [] now draws).1 ≡ ok k
    → All IsUrlSafe k
unfolding add_entry store_under
add_entry-IsUrlSafe st e now draws k g h = elim (Result-cases (choose_id st.entries [] draws)) [
  | inl (c, chosen) ↦
      let same : c ≡ k = ground arith in
      subst (All IsUrlSafe) same (choose_id-IsUrlSafe st.entries draws c g chosen)
  | inr (x, failed) ↦ absurd (ground arith)
]

-- Different 32 random bytes give different ids, each of 43 URL-safe characters.
new_id_injective :
    (a b : List ℕ)
    → All IsByte a
    → All IsByte b
    → length a ≡ id_bytes
    → length b ≡ id_bytes
    → (new_id (some a) ≡ new_id (some b) → a ≡ b)
      × ((id : Bytes) → new_id (some a) ≡ ok id → (length id ≡ 43) × All IsUrlSafe id)
unfolding new_id
new_id_injective a b ha hb la lb = (
  λ e. raw_url_encode_injective a b ha hb (ground arith),
  λ id e.
      let same : raw_url_encode a ≡ id = ground arith in
      (
        rw (← same, length-raw_url_encode a, la),
        subst (All IsUrlSafe) same (raw_url_encode-IsUrlSafe a ha),
      ),
)
