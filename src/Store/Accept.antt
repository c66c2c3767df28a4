-- ===== src/Store/Accept.antt =====
-- AddEntry: what a refusal leaves, what an acceptance stores, and that a generated id is fresh.
use onetimelink.Prelude.{
  ℕ, zero, suc, ◌≡◌, ◌⊎◌, inl, inr, ◌≢◌, Option, none, List, [], arith, Bool-cases, Option-cases,
  length, ltb, ◌↔◌, ◌≤◌, ◌<◌, ◌+◌, ◌%◌, ◌^◌, ap, some, true,
}
use onetimelink.Prelude.Text.{Bytes, str_eq, str_eq_iff, str_eq_refl}
use onetimelink.Prelude.GoMap.{GoMap, lookup, insert, is_some}
use onetimelink.Prelude.Result.{ok, Result-cases, err}
use onetimelink.Prelude.Clock.{Time}
use onetimelink.Store.{
  StoreEntry, SecretStore, new_id, find_id, choose_id, add_entry, store_under, StoreError,
  empty_secret, max_secret_len, normalise, secret_too_long, store_full, rand_failed, no_free_id,
}
use mathlib.Core.Path.{subst}
use onetimelink.Prelude.Int.{pos, ◌<ℤ◌, ◌≤ℤ◌}
use onetimelink.Base64.{raw_url_encode}
use onetimelink.Base64.Laws.{raw_url_encode-ne_nil}

-- A candidate that the loop settles on is free, unless it is the empty id.
find_id-free :
    (m : GoMap StoreEntry) (draws : ℕ → Option (List ℕ)) (rounds i : ℕ) (k : Bytes)
    → find_id m draws rounds i ≡ ok k
    → (k ≡ []) ⊎ (lookup k m ≡ none)
unfolding find_id
find_id-free m draws zero i k h = inl (ground arith)
find_id-free m draws (suc rounds) i k h = elim (Result-cases (new_id (draws i))) [
  | inr (x, e) ↦ absurd (ground arith)
  | inl (c, e) ↦ elim (Option-cases (lookup c m)) [
    | inl free ↦ inr (ground arith)
    | inr (v, taken) ↦ find_id-free m draws rounds (suc i) k (ground arith)
  ]
]

-- The id that is chosen is the given one, or a free one if none is given.
pub choose_id-free :
    (m : GoMap StoreEntry) (id : Bytes) (draws : ℕ → Option (List ℕ)) (k : Bytes)
    → choose_id m id draws ≡ ok k
    → (k ≢ []) × ((k ≡ id) ⊎ ((id ≡ []) × (lookup k m ≡ none)))
unfolding choose_id
choose_id-free m id draws k h = elim (Bool-cases (str_eq id [])) [
  | inr given ↦ (ground (arith, str_eq_iff id [], str_eq_iff k []), inl (ground arith))
  | inl generated ↦ elim (Result-cases (find_id m draws 10 0)) [
    | inr (x, e) ↦ absurd (ground arith)
    | inl (c, e) ↦ (
      ground (arith, str_eq_iff c []),
      inr (
        ground (arith, str_eq_iff id []),
        ground (arith, str_eq_iff c [], find_id-free m draws 10 0 c e),
      ),
    )
  ]
]

-- A refusal leaves the store as it was.
pub add_entry_refused :
    (st : SecretStore) (e : StoreEntry) (id : Bytes) (now : Time) (draws : ℕ → Option (List ℕ))
    (x : StoreError)
    → (add_entry st e id now draws).1 ≡ err x
    → (add_entry st e id now draws).0 ≡ st
unfolding add_entry store_under
add_entry_refused st e id now draws x h = ground arith

-- What an accepted call of AddEntry has checked, and the store that it leaves.
pub record Accepted (st : SecretStore) (e : StoreEntry) (id : Bytes) (now : Time) (k : Bytes)
    (after : SecretStore) : Type 0 where
  pub nonempty : e.secret ≢ []
  pub short : length e.secret ≤ max_secret_len
  pub named : (k ≢ []) × ((k ≡ id) ⊎ ((id ≡ []) × (lookup k st.entries ≡ none)))
  pub room : (lookup k st.entries ≢ none) ⊎ (pos (length st.entries) <ℤ st.max_entries)
  pub stored : after.entries ≡ insert k (normalise e now) st.entries
  pub counted : after.created ≡ (st.created + 1) % 2 ^ 64
  pub capacity : after.max_entries ≡ st.max_entries
  pub others : (after.claimed ≡ st.claimed) × (after.expired ≡ st.expired)

store_under-Accepted :
    (st : SecretStore) (e : StoreEntry) (id : Bytes) (now : Time) (c k : Bytes)
    → e.secret ≢ []
    → length e.secret ≤ max_secret_len
    → (c ≢ []) × ((c ≡ id) ⊎ ((id ≡ []) × (lookup c st.entries ≡ none)))
    → (store_under st (normalise e now) c).1 ≡ ok k
    → (c ≡ k) × Accepted st e id now c (store_under st (normalise e now) c).0
unfolding store_under
store_under-Accepted st e id now c k ne le nm h = elim (Option-cases (lookup c st.entries)) [
  | inr (v, old) ↦ (
    ground arith,
    record {
      nonempty = ne;
      short = le;
      named = nm;
      room = inl (ground arith);
      stored = ground arith;
      counted = ground arith;
      capacity = ground arith;
      others = ground arith;
    },
  )
  | inl free ↦ (
    ground arith,
    record {
      nonempty = ne;
      short = le;
      named = nm;
      room = inr (ground arith);
      stored = ground arith;
      counted = ground arith;
      capacity = ground arith;
      others = ground arith;
    },
  )
]

-- An accepted AddEntry has a secret of 1 to MaxSecretLen bytes, found room for a new id, and wrote
-- the entry under the given id or under a fresh one; it counts one creation and changes no other
-- field.
pub add_entry-Accepted :
    (st : SecretStore) (e : StoreEntry) (id : Bytes) (now : Time) (draws : ℕ → Option (List ℕ))
    (k : Bytes)
    → (add_entry st e id now draws).1 ≡ ok k
    → Accepted st e id now k (add_entry st e id now draws).0
unfolding add_entry
add_entry-Accepted st e id now draws k h = elim (Bool-cases (str_eq e.secret [])) [
  | inl empty ↦ absurd (ground arith)
  | inr ne ↦ elim (Bool-cases (ltb max_secret_len (length e.secret))) [
    | inl long ↦ absurd (ground arith)
    | inr short ↦ elim (Result-cases (choose_id st.entries id draws)) [
      | inr (x, failed) ↦ absurd (ground arith)
      | inl (c, chosen) ↦
          let (same, accepted) =
            store_under-Accepted st e id now c k (ground (arith, str_eq_iff e.secret []))
              (ground arith) (choose_id-free st.entries id draws c chosen) (ground arith) in
          rw (ne, short, chosen, add_entry)
            (subst (λ z. Accepted st e id now z (store_under st (normalise e now) c).0) same
              accepted)
    ]
  ]
]

find_id_error :
    (m : GoMap StoreEntry) (draws : ℕ → Option (List ℕ)) (rounds i : ℕ) (x : StoreError)
    → find_id m draws rounds i ≡ err x
    → x ≡ rand_failed
unfolding find_id new_id
find_id_error m draws zero i x h = absurd (ground arith)
find_id_error m draws (suc rounds) i x h = ground (arith, find_id_error m draws rounds (suc i) x)

choose_id_error :
    (m : GoMap StoreEntry) (id : Bytes) (draws : ℕ → Option (List ℕ)) (x : StoreError)
    → choose_id m id draws ≡ err x
    → (x ≡ rand_failed) ⊎ (x ≡ no_free_id)
unfolding choose_id
choose_id_error m id draws x h = ground (arith, find_id_error m draws 10 0 x)

-- The errors that AddEntry itself returns, each exactly when: an empty secret; a secret longer than
-- MaxSecretLen; and, for an acceptable secret once an id is chosen, a full store that holds nothing
-- under that id.
pub add_entry_errors :
    (st : SecretStore) (e : StoreEntry) (id : Bytes) (now : Time) (draws : ℕ → Option (List ℕ))
    → (((add_entry st e id now draws).1 ≡ err empty_secret) ↔ (e.secret ≡ []))
      × (((add_entry st e id now draws).1 ≡ err secret_too_long)
          ↔ (max_secret_len < length e.secret))
      × ((k : Bytes)
          → e.secret ≢ []
          → length e.secret ≤ max_secret_len
          → choose_id st.entries id draws ≡ ok k
          → ((add_entry st e id now draws).1 ≡ err store_full)
            ↔ ((lookup k st.entries ≡ none) × (st.max_entries ≤ℤ pos (length st.entries))))
unfolding add_entry store_under
add_entry_errors st e id now draws = (
  (
    λ h. ground (arith, str_eq_iff e.secret [], choose_id_error st.entries id draws empty_secret),
    λ h. ground (arith, str_eq_iff e.secret []),
  ),
  (
    λ h.
        ground (arith, str_eq_iff e.secret [], choose_id_error st.entries id draws secret_too_long),
    λ h. elim (Bool-cases (str_eq e.secret [])) [
      | inl empty ↦ absurd (omega (arith, ap length ((str_eq_iff e.secret []).0 empty)))
      | inr ne ↦ ground arith
    ],
  ),
  λ k ne le chosen.
      (λ h. ground (arith, str_eq_iff e.secret []), λ h. ground (arith, str_eq_iff e.secret [])),
)

-- From draw `i` on, `n` draws encode to ids that are taken, and the next one, `b`, to a free id.
abbrev pub FirstFree : GoMap StoreEntry → (ℕ → Option (List ℕ)) → ℕ → ℕ → List ℕ → Type 0
FirstFree m draws zero i b = (draws i ≡ some b) × (lookup (raw_url_encode b) m ≡ none)
FirstFree m draws (suc n) i b =
    ((t : List ℕ) × (draws i ≡ some t) × (is_some (lookup (raw_url_encode t) m) ≡ true))
    × FirstFree m draws n (suc i) b

find_id-FirstFree :
    (m : GoMap StoreEntry) (draws : ℕ → Option (List ℕ)) (n rounds i : ℕ) (b : List ℕ)
    → n < rounds
    → FirstFree m draws n i b
    → find_id m draws rounds i ≡ ok (raw_url_encode b)
unfolding find_id new_id
find_id-FirstFree m draws n zero i b h f = elim h [ ]
find_id-FirstFree m draws zero (suc rounds) i b h (drawn, free) = ground arith
find_id-FirstFree m draws (suc n) (suc rounds) i b h ((t, drawn, taken), f) =
    ground (arith, find_id-FirstFree m draws n rounds (suc i) b (omega arith) f)

add_entry_named :
    (st : SecretStore) (e : StoreEntry) (now : Time) (draws : ℕ → Option (List ℕ)) (n : ℕ)
    (b : List ℕ)
    → e.secret ≢ []
    → length e.secret ≤ max_secret_len
    → pos (length st.entries) <ℤ st.max_entries
    → n < 10
    → b ≢ []
    → FirstFree st.entries draws n 0 b
    → (add_entry st e [] now draws).1 ≡ ok (raw_url_encode b)
unfolding add_entry store_under choose_id
add_entry_named st e now draws n b ne le room few full f = ground (
  arith,
  str_eq_iff e.secret [],
  str_eq_refl [],
  str_eq_iff (raw_url_encode b) [],
  raw_url_encode-ne_nil b full,
  find_id-FirstFree st.entries draws n 10 0 b few f,
)

-- With no id given, an acceptable secret is stored whenever there is room and, of the first ten draws,
-- one gives a free id and those before it give bytes too, of ids that are taken: the normalised entry then
-- stands under that id, the id is the answer, and one creation is counted.
pub add_entry_succeeds :
    (st : SecretStore) (e : StoreEntry) (now : Time) (draws : ℕ → Option (List ℕ)) (n : ℕ)
    (b : List ℕ)
    → e.secret ≢ []
    → length e.secret ≤ max_secret_len
    → pos (length st.entries) <ℤ st.max_entries
    → n < 10
    → b ≢ []
    → FirstFree st.entries draws n 0 b
    → ((add_entry st e [] now draws).1 ≡ ok (raw_url_encode b))
      × ((add_entry st e [] now draws).0.entries
          ≡ insert (raw_url_encode b) (normalise e now) st.entries)
      × ((add_entry st e [] now draws).0.created ≡ (st.created + 1) % 2 ^ 64)
add_entry_succeeds st e now draws n b ne le room few full f =
    let named = add_entry_named st e now draws n b ne le room few full f in
    let accepted = add_entry-Accepted st e [] now draws (raw_url_encode b) named in
    (named, accepted.stored, accepted.counted)
