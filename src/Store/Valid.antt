-- ===== src/Store/Valid.antt =====
-- The well-formedness of a store, and that every operation keeps it.
use onetimelink.Prelude.{
  ℕ, ◌≢◌, [], arith, length, ◌≤◌, ◌^◌, ◌-◌, ◌≡◌, List, Option, Option-cases, not, All, inl, none,
  some, Bool-cases, inr, ◌∷◌, ◌⊎◌, ◌+◌,
}
use onetimelink.Store.{SecretStore, StoreEntry, new, normalise, max_secret_len, add_entry}
use onetimelink.Store.History.{Op, adds, run, step, claims, expires}
use onetimelink.Store.Serve.{click, claim, put_back}
use onetimelink.Prelude.Clock.{Time}
use onetimelink.Prelude.GoMap.{
  IsDistinct, AllValues, lookup, retain-IsDistinct, insert, length-retain-le, insert-IsDistinct,
  length-insert, retain-AllValues, insert-AllValues, AllValues-lookup, delete-IsDistinct,
  length-delete, delete-AllValues,
}
use onetimelink.Prelude.Int.{
  ℤ, ◌<ℤ◌, pos, ◌≤ℤ◌, int_laws, ◌+ℤ◌, wrap_of_IsInt64, ltb_ℤ, ltb_ℤ→lt, pos_part, neg_part,
  neg_part_of_nonneg,
}
use onetimelink.Prelude.Text.{Bytes}
use onetimelink.Store.Expire.{expire_once, is_past}
use onetimelink.Prelude.Result.{Result-cases}
use onetimelink.Store.Accept.{add_entry_refused, add_entry-Accepted, Accepted}

-- A stored entry: acceptable, with clicks left, and with values that fit an int.
pub record IsLive (e : StoreEntry) : Type 0 where
  pub nonempty : e.secret ≢ []
  pub short : length e.secret ≤ max_secret_len
  pub counted : pos 0 ≤ℤ e.clicks
  pub unspent : e.clicks <ℤ e.max_clicks
  pub limited : e.max_clicks ≤ℤ pos (2 ^ 63 - 1)
  pub dated : pos 0 <ℤ e.valid_for

pub record IsValid (st : SecretStore) : Type 0 where
  pub distinct : IsDistinct st.entries
  pub bounded : pos (length st.entries) ≤ℤ st.max_entries
  pub positive : pos 0 <ℤ st.max_entries
  pub live : AllValues IsLive st.entries

-- What Go guarantees of the arguments of an operation: an int fits its 64 bits.
abbrev pub IsOp : Op → Type 0
IsOp (adds e id now draws) = e.max_clicks ≤ℤ pos (2 ^ 63 - 1)
IsOp (claims id urlbase urlget urlapiget) = Unit {0}
IsOp (expires now) = Unit {0}

pub new-IsValid : (max_entries : ℤ) → IsValid (new max_entries)
unfolding new
new-IsValid max_entries = ground arith

normalise-IsLive :
    (e : StoreEntry) (now : Time)
    → e.secret ≢ []
    → length e.secret ≤ max_secret_len
    → e.max_clicks ≤ℤ pos (2 ^ 63 - 1)
    → IsLive (normalise e now)
unfolding normalise
normalise-IsLive e now ne le fits = record {
  nonempty = ne;
  short = le;
  counted = omega arith;
  unspent = ground arith;
  limited = ground arith;
  dated = ground arith;
}

-- A click does not wrap: below MaxClicks there is room for one more.
pub clicks-click : (e : StoreEntry) → IsLive e → (click e).clicks ≡ e.clicks +ℤ pos 1
unfolding click
clicks-click e v = wrap_of_IsInt64 (e.clicks +ℤ pos 1) (omega int_laws)

pub click_parts :
    (e : StoreEntry)
    → IsLive e
    → (pos_part (click e).clicks ≡ pos_part e.clicks + 1) × (neg_part (click e).clicks ≡ 0)
click_parts e v =
    rw (clicks-click e v)
      (omega (int_laws, neg_part_of_nonneg e.clicks, neg_part_of_nonneg (e.clicks +ℤ pos 1)))

click-IsLive : (e : StoreEntry) → IsLive e → (click e).clicks <ℤ e.max_clicks → IsLive (click e)
unfolding click
click-IsLive e v h = record {
  nonempty = v.nonempty;
  short = v.short;
  counted = rw (clicks-click e v, click) (omega int_laws);
  unspent = h;
  limited = v.limited;
  dated = v.dated;
}

length-insert-le :
    (st : SecretStore) (k : Bytes) (e : StoreEntry)
    → IsValid st
    → (lookup k st.entries ≢ none) ⊎ (pos (length st.entries) <ℤ st.max_entries)
    → pos (length (insert k e st.entries)) ≤ℤ st.max_entries
length-insert-le st k e v room = ground (arith, length-insert k e st.entries, v.bounded)

put_back-IsValid :
    (st : SecretStore) (id : Bytes) (e : StoreEntry)
    → IsValid st
    → lookup id st.entries ≡ some e
    → IsValid (record st { entries = put_back id (click e) st.entries })
unfolding put_back click
put_back-IsValid st id e v found = elim (Bool-cases (ltb_ℤ (click e).clicks (click e).max_clicks)) [
  | inl more ↦
      rw (more, put_back)
        (record {
          distinct = insert-IsDistinct id (click e) st.entries v.distinct;
          bounded = length-insert-le st id (click e) v (inl (ground arith));
          positive = v.positive;
          live =
              insert-AllValues IsLive id (click e) st.entries
                (click-IsLive e (AllValues-lookup IsLive id e st.entries v.live found)
                  (ltb_ℤ→lt (click e).clicks e.max_clicks more))
                v.live;
        })
  | inr last ↦
      rw (last, put_back)
        (record {
          distinct = delete-IsDistinct id st.entries v.distinct;
          bounded = omega (arith, length-delete id e st.entries v.distinct found, v.bounded);
          positive = v.positive;
          live = delete-AllValues IsLive id st.entries v.live;
        })
]

claim-IsValid :
    (st : SecretStore) (id urlbase urlget urlapiget : Bytes)
    → IsValid st
    → IsValid (claim st id urlbase urlget urlapiget).0
unfolding claim
claim-IsValid st id urlbase urlget urlapiget v = elim (Option-cases (lookup id st.entries)) [
  | inl missing ↦ rw (missing, claim) v
  | inr (e, found) ↦
      let kept = put_back-IsValid st id e v found in
      rw (found, claim)
        (record {
          distinct = kept.distinct;
          bounded = kept.bounded;
          positive = kept.positive;
          live = kept.live;
        })
]

expire_once-IsValid : (st : SecretStore) (now : Time) → IsValid st → IsValid (expire_once st now).0
unfolding expire_once
expire_once-IsValid st now v =
    let keep = λ (e : StoreEntry). not (is_past now e) in
    record {
      distinct = retain-IsDistinct keep st.entries v.distinct;
      bounded = omega (arith, length-retain-le keep st.entries, v.bounded);
      positive = v.positive;
      live = retain-AllValues IsLive keep st.entries v.live;
    }

-- What an accepted AddEntry leaves.
pub Accepted-IsValid :
    (st : SecretStore) (e : StoreEntry) (id : Bytes) (now : Time) (k : Bytes) (after : SecretStore)
    → Accepted st e id now k after
    → e.max_clicks ≤ℤ pos (2 ^ 63 - 1)
    → IsValid st
    → IsValid after
Accepted-IsValid st e id now k after a fits v = record {
  distinct = rw a.stored (insert-IsDistinct k _ st.entries v.distinct);
  bounded = rw (a.stored, a.capacity) (length-insert-le st k _ v a.room);
  positive = rw a.capacity v.positive;
  live = rw a.stored (
      insert-AllValues IsLive k _ st.entries (normalise-IsLive e now a.nonempty a.short fits)
        v.live);
}

add_entry-IsValid :
    (st : SecretStore) (e : StoreEntry) (id : Bytes) (now : Time) (draws : ℕ → Option (List ℕ))
    → e.max_clicks ≤ℤ pos (2 ^ 63 - 1)
    → IsValid st
    → IsValid (add_entry st e id now draws).0
add_entry-IsValid st e id now draws fits v = elim (Result-cases (add_entry st e id now draws).1) [
  | inr (x, refused) ↦ rw (add_entry_refused st e id now draws x refused) v
  | inl (k, accepted) ↦
      Accepted-IsValid st e id now k (add_entry st e id now draws).0
        (add_entry-Accepted st e id now draws k accepted) fits v
]

-- Every operation keeps the store well formed: no id twice, never more entries than its capacity,
-- and each entry a secret of 1 to MaxSecretLen bytes with fewer clicks than its MaxClicks.
pub step-IsValid : (st : SecretStore) (op : Op) → IsOp op → IsValid st → IsValid (step st op)
unfolding step
step-IsValid st (adds e id now draws) fits v = add_entry-IsValid st e id now draws fits v
step-IsValid st (claims id urlbase urlget urlapiget) _ v =
    claim-IsValid st id urlbase urlget urlapiget v
step-IsValid st (expires now) _ v = expire_once-IsValid st now v

pub run-IsValid :
    (st : SecretStore) (ops : List Op) → All IsOp ops → IsValid st → IsValid (run st ops)
unfolding run
run-IsValid st [] h v = v
run-IsValid st (op ∷ ops) h v = run-IsValid (step st op) ops h.1 (step-IsValid st op h.0 v)

-- Every history from a new store keeps it well formed: no id twice, never more entries than its
-- capacity, and each entry a secret of 1 to MaxSecretLen bytes with fewer clicks than its MaxClicks.
pub run-new-IsValid :
    (max_entries : ℤ) (ops : List Op) → All IsOp ops → IsValid (run (new max_entries) ops)
run-new-IsValid max_entries ops h = run-IsValid (new max_entries) ops h (new-IsValid max_entries)
