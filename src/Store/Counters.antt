-- ===== src/Store/Counters.antt =====
-- The counters account for every entry, as long as fewer than 2 ^ 64 operations have been made.
use onetimelink.Prelude.{
  ℕ, List, arith, All, suc, ◌≡◌, Option, [], length, ◌+◌, ◌<◌, ◌^◌, ◌≤◌, Option-cases, not, some,
  inl, ◌∷◌, inr, none,
}
use onetimelink.Prelude.Int.{ℤ}
use onetimelink.Store.{new, SecretStore, StoreEntry, add_entry, normalise}
use onetimelink.Store.Expire.{expire_once, is_past}
use onetimelink.Store.History.{Op, run, step, adds, claims, expires}
use onetimelink.Store.Serve.{claim, put_back, click}
use onetimelink.Prelude.Text.{Bytes}
use onetimelink.Prelude.Clock.{Time}
use onetimelink.Prelude.GoMap.{
  IsDistinct, GoMap, insert-IsDistinct, lookup, delete-IsDistinct, length-insert, length-delete,
  length-retain-le, retain-IsDistinct, insert,
}
use native.Mathlib.Nat.{add-zero, add-suc, suc-add}
use onetimelink.Prelude.Result.{Result-cases}
use onetimelink.Store.Accept.{add_entry_refused, add_entry-Accepted}

-- AddEntry as the handlers call it, with no id given.
abbrev pub IsGenerated : Op → Type 0
IsGenerated (adds e id now draws) = id ≡ []
IsGenerated (claims id urlbase urlget urlapiget) = Unit {0}
IsGenerated (expires now) = Unit {0}

-- After `n` operations: created secrets are live, expired or read, and nothing has wrapped.
pub record IsBalanced (n : ℕ) (st : SecretStore) : Type 0 where
  pub distinct : IsDistinct st.entries
  pub accounted : length st.entries + st.expired ≤ st.created
  pub explained : st.created ≤ length st.entries + st.expired + st.claimed
  pub few_created : st.created ≤ n
  pub few_claimed : st.claimed ≤ n

pub new-IsBalanced : (max_entries : ℤ) → IsBalanced 0 (new max_entries)
unfolding new
new-IsBalanced max_entries = ground arith

add_entry-IsBalanced :
    (n : ℕ) (st : SecretStore) (e : StoreEntry) (now : Time) (draws : ℕ → Option (List ℕ))
    → suc n < 2 ^ 64
    → IsBalanced n st
    → IsBalanced (suc n) (add_entry st e [] now draws).0
add_entry-IsBalanced n st e now draws few b = elim (Result-cases (add_entry st e [] now draws).1) [
  | inr (x, refused) ↦ rw (add_entry_refused st e [] now draws x refused) (record {
    distinct = b.distinct;
    accounted = b.accounted;
    explained = b.explained;
    few_created = omega arith;
    few_claimed = omega arith;
  })
  | inl (k, accepted) ↦
      let a = add_entry-Accepted st e [] now draws k accepted in
      let fresh : lookup k st.entries ≡ none = ground (arith, a.named) in
      let grows : length (insert k (normalise e now) st.entries) ≡ length st.entries + 1 =
        ground (arith, length-insert k (normalise e now) st.entries) in
      record {
        distinct = rw a.stored (insert-IsDistinct k _ st.entries b.distinct);
        accounted = rw (a.stored, a.counted, a.others.1) (omega arith);
        explained = rw (a.stored, a.counted, a.others.1, a.others.0) (omega arith);
        few_created = rw a.counted (omega arith);
        few_claimed = rw a.others.0 (omega arith);
      }
]

length-put_back :
    (id : Bytes) (e found : StoreEntry) (m : GoMap StoreEntry)
    → IsDistinct m
    → lookup id m ≡ some found
    → (length (put_back id e m) ≤ length m) × (length m ≤ length (put_back id e m) + 1)
unfolding put_back
length-put_back id e found m d h =
    ground (arith, length-insert id e m, length-delete id found m d h)

put_back-IsDistinct :
    (id : Bytes) (e : StoreEntry) (m : GoMap StoreEntry)
    → IsDistinct m
    → IsDistinct (put_back id e m)
unfolding put_back
put_back-IsDistinct id e m d = ground (arith, insert-IsDistinct id e m d, delete-IsDistinct id m d)

claim-IsBalanced :
    (n : ℕ) (st : SecretStore) (id urlbase urlget urlapiget : Bytes)
    → suc n < 2 ^ 64
    → IsBalanced n st
    → IsBalanced (suc n) (claim st id urlbase urlget urlapiget).0
unfolding claim
claim-IsBalanced n st id urlbase urlget urlapiget few b =
    elim (Option-cases (lookup id st.entries)) [
      | inl missing ↦
          rw (missing, claim)
            (record {
              distinct = b.distinct;
              accounted = b.accounted;
              explained = b.explained;
              few_created = omega arith;
              few_claimed = omega arith;
            })
      | inr (e, found) ↦
          let sizes = length-put_back id (click e) e st.entries b.distinct found in
          rw (found, claim)
            (record {
              distinct = put_back-IsDistinct id (click e) st.entries b.distinct;
              accounted = omega (arith, sizes);
              explained = omega (arith, sizes);
              few_created = omega arith;
              few_claimed = omega arith;
            })
    ]

expire_once-IsBalanced :
    (n : ℕ) (st : SecretStore) (now : Time)
    → suc n < 2 ^ 64
    → IsBalanced n st
    → IsBalanced (suc n) (expire_once st now).0
unfolding expire_once
expire_once-IsBalanced n st now few b =
    let keep = λ (e : StoreEntry). not (is_past now e) in
    let fewer = length-retain-le keep st.entries in
    record {
      distinct = retain-IsDistinct keep st.entries b.distinct;
      accounted = omega (arith, fewer);
      explained = omega (arith, fewer);
      few_created = omega arith;
      few_claimed = omega arith;
    }

step-IsBalanced :
    (n : ℕ) (st : SecretStore) (op : Op)
    → IsGenerated op
    → suc n < 2 ^ 64
    → IsBalanced n st
    → IsBalanced (suc n) (step st op)
unfolding step
step-IsBalanced n st (adds e id now draws) g few b =
    rw g (add_entry-IsBalanced n st e now draws few b)
step-IsBalanced n st (claims id urlbase urlget urlapiget) g few b =
    claim-IsBalanced n st id urlbase urlget urlapiget few b
step-IsBalanced n st (expires now) g few b = expire_once-IsBalanced n st now few b

run-IsBalanced :
    (n : ℕ) (st : SecretStore) (ops : List Op)
    → All IsGenerated ops
    → n + length ops < 2 ^ 64
    → IsBalanced n st
    → IsBalanced (n + length ops) (run st ops)
unfolding run
run-IsBalanced n st [] g few b = rw add-zero b
run-IsBalanced n st (op ∷ ops) g few b =
    rw (add-suc, ← suc-add)
      (run-IsBalanced (suc n) (step st op) ops g.1 (omega arith)
        (step-IsBalanced n st op g.0 (omega arith) b))

-- From a new store, over fewer than 2 ^ 64 operations in which AddEntry generates its ids: every
-- created secret is live, has expired or was read, and no live or expired one was not created.
pub run-new-IsBalanced :
    (max_entries : ℤ) (ops : List Op)
    → All IsGenerated ops
    → length ops < 2 ^ 64
    → let st = run (new max_entries) ops in
      (length st.entries + st.expired ≤ st.created)
      × (st.created ≤ length st.entries + st.expired + st.claimed)
run-new-IsBalanced max_entries ops g few =
    let b = run-IsBalanced 0 (new max_entries) ops g (omega arith) (new-IsBalanced max_entries) in
    (b.accounted, b.explained)
