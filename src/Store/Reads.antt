-- ===== src/Store/Reads.antt =====
-- A one-time link is served as often as it was allowed to be, and no more, in any interleaving.
use onetimelink.Store.Lookup.{served, lookup-claim}
use onetimelink.Store.Serve.{claim, click}
use onetimelink.Store.{SecretStore, StoreEntry, add_entry, normalise}
use onetimelink.Prelude.Text.{Bytes, str_eq, eq_of_str_eq, str_eq_refl}
use onetimelink.Store.Valid.{IsLive, click_parts, IsValid, IsOp, step-IsValid}
use onetimelink.Prelude.{
  ◌≡◌, some, ◌+◌, Bool-cases, arith, inl, inr, Option, List, if◌then◌else◌, All, ℕ, ◌≤◌, not, ◌∷◌,
  [], none, refl, suc, zero,
}
use onetimelink.Store.History.{
  left_of, handed_out, step, claims, remaining, granted, total, Op, allowed, adds, expires,
}
use onetimelink.Prelude.GoMap.{
  is_some, lookup, AllValues-lookup, kept, lookup-retain, lookup-insert,
}
use onetimelink.Prelude.Int.{ltb_ℤ, ltb_ℤ→lt, ltb_ℤ→le, neg_part_of_nonneg}
use onetimelink.Store.Expire.{expire_once, is_past}
use onetimelink.Prelude.Clock.{Time}
use onetimelink.Prelude.Result.{Result-cases}
use onetimelink.Store.Accept.{add_entry_refused, add_entry-Accepted}
use Prim.Native.Nat.{min}

-- A claim answers exactly when there is an entry.
pub claim-found :
    (st : SecretStore) (id urlbase urlget urlapiget : Bytes)
    → (claim st id urlbase urlget urlapiget).1.1 ≡ is_some (lookup id st.entries)
unfolding claim
claim-found st id urlbase urlget urlapiget = ground arith

-- A click takes one from the reads that are left.
pub left_of-served : (e : StoreEntry) → IsLive e → left_of (served (some e)) + 1 ≡ left_of (some e)
unfolding served click
left_of-served e v = elim (Bool-cases (ltb_ℤ (click e).clicks e.max_clicks)) [
  | inl more ↦
      rw (more, served)
        (omega (
          arith,
          click_parts e v,
          ltb_ℤ→lt (click e).clicks e.max_clicks more,
          neg_part_of_nonneg e.max_clicks,
          neg_part_of_nonneg e.clicks,
        ))
  | inr last ↦
      rw (last, served)
        (omega (
          arith,
          click_parts e v,
          ltb_ℤ→le (click e).clicks e.max_clicks last,
          neg_part_of_nonneg e.max_clicks,
          neg_part_of_nonneg e.clicks,
        ))
]

pub served_balance :
    (o : Option StoreEntry)
    → ((e : StoreEntry) → o ≡ some e → IsLive e)
    → (if is_some o then 1 else 0) + left_of (served o) ≡ left_of o
unfolding served
served_balance none live = refl
served_balance (some e) live = omega (arith, left_of-served e (live e refl))

-- What a claim hands out under an id comes off the reads that are left there.
claim_balance :
    (id : Bytes) (st : SecretStore) (k urlbase urlget urlapiget : Bytes)
    → IsValid st
    → handed_out id st (claims k urlbase urlget urlapiget)
        + remaining id (step st (claims k urlbase urlget urlapiget))
      ≡ remaining id st
unfolding handed_out step
claim_balance id st k urlbase urlget urlapiget v = elim (Bool-cases (str_eq k id)) [
  | inr other ↦ rw (lookup-claim st k urlbase urlget urlapiget id, other) (omega arith)
  | inl same ↦
      rw (lookup-claim st k urlbase urlget urlapiget id, claim-found, same, eq_of_str_eq k id same)
        (served_balance (lookup id st.entries)
          (λ e found. AllValues-lookup IsLive id e st.entries v.live found))
]

-- Expiry only takes reads away.
expire_once-remaining :
    (id : Bytes) (st : SecretStore) (now : Time)
    → IsValid st
    → remaining id (expire_once st now).0 ≤ remaining id st
unfolding expire_once
expire_once-remaining id st now v =
    rw (lookup-retain (λ e. not (is_past now e)) id st.entries v.distinct)
      (left_of-kept (lookup id st.entries))
  where
    left_of-kept : (o : Option StoreEntry) → left_of (kept (λ e. not (is_past now e)) o) ≤ left_of o
    left_of-kept none = omega arith
    left_of-kept (some e) = ground arith

-- An accepted AddEntry grants its MaxClicks under its id, and nothing under any other.
add_entry-remaining :
    (id : Bytes) (st : SecretStore) (e : StoreEntry) (k : Bytes) (now : Time)
    (draws : ℕ → Option (List ℕ))
    → remaining id (add_entry st e k now draws).0
      ≤ remaining id st + granted id st (adds e k now draws)
unfolding granted allowed
add_entry-remaining id st e k now draws = elim (Result-cases (add_entry st e k now draws).1) [
  | inr (x, refused) ↦ rw (refused, add_entry_refused st e k now draws x refused) (omega arith)
  | inl (j, accepted) ↦
      let a = add_entry-Accepted st e k now draws j accepted in
      rw (accepted, a.stored, lookup-insert j id (normalise e now) st.entries) (ground arith)
]

-- One operation: what it hands out under an id was left there or is granted by it.
pub step_balance :
    (id : Bytes) (st : SecretStore) (op : Op)
    → IsValid st
    → handed_out id st op + remaining id (step st op) ≤ remaining id st + granted id st op
unfolding step handed_out granted
step_balance id st (adds e k now draws) v = omega (arith, add_entry-remaining id st e k now draws)
step_balance id st (claims k urlbase urlget urlapiget) v =
    omega (arith, claim_balance id st k urlbase urlget urlapiget v)
step_balance id st (expires now) v = omega (arith, expire_once-remaining id st now v)

-- In every history from a well-formed store, the secrets handed out under an id are at most the
-- reads that were left there at first and those that the successful calls of AddEntry allow.
pub total-handed_out-le :
    (id : Bytes) (st : SecretStore) (ops : List Op)
    → All IsOp ops
    → IsValid st
    → total (handed_out id) st ops ≤ remaining id st + total (granted id) st ops
unfolding total
total-handed_out-le id st [] h v = omega arith
total-handed_out-le id st (op ∷ ops) h v = omega (
  arith,
  step_balance id st op v,
  total-handed_out-le id (step st op) ops h.1 (step-IsValid st op h.0 v),
)

-- `n` calls of Claim for the same id, one after the other.
abbrev pub claims_of : ℕ → Bytes → List Op
claims_of zero id = []
claims_of (suc n) id = claims id [] [] [] ∷ claims_of n id

claim-remaining_pos :
    (id : Bytes) (st : SecretStore)
    → IsValid st
    → handed_out id st (claims id [] [] []) ≡ min 1 (remaining id st)
unfolding handed_out
claim-remaining_pos id st v =
    rw (str_eq_refl id, claim-found)
      (positive (lookup id st.entries)
        (λ e found. AllValues-lookup IsLive id e st.entries v.live found))
  where
    positive :
        (o : Option StoreEntry)
        → ((e : StoreEntry) → o ≡ some e → IsLive e)
        → (if is_some o then 1 else 0) ≡ min 1 (left_of o)
    positive none live = refl
    positive (some e) live = omega (arith, left_of-served e (live e refl))

-- With nothing in between, `n` claims hand the secret out exactly as often as reads are left, up to
-- `n`: a link works until its last click, and then no more.
pub total-claims_of :
    (n : ℕ) (id : Bytes) (st : SecretStore)
    → IsValid st
    → total (handed_out id) st (claims_of n id) ≡ min n (remaining id st)
unfolding total
total-claims_of zero id st v = omega arith
total-claims_of (suc n) id st v = omega (
  arith,
  claim-remaining_pos id st v,
  claim_balance id st id [] [] [] v,
  total-claims_of n id (step st (claims id [] [] [])) (step-IsValid st (claims id [] [] []) tt v),
)
