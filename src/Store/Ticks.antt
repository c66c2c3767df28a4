-- ===== src/Store/Ticks.antt =====
-- How stale a secret can be: Claim does not look at the validity, so an entry is handed out until
-- expireOnce has dropped it.
use onetimelink.Prelude.{
  ap, ℕ, List, Option, ◌≡◌, ◌≤◌, ◌*◌, ◌+◌, [], ◌∷◌, some, true, false, arith, Bool-cases,
  Option-cases, inl, inr, not,
}
use onetimelink.Prelude.Clock.{Time}
use onetimelink.Prelude.GoMap.{
  AllValues, AllValues-lookup, lookup, insert-AllValues, delete-AllValues, retain_kept-AllValues,
}
use onetimelink.Prelude.Int.{ℤ, pos, ◌+ℤ◌, ◌≤ℤ◌, ltb_ℤ, ltb_ℤ→le, int_laws, leb_ℤ, pos_part}
use onetimelink.Prelude.Result.{Result-cases}
use onetimelink.Prelude.Text.{Bytes}
use onetimelink.Store.{SecretStore, StoreEntry, new, normalise, add_entry}
use onetimelink.Store.Accept.{add_entry_refused, add_entry-Accepted}
use onetimelink.Store.Expire.{expire_once, is_past}
use onetimelink.Store.History.{Op, adds, claims, expires, step, run}
use onetimelink.Store.Lifetime.{max_days, real_exp_factor_exact}
use onetimelink.Store.Serve.{claim, put_back, click, make_info}

-- If the validity of an entry is one of at most 106751 days, it was still valid at the time `last`.
abbrev pub IsFresh : Time → StoreEntry → Type 0
IsFresh last e =
    (days : ℕ)
    → e.valid_for ≡ pos days
    → days ≤ max_days
    → last ≤ℤ e.date_added +ℤ pos (86_400_000_000_000 * days)

-- The last time that expireOnce ran.
abbrev pub last_tick : Time → List Op → Time
last_tick t [] = t
last_tick t (adds e id now draws ∷ ops) = last_tick t ops
last_tick t (claims id urlbase urlget urlapiget ∷ ops) = last_tick t ops
last_tick t (expires now ∷ ops) = last_tick now ops

-- Each AddEntry has read the clock at most a day before the last expireOnce that came before it at the lock.
abbrev pub IsTimely : Time → List Op → Type 0
IsTimely t [] = Unit {0}
IsTimely t (adds e id now draws ∷ ops) = (t ≤ℤ now +ℤ pos 86_400_000_000_000) × IsTimely t ops
IsTimely t (claims id urlbase urlget urlapiget ∷ ops) = IsTimely t ops
IsTimely t (expires now ∷ ops) = IsTimely now ops

normalise-IsFresh :
    (last now : Time) (e : StoreEntry)
    → last ≤ℤ now +ℤ pos 86_400_000_000_000
    → IsFresh last (normalise e now)
unfolding normalise
normalise-IsFresh last now e before days stays few = elim (Bool-cases (leb_ℤ e.valid_for (pos 0))) [
  | inl unset ↦ let week : 7 ≡ days = ap pos_part (rw unset at stays) in omega (int_laws, week)
  | inr set ↦
      let some_days : e.valid_for ≡ pos days = rw set at stays in
      let one : 1 ≤ days = ground (arith, some_days, set) in omega (int_laws, one)
]

put_back-IsFresh :
    (last : Time) (st : SecretStore) (id : Bytes) (e : StoreEntry)
    → lookup id st.entries ≡ some e
    → AllValues (IsFresh last) st.entries
    → AllValues (IsFresh last) (put_back id (click e) st.entries)
unfolding put_back click
put_back-IsFresh last st id e found h =
    let f = AllValues-lookup (IsFresh last) id e st.entries h found in
    elim (Bool-cases (ltb_ℤ (click e).clicks e.max_clicks)) [
      | inl more ↦ rw (more, put_back) (insert-AllValues (IsFresh last) id (click e) st.entries f h)
      | inr gone ↦ rw (gone, put_back) (delete-AllValues (IsFresh last) id st.entries h)
    ]

claim-IsFresh :
    (last : Time) (st : SecretStore) (id urlbase urlget urlapiget : Bytes)
    → AllValues (IsFresh last) st.entries
    → AllValues (IsFresh last) (claim st id urlbase urlget urlapiget).0.entries
unfolding claim
claim-IsFresh last st id urlbase urlget urlapiget h = elim (Option-cases (lookup id st.entries)) [
  | inl missing ↦ rw (missing, claim) h
  | inr (e, found) ↦ rw (found, claim) (put_back-IsFresh last st id e found h)
]

add_entry-IsFresh :
    (last : Time) (st : SecretStore) (e : StoreEntry) (id : Bytes) (now : Time)
    (draws : ℕ → Option (List ℕ))
    → last ≤ℤ now +ℤ pos 86_400_000_000_000
    → AllValues (IsFresh last) st.entries
    → AllValues (IsFresh last) (add_entry st e id now draws).0.entries
add_entry-IsFresh last st e id now draws before h =
    elim (Result-cases (add_entry st e id now draws).1) [
      | inr (x, refused) ↦ rw (add_entry_refused st e id now draws x refused) h
      | inl (k, accepted) ↦ rw ((add_entry-Accepted st e id now draws k accepted).stored) (
          insert-AllValues (IsFresh last) k (normalise e now) st.entries
            (normalise-IsFresh last now e before) h)
    ]

kept-IsFresh :
    (last now : Time) (e : StoreEntry) → not (is_past now e) ≡ true → IsFresh last e → IsFresh now e
unfolding is_past
kept-IsFresh last now e kept f days stays few =
    let expires : Time = e.date_added +ℤ pos (86_400_000_000_000 * days) in
    let on_time : ltb_ℤ expires now ≡ false =
      ground (arith, rw (stays, real_exp_factor_exact days few) at kept) in
    ltb_ℤ→le expires now on_time

-- What expireOnce keeps was still valid when it ran.
expire_once-IsFresh :
    (last : Time) (st : SecretStore) (now : Time)
    → AllValues (IsFresh last) st.entries
    → AllValues (IsFresh now) (expire_once st now).0.entries
unfolding expire_once
expire_once-IsFresh last st now h =
    retain_kept-AllValues (IsFresh last) (IsFresh now) (λ e. not (is_past now e)) st.entries
      (kept-IsFresh last now) h

-- The invariant: `last` is the time of the last expireOnce.
run-IsFresh :
    (last : Time) (st : SecretStore) (ops : List Op)
    → IsTimely last ops
    → AllValues (IsFresh last) st.entries
    → AllValues (IsFresh (last_tick last ops)) (run st ops).entries
unfolding run step
run-IsFresh last st [] h f = f
run-IsFresh last st (adds e id now draws ∷ ops) (before, h) f =
    run-IsFresh last (add_entry st e id now draws).0 ops h
      (add_entry-IsFresh last st e id now draws before f)
run-IsFresh last st (claims id urlbase urlget urlapiget ∷ ops) h f =
    run-IsFresh last (claim st id urlbase urlget urlapiget).0 ops h
      (claim-IsFresh last st id urlbase urlget urlapiget f)
run-IsFresh last st (expires now ∷ ops) h f =
    run-IsFresh now (expire_once st now).0 ops h (expire_once-IsFresh last st now f)

-- Over a history from a new store, at the time `t`, in which each AddEntry has read the clock at most a day
-- before the last expireOnce that came before it: a secret with a validity of at most 106751 days that
-- Claim hands out at the time `now`, at most `gap` after the last expireOnce, has been past its validity
-- for `gap` at most.
pub claim-run_fresh :
    (max_entries : ℤ) (t now : Time) (gap : ℕ) (ops : List Op) (id urlbase urlget urlapiget : Bytes)
    (days : ℕ)
    → IsTimely t ops
    → now ≤ℤ last_tick t ops +ℤ pos gap
    → (claim (run (new max_entries) ops) id urlbase urlget urlapiget).1.1 ≡ true
    → (claim (run (new max_entries) ops) id urlbase urlget urlapiget).1.0.valid_for ≡ pos days
    → days ≤ max_days
    → now
      ≤ℤ (claim (run (new max_entries) ops) id urlbase urlget urlapiget).1.0.date_added
        +ℤ pos (86_400_000_000_000 * days + gap)
unfolding new claim click make_info
claim-run_fresh max_entries t now gap ops id urlbase urlget urlapiget days timely soon handed stays
      few =
    let st = run (new max_entries) ops in
    elim (Option-cases (lookup id st.entries)) [
      | inl missing ↦ absurd (ground (arith, missing, handed))
      | inr (e, there) ↦
          let same : e.valid_for ≡ pos days = rw (there, claim) at stays in
          let f =
            AllValues-lookup (IsFresh (last_tick t ops)) id e st.entries
              (run-IsFresh t (new max_entries) ops timely tt) there days same few in
          rw (there, claim) (omega (int_laws, f))
    ]
