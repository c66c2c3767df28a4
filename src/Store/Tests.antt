-- ===== src/Store/Tests.antt =====
-- Runs of the store on small inputs, and each theorem at an input that meets its conditions.
use mathlib.Core.List.Perm
use onetimelink.Prelude.{
  List, ℕ, Option, ◌∷◌, ◌≡◌, [], some, ◌*◌, ◌+◌, refl, All, length, none, ◌≤◌, ap, arith, map, suc,
  replicate, zero, ◌%◌, ◌^◌,
}
use onetimelink.Prelude.Text.{Bytes, codes, str_eq}
use onetimelink.Store.{
  StoreEntry, add_entry, new_id, choose_id, zero_entry, find_id, new, store_under, normalise,
  new_entry, SecretStore, empty_secret,
}
use onetimelink.Store.Expire.{expire_once, is_past, real_exp_factor}
use onetimelink.Store.History.{
  total, Op, handed_out, run, adds, claims, step, granted, allowed, expires,
}
use onetimelink.Prelude.Result.{ok, err}
use onetimelink.Prelude.Int.{pos, wrap, ◌+ℤ◌, ◌*ℤ◌, ◌≤ℤ◌, ◌<ℤ◌}
use onetimelink.Store.Serve.{claim, click, put_back, make_info}
use onetimelink.Prelude.GoMap.{lookup, insert, delete, retain}
use onetimelink.Prelude.Clock.{mul}
use onetimelink.Base64.{digit, raw_url_encode}
use mathlib.Core.List.{Perm}
use onetimelink.Store.Accept.{Accepted, add_entry_succeeds, add_entry-Accepted, add_entry_errors}
use onetimelink.Store.Reads.{claims_of, total-claims_of}
use onetimelink.Store.Report.{stats, meta}
use onetimelink.Store.Valid.{IsValid, IsOp, run-new-IsValid}
use onetimelink.Store.Counters.{run-new-IsBalanced}
use onetimelink.Store.Lifetime.{expire_once_wrapped, expire_once_exact}
use onetimelink.Store.Metadata.{IsOldestFirst, stats-perm}
use onetimelink.Base64.Laws.{IsByte}
use onetimelink.Store.Ticks.{claim-run_fresh}

-- All that a run of the store computes with.
running : Unit {0}
unfolding add_entry choose_id find_id new_id store_under normalise claim click put_back make_info
    expire_once is_past real_exp_factor step run handed_out granted allowed total lookup insert
    delete retain str_eq wrap mul digit raw_url_encode ◌+ℤ◌ ◌*ℤ◌ new new_entry
running = tt

abbrev key : Bytes
key = b'k' ∷ []

abbrev note : StoreEntry
note = record zero_entry { secret = b's' ∷ b'3' ∷ []; max_clicks = pos 2 }

-- rand.Read gives the bytes 0 1 2, then 3 4 5, and so on.
abbrev draws : ℕ → Option (List ℕ)
draws i = some ((3 * i) ∷ (3 * i + 1) ∷ (3 * i + 2) ∷ [])

abbrev history : List Op
history =
    adds note key (pos 5) draws
    ∷ claims key [] [] []
    ∷ claims key [] [] []
    ∷ claims key [] [] []
    ∷ []

history_reads : total (handed_out key) (new (pos 0)) history ≡ 2
unfolding running
history_reads = refl

generated_ids : (new_id (draws 0) ≡ ok (codes "AAEC")) × (new_id (draws 1) ≡ ok (codes "AwQF"))
unfolding running
generated_ids = (refl, refl)

expires_after_a_day :
    (expire_once
      (run (new (pos 0)) (adds (record note { valid_for = pos 1 }) key (pos 0) draws ∷ []))
      (pos 86_400_000_000_001)).1
    ≡ 1
unfolding running
expires_after_a_day = refl

-- A store with one secret, of two reads and one day.
abbrev fill : List Op
fill = adds (record note { valid_for = pos 1 }) key (pos 5) draws ∷ []

stored : SecretStore
unfolding run step
stored = run (new (pos 0)) fill

stored-IsValid : IsValid stored
unfolding stored
stored-IsValid = run-new-IsValid (pos 0) fill (omega arith, tt)

abbrev stored_note : StoreEntry
stored_note = record note { valid_for = pos 1; date_added = pos 5 }

history-IsOp : All IsOp history
history-IsOp = (omega arith, (tt, (tt, (tt, tt))))

total-claims_of_example : total (handed_out key) stored (claims_of 3 key) ≡ 2
unfolding running stored
total-claims_of_example = total-claims_of 3 key stored stored-IsValid

run-new-IsValid_example : IsValid (run (new (pos 0)) history)
run-new-IsValid_example = run-new-IsValid (pos 0) history history-IsOp

add_entry-Accepted_example :
    Accepted (new (pos 0)) note key (pos 5) key (add_entry (new (pos 0)) note key (pos 5) draws).0
unfolding running
add_entry-Accepted_example = add_entry-Accepted (new (pos 0)) note key (pos 5) draws key refl

add_entry_errors_example :
    (add_entry (new (pos 0)) zero_entry key (pos 5) draws).1 ≡ err empty_secret
add_entry_errors_example = (add_entry_errors (new (pos 0)) zero_entry key (pos 5) draws).0.1 refl

-- The first draw encodes to an id that is taken, the second is free.
abbrev half_taken : SecretStore
half_taken = record {
  entries = (codes "AAEC", stored_note) ∷ [];
  max_entries = pos 2;
  created = 1;
  claimed = 0;
  expired = 0;
}

add_entry_succeeds_example :
    ((add_entry half_taken note [] (pos 5) draws).1 ≡ ok (codes "AwQF"))
    × ((add_entry half_taken note [] (pos 5) draws).0.entries
        ≡ insert (codes "AwQF") (normalise note (pos 5)) half_taken.entries)
    × ((add_entry half_taken note [] (pos 5) draws).0.created ≡ (half_taken.created + 1) % 2 ^ 64)
unfolding running
add_entry_succeeds_example =
    add_entry_succeeds half_taken note (pos 5) draws 1 (3 ∷ 4 ∷ 5 ∷ []) (λ e. cc) (omega arith)
      (omega arith) (omega arith) (λ e. cc) (((0 ∷ 1 ∷ 2 ∷ []), refl, refl), (refl, refl))

expire_once_exact_example :
    (pos 86_400_000_000_005 ≤ℤ pos 86_400_000_000_005
      → lookup key (expire_once stored (pos 86_400_000_000_005)).0.entries ≡ some stored_note)
    × (pos 86_400_000_000_005 <ℤ pos 86_400_000_000_005
        → lookup key (expire_once stored (pos 86_400_000_000_005)).0.entries ≡ none)
unfolding running stored
expire_once_exact_example =
    expire_once_exact stored (pos 86_400_000_000_005) key stored_note 1 stored-IsValid.distinct refl
      refl (omega arith)

-- A secret stored for 106752 days.
abbrev long_lived : SecretStore
long_lived = record half_taken {
  entries = (key, record stored_note { valid_for = pos 106752 }) ∷ [];
}

expire_once_wrapped_example : lookup key (expire_once long_lived (pos 5)).0.entries ≡ none
unfolding lookup str_eq
expire_once_wrapped_example =
    expire_once_wrapped long_lived (pos 5) key (record stored_note { valid_for = pos 106752 })
      106752 (refl, tt) refl refl (omega arith) (omega arith) (omega arith)

abbrev generated : List Op
generated = adds note [] (pos 5) draws ∷ claims (codes "AAEC") [] [] [] ∷ expires (pos 9) ∷ []

run-new-IsBalanced_example :
    let st = run (new (pos 0)) generated in
    (length st.entries + st.expired ≤ st.created)
    × (st.created ≤ length st.entries + st.expired + st.claimed)
run-new-IsBalanced_example =
    run-new-IsBalanced (pos 0) generated (refl, (tt, (tt, tt))) (omega arith)

stats-perm_example :
    Perm (stats half_taken half_taken.entries).entries (map (λ e. meta e.1) half_taken.entries)
    × IsOldestFirst (stats half_taken half_taken.entries).entries
stats-perm_example = stats-perm half_taken half_taken.entries Perm.rfl

abbrev masked : Bytes → Bytes
masked [] = []
masked (x ∷ s) = b'*' ∷ masked s

length-masked : (s : Bytes) → length (masked s) ≡ length s
length-masked [] = refl
length-masked (x ∷ s) = ap suc (length-masked s)

bytes_of_one : (n b : ℕ) → IsByte b → All IsByte (replicate n b)
bytes_of_one zero b h = tt
bytes_of_one (suc n) b h = (h, bytes_of_one n b h)

-- A tick just before the entry is past its validity, and a claim just after.
abbrev ticked : List Op
ticked =
    adds (record note { valid_for = pos 1 }) key (pos 5) draws
    ∷ expires (pos 86_400_000_000_000)
    ∷ []

claim-run_fresh_example :
    pos 86_400_000_000_100
    ≤ℤ (claim (run (new (pos 0)) ticked) key [] [] []).1.0.date_added
      +ℤ pos (86_400_000_000_000 * 1 + 100)
unfolding running
claim-run_fresh_example =
    claim-run_fresh (pos 0) (pos 0) (pos 86_400_000_000_100) 100 ticked key [] [] [] 1
      (omega arith, tt) (omega arith) refl refl (omega arith)
