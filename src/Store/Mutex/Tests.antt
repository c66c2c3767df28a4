-- ===== src/Store/Mutex/Tests.antt =====
-- Two goroutines that follow the same link, step by step, and the theorems on interleavings there.
use onetimelink.Prelude.{
  ◌≡◌, ℕ, arith, none, some, ◌+◌, ◌∷◌, [], ◌%◌, ◌≤◌, true, ◌^◌, false, refl, ◌≢◌,
}
use onetimelink.Prelude.GoMap.{lookup}
use onetimelink.Prelude.Text.{Bytes, str_eq}
use onetimelink.Store.{SecretStore, StoreEntry, zero_entry}
use onetimelink.Store.History.{Op, claims, remaining, total, granted}
use onetimelink.Store.Mutex.{
  Answer, IsAnswered, Shared, early, Pc, claim_got, handed, holding, idle, leaving, waiting,
  claim_put, state_of, update, writes, announced,
}
use onetimelink.Store.Mutex.Served.{ops_of, handouts, Reach-handouts-le}
use onetimelink.Store.Mutex.Steps.{
  announce, System, Reach, init, later, pick, start, call, claim_read, claim_write, lock,
  claim_count, unlock, Move,
}
use onetimelink.Store.Valid.{IsValid}
use onetimelink.Store.Serve.{put_back, click, make_info}
use onetimelink.Prelude.Int.{pos}
use onetimelink.Store.Mutex.Invariant.{is_writing, is_reading}
use onetimelink.Store.Mutex.Refines.{Reach-linearizable}
use onetimelink.Store.Mutex.Progress.{CanMove, steps_left}
use onetimelink.Store.Mutex.Release.{GoesOn, Reach-lets_go}
use onetimelink.Store.Mutex.Deadlock.{Reach-unblocked}

abbrev key : Bytes
key = b'k' ∷ []

abbrev secret_note : StoreEntry
secret_note = record zero_entry { secret = b's' ∷ []; max_clicks = pos 1; valid_for = pos 7 }

abbrev one_link : SecretStore
one_link = record {
  entries = (key, secret_note) ∷ [];
  max_entries = pos 256;
  created = 1;
  claimed = 0;
  expired = 0;
}

one_link-IsValid : IsValid one_link
unfolding lookup
one_link-IsValid = record {
  distinct = (refl, tt);
  bounded = ground arith;
  positive = ground arith;
  live = (
    record {
      nonempty = ground arith;
      short = omega arith;
      counted = ground arith;
      unspent = ground arith;
      limited = ground arith;
      dated = ground arith;
    },
    tt,
  );
}

abbrev follow : Op
follow = claims key [] [] []

abbrev after : ℕ → Shared → Pc → System → System
after i m p s = record { mem = m; pc = update s.pc i p }

-- What the goroutines leave in memory.
abbrev at_first : Shared
at_first = (init one_link).mem

abbrev locked : Shared
locked = record at_first { writer = some 0 }

abbrev burnt : Shared
burnt = record locked {
  store = record one_link { entries = put_back key (click secret_note) one_link.entries };
}

abbrev counted : Shared
counted = record burnt { store = record (burnt.store) { claimed = (0 + 1) % 2 ^ 64 } }

abbrev shown : Answer
shown = handed (make_info (click secret_note) key [] [] [], true)

abbrev unlocked : Shared
unlocked = record counted { writer = none; log = (writes follow, shown) ∷ [] }

-- Both call Claim; the first one is served while the second one waits.
abbrev both_call : System
both_call = after 1 at_first (waiting follow) (after 0 at_first (waiting follow) (init one_link))

abbrev one_holds : System
one_holds =
    after 0 locked (holding follow)
      (after 0 (record at_first { pending = some 0 }) (announced follow) both_call)

abbrev one_read : System
one_read = after 0 locked (claim_got key [] [] [] secret_note) one_holds

abbrev one_counted : System
one_counted =
    after 0 counted (leaving follow shown)
      (after 0 burnt (claim_put key [] [] [] secret_note) one_read)

abbrev one_served : System
one_served = after 0 unlocked idle one_counted

one_holds-Reach : Reach one_link one_holds
unfolding early
one_holds-Reach =
    later
      (later (later (later start (pick 0 (call follow))) (pick 1 (call follow)))
        (pick 0 (announce refl refl refl)))
      (pick 0 (lock refl refl refl (λ j. refl)))

one_served-Reach : Reach one_link one_served
unfolding lookup str_eq
one_served-Reach =
    later
      (later (later (later one_holds-Reach (pick 0 (claim_read refl))) (pick 0 claim_write))
        (pick 0 claim_count))
      (pick 0 unlock)

Reach-linearizable_example :
    IsAnswered one_link unlocked.log
    × (unlocked.writer ≡ none → unlocked.store ≡ state_of one_link unlocked.log)
    × ((i j : ℕ)
        → is_writing (one_served.pc i) ≡ true
        → (is_writing (one_served.pc j) ≡ true → i ≡ j) × (is_reading (one_served.pc j) ≡ false))
Reach-linearizable_example = Reach-linearizable one_link one_served one_served-Reach

Reach-handouts-le_example :
    handouts key unlocked.log
    ≤ remaining key one_link + total (granted key) one_link (ops_of unlocked.log)
unfolding ops_of
Reach-handouts-le_example =
    Reach-handouts-le key one_link one_served one_served-Reach one_link-IsValid (tt, tt)

Reach-lets_go_example :
    CanMove 0 locked (holding follow)
    × (steps_left (holding follow) ≤ 4)
    × ((m' : Shared) (p' : Pc)
        → Move 0 locked (holding follow) m' p'
        → GoesOn 0 (holding follow) m' p')
Reach-lets_go_example = Reach-lets_go one_link one_holds 0 one_holds-Reach refl

waits : one_holds.pc 1 ≢ idle
waits e = absurd (ground arith)

Reach-unblocked_example :
    ¬ ((j : ℕ) → one_holds.pc j ≢ idle → ¬ CanMove j one_holds.mem (one_holds.pc j))
Reach-unblocked_example = Reach-unblocked one_link one_holds 1 one_holds-Reach waits
