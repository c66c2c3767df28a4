-- ===== src/Store/Mutex/Others.antt =====
-- What a step keeps of the shared memory, and for the other goroutines.
use onetimelink.Store.{SecretStore}
use onetimelink.Prelude.{ℕ, ◌≡◌, none, Bool-cases, true, ◌≢◌, arith, inl, inr, ◌∙◌, ap, refl}
use onetimelink.Store.Mutex.{Shared, Pc, state_of, effect, answer, look_up}
use onetimelink.Store.Mutex.Invariant.{
  Placed, is_writing, Sound, is_writing-InFlight, InFlight, is_writing-Placed,
}
use onetimelink.Store.Mutex.Steps.{
  Move, call, refuse, lock, claim_miss, claim_read, add_no_id, add_full, add_write, call_ask,
  announce, rlock, claim_write, read, claim_count, add_count, sweep, sweep_count, unlock, runlock,
}
use mathlib.Core.Path.{subst}
use onetimelink.Store.Mutex.Finish.{refuse-Finishes}

module _ (st : SecretStore) {m : Shared} where
  -- A goroutine that another's taking of the lock finds outside.
  locked_out :
      {m' : Shared} {j : ℕ} {q : Pc}
      → m.writer ≡ none
      → m'.readers ≡ m.readers
      → Placed st m j q
      → Placed st m' j q
  locked_out {m'} {j} {q} free same g = elim (Bool-cases (is_writing q)) [
    | inl writing ↦ absurd (ground (arith, g.owner writing))
    | inr quiet ↦ record {
      owner = λ w. absurd (ground arith);
      reader = λ r. rw same (g.reader r);
      flight = is_writing-InFlight (state_of st m'.log) m'.store q quiet;
    }
  ]

module _ (st : SecretStore) {i : ℕ} {m : Shared} where
  -- While somebody writes, nothing is settled and nobody reads.
  writing-Sound :
      {m' : Shared} {p : Pc}
      → Placed st m i p
      → is_writing p ≡ true
      → Sound st m
      → m'.writer ≡ m.writer
      → m'.log ≡ m.log
      → m'.readers ≡ m.readers
      → Sound st m'
  writing-Sound h writing s same_writer same_log same_readers = record {
    settled = λ free. absurd (ground (arith, h.owner writing));
    apart = λ j r. same_writer ∙ s.apart j (rw same_readers at r);
    answered = rw same_log s.answered;
  }

  pub Move-Sound :
      {m' : Shared} {p p' : Pc} → Move i m p m' p' → Sound st m → Placed st m i p → Sound st m'
  unfolding state_of effect answer
  Move-Sound (call op) s h = s
  Move-Sound (refuse e) s h =
      let f = refuse-Finishes (state_of st m.log) _ _ e in
      record {
        settled = λ free. s.settled free ∙ f.0;
        apart = s.apart;
        answered = (f.1, s.answered);
      }
  Move-Sound (announce fine free alone) s h = record {
    settled = s.settled;
    apart = s.apart;
    answered = s.answered;
  }
  Move-Sound (lock fine mine free none_reads) s h = record {
    settled = λ e. absurd (ground arith);
    apart = λ j r. absurd (ground (arith, none_reads j));
    answered = s.answered;
  }
  Move-Sound (claim_miss missing) s h = s
  Move-Sound (claim_read there) s h = s
  Move-Sound claim_write s h = writing-Sound h refl s refl refl refl
  Move-Sound claim_count s h = writing-Sound h refl s refl refl refl
  Move-Sound (add_no_id failed) s h = s
  Move-Sound (add_full chosen full) s h = s
  Move-Sound (add_write chosen room) s h = writing-Sound h refl s refl refl refl
  Move-Sound add_count s h = writing-Sound h refl s refl refl refl
  Move-Sound sweep s h = writing-Sound h refl s refl refl refl
  Move-Sound sweep_count s h = writing-Sound h refl s refl refl refl
  Move-Sound unlock s h = record {
    settled = λ free. h.flight.0;
    apart = λ j r. refl;
    answered = (h.flight.1, s.answered);
  }
  Move-Sound (call_ask q) s h = s
  Move-Sound (rlock free alone) s h = record {
    settled = s.settled;
    apart = λ j r. free;
    answered = s.answered;
  }
  Move-Sound (read {q = q}) s h = record {
    settled = s.settled;
    apart = s.apart;
    answered = (ap (λ b. look_up b q) (s.settled (s.apart i (h.reader refl))), s.answered);
  }
  Move-Sound runlock s h = record {
    settled = s.settled;
    apart = λ j r. ground (arith, s.apart j);
    answered = s.answered;
  }

  pub Move-others :
      {m' : Shared} {p p' q : Pc} {j : ℕ}
      → Move i m p m' p'
      → i ≢ j
      → Sound st m
      → Placed st m i p
      → Placed st m j q
      → Placed st m' j q
  unfolding state_of effect
  Move-others (call op) ne s h g = g
  Move-others {q = q} (refuse e) ne s h g = record {
    owner = g.owner;
    reader = g.reader;
    flight =
        subst (λ b. InFlight b m.store q) (refuse-Finishes (state_of st m.log) _ _ e).0 g.flight;
  }
  Move-others (announce fine free alone) ne s h g = record {
    owner = g.owner;
    reader = g.reader;
    flight = g.flight;
  }
  Move-others (lock fine mine free none_reads) ne s h g = locked_out st free refl g
  Move-others (claim_miss missing) ne s h g = g
  Move-others (claim_read there) ne s h g = g
  Move-others claim_write ne s h g = is_writing-Placed st ne (h.owner refl) refl g
  Move-others claim_count ne s h g = is_writing-Placed st ne (h.owner refl) refl g
  Move-others (add_no_id failed) ne s h g = g
  Move-others (add_full chosen full) ne s h g = g
  Move-others (add_write chosen room) ne s h g = is_writing-Placed st ne (h.owner refl) refl g
  Move-others add_count ne s h g = is_writing-Placed st ne (h.owner refl) refl g
  Move-others sweep ne s h g = is_writing-Placed st ne (h.owner refl) refl g
  Move-others sweep_count ne s h g = is_writing-Placed st ne (h.owner refl) refl g
  Move-others unlock ne s h g = is_writing-Placed st ne (h.owner refl) refl g
  Move-others (call_ask q) ne s h g = g
  Move-others (rlock free alone) ne s h g = record {
    owner = g.owner;
    reader = λ r. ground (arith, g.reader r);
    flight = g.flight;
  }
  Move-others read ne s h g = record { owner = g.owner; reader = g.reader; flight = g.flight }
  Move-others runlock ne s h g = record {
    owner = g.owner;
    reader = λ r. ground (arith, g.reader r);
    flight = g.flight;
  }
