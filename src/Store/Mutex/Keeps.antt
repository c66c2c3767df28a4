-- ===== src/Store/Mutex/Keeps.antt =====
-- Where a step leaves the goroutine that takes it.
use onetimelink.Store.{SecretStore, normalise}
use onetimelink.Prelude.{ℕ, ◌≡◌, false, true, arith, ◌∙◌, ap, ◌+◌, ◌%◌, ◌^◌, not, length, ◌-◌, refl}
use onetimelink.Store.Mutex.{Shared, Pc, state_of}
use onetimelink.Store.Mutex.Invariant.{
  Placed, is_writing, Sound, is_reading, InFlight, is_writing-InFlight,
}
use onetimelink.Store.Mutex.Steps.{
  unlock, runlock, read, claim_count, add_count, Move, call, refuse, lock, claim_miss, claim_read,
  claim_write, add_no_id, add_full, add_write, sweep, sweep_count, call_ask, announce, rlock,
}
use onetimelink.Store.Mutex.Finish.{
  claim_miss-Finishes, claim_count-Finishes, add_no_id-Finishes, add_full-Finishes,
  add_count-Finishes, sweep_count-Finishes,
}
use onetimelink.Store.Serve.{put_back, click}
use onetimelink.Prelude.GoMap.{insert, retain}
use onetimelink.Store.Expire.{is_past}

module _ (st : SecretStore) {i : ℕ} where
  -- Where a goroutine stands that holds nothing.
  outside : (m' : Shared) {p : Pc} → is_writing p ≡ false → is_reading p ≡ false → Placed st m' i p
  outside m' {p} quiet away = record {
    owner = λ w. absurd (ground arith);
    reader = λ r. absurd (ground arith);
    flight = is_writing-InFlight (state_of st m'.log) m'.store p quiet;
  }

module _ (st : SecretStore) {i : ℕ} {m : Shared} where
  -- A writer that goes on.
  inside :
      {m' : Shared} {p p' : Pc}
      → Placed st m i p
      → is_writing p ≡ true
      → is_reading p' ≡ false
      → m'.writer ≡ m.writer
      → InFlight (state_of st m'.log) m'.store p'
      → Placed st m' i p'
  inside h writing away same flight = record {
    owner = λ w. same ∙ h.owner writing;
    reader = λ r. absurd (ground arith);
    flight = flight;
  }

  pub Move-Placed :
      {m' : Shared} {p p' : Pc}
      → Move i m p m' p'
      → Sound st m
      → Placed st m i p
      → Placed st m' i p'
  Move-Placed (call op) s h = outside st m refl refl
  Move-Placed (refuse e) s h = outside st _ refl refl
  Move-Placed (announce fine free alone) s h = outside st _ refl refl
  Move-Placed (lock fine mine free none_reads) s h = record {
    owner = λ w. refl;
    reader = λ r. absurd (ground arith);
    flight = (s.settled free, fine);
  }
  Move-Placed (claim_miss missing) s h =
      let (same, fine) = h.flight in
      let f = claim_miss-Finishes (state_of st m.log) _ _ _ _ (rw same at missing) in
      inside h refl refl refl (same ∙ f.0, f.1)
  Move-Placed (claim_read there) s h =
      let (same, fine) = h.flight in inside h refl refl refl (same, rw same at there)
  Move-Placed (claim_write {id = id} {e = e}) s h =
      let (same, there) = h.flight in
      inside h refl refl refl (
        ap {A = SecretStore} {B = SecretStore}
            (λ s. record s { entries = put_back id (click e) s.entries }) same,
        there,
      )
  Move-Placed claim_count s h =
      let (same, there) = h.flight in
      let f = claim_count-Finishes (state_of st m.log) _ _ _ _ _ there in
      inside h refl refl refl (
        ap {A = SecretStore} {B = SecretStore}
              (λ s. record s { claimed = (s.claimed + 1) % 2 ^ 64 }) same
            ∙ f.0,
        f.1,
      )
  Move-Placed (add_no_id failed) s h =
      let (same, fine) = h.flight in
      let f = add_no_id-Finishes (state_of st m.log) _ _ _ _ fine _ (rw same at failed) in
      inside h refl refl refl (same ∙ f.0, f.1)
  Move-Placed (add_full chosen full) s h =
      let (same, fine) = h.flight in
      let f =
        add_full-Finishes (state_of st m.log) _ _ _ _ fine _ (rw same at chosen)
          (rw same at full) in
      inside h refl refl refl (same ∙ f.0, f.1)
  Move-Placed (add_write {e = e} {k = k} {now = now} chosen room) s h =
      let (same, fine) = h.flight in
      inside h refl refl refl (
        ap {A = SecretStore} {B = SecretStore}
            (λ s. record s { entries = insert k (normalise e now) s.entries }) same,
        fine,
        rw same at chosen,
        rw same at room,
      )
  Move-Placed add_count s h =
      let (same, fine, chosen, room) = h.flight in
      let f = add_count-Finishes (state_of st m.log) _ _ _ _ fine _ chosen room in
      inside h refl refl refl (
        ap {A = SecretStore} {B = SecretStore}
              (λ s. record s { created = (s.created + 1) % 2 ^ 64 }) same
            ∙ f.0,
        f.1,
      )
  Move-Placed (sweep {now = now}) s h =
      let (same, fine) = h.flight in
      inside h refl refl refl (
        ap {A = SecretStore} {B = SecretStore}
            (λ s. record s { entries = retain (λ e. not (is_past now e)) s.entries }) same,
        ap {A = SecretStore}
            (λ s. length s.entries - length (retain (λ e. not (is_past now e)) s.entries)) same,
      )
  Move-Placed (sweep_count {n = n}) s h =
      let (same, counted) = h.flight in
      let f = sweep_count-Finishes (state_of st m.log) _ _ counted in
      inside h refl refl refl (
        ap {A = SecretStore} {B = SecretStore}
              (λ s. record s { expired = (s.expired + n) % 2 ^ 64 }) same
            ∙ f.0,
        f.1,
      )
  Move-Placed unlock s h = outside st _ refl refl
  Move-Placed (call_ask q) s h = outside st m refl refl
  Move-Placed (rlock free alone) s h = record {
    owner = λ w. absurd (ground arith);
    reader = λ r. ground arith;
    flight = tt;
  }
  Move-Placed read s h = record {
    owner = λ w. absurd (ground arith);
    reader = λ r. h.reader refl;
    flight = tt;
  }
  Move-Placed runlock s h = outside st _ refl refl
