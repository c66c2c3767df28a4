-- ===== src/Store/Mutex/Invariant.antt =====
-- The invariant of the mutex machine: one writer, no reader beside it, and the state of the writer's call.
use onetimelink.Store.{SecretStore, normalise, choose_id}
use onetimelink.Store.Mutex.{
  Pc, Shared, holding, early, reading, claim_got, read_leaving, state_of, waiting, announced,
  IsAnswered, claim_put, add_put, swept, leaving, read_waiting, idle, is_full, answer, writes,
}
use onetimelink.Prelude.{
  Bool, ◌≡◌, false, none, true, ℕ, some, ◌≢◌, Bool-cases, arith, inl, inr, ◌∙◌, not, length, ◌-◌,
}
use onetimelink.Prelude.GoMap.{lookup, insert, retain}
use onetimelink.Store.Serve.{put_back, click}
use onetimelink.Store.History.{adds, step}
use onetimelink.Prelude.Result.{ok}
use onetimelink.Store.Expire.{is_past}

-- Between mu.Lock and mu.Unlock, and between mu.RLock and mu.RUnlock.
abbrev pub is_writing : Pc → Bool
is_writing (holding _) = true
is_writing (claim_got _ _ _ _ _) = true
is_writing (claim_put _ _ _ _ _) = true
is_writing (add_put _ _ _ _ _) = true
is_writing (swept _ _) = true
is_writing (leaving _ _) = true
is_writing _ = false

abbrev pub is_reading : Pc → Bool
is_reading (reading _) = true
is_reading read_leaving = true
is_reading _ = false

-- How far a writer has changed the store from the state `b` that the log leads to.
abbrev pub InFlight : SecretStore → SecretStore → Pc → Type 0
InFlight b s (holding op) = (s ≡ b) × (early op ≡ none)
InFlight b s (claim_got id _ _ _ e) = (s ≡ b) × (lookup id b.entries ≡ some e)
InFlight b s (claim_put id _ _ _ e) =
    (s ≡ record b { entries = put_back id (click e) b.entries }) × (lookup id b.entries ≡ some e)
InFlight b s (add_put e id now draws k) =
    (s ≡ record b { entries = insert k (normalise e now) b.entries })
    × (early (adds e id now draws) ≡ none)
    × (choose_id b.entries id draws ≡ ok k)
    × (is_full b k ≡ false)
InFlight b s (swept now n) =
    (s ≡ record b { entries = retain (λ e. not (is_past now e)) b.entries })
    × (n ≡ length b.entries - length (retain (λ e. not (is_past now e)) b.entries))
InFlight b s (leaving op a) = (s ≡ step b op) × (a ≡ answer b (writes op))
InFlight b s _ = Unit

-- What holds of the shared memory, and of each goroutine.
pub record Sound (st : SecretStore) (m : Shared) : Type 0 where
  pub settled : m.writer ≡ none → m.store ≡ state_of st m.log
  pub apart : (j : ℕ) → m.readers j ≡ true → m.writer ≡ none
  pub answered : IsAnswered st m.log

pub record Placed (st : SecretStore) (m : Shared) (i : ℕ) (p : Pc) : Type 0 where
  pub owner : is_writing p ≡ true → m.writer ≡ some i
  pub reader : is_reading p ≡ true → m.readers i ≡ true
  pub flight : InFlight (state_of st m.log) m.store p

-- A goroutine that does not write is untouched by what a writer does.
pub is_writing-InFlight : (b s : SecretStore) (p : Pc) → is_writing p ≡ false → InFlight b s p
is_writing-InFlight b s idle h = tt
is_writing-InFlight b s (waiting _) h = tt
is_writing-InFlight b s (announced _) h = tt
is_writing-InFlight b s (holding _) h = absurd (ground arith)
is_writing-InFlight b s (claim_got _ _ _ _ _) h = absurd (ground arith)
is_writing-InFlight b s (claim_put _ _ _ _ _) h = absurd (ground arith)
is_writing-InFlight b s (add_put _ _ _ _ _) h = absurd (ground arith)
is_writing-InFlight b s (swept _ _) h = absurd (ground arith)
is_writing-InFlight b s (leaving _ _) h = absurd (ground arith)
is_writing-InFlight b s (read_waiting _) h = tt
is_writing-InFlight b s (reading _) h = tt
is_writing-InFlight b s read_leaving h = tt

module _ (st : SecretStore) {m m' : Shared} {i : ℕ} where
  pub is_writing-Placed :
      {j : ℕ} {q : Pc}
      → i ≢ j
      → m.writer ≡ some i
      → m'.readers j ≡ m.readers j
      → Placed st m j q
      → Placed st m' j q
  is_writing-Placed {j} {q} ne mine same h = elim (Bool-cases (is_writing q)) [
    | inl writing ↦ absurd (ne (ground (arith, h.owner writing)))
    | inr quiet ↦ record {
      owner = λ w. absurd (ground arith);
      reader = λ r. same ∙ h.reader r;
      flight = is_writing-InFlight (state_of st m'.log) m'.store q quiet;
    }
  ]
