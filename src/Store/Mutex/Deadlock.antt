-- ===== src/Store/Mutex/Deadlock.antt =====
-- The goroutines cannot wait for one another for ever.
use onetimelink.Store.{SecretStore}
use onetimelink.Prelude.{
  ℕ, ◌≡◌, ◌≢◌, true, false, arith, some, none, Bool-cases, inr, ◌==◌, Option-cases, inl, sym,
  ==_iff, refl, Bool,
}
use onetimelink.Store.Mutex.{
  Shared, Pc, idle, waiting, announced, early, read_waiting, holding, claim_got, claim_put, add_put,
  swept, leaving, reading, read_leaving,
}
use onetimelink.Store.Mutex.Steps.{
  System, Reach, Step, Move, later, pick, call, refuse, start, lock, claim_miss, claim_read,
  add_no_id, rlock, add_full, add_write, call_ask, announce, claim_write, claim_count, add_count,
  sweep, sweep_count, unlock, read, runlock,
}
use onetimelink.Store.Mutex.Invariant.{is_writing, is_reading}
use onetimelink.Store.Mutex.Progress.{CanMove, is_inside, inside-CanMove}
use mathlib.Core.Path.{subst}

abbrev pub is_announced : Pc → Bool
is_announced (announced op) = true
is_announced _ = false

-- Who holds the mutex is inside, and who has announced itself waits for the readers.
pub record Held (m : Shared) (k : ℕ) (q : Pc) : Type 0 where
  pub writer_inside : m.writer ≡ some k → is_writing q ≡ true
  pub reader_inside : m.readers k ≡ true → is_reading q ≡ true
  pub pending_announced : m.pending ≡ some k → is_announced q ≡ true
  pub announced_pending : is_announced q ≡ true → m.pending ≡ some k

pub Move-Held : {i : ℕ} {m m' : Shared} {p p' : Pc} → Move i m p m' p' → Held m i p → Held m' i p'
Move-Held (call op) h =
    ground (arith, h.writer_inside, h.reader_inside, h.pending_announced, h.announced_pending)
Move-Held (refuse e) h =
    ground (arith, h.writer_inside, h.reader_inside, h.pending_announced, h.announced_pending)
Move-Held (announce fine free alone) h =
    ground (arith, h.writer_inside, h.reader_inside, h.pending_announced, h.announced_pending)
Move-Held (lock fine mine free none_reads) h =
    ground (arith, h.writer_inside, h.reader_inside, h.pending_announced, h.announced_pending)
Move-Held (claim_miss missing) h =
    ground (arith, h.writer_inside, h.reader_inside, h.pending_announced, h.announced_pending)
Move-Held (claim_read there) h =
    ground (arith, h.writer_inside, h.reader_inside, h.pending_announced, h.announced_pending)
Move-Held claim_write h =
    ground (arith, h.writer_inside, h.reader_inside, h.pending_announced, h.announced_pending)
Move-Held claim_count h =
    ground (arith, h.writer_inside, h.reader_inside, h.pending_announced, h.announced_pending)
Move-Held (add_no_id failed) h =
    ground (arith, h.writer_inside, h.reader_inside, h.pending_announced, h.announced_pending)
Move-Held (add_full chosen full) h =
    ground (arith, h.writer_inside, h.reader_inside, h.pending_announced, h.announced_pending)
Move-Held (add_write chosen room) h =
    ground (arith, h.writer_inside, h.reader_inside, h.pending_announced, h.announced_pending)
Move-Held add_count h =
    ground (arith, h.writer_inside, h.reader_inside, h.pending_announced, h.announced_pending)
Move-Held sweep h =
    ground (arith, h.writer_inside, h.reader_inside, h.pending_announced, h.announced_pending)
Move-Held sweep_count h =
    ground (arith, h.writer_inside, h.reader_inside, h.pending_announced, h.announced_pending)
Move-Held unlock h =
    ground (arith, h.writer_inside, h.reader_inside, h.pending_announced, h.announced_pending)
Move-Held (call_ask q) h =
    ground (arith, h.writer_inside, h.reader_inside, h.pending_announced, h.announced_pending)
Move-Held (rlock free alone) h =
    ground (arith, h.writer_inside, h.reader_inside, h.pending_announced, h.announced_pending)
Move-Held read h =
    ground (arith, h.writer_inside, h.reader_inside, h.pending_announced, h.announced_pending)
Move-Held runlock h =
    ground (arith, h.writer_inside, h.reader_inside, h.pending_announced, h.announced_pending)

-- What one goroutine does keeps the others inside.
Move-Held_others :
    {i k : ℕ} {m m' : Shared} {p p' q : Pc} → Move i m p m' p' → i ≢ k → Held m k q → Held m' k q
Move-Held_others (call op) ne h =
    ground (arith, h.writer_inside, h.reader_inside, h.pending_announced, h.announced_pending)
Move-Held_others (refuse e) ne h =
    ground (arith, h.writer_inside, h.reader_inside, h.pending_announced, h.announced_pending)
Move-Held_others (announce fine free alone) ne h =
    ground (arith, h.writer_inside, h.reader_inside, h.pending_announced, h.announced_pending)
Move-Held_others (lock fine mine free none_reads) ne h =
    ground (arith, h.writer_inside, h.reader_inside, h.pending_announced, h.announced_pending)
Move-Held_others (claim_miss missing) ne h =
    ground (arith, h.writer_inside, h.reader_inside, h.pending_announced, h.announced_pending)
Move-Held_others (claim_read there) ne h =
    ground (arith, h.writer_inside, h.reader_inside, h.pending_announced, h.announced_pending)
Move-Held_others claim_write ne h =
    ground (arith, h.writer_inside, h.reader_inside, h.pending_announced, h.announced_pending)
Move-Held_others claim_count ne h =
    ground (arith, h.writer_inside, h.reader_inside, h.pending_announced, h.announced_pending)
Move-Held_others (add_no_id failed) ne h =
    ground (arith, h.writer_inside, h.reader_inside, h.pending_announced, h.announced_pending)
Move-Held_others (add_full chosen full) ne h =
    ground (arith, h.writer_inside, h.reader_inside, h.pending_announced, h.announced_pending)
Move-Held_others (add_write chosen room) ne h =
    ground (arith, h.writer_inside, h.reader_inside, h.pending_announced, h.announced_pending)
Move-Held_others add_count ne h =
    ground (arith, h.writer_inside, h.reader_inside, h.pending_announced, h.announced_pending)
Move-Held_others sweep ne h =
    ground (arith, h.writer_inside, h.reader_inside, h.pending_announced, h.announced_pending)
Move-Held_others sweep_count ne h =
    ground (arith, h.writer_inside, h.reader_inside, h.pending_announced, h.announced_pending)
Move-Held_others unlock ne h =
    ground (arith, h.writer_inside, h.reader_inside, h.pending_announced, h.announced_pending)
Move-Held_others (call_ask q) ne h =
    ground (arith, h.writer_inside, h.reader_inside, h.pending_announced, h.announced_pending)
Move-Held_others (rlock free alone) ne h =
    ground (arith, h.writer_inside, h.reader_inside, h.pending_announced, h.announced_pending)
Move-Held_others read ne h =
    ground (arith, h.writer_inside, h.reader_inside, h.pending_announced, h.announced_pending)
Move-Held_others runlock ne h =
    ground (arith, h.writer_inside, h.reader_inside, h.pending_announced, h.announced_pending)

Step-Held :
    {s t : System} → Step s t → ((k : ℕ) → Held s.mem k (s.pc k)) → (k : ℕ) → Held t.mem k (t.pc k)
Step-Held {s} (pick i {m = m} {p = p} mv) h k = elim (Bool-cases (k == i)) [
  | inl same ↦ rw same (subst (λ j. Held m j p) (sym ((==_iff k i).0 same)) (Move-Held mv (h i)))
  | inr other ↦
      let ne : i ≢ k = λ e. absurd (ground (arith, e)) in rw other (Move-Held_others mv ne (h k))
]

pub Reach-Held : {st : SecretStore} {s : System} → Reach st s → (k : ℕ) → Held s.mem k (s.pc k)
Reach-Held start k = record {
  writer_inside = λ w. absurd (ground arith);
  reader_inside = λ r. absurd (ground arith);
  pending_announced = λ p. absurd (ground arith);
  announced_pending = λ a. absurd (ground arith);
}
Reach-Held (later r mv) k = Step-Held mv (Reach-Held r) k

-- Behind the announcement the early checks have passed.
abbrev HasPassed : Pc → Type 0
HasPassed (announced op) = early op ≡ none
HasPassed _ = Unit {0}

Move-HasPassed : {i : ℕ} {m m' : Shared} {p p' : Pc} → Move i m p m' p' → HasPassed p'
Move-HasPassed (announce fine free alone) = fine
Move-HasPassed (call op) = tt
Move-HasPassed (refuse e) = tt
Move-HasPassed (lock fine mine free none_reads) = tt
Move-HasPassed (claim_miss missing) = tt
Move-HasPassed (claim_read there) = tt
Move-HasPassed claim_write = tt
Move-HasPassed claim_count = tt
Move-HasPassed (add_no_id failed) = tt
Move-HasPassed (add_full chosen full) = tt
Move-HasPassed (add_write chosen room) = tt
Move-HasPassed add_count = tt
Move-HasPassed sweep = tt
Move-HasPassed sweep_count = tt
Move-HasPassed unlock = tt
Move-HasPassed (call_ask q) = tt
Move-HasPassed (rlock free alone) = tt
Move-HasPassed read = tt
Move-HasPassed runlock = tt

Step-HasPassed :
    {s t : System} → Step s t → ((k : ℕ) → HasPassed (s.pc k)) → (k : ℕ) → HasPassed (t.pc k)
Step-HasPassed {s} (pick i mv) h k = elim (Bool-cases (k == i)) [
  | inl same ↦ rw same (Move-HasPassed mv)
  | inr other ↦ rw other (h k)
]

Reach-HasPassed : {st : SecretStore} {s : System} → Reach st s → (k : ℕ) → HasPassed (s.pc k)
Reach-HasPassed start k = tt
Reach-HasPassed (later r mv) k = Step-HasPassed mv (Reach-HasPassed r) k

-- Nobody holds the mutex.
record IsFree (m : Shared) : Type 0 where
  writer : m.writer ≡ none
  readers : (j : ℕ) → m.readers j ≡ false

-- Then who has announced itself can go on.
announced-CanMove :
    (k : ℕ) (m : Shared) (p : Pc)
    → IsFree m
    → m.pending ≡ some k
    → is_announced p ≡ true
    → HasPassed p
    → CanMove k m p
announced-CanMove k m (announced op) free mine a fine =
    (_, _, lock fine mine free.writer free.readers)
announced-CanMove k m idle free mine a fine = absurd (ground arith)
announced-CanMove k m (waiting op) free mine a fine = absurd (ground arith)
announced-CanMove k m (read_waiting q) free mine a fine = absurd (ground arith)
announced-CanMove k m (holding op) free mine a fine = absurd (ground arith)
announced-CanMove k m (claim_got id urlbase urlget urlapiget e) free mine a fine =
    absurd (ground arith)
announced-CanMove k m (claim_put id urlbase urlget urlapiget e) free mine a fine =
    absurd (ground arith)
announced-CanMove k m (add_put e id now draws j) free mine a fine = absurd (ground arith)
announced-CanMove k m (swept now n) free mine a fine = absurd (ground arith)
announced-CanMove k m (leaving op x) free mine a fine = absurd (ground arith)
announced-CanMove k m (reading q) free mine a fine = absurd (ground arith)
announced-CanMove k m read_leaving free mine a fine = absurd (ground arith)

-- And where nobody has, whoever has called a method can.
outside-CanMove :
    (i : ℕ) (m : Shared) (p : Pc)
    → p ≢ idle
    → is_inside p ≡ false
    → is_announced p ≡ false
    → IsFree m
    → m.pending ≡ none
    → CanMove i m p
outside-CanMove i m idle busy out quiet free alone = absurd (busy refl)
outside-CanMove i m (waiting op) busy out quiet free alone = elim (Option-cases (early op)) [
  | inl fine ↦ (_, _, announce fine free.writer alone)
  | inr (x, bad) ↦ (_, _, refuse bad)
]
outside-CanMove i m (read_waiting q) busy out quiet free alone = (_, _, rlock free.writer alone)
outside-CanMove i m (announced op) busy out quiet free alone = absurd (ground arith)
outside-CanMove i m (holding op) busy out quiet free alone = absurd (ground arith)
outside-CanMove i m (claim_got id urlbase urlget urlapiget e) busy out quiet free alone =
    absurd (ground arith)
outside-CanMove i m (claim_put id urlbase urlget urlapiget e) busy out quiet free alone =
    absurd (ground arith)
outside-CanMove i m (add_put e id now draws k) busy out quiet free alone = absurd (ground arith)
outside-CanMove i m (swept now n) busy out quiet free alone = absurd (ground arith)
outside-CanMove i m (leaving op a) busy out quiet free alone = absurd (ground arith)
outside-CanMove i m (reading q) busy out quiet free alone = absurd (ground arith)
outside-CanMove i m read_leaving busy out quiet free alone = absurd (ground arith)

-- There is no deadlock: whatever calls of AddEntry, Claim, expireOnce, GetEntry, Len and Stats the
-- goroutines make and however their steps interleave, as long as one of them is inside a method, it is not so
-- that each that is inside a method has no step to take. A writer that waits for the readers keeps new
-- readers out.
pub Reach-unblocked :
    (st : SecretStore) (s : System) (i : ℕ)
    → Reach st s
    → s.pc i ≢ idle
    → ¬ ((j : ℕ) → s.pc j ≢ idle → ¬ CanMove j s.mem (s.pc j))
Reach-unblocked st s i r busy blocked = elim (Option-cases s.mem.pending) [
  | inr (k, mine) ↦
      let a = (Reach-Held r k).pending_announced mine in
      blocked k (λ e. absurd (ground (arith, e, a)))
        (announced-CanMove k s.mem (s.pc k) free mine a (Reach-HasPassed r k))
  | inl alone ↦
      blocked i busy
        (outside-CanMove i s.mem (s.pc i) busy (nobody i) (unannounced alone) free alone)
]
  where
    nobody : (j : ℕ) → is_inside (s.pc j) ≡ false
    nobody j = elim (Bool-cases (is_inside (s.pc j))) [
      | inr out ↦ out
      | inl within ↦ absurd (
          blocked j (λ e. absurd (ground (arith, e, within)))
            (inside-CanMove j s.mem (s.pc j) within))
    ]

    free : IsFree s.mem
    free = record {
      writer = elim (Option-cases s.mem.writer) [
        | inl unheld ↦ unheld
        | inr (k, holder) ↦ absurd (ground (arith, nobody k, (Reach-Held r k).writer_inside holder))
      ];
      readers = λ j. elim (Bool-cases (s.mem.readers j)) [
        | inr away ↦ away
        | inl reads ↦ absurd (ground (arith, nobody j, (Reach-Held r j).reader_inside reads))
      ];
    }

    unannounced : s.mem.pending ≡ none → is_announced (s.pc i) ≡ false
    unannounced alone = elim (Bool-cases (is_announced (s.pc i))) [
      | inr quiet ↦ quiet
      | inl a ↦ absurd (ground (arith, alone, (Reach-Held r i).announced_pending a))
    ]
