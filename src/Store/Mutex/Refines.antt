-- ===== src/Store/Mutex/Refines.antt =====
-- Every interleaving of the goroutines' steps does and answers what the calls do at once, in the order of
-- the log.
use onetimelink.Store.{SecretStore}
use onetimelink.Store.Mutex.{state_of, IsAnswered}
use onetimelink.Store.Mutex.Steps.{System, init, Reach, Step, later, pick, start}
use onetimelink.Prelude.{
  arith, ℕ, ◌≡◌, Bool-cases, none, refl, ◌==◌, inl, true, inr, false, ==_iff, sym, ◌≢◌,
}
use onetimelink.Store.Mutex.Invariant.{Sound, Placed, is_writing, is_reading}
use onetimelink.Store.Mutex.Others.{Move-Sound, Move-others}
use mathlib.Core.Path.{subst}
use onetimelink.Store.Mutex.Keeps.{Move-Placed}

pub record Inv (st : SecretStore) (s : System) : Type 0 where
  pub sound : Sound st s.mem
  pub placed : (i : ℕ) → Placed st s.mem i (s.pc i)

init-Inv : (st : SecretStore) → Inv st (init st)
unfolding state_of
init-Inv st = record {
  sound = record { settled = λ free. refl; apart = λ j r. refl; answered = tt };
  placed = λ i. record {
    owner = λ w. absurd (ground arith);
    reader = λ r. absurd (ground arith);
    flight = tt;
  };
}

pub Step-Inv : (st : SecretStore) {s t : System} → Step s t → Inv st s → Inv st t
Step-Inv st {s} (pick i {m = m} {p = p} mv) v = record {
  sound = Move-Sound st mv v.sound (v.placed i);
  placed = λ j. elim (Bool-cases (j == i)) [
    | inl same ↦
        let eq = (==_iff j i).0 same in
        let here = Move-Placed st mv v.sound (v.placed i) in
        rw same (subst (λ k. Placed st m k p) (sym eq) here)
    | inr other ↦
        let ne : i ≢ j = λ e. absurd (ground (arith, e)) in
        rw other (Move-others st mv ne v.sound (v.placed i) (v.placed j))
  ];
}

pub Reach-Inv : {st : SecretStore} {s : System} → Reach st s → Inv st s
Reach-Inv {st} start = init-Inv st
Reach-Inv {st} (later r mv) = Step-Inv st mv (Reach-Inv r)

-- Whatever the goroutines call and however their steps interleave, each call was answered as if the
-- calls happened at once, one after the other, in the order of the log, where each has put itself; and when
-- nobody holds it for writing, the store is the one that they lead to. Two goroutines never write at
-- once, and nobody reads while one writes.
pub Reach-linearizable :
    (st : SecretStore) (s : System)
    → Reach st s
    → IsAnswered st s.mem.log
      × (s.mem.writer ≡ none → s.mem.store ≡ state_of st s.mem.log)
      × ((i j : ℕ)
          → is_writing (s.pc i) ≡ true
          → (is_writing (s.pc j) ≡ true → i ≡ j) × (is_reading (s.pc j) ≡ false))
Reach-linearizable st s r =
    let v = Reach-Inv r in
    (
      v.sound.answered,
      v.sound.settled,
      λ i j writing. (
        (λ w. ground (arith, (v.placed i).owner writing, (v.placed j).owner w)),
        elim (Bool-cases (is_reading (s.pc j))) [
          | inl reads ↦ absurd (
              ground
                (arith, v.sound.apart j ((v.placed j).reader reads), (v.placed i).owner writing))
          | inr quiet ↦ quiet
        ],
      ),
    )
