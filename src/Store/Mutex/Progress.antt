-- ===== src/Store/Mutex/Progress.antt =====
-- store/store.go: the steps that a goroutine inside a method has, and how many are left.

use onetimelink.Store.{choose_id}
use onetimelink.Prelude.{
  ℕ, ◌≡◌, ◌||◌, true, ◌<◌, ◌≤◌, arith, Bool, Option-cases, inl, inr, Bool-cases,
}
use onetimelink.Store.Mutex.{
  Pc, Shared, holding, claim_got, claim_put, add_put, swept, leaving, reading, read_leaving,
  waiting, announced, read_waiting, idle, is_full,
}
use onetimelink.Store.History.{Op, expires, claims, adds}
use onetimelink.Store.Mutex.Steps.{
  Move, call, claim_write, refuse, sweep, claim_count, lock, add_count, claim_miss, claim_read,
  sweep_count, add_no_id, unlock, add_full, read, add_write, runlock, call_ask, announce, rlock,
}
use onetimelink.Store.Mutex.Invariant.{is_writing, is_reading}
use onetimelink.Prelude.GoMap.{lookup}
use onetimelink.Prelude.Result.{Result-cases}

abbrev pub is_inside : Pc → Bool
is_inside p = is_writing p || is_reading p

-- The steps until a goroutine lets go of the mutex, at most.
abbrev pub steps_left : Pc → ℕ
steps_left (holding _) = 4
steps_left (claim_got _ _ _ _ _) = 3
steps_left (claim_put _ _ _ _ _) = 2
steps_left (add_put _ _ _ _ _) = 2
steps_left (swept _ _) = 2
steps_left (leaving _ _) = 1
steps_left (reading _) = 2
steps_left read_leaving = 1
steps_left _ = 0

-- There is a step for a goroutine.
abbrev pub CanMove : ℕ → Shared → Pc → Type 0
CanMove i m p = (m' : Shared) × (p' : Pc) × Move i m p m' p'

holding-CanMove : (i : ℕ) (m : Shared) (op : Op) → CanMove i m (holding op)
holding-CanMove i m (expires now) = (_, _, sweep)
holding-CanMove i m (claims id urlbase urlget urlapiget) =
    elim (Option-cases (lookup id m.store.entries)) [
      | inl missing ↦ (_, _, claim_miss missing)
      | inr (e, there) ↦ (_, _, claim_read there)
    ]
holding-CanMove i m (adds e id now draws) =
    elim (Result-cases (choose_id m.store.entries id draws)) [
      | inr (x, failed) ↦ (_, _, add_no_id failed)
      | inl (k, chosen) ↦ elim (Bool-cases (is_full m.store k)) [
        | inl full ↦ (_, _, add_full chosen full)
        | inr room ↦ (_, _, add_write chosen room)
      ]
    ]

pub inside-CanMove : (i : ℕ) (m : Shared) (p : Pc) → is_inside p ≡ true → CanMove i m p
inside-CanMove i m (holding op) h = holding-CanMove i m op
inside-CanMove i m (claim_got id urlbase urlget urlapiget e) h = (_, _, claim_write)
inside-CanMove i m (claim_put id urlbase urlget urlapiget e) h = (_, _, claim_count)
inside-CanMove i m (add_put e id now draws k) h = (_, _, add_count)
inside-CanMove i m (swept now n) h = (_, _, sweep_count)
inside-CanMove i m (leaving op a) h = (_, _, unlock)
inside-CanMove i m (reading id) h = (_, _, read)
inside-CanMove i m read_leaving h = (_, _, runlock)
inside-CanMove i m idle h = absurd (ground arith)
inside-CanMove i m (waiting op) h = absurd (ground arith)
inside-CanMove i m (announced op) h = absurd (ground arith)
inside-CanMove i m (read_waiting id) h = absurd (ground arith)

Move-steps_left :
    {i : ℕ} {m m' : Shared} {p p' : Pc}
    → Move i m p m' p'
    → is_inside p ≡ true
    → steps_left p' < steps_left p
Move-steps_left (call op) h = absurd (ground arith)
Move-steps_left (refuse e) h = absurd (ground arith)
Move-steps_left (announce fine free alone) h = absurd (ground arith)
Move-steps_left (lock fine mine free none_reads) h = absurd (ground arith)
Move-steps_left (claim_miss missing) h = omega arith
Move-steps_left (claim_read there) h = omega arith
Move-steps_left claim_write h = omega arith
Move-steps_left claim_count h = omega arith
Move-steps_left (add_no_id failed) h = omega arith
Move-steps_left (add_full chosen full) h = omega arith
Move-steps_left (add_write chosen room) h = omega arith
Move-steps_left add_count h = omega arith
Move-steps_left sweep h = omega arith
Move-steps_left sweep_count h = omega arith
Move-steps_left unlock h = omega arith
Move-steps_left (call_ask q) h = absurd (ground arith)
Move-steps_left (rlock free alone) h = absurd (ground arith)
Move-steps_left read h = omega arith
Move-steps_left runlock h = omega arith

steps_left-le : (p : Pc) → steps_left p ≤ 4
steps_left-le p = ground arith

-- A goroutine that is inside can take a step, and each of its steps lowers `steps_left`.
pub inside-lets_go :
    (i : ℕ) (m : Shared) (p : Pc)
    → is_inside p ≡ true
    → CanMove i m p
      × (steps_left p ≤ 4)
      × ((m' : Shared) (p' : Pc) → Move i m p m' p' → steps_left p' < steps_left p)
inside-lets_go i m p h = (inside-CanMove i m p h, steps_left-le p, λ m' p' mv. Move-steps_left mv h)
