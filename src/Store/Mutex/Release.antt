-- ===== src/Store/Mutex/Release.antt =====
-- Nobody keeps the mutex: whoever holds it lets go of it within four steps of its own.
use onetimelink.Store.{SecretStore}
use onetimelink.Store.Mutex.{Shared, Pc}
use onetimelink.Store.Mutex.Steps.{System, Reach, Move}
use onetimelink.Store.Mutex.Progress.{CanMove, is_inside, steps_left, inside-lets_go}
use onetimelink.Store.Mutex.Deadlock.{Held, Reach-Held, Move-Held}
use onetimelink.Prelude.{ℕ, ◌≡◌, false, true, ◌<◌, ◌≢◌, ◌≤◌, Bool-cases, some, ◌⊎◌, arith, inl, inr}

-- A step by which a goroutine goes on inside, nearer to the end, or comes out holding nothing.
abbrev pub GoesOn : ℕ → Pc → Shared → Pc → Type 0
GoesOn i p m' p' =
    ((is_inside p' ≡ true) × (steps_left p' < steps_left p))
    ⊎ ((is_inside p' ≡ false) × (m'.writer ≢ some i) × (m'.readers i ≡ false))

Held-outside :
    (i : ℕ) (m : Shared) (p : Pc)
    → Held m i p
    → is_inside p ≡ false
    → (m.writer ≢ some i) × (m.readers i ≡ false)
Held-outside i m p h out = (
  λ mine. absurd (ground (arith, h.writer_inside mine)),
  elim (Bool-cases (m.readers i)) [
    | inr away ↦ away
    | inl reads ↦ absurd (ground (arith, h.reader_inside reads))
  ],
)

-- However the goroutines' steps have interleaved, one that is inside, for reading or for writing, can take
-- a step whatever the others have done, and with each step it either stays inside and comes nearer to the
-- end, four steps being enough, or it is outside and holds the mutex neither for writing nor for reading.
pub Reach-lets_go :
    (st : SecretStore) (s : System) (i : ℕ)
    → Reach st s
    → is_inside (s.pc i) ≡ true
    → CanMove i s.mem (s.pc i)
      × (steps_left (s.pc i) ≤ 4)
      × ((m' : Shared) (p' : Pc) → Move i s.mem (s.pc i) m' p' → GoesOn i (s.pc i) m' p')
Reach-lets_go st s i r h =
    let (moves, few, nearer) = inside-lets_go i s.mem (s.pc i) h in
    (
      moves,
      few,
      λ m' p' mv. elim (Bool-cases (is_inside p')) [
        | inl within ↦ inl (within, nearer m' p' mv)
        | inr out ↦
            let (free, away) = Held-outside i m' p' (Move-Held mv (Reach-Held r i)) out in
            inr (out, free, away)
      ],
    )
