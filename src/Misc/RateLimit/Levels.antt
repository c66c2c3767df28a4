-- ===== src/Misc/RateLimit/Levels.antt =====
-- What a client may still spend, and how one call changes it.
use onetimelink.Misc.RateLimit.{Limiter, Bucket, full, idle, refill}
use onetimelink.Prelude.{ℕ, ◌<◌, Bool-cases, none, inl, some, ◌≡◌, arith, ◌^◌, ◌⊎◌, inr, ◌-◌, refl}
use onetimelink.Prelude.Clock.{Time, sub}
use onetimelink.Prelude.GoMap.{IsDistinct, AllValues, lookup}
use onetimelink.Prelude.Int.{
  ◌≤ℤ◌, pos, ℤ, ◌-ℤ◌, ◌+ℤ◌, ltb_ℤ, int_laws, ltb_ℤ→lt, le→ltb_ℤ, ltb_ℤ→le, lt→ltb_ℤ, negsuc, ◌<ℤ◌,
}
use onetimelink.Prelude.Text.{Bytes}

-- The units that a client's bucket would hold at a time; a new client's is full.
unfoldable pub available : Limiter → Bytes → Time → ℤ
available l key now = elim (lookup key l.buckets) [ none ↦ pos (full l) | some b ↦ refill l b now ]

-- A bucket holds a level that spending can reach, and was not seen after `now`.
pub record IsLevel (capacity : ℕ) (now : Time) (b : Bucket) : Type 0 where
  pub solvent : pos 0 ≤ℤ b.level
  pub capped : b.level ≤ℤ pos capacity
  pub past : b.seen ≤ℤ now

-- A bucket that is idle for longer than `idle` has refilled.
pub record IsSound (now : Time) (l : Limiter) : Type 0 where
  pub distinct : IsDistinct l.buckets
  pub levels : AllValues (IsLevel (full l) now) l.buckets
  pub patient : pos (full l) ≤ℤ idle l
  pub positive : 0 < l.interval

sub-le : (t u : Time) → u ≤ℤ t → (pos 0 ≤ℤ sub t u) × (sub t u ≤ℤ t -ℤ u)
unfolding sub
sub-le t u h = elim (Bool-cases (ltb_ℤ (pos (2 ^ 63 - 1)) (t -ℤ u))) [
  | inl long ↦ rw long (omega (int_laws, ltb_ℤ→lt (pos (2 ^ 63 - 1)) (t -ℤ u) long))
  | inr fits ↦ rw (fits, le→ltb_ℤ (t -ℤ u) (negsuc (2 ^ 63 - 1)) (omega int_laws)) (omega int_laws)
]

-- A later reading grows by the time that has passed, at most.
sub-later : (t t' u : Time) → u ≤ℤ t → t ≤ℤ t' → sub t' u ≤ℤ sub t u +ℤ (t' -ℤ t)
unfolding sub
sub-later t t' u h k = elim (Bool-cases (ltb_ℤ (pos (2 ^ 63 - 1)) (t -ℤ u))) [
  | inl long ↦
      rw
        (
          long,
          lt→ltb_ℤ (pos (2 ^ 63 - 1)) (t' -ℤ u)
              (omega (int_laws, ltb_ℤ→lt (pos (2 ^ 63 - 1)) (t -ℤ u) long)),
        )
        (omega int_laws)
  | inr fits ↦
      rw (fits, le→ltb_ℤ (t -ℤ u) (negsuc (2 ^ 63 - 1)) (omega int_laws))
        (elim (Bool-cases (ltb_ℤ (pos (2 ^ 63 - 1)) (t' -ℤ u))) [
          | inl long ↦ rw long (omega (int_laws, ltb_ℤ→lt (pos (2 ^ 63 - 1)) (t' -ℤ u) long))
          | inr fits' ↦
              rw (fits', le→ltb_ℤ (t' -ℤ u) (negsuc (2 ^ 63 - 1)) (omega int_laws)) (omega int_laws)
        ])
]

-- A refill is the smaller of a burst and what has flown in.
pub refill-min :
    (l : Limiter) (b : Bucket) (t : Time)
    → (refill l b t ≤ℤ pos (full l))
      × (refill l b t ≤ℤ b.level +ℤ sub t b.seen)
      × ((refill l b t ≡ pos (full l)) ⊎ (refill l b t ≡ b.level +ℤ sub t b.seen))
unfolding refill
refill-min l b t = elim (Bool-cases (ltb_ℤ (pos (full l)) (b.level +ℤ sub t b.seen))) [
  | inl over ↦
      rw over (
        omega arith,
        omega (arith, ltb_ℤ→lt (pos (full l)) (b.level +ℤ sub t b.seen) over),
        inl refl,
      )
  | inr under ↦ rw under (
    omega (arith, ltb_ℤ→le (pos (full l)) (b.level +ℤ sub t b.seen) under),
    omega arith,
    inr refl,
  )
]

pub refill-nonneg :
    (l : Limiter) (b : Bucket) (t : Time) → IsLevel (full l) t b → pos 0 ≤ℤ refill l b t
refill-nonneg l b t v = elim ((refill-min l b t).2) [
  | inl e ↦ rw e (omega arith)
  | inr e ↦ rw e (omega (int_laws, sub-le t b.seen v.past, v.solvent))
]

-- Waiting gives at most a unit for each nanosecond.
pub refill-later :
    (l : Limiter) (b : Bucket) (t t' : Time)
    → b.seen ≤ℤ t
    → t ≤ℤ t'
    → refill l b t' ≤ℤ refill l b t +ℤ (t' -ℤ t)
refill-later l b t t' h k = elim ((refill-min l b t).2) [
  | inl e ↦ rw e (omega (int_laws, refill-min l b t'))
  | inr e ↦ rw e (omega (int_laws, refill-min l b t', sub-later t t' b.seen h k))
]

module _ (l : Limiter) (key : Bytes) (now : Time) where
  pub available-none : lookup key l.buckets ≡ none → available l key now ≡ pos (full l)
  unfolding available
  available-none h = rw (h, available)

  pub available-some :
      (b : Bucket) → lookup key l.buckets ≡ some b → available l key now ≡ refill l b now
  unfolding available
  available-some b h = rw (h, available)

pub sub_pos : (t u : Time) → u <ℤ t → pos 0 <ℤ sub t u
unfolding sub
sub_pos t u h = elim (Bool-cases (ltb_ℤ (pos (2 ^ 63 - 1)) (t -ℤ u))) [
  | inl long ↦ rw long (omega arith)
  | inr fits ↦ rw (fits, le→ltb_ℤ (t -ℤ u) (negsuc (2 ^ 63 - 1)) (omega int_laws)) (omega int_laws)
]
