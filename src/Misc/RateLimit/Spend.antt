-- ===== src/Misc/RateLimit/Spend.antt =====
-- The end of Allow: what a request that passes costs its client, and that it costs no other.
use onetimelink.Misc.RateLimit.{Limiter, refill, spend, full, idle}
use onetimelink.Prelude.Clock.{sub, Time}
use onetimelink.Prelude.{Bool, ℕ, if◌then◌else◌, ◌≡◌, arith, Bool-cases, inl, inr, not, false, ◌∙◌}
use onetimelink.Prelude.Int.{ℤ, ◌-ℤ◌, ◌+ℤ◌, ◌≤ℤ◌, ltb_ℤ, pos, le→ltb_ℤ, int_laws, ltb_ℤ→le}
use onetimelink.Prelude.Text.{Bytes, str_eq, str_eq_refl}
use onetimelink.Prelude.GoMap.{insert, insert-IsDistinct, lookup-insert, insert-AllValues}
use onetimelink.Misc.RateLimit.Levels.{available, IsSound, available-some, IsLevel}

sub_self : (t : Time) → sub t t ≡ pos 0
unfolding sub ◌-ℤ◌
sub_self t = ground arith

-- A bucket that was seen just now refills to its own level.
refill_now :
    (l : Limiter) (level : ℤ) (now : Time)
    → level ≤ℤ pos (full l)
    → refill l (record { level = level; seen = now }) now ≡ level
unfolding refill
refill_now l level now h =
    rw (sub_self now, le→ltb_ℤ (pos (full l)) (level +ℤ pos 0) (omega int_laws)) (omega int_laws)

-- What a bucket pays for an answer.
abbrev pub price : Limiter → Bool → ℕ
price l ok = if ok then l.interval else 0

-- Whether a bucket has a token, and what is left of its level.
abbrev pub has_token : Limiter → ℤ → Bool
has_token l level = not (ltb_ℤ level (pos l.interval))

abbrev pub left : Limiter → ℤ → ℤ
left l level = if has_token l level then level -ℤ pos l.interval else level

left_bounds :
    (l : Limiter) (level : ℤ)
    → pos 0 ≤ℤ level
    → (pos 0 ≤ℤ left l level)
      × (left l level ≤ℤ level)
      × (left l level +ℤ pos (price l (has_token l level)) ≡ level)
left_bounds l level h = elim (Bool-cases (ltb_ℤ level (pos l.interval))) [
  | inl poor ↦ rw poor (omega int_laws)
  | inr rich ↦ rw rich (omega (int_laws, ltb_ℤ→le level (pos l.interval) rich))
]

module _ (l : Limiter) (key : Bytes) (level : ℤ) (now : Time) where
  abbrev pub spent : Limiter
  spent = record l { buckets = insert key (record { level = left l level; seen = now }) l.buckets }

  pub spend_lem : spend l key level now ≡ (spent, has_token l level)
  unfolding spend
  spend_lem = elim (Bool-cases (ltb_ℤ level (pos l.interval))) [
    | inl poor ↦ rw poor
    | inr rich ↦ rw rich
  ]

  -- Its own client pays for the answer, to the unit.
  pub available-spent_self :
      pos 0 ≤ℤ level
      → level ≤ℤ pos (full l)
      → available spent key now +ℤ pos (price l (has_token l level)) ≡ level
  unfolding refill
  available-spent_self h k =
      let b = left_bounds l level h in
      let here =
        available-some spent key now (record { level = left l level; seen = now })
          (lookup-insert key key (record { level = left l level; seen = now }) l.buckets
            ∙ rw (str_eq_refl key)) in
      rw (here, refill_now spent (left l level) now (omega arith)) b.2

  -- Every other client keeps what it had.
  pub available-spent_ne :
      (j : Bytes) → str_eq key j ≡ false → available spent j now ≡ available l j now
  unfolding available refill
  available-spent_ne j other =
      let e = lookup-insert key j (record { level = left l level; seen = now }) l.buckets in
      ground (arith, e)

  pub spent-IsSound : pos 0 ≤ℤ level → level ≤ℤ pos (full l) → IsSound now l → IsSound now spent
  unfolding idle
  spent-IsSound h k s =
      let (low, high, _) = left_bounds l level h in
      record {
        distinct = insert-IsDistinct key _ l.buckets s.distinct;
        levels =
            insert-AllValues (IsLevel (full l) now) key _ l.buckets
              (record { solvent = low; capped = omega arith; past = omega arith }) s.levels;
        patient = s.patient;
        positive = s.positive;
      }
