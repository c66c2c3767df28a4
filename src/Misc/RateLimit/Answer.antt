-- ===== src/Misc/RateLimit/Answer.antt =====
-- How many clients Allow remembers, and what a coarse `idle` forgives.
use onetimelink.Misc.RateLimit.{
  Limiter, admit, allow, idle, gc, Bucket, full, refill, new_limiter, spend,
}
use onetimelink.Prelude.Clock.{Time, mul, sub, Duration}
use onetimelink.Prelude.Text.{Bytes}
use onetimelink.Misc.RateLimit.Levels.{available, available-some, available-none, sub_pos}
use onetimelink.Prelude.{
  length, ◌≡◌, ◌≢◌, ◌≤◌, Option-cases, arith, inl, none, some, inr, ◌<◌, ◌⊎◌, true, ◌/◌, leb,
  Bool-cases, false, ◌∙◌, ap, List, refl, [], ◌∷◌,
}
use onetimelink.Prelude.GoMap.{
  lookup, IsDistinct, length-retain-le, length-insert, retain, lookup-retain,
}
use onetimelink.Prelude.Int.{wrap, ℤ, ◌*ℤ◌, pos, ◌<ℤ◌, ◌≤ℤ◌, lt→ltb_ℤ, le→ltb_ℤ}
use onetimelink.Misc.RateLimit.Allow.{gc_lem, fresh}
use onetimelink.Misc.RateLimit.Spend.{has_token, spend_lem, left}

admit_answer :
    (l : Limiter) (key : Bytes) (now : Time)
    → (lookup key l.buckets ≢ none) ⊎ (length l.buckets < l.max_keys)
    → (admit l key now).1 ≡ has_token l (available l key now)
unfolding admit
admit_answer l key now room = elim (Option-cases (lookup key l.buckets)) [
  | inr (b, there) ↦
      rw (there, admit, spend_lem l key (refill l b now) now, available-some l key now b there)
  | inl missing ↦
      let few : leb l.max_keys (length l.buckets) ≡ false = ground arith in
      rw (missing, admit, few, spend_lem l key (pos (full l)) now, available-none l key now missing)
]

max_keys-gc : (l : Limiter) (now : Time) → (gc l now).max_keys ≡ l.max_keys
max_keys-gc l now = elim (gc_lem l now) [ inl e ↦ rw e | inr e ↦ rw e ]

length-admit-le :
    (l : Limiter) (key : Bytes) (now : Time)
    → length l.buckets ≤ l.max_keys
    → length (admit l key now).0.buckets ≤ l.max_keys
unfolding admit
length-admit-le l key now h = elim (Option-cases (lookup key l.buckets)) [
  | inr (b, there) ↦
      rw (there, admit, spend_lem l key (refill l b now) now)
        (ground (
          arith,
          length-insert key (record { level = left l (refill l b now); seen = now }) l.buckets,
        ))
  | inl missing ↦ elim (Bool-cases (leb l.max_keys (length l.buckets))) [
    | inl crowded ↦ rw (missing, admit, crowded) h
    | inr room ↦
        rw (missing, admit, room, spend_lem l key (pos (full l)) now)
          (ground (
            arith,
            length-insert key (record { level = left l (pos (full l)); seen = now }) l.buckets,
          ))
  ]
]

length-gc-le : (l : Limiter) (now : Time) → length (gc l now).buckets ≤ length l.buckets
length-gc-le l now = elim (gc_lem l now) [
  | inl e ↦ rw e (omega arith)
  | inr e ↦ rw e (length-retain-le (fresh l now) l.buckets)
]

-- The limiter never remembers more than `max_keys` clients.
pub length-allow-le :
    (l : Limiter) (key : Bytes) (now : Time)
    → length l.buckets ≤ l.max_keys
    → length (allow l key now).0.buckets ≤ l.max_keys
unfolding allow
length-allow-le l key now h =
    let g = length-gc-le l now in
    let m = max_keys-gc l now in omega (arith, length-admit-le (gc l now) key now (omega arith))

max_keys-spend :
    (l : Limiter) (key : Bytes) (level : ℤ) (now : Time)
    → (spend l key level now).0.max_keys ≡ l.max_keys
max_keys-spend l key level now = rw (spend_lem l key level now) refl

max_keys-admit :
    (l : Limiter) (key : Bytes) (now : Time) → (admit l key now).0.max_keys ≡ l.max_keys
unfolding admit
max_keys-admit l key now = elim (Option-cases (lookup key l.buckets)) [
  | inr (b, there) ↦ rw (there, admit) (max_keys-spend l key (refill l b now) now)
  | inl missing ↦ elim (Bool-cases (leb l.max_keys (length l.buckets))) [
    | inl crowded ↦ rw (missing, admit, crowded) refl
    | inr room ↦ rw (missing, admit, room) (max_keys-spend l key (pos (full l)) now)
  ]
]

max_keys-allow :
    (l : Limiter) (key : Bytes) (now : Time) → (allow l key now).0.max_keys ≡ l.max_keys
unfolding allow
max_keys-allow l key now = max_keys-admit (gc l now) key now ∙ max_keys-gc l now

-- The limiter after some calls of Allow.
abbrev pub limiter_after : Limiter → List (Bytes × Time) → Limiter
limiter_after l [] = l
limiter_after l ((k, u) ∷ calls) = limiter_after (allow l k u).0 calls

length-limiter_after-le :
    (l : Limiter) (calls : List (Bytes × Time))
    → length l.buckets ≤ l.max_keys
    → length (limiter_after l calls).buckets ≤ l.max_keys
length-limiter_after-le l [] h = h
length-limiter_after-le l ((k, u) ∷ calls) h =
    let same = max_keys-allow l k u in
    omega (
      arith,
      same,
      length-limiter_after-le (allow l k u).0 calls (omega (arith, same, length-allow-le l k u h)),
    )

-- Whatever clients call Allow and whenever they do, in whatever order the clock is read: a new limiter
-- remembers 10000 of them at most.
pub length-new_limiter-le :
    (burst : ℤ) (interval : Duration) (calls : List (Bytes × Time))
    → length (limiter_after (new_limiter burst interval) calls).buckets ≤ 10000
unfolding new_limiter
length-new_limiter-le burst interval calls =
    length-limiter_after-le (new_limiter burst interval) calls (omega arith)

idle_of_short : (l : Limiter) → full l < 1_000_000_000 → idle l ≡ pos 0
unfolding idle mul wrap ◌*ℤ◌
idle_of_short l h = let none_whole : full l / 1_000_000_000 ≡ 0 = omega arith in rw none_whole

-- With a burst that refills in less than a second `idle` is zero: a due garbage collection forgets a
-- client that was seen any time before, however little it has left, and lets its next request pass.
allow_forgives :
    (l : Limiter) (key : Bytes) (now : Time) (b : Bucket)
    → IsDistinct l.buckets
    → lookup key l.buckets ≡ some b
    → length l.buckets < l.max_keys
    → 1 ≤ l.burst
    → full l < 1_000_000_000
    → b.seen <ℤ now
    → l.gc_period ≤ℤ sub now l.last_gc
    → (allow l key now).1 ≡ true
unfolding allow gc
allow_forgives l key now b d there room some_burst short before due =
    rw (le→ltb_ℤ (sub now l.last_gc) l.gc_period due) (
      admit_answer after key now (inr few)
      ∙ (ap (has_token after) (available-none after key now gone) ∙ rich))
  where
    after : Limiter
    after = record l { last_gc = now; buckets = retain (fresh l now) l.buckets }

    gone : lookup key (retain (fresh l now) l.buckets) ≡ none
    gone =
        lookup-retain (fresh l now) key l.buckets d
        ∙ rw (
          there,
          idle_of_short l short,
          lt→ltb_ℤ (pos 0) (sub now b.seen) (sub_pos now b.seen before),
        )

    few : length (retain (fresh l now) l.buckets) < l.max_keys
    few = omega (arith, length-retain-le (fresh l now) l.buckets)

    rich : has_token after (pos (full l)) ≡ true
    rich = rw (le→ltb_ℤ (pos (full l)) (pos l.interval) (grind arith))
