-- ===== src/Misc/RateLimit/Bound.antt =====
-- The limits of the limiter: how many requests of a client pass in any span of time, how many clients
-- it keeps, and that no client's requests touch another's.
use onetimelink.Misc.RateLimit.{Limiter, admit, allow, gc, full, refill, spend}
use onetimelink.Prelude.Text.{Bytes, str_eq, eq_of_str_eq, str_eq_refl}
use onetimelink.Prelude.Clock.{Time}
use onetimelink.Prelude.Int.{ℤ, pos, ◌+ℤ◌, ◌≤ℤ◌, int_laws, ◌-ℤ◌, pos_part, neg_part}
use onetimelink.Misc.RateLimit.Levels.{
  IsSound, available, refill-nonneg, IsLevel, refill-min, available-some, available-none,
  refill-later,
}
use onetimelink.Prelude.{
  Bool, Option-cases, inr, ◌≡◌, false, ◌∙◌, sym, inl, Bool-cases, leb, refl, length, arith, List,
  if◌then◌else◌, [], ℕ, ◌&&◌, ◌∷◌, ◌*◌, ◌+◌, ap, true,
}
use onetimelink.Misc.RateLimit.Allow.{gc-IsSound, available-gc, gc_lem, IsSound-later}
use onetimelink.Prelude.GoMap.{lookup, AllValues-lookup}
use onetimelink.Misc.RateLimit.Spend.{
  price, spend_lem, available-spent_self, available-spent_ne, spent-IsSound,
}

-- What one call does, from a sound limiter: it charges the client for the answer, leaves every other
-- client what it had, and keeps the limiter sound and its limits.
pub record Charged (l after : Limiter) (key : Bytes) (now : Time) (ok : Bool) : Type 0 where
  pub paid : available after key now +ℤ pos (price l ok) ≡ available l key now
  pub others : (j : Bytes) → str_eq key j ≡ false → available after j now ≡ available l j now
  pub sound : IsSound now after
  pub same : (after.interval ≡ l.interval) × (after.burst ≡ l.burst)

spend-Charged :
    (l : Limiter) (key : Bytes) (level : ℤ) (now : Time)
    → IsSound now l
    → pos 0 ≤ℤ level
    → level ≤ℤ pos (full l)
    → available l key now ≡ level
    → Charged l (spend l key level now).0 key now (spend l key level now).1
spend-Charged l key level now s h k e = rw (spend_lem l key level now) (record {
  paid = available-spent_self l key level now h k ∙ sym e;
  others = available-spent_ne l key level now;
  sound = spent-IsSound l key level now h k s;
  same = (refl, refl);
})

admit-Charged :
    (l : Limiter) (key : Bytes) (now : Time)
    → IsSound now l
    → Charged l (admit l key now).0 key now (admit l key now).1
unfolding admit
admit-Charged l key now s = elim (Option-cases (lookup key l.buckets)) [
  | inr (b, there) ↦
      rw (there, admit)
        (spend-Charged l key (refill l b now) now s
          (refill-nonneg l b now
            (AllValues-lookup (IsLevel (full l) now) key b l.buckets s.levels there))
          (refill-min l b now).0 (available-some l key now b there))
  | inl missing ↦ elim (Bool-cases (leb l.max_keys (length l.buckets))) [
    | inr room ↦
        rw (missing, room, admit)
          (spend-Charged l key (pos (full l)) now s (omega arith) (omega arith)
            (available-none l key now missing))
    | inl crowded ↦
        rw (missing, crowded, admit)
          (record { paid = omega int_laws; others = λ j h. refl; sound = s; same = (refl, refl) })
  ]
]

pub gc-same :
    (l : Limiter) (now : Time) → ((gc l now).interval ≡ l.interval) × ((gc l now).burst ≡ l.burst)
gc-same l now = elim (gc_lem l now) [ inl e ↦ rw e (refl, refl) | inr e ↦ rw e (refl, refl) ]

price-gc : (l : Limiter) (now : Time) (ok : Bool) → price (gc l now) ok ≡ price l ok
price-gc l now true = (gc-same l now).0
price-gc l now false = refl

-- A call of Allow at a time from which on the limiter is sound charges its client for the answer,
-- leaves every other client what it had, and keeps the limiter sound and its limits as they were.
pub allow-Charged :
    (l : Limiter) (key : Bytes) (now : Time)
    → IsSound now l
    → Charged l (allow l key now).0 key now (allow l key now).1
unfolding allow
allow-Charged l key now s =
    let c = admit-Charged (gc l now) key now (gc-IsSound l now s) in
    let (interval, burst) = gc-same l now in
    record {
      paid =
          ap (λ p. available (allow l key now).0 key now +ℤ pos p)
            (sym (price-gc l now (allow l key now).1))
          ∙ (c.paid ∙ available-gc l key now s);
      others = λ j h. c.others j h ∙ available-gc l j now s;
      sound = c.sound;
      same = (c.same.0 ∙ interval, c.same.1 ∙ burst);
    }

-- Waiting gives a client at most one unit for each nanosecond.
available-later :
    (l : Limiter) (key : Bytes) (t t' : Time)
    → IsSound t l
    → t ≤ℤ t'
    → available l key t' ≤ℤ available l key t +ℤ (t' -ℤ t)
available-later l key t t' s h = elim (Option-cases (lookup key l.buckets)) [
  | inl missing ↦
      rw (available-none l key t missing, available-none l key t' missing) (omega int_laws)
  | inr (b, there) ↦
      rw (available-some l key t b there, available-some l key t' b there)
        (refill-later l b t t'
          (AllValues-lookup (IsLevel (full l) t) key b l.buckets s.levels there).past h)
]

available-le-full :
    (l : Limiter) (key : Bytes) (t : Time)
    → IsSound t l
    → (pos 0 ≤ℤ available l key t) × (available l key t ≤ℤ pos (full l))
available-le-full l key t s = elim (Option-cases (lookup key l.buckets)) [
  | inl missing ↦ rw (available-none l key t missing) (omega arith, omega arith)
  | inr (b, there) ↦ rw (available-some l key t b there) (
    refill-nonneg l b t (AllValues-lookup (IsLevel (full l) t) key b l.buckets s.levels there),
    (refill-min l b t).0,
  )
]

-- Calls of Allow, each with its client and its time, in order of time from `t` on.
abbrev pub InOrder : Time → List (Bytes × Time) → Type 0
InOrder t [] = Unit {0}
InOrder t ((k, u) ∷ calls) = (t ≤ℤ u) × InOrder u calls

abbrev pub end_time : Time → List (Bytes × Time) → Time
end_time t [] = t
end_time t ((k, u) ∷ calls) = end_time u calls

-- How many requests of a client pass.
unfoldable pub passed : Bytes → Limiter → List (Bytes × Time) → ℕ
passed key l [] = 0
passed key l ((k, u) ∷ calls) =
    (if str_eq k key && (allow l k u).1 then 1 else 0) + passed key (allow l k u).0 calls

-- What one call takes from a client.
allow-takes :
    (key : Bytes) (l : Limiter) (k : Bytes) (u : Time)
    → IsSound u l
    → available (allow l k u).0 key u
        +ℤ pos ((if str_eq k key && (allow l k u).1 then 1 else 0) * l.interval)
      ≡ available l key u
allow-takes key l k u s =
    let c = allow-Charged l k u s in
    elim (Bool-cases (str_eq k key)) [
      | inr other ↦ rw (other, c.others key other) (omega int_laws)
      | inl same ↦ elim (Bool-cases (allow l k u).1) [
        | inl ok ↦
            let p = rw ok at c.paid in
            rw (← eq_of_str_eq k key same, str_eq_refl k, ok)
              (omega (int_laws, ap pos_part p, ap neg_part p))
        | inr refused ↦
            let p = rw refused at c.paid in
            rw (← eq_of_str_eq k key same, str_eq_refl k, refused)
              (omega (int_laws, ap pos_part p, ap neg_part p))
      ]
    ]

passed-available :
    (key : Bytes) (l : Limiter) (t : Time) (calls : List (Bytes × Time))
    → IsSound t l
    → InOrder t calls
    → pos (passed key l calls * l.interval) ≤ℤ available l key t +ℤ (end_time t calls -ℤ t)
unfolding passed
passed-available key l t [] s o = omega (int_laws, available-le-full l key t s)
passed-available key l t ((k, u) ∷ calls) s o =
    let now = IsSound-later l t u o.0 s in
    let c = allow-Charged l k u now in
    let takes = allow-takes key l k u now in
    let ih = passed-available key (allow l k u).0 u calls c.sound o.1 in
    omega (
      int_laws,
      available-later l key t u s o.0,
      ap pos_part takes,
      ap neg_part takes,
      rw c.same.0 at ih,
    )

-- From a sound limiter, the requests of a client that pass in a span of time, in whatever company and
-- however they are spaced, number at most the burst and one for each interval of the span.
pub passed-le-rate :
    (key : Bytes) (l : Limiter) (t : Time) (calls : List (Bytes × Time))
    → IsSound t l
    → InOrder t calls
    → pos (passed key l calls * l.interval) ≤ℤ pos (l.burst * l.interval) +ℤ (end_time t calls -ℤ t)
passed-le-rate key l t calls s o =
    omega (int_laws, passed-available key l t calls s o, available-le-full l key t s)
