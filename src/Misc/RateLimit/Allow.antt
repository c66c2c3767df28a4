-- ===== src/Misc/RateLimit/Allow.antt =====
-- One call of Allow: it keeps the limiter sound, and pays for what it lets through.
use onetimelink.Misc.RateLimit.{Bucket, Limiter, gc, idle, refill, full}
use onetimelink.Misc.RateLimit.Levels.{
  available, IsLevel, IsSound, refill-min, available-none, available-some,
}
use onetimelink.Prelude.{
  ℕ, Bool, ◌≡◌, arith, inl, not, ◌⊎◌, inr, Bool-cases, [], ◌∷◌, ap, Option-cases, ◌∙◌, sym,
}
use onetimelink.Prelude.Clock.{Time, sub}
use onetimelink.Prelude.GoMap.{
  GoMap, AllValues, retain, retain-IsDistinct, retain-AllValues, lookup, kept, lookup-retain,
  AllValues-lookup,
}
use onetimelink.Prelude.Int.{◌≤ℤ◌, ltb_ℤ, pos, ◌<ℤ◌, int_laws, pos_part, neg_part, ltb_ℤ→lt}
use onetimelink.Prelude.Text.{Bytes}

AllValues-map :
    {P Q : Bucket → Type 0} (m : GoMap Bucket)
    → ((b : Bucket) → P b → Q b)
    → AllValues P m
    → AllValues Q m
AllValues-map [] f h = tt
AllValues-map ((k, b) ∷ m) f h = (f b h.0, AllValues-map m f h.1)

-- Later, the levels still are levels.
IsLevel-later :
    (capacity : ℕ) (t t' : Time) (b : Bucket)
    → t ≤ℤ t'
    → IsLevel capacity t b
    → IsLevel capacity t' b
IsLevel-later capacity t t' b h v = record {
  solvent = v.solvent;
  capped = v.capped;
  past = omega arith;
}

pub IsSound-later : (l : Limiter) (t t' : Time) → t ≤ℤ t' → IsSound t l → IsSound t' l
IsSound-later l t t' h s = record {
  distinct = s.distinct;
  levels = AllValues-map l.buckets (λ b. IsLevel-later (full l) t t' b h) s.levels;
  patient = s.patient;
  positive = s.positive;
}

-- What the garbage collection keeps.
abbrev pub fresh : Limiter → Time → Bucket → Bool
fresh l now b = not (ltb_ℤ (idle l) (sub now b.seen))

pub gc_lem :
    (l : Limiter) (now : Time)
    → (gc l now ≡ l)
      ⊎ (gc l now ≡ record l { last_gc = now; buckets = retain (fresh l now) l.buckets })
unfolding gc
gc_lem l now = elim (Bool-cases (ltb_ℤ (sub now l.last_gc) l.gc_period)) [
  | inl early ↦ inl (rw early)
  | inr due ↦ inr (rw due)
]

pub gc-IsSound : (l : Limiter) (now : Time) → IsSound now l → IsSound now (gc l now)
unfolding idle
gc-IsSound l now s = elim (gc_lem l now) [
  | inl e ↦ rw e s
  | inr e ↦ rw e (record {
    distinct = retain-IsDistinct (fresh l now) l.buckets s.distinct;
    levels = retain-AllValues (IsLevel (full l) now) (fresh l now) l.buckets s.levels;
    patient = s.patient;
    positive = s.positive;
  })
]

-- A bucket that is dropped had refilled: it is as good as a new one.
refill_of_idle :
    (l : Limiter) (now : Time) (b : Bucket)
    → IsLevel (full l) now b
    → pos (full l) ≤ℤ idle l
    → idle l <ℤ sub now b.seen
    → refill l b now ≡ pos (full l)
refill_of_idle l now b v patient gone = elim ((refill-min l b now).2) [
  | inl e ↦ e
  | inr e ↦ absurd (omega (int_laws, ap pos_part e, ap neg_part e, refill-min l b now, v.solvent))
]

available-retain :
    (l : Limiter) (key : Bytes) (now : Time)
    → IsSound now l
    → available (record l { last_gc = now; buckets = retain (fresh l now) l.buckets }) key now
      ≡ available l key now
unfolding refill
available-retain l key now s = elim (Option-cases (lookup key l.buckets)) [
  | inl none_there ↦
      available-none after key now (found ∙ rw none_there)
      ∙ sym (available-none l key now none_there)
  | inr (b, there) ↦ elim (Bool-cases (ltb_ℤ (idle l) (sub now b.seen))) [
    | inr stays ↦
        available-some after key now b (found ∙ rw (there, stays))
        ∙ sym (available-some l key now b there)
    | inl goes ↦
        available-none after key now (found ∙ rw (there, goes))
        ∙ (sym (
              refill_of_idle l now b
                (AllValues-lookup (IsLevel (full l) now) key b l.buckets s.levels there) s.patient
                (ltb_ℤ→lt (idle l) (sub now b.seen) goes))
            ∙ sym (available-some l key now b there))
  ]
]
  where
    after : Limiter
    after = record l { last_gc = now; buckets = retain (fresh l now) l.buckets }

    found : lookup key (retain (fresh l now) l.buckets) ≡ kept (fresh l now) (lookup key l.buckets)
    found = lookup-retain (fresh l now) key l.buckets s.distinct

-- The garbage collection takes nothing from any client and gives nothing.
pub available-gc :
    (l : Limiter) (key : Bytes) (now : Time)
    → IsSound now l
    → available (gc l now) key now ≡ available l key now
available-gc l key now s = elim (gc_lem l now) [
  | inl e ↦ rw e
  | inr e ↦ rw e (available-retain l key now s)
]
