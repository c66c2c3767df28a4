-- ===== src/Misc/RateLimit.antt =====
-- misc/ratelimit.go. The source counts tokens in a float64 and refills `rate` = 1 / interval of them a
-- second; here a level is counted in exact units of 1 / interval of a token, with the interval in
-- nanoseconds, so that one token is `interval` units and a nanosecond refills one unit. The rounding
-- of floats is not modelled. `now` is the time that nowFunc returns.
pub mod Levels
pub mod Allow
pub mod Spend
pub mod Bound
pub mod Answer
pub mod Wrap
mod Tests
use onetimelink.Prelude.{
  ℕ, Bool, [], if◌then◌else◌, ◌*◌, ◌/◌, false, not, true, none, leb, length, some,
}
use onetimelink.Prelude.Clock.{Duration, Time, mul, sub, second, zero_time, minute}
use onetimelink.Prelude.GoMap.{GoMap, lookup, insert, retain}
use onetimelink.Prelude.Int.{ℤ, ◌+ℤ◌, ltb_ℤ, pos, pos_part, leb_ℤ, ◌-ℤ◌}
use onetimelink.Prelude.Text.{Bytes}

pub record Bucket : Type 0 where
  pub level : ℤ
  pub seen : Time

pub record Limiter : Type 0 where
  pub buckets : GoMap Bucket
  pub interval : ℕ
  pub burst : ℕ
  pub last_gc : Time
  pub max_keys : ℕ
  pub gc_period : Duration

unfoldable pub new_limiter : ℤ → Duration → Limiter
new_limiter burst interval = record {
  buckets = [];
  interval = pos_part (if leb_ℤ interval (pos 0) then second else interval);
  burst = pos_part (if ltb_ℤ burst (pos 1) then pos 1 else burst);
  last_gc = zero_time;
  max_keys = 10000;
  gc_period = minute;
}

-- The level of a full bucket: `burst` tokens.
abbrev pub full : Limiter → ℕ
full l = l.burst * l.interval

-- time.Duration(l.burst/l.rate) * time.Second: whole seconds, rounded down.
unfoldable pub idle : Limiter → Duration
idle l = mul (pos (full l / 1_000_000_000)) second

unfoldable pub gc : Limiter → Time → Limiter
gc l now = if ltb_ℤ (sub now l.last_gc) l.gc_period then l else record l {
  last_gc = now;
  buckets = retain (λ b. not (ltb_ℤ (idle l) (sub now b.seen))) l.buckets;
}

-- The tokens of a known bucket after its refill, at most a burst.
unfoldable pub refill : Limiter → Bucket → Time → ℤ
refill l b now =
    let level = b.level +ℤ sub now b.seen in
    if ltb_ℤ (pos (full l)) level then pos (full l) else level

-- The end of Allow: the bucket is seen, and pays a token if it has one.
unfoldable pub spend : Limiter → Bytes → ℤ → Time → Limiter × Bool
spend l key level now =
    if ltb_ℤ level (pos l.interval)
    then (record l { buckets = insert key (record { level = level; seen = now }) l.buckets }, false)
    else (
      record l {
        buckets = insert key (record { level = level -ℤ pos l.interval; seen = now }) l.buckets;
      },
      true,
    )

-- Allow once the garbage is collected.
unfoldable pub admit : Limiter → Bytes → Time → Limiter × Bool
admit l key now = elim (lookup key l.buckets) [
  | none ↦ if leb l.max_keys (length l.buckets) then (l, false) else spend l key (pos (full l)) now
  | some b ↦ spend l key (refill l b now) now
]

unfoldable pub allow : Limiter → Bytes → Time → Limiter × Bool
allow l key now = admit (gc l now) key now
