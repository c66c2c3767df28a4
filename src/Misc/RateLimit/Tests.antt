-- ===== src/Misc/RateLimit/Tests.antt =====
-- The limiter of the two API routes, ten requests and one every two seconds, and a fast one.
use onetimelink.Misc.RateLimit.{Bucket, Limiter, new_limiter, idle}
use onetimelink.Misc.RateLimit.Levels.{IsSound}
use onetimelink.Prelude.{List, ◌∷◌, [], ◌*◌, arith, length, ◌≤◌}
use onetimelink.Prelude.Int.{pos, wrap, ◌≤ℤ◌, ◌*ℤ◌, ◌+ℤ◌, ◌-ℤ◌}
use onetimelink.Prelude.Text.{Bytes, codes}
use onetimelink.Misc.RateLimit.Bound.{passed, end_time, passed-le-rate}
use onetimelink.Prelude.Clock.{Time, mul}
use onetimelink.Misc.RateLimit.Answer.{limiter_after, length-new_limiter-le}

abbrev client : Bytes
client = codes "c"

slow : Limiter
unfolding new_limiter
slow = new_limiter (pos 10) (pos 2_000_000_000)

slow-IsSound : IsSound (pos 0) slow
unfolding slow new_limiter idle mul wrap ◌*ℤ◌
slow-IsSound = record { distinct = tt; levels = tt; patient = omega arith; positive = omega arith }

abbrev calls : List (Bytes × Time)
calls = (client, pos 1) ∷ (client, pos 2) ∷ (client, pos 5) ∷ []

passed-le-rate_example :
    pos (passed client slow calls * slow.interval)
    ≤ℤ pos (slow.burst * slow.interval) +ℤ (end_time (pos 0) calls -ℤ pos 0)
passed-le-rate_example =
    passed-le-rate client slow (pos 0) calls slow-IsSound
      (omega arith, (omega arith, (omega arith, tt)))

length-new_limiter-le_example :
    length (limiter_after (new_limiter (pos 10) (pos 2_000_000_000)) calls).buckets ≤ 10000
length-new_limiter-le_example = length-new_limiter-le (pos 10) (pos 2_000_000_000) calls

abbrev spent : Bucket
spent = record { level = pos 0; seen = pos 5 }

-- Four requests a tenth of a second apart, seen last a nanosecond ago.
abbrev fast : Limiter
fast = record {
  buckets = (client, spent) ∷ [];
  interval = 100_000_000;
  burst = 4;
  last_gc = pos 0;
  max_keys = 10000;
  gc_period = pos 1;
}
