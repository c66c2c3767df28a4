-- ===== src/Prelude/Clock.antt =====
-- What the program uses of Go's package time. A Time is its distance in nanoseconds from the zero
-- Time, 1 January of the year 1; a Duration is an int64 of nanoseconds.
use Prim.Native.Nat.{◌^◌, ◌-◌}
use mathlib.Core.Bool.{Bool}
use onetimelink.Prelude.Tests.{if◌then◌else◌, ◌==◌}
use onetimelink.Prelude.Int.{
  ℤ, pos, negsuc, ◌+ℤ◌, ◌-ℤ◌, ◌*ℤ◌, ltb_ℤ, wrap, pos_part, neg_part, sub_ℕ,
}
use onetimelink.Prelude.{◌/◌}

abbrev pub Time : Type 0
Time = ℤ

abbrev pub Duration : Type 0
Duration = ℤ

-- The zero Time, and t.IsZero().
abbrev pub zero_time : Time
zero_time = pos 0

abbrev pub is_zero : Time → Bool
is_zero t = pos_part t == neg_part t

abbrev pub second : Duration
second = pos 1_000_000_000

abbrev pub minute : Duration
minute = pos 60_000_000_000

abbrev pub hour : Duration
hour = pos 3_600_000_000_000

-- t.Add(d)
abbrev pub add : Time → Duration → Time
add t d = t +ℤ d

-- t.Sub(u), which saturates at the least and the greatest Duration.
unfoldable pub sub : Time → Time → Duration
sub t u =
    let d = t -ℤ u in
    if ltb_ℤ (pos (2 ^ 63 - 1)) d
    then pos (2 ^ 63 - 1)
    else if ltb_ℤ d (negsuc (2 ^ 63 - 1))
    then negsuc (2 ^ 63 - 1)
    else d

-- t.After(u) and t.Before(u)
abbrev pub after : Time → Time → Bool
after t u = ltb_ℤ u t

abbrev pub before : Time → Time → Bool
before t u = ltb_ℤ t u

-- d * e on Durations.
unfoldable pub mul : Duration → Duration → Duration
mul d e = wrap (d *ℤ e)

-- d / e on Durations, for a positive e: Go rounds towards zero.
unfoldable pub quot : Duration → Duration → ℤ
quot d e = sub_ℕ (pos_part d / pos_part e) (neg_part d / pos_part e)
