-- ===== src/Prelude/Format.antt =====
-- What the program uses of Go's fmt: %d.
-- The decimal digits of a number, as %d prints it, by `fuel` divisions.
use onetimelink.Prelude.{
  ℕ, suc, [], ◌+◌, ◌%◌, ◌∷◌, ◌/◌, if◌then◌else◌, ltb, zero, replicate, ◌-◌, length, ◌++◌,
}
use onetimelink.Prelude.Int.{ℤ, pos, negsuc}
use onetimelink.Prelude.Text.{Bytes}

unfoldable pub decimal_digits : ℕ → ℕ → Bytes → Bytes
decimal_digits zero n acc = acc
decimal_digits (suc fuel) n acc =
    let acc' = (b'0' + n % 10) ∷ acc in
    let more = decimal_digits fuel (n / 10) acc' in if ltb n 10 then acc' else more

unfoldable pub decimal : ℤ → Bytes
decimal (pos n) = decimal_digits (suc n) n []
decimal (negsuc n) = b'-' ∷ decimal_digits (suc (suc n)) (suc n) []

-- %5s and %5d: blanks before a text that is shorter than the width.
unfoldable pub pad_left : ℕ → Bytes → Bytes
pad_left width s = replicate (width - length s) b' ' ++ s
