-- ===== src/Base64.antt =====
-- base64.RawURLEncoding of Go's standard library, as store/store.go uses it for ids.
pub mod Laws
use onetimelink.Prelude.{ℕ, ◌+◌, ◌-◌, ◌*◌, ◌/◌, ◌%◌, List, [], ◌∷◌, ltb, ◌==◌, if◌then◌else◌}
use onetimelink.Prelude.Text.{Bytes}

-- The digit with value 0 to 63 in the URL-safe alphabet.
unfoldable pub digit : ℕ → ℕ
digit n =
    if ltb n 26
    then b'A' + n
    else if ltb n 52
    then b'a' + (n - 26)
    else if ltb n 62
    then b'0' + (n - 52)
    else if n == 62
    then b'-'
    else b'_'

-- Three bytes give four digits; one or two left over give two or three, with no padding.
unfoldable pub raw_url_encode : List ℕ → Bytes
raw_url_encode [] = []
raw_url_encode (a ∷ []) = digit (a / 4) ∷ digit (a % 4 * 16) ∷ []
raw_url_encode (a ∷ b ∷ []) = digit (a / 4) ∷ digit (a % 4 * 16 + b / 16) ∷ digit (b % 16 * 4) ∷ []
raw_url_encode (a ∷ b ∷ c ∷ rest) =
    digit (a / 4)
    ∷ digit (a % 4 * 16 + b / 16)
    ∷ digit (b % 16 * 4 + c / 64)
    ∷ digit (c % 64)
    ∷ raw_url_encode rest
