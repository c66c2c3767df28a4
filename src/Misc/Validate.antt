-- ===== src/Misc/Validate.antt =====
-- misc/validate.go. `parses` says whether mail.ParseAddress accepts a text.
use onetimelink.Prelude.Text.{Bytes, str_eq, has_prefix, utf8, contains_any}
use onetimelink.Prelude.{Bool, if◌then◌else◌, [], ◌||◌, false, ◌∷◌}

unfoldable pub valid_email : (Bytes → Bool) → Bytes → Bool
valid_email parses addr =
    if str_eq addr [] || has_prefix addr (utf8 "-")
    then false
    else if contains_any addr (b' ' ∷ 9 ∷ 13 ∷ 10 ∷ 0 ∷ [])
    then false
    else parses addr
