-- ===== src/Misc/Tests.antt =====
-- The theorems on what is logged at small inputs.
use onetimelink.Misc.Redact.{sanitize_for_log, sanitize_for_log-IsPlain}
use onetimelink.Prelude.{All, length, ◌∷◌, [], ◌≡◌, ◌≤◌, refl}
use onetimelink.Prelude.Text.{Bytes, codes, rune_bytes}
use onetimelink.Prelude.Utf8.{IsPlain, drop_runes, decode_rune}

abbrev forged : Bytes
forged = b'a' ∷ 13 ∷ 10 ∷ b'b' ∷ []

sanitize_for_log-IsPlain_example :
    All IsPlain (sanitize_for_log forged 100) × (length (sanitize_for_log forged 100) ≤ 300)
sanitize_for_log-IsPlain_example = sanitize_for_log-IsPlain forged 100

one_line : sanitize_for_log forged 100 ≡ codes "ab"
unfolding sanitize_for_log drop_runes decode_rune rune_bytes
one_line = refl
