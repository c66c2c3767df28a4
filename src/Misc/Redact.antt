-- ===== src/Misc/Redact.antt =====
-- misc/redact.go: what of an id and of client data reaches the log.
use onetimelink.Prelude.{
  ℕ, Bool, if◌then◌else◌, ◌<◌, length, ltb, ◌==◌, [], take, ◌++◌, ◌||◌, leb, ◌≡◌, All, arith, ◌≢◌,
  ◌≤◌, replicate, ◌∷◌, ◌*◌, ap, false, length-take-le, length-replicate, refl,
}
use onetimelink.Prelude.Text.{
  Bytes, utf8, has_prefix, str_eq, trim_prefix, has_prefix-append, str_eq_iff, trim_prefix-append,
}
use onetimelink.Prelude.Utf8.{
  drop_runes, is_between, IsPlain, drop_runes-IsPlain, length-drop_runes-invalid,
  length-drop_runes-le,
}

abbrev pub id_prefix_len : ℕ
id_prefix_len = 6

unfoldable pub redact_id : Bytes → Bytes
redact_id id =
    if str_eq id []
    then []
    else if leb (length id) id_prefix_len
    then utf8 "REDACTED"
    else take id_prefix_len id ++ utf8 "...REDACTED"

abbrev pub api_get_prefix : Bytes
api_get_prefix = utf8 "/api/v1/get/"

unfoldable pub redact_path : Bytes → Bytes
redact_path path =
    if has_prefix path api_get_prefix
    then api_get_prefix ++ redact_id (trim_prefix path api_get_prefix)
    else path

-- unicode.IsControl
abbrev pub is_control : ℕ → Bool
is_control r = ltb r 32 || is_between 127 159 r

abbrev pub drops : ℕ → Bool
drops r = r == 10 || (r == 13 || (r == 0 || is_control r))

-- The first argument of strings.Map is applied to the runes of what is left after the cut.
unfoldable pub sanitize_for_log : Bytes → ℕ → Bytes
sanitize_for_log s max = drop_runes drops 0 (if ltb max (length s) then take max s else s)

redact_id-prefix :
    (s t : Bytes)
    → id_prefix_len < length s
    → id_prefix_len < length t
    → take id_prefix_len s ≡ take id_prefix_len t
    → redact_id s ≡ redact_id t
unfolding redact_id
redact_id-prefix [] t hs ht e = absurd (omega arith)
redact_id-prefix (x ∷ s) [] hs ht e = absurd (omega arith)
redact_id-prefix (x ∷ s) (y ∷ t) hs ht e =
    ground (arith, str_eq_iff (x ∷ s) [], str_eq_iff (y ∷ t) [])

redact_id-short :
    (s t : Bytes)
    → s ≢ []
    → t ≢ []
    → length s ≤ id_prefix_len
    → length t ≤ id_prefix_len
    → redact_id s ≡ redact_id t
unfolding redact_id
redact_id-short s t s_ne t_ne hs ht = ground (arith, str_eq_iff s [], str_eq_iff t [])

-- Of an id in the path of an API request the log shows the first six bytes at most: two ids of more
-- than six bytes that agree there give the same text, and so do any two shorter ones.
pub redact_path-prefix :
    (s t : Bytes)
    → (id_prefix_len < length s
        → id_prefix_len < length t
        → take id_prefix_len s ≡ take id_prefix_len t
        → redact_path (api_get_prefix ++ s) ≡ redact_path (api_get_prefix ++ t))
      × (s ≢ []
          → t ≢ []
          → length s ≤ id_prefix_len
          → length t ≤ id_prefix_len
          → redact_path (api_get_prefix ++ s) ≡ redact_path (api_get_prefix ++ t))
unfolding redact_path
redact_path-prefix s t =
    rw
      (
        has_prefix-append api_get_prefix s,
        has_prefix-append api_get_prefix t,
        trim_prefix-append api_get_prefix s,
        trim_prefix-append api_get_prefix t,
      )
      (
        λ hs ht e. ap (◌++◌ api_get_prefix) (redact_id-prefix s t hs ht e),
        λ s_ne t_ne hs ht. ap (◌++◌ api_get_prefix) (redact_id-short s t s_ne t_ne hs ht),
      )

-- The log text holds no ASCII control character, so client data cannot begin a line of its own, and
-- it takes at most three bytes for each of the `max` that are read.
pub sanitize_for_log-IsPlain :
    (s : Bytes) (max : ℕ)
    → All IsPlain (sanitize_for_log s max) × (length (sanitize_for_log s max) ≤ 3 * max)
unfolding sanitize_for_log
sanitize_for_log-IsPlain s max = (
  drop_runes-IsPlain drops 0 (if ltb max (length s) then take max s else s) (λ r h. ground arith),
  omega (
    arith,
    length-drop_runes-le drops 0 (if ltb max (length s) then take max s else s),
    length-cut,
  ),
)
  where
    length-cut : length (if ltb max (length s) then take max s else s) ≤ max
    length-cut = ground (arith, length-take-le max s)

-- The result can be three times as long as `max`: an invalid byte of the input is written as the
-- three bytes of U+FFFD.
pub sanitize_for_log-invalid :
    (n max : ℕ) → n ≤ max → length (sanitize_for_log (replicate n 0xff) max) ≡ 3 * n
unfolding sanitize_for_log
sanitize_for_log-invalid n max h = rw uncut (length-drop_runes-invalid drops n refl)
  where
    uncut : ltb max (length {A = ℕ} (replicate n 0xff)) ≡ false
    uncut = ground (arith, length-replicate {A = ℕ} n 0xff)
