-- ===== src/Prelude/Parse.antt =====
-- What the program uses of Go's strings.TrimSpace, strconv.Atoi and path.Base.
use onetimelink.Prelude.{
  Bool, ℕ, All, Option, if◌then◌else◌, suc, true, ◌++◌, ◌∷◌, ◌≡◌, ◌≢◌, [], some, sym, ◌==◌, ◌||◌,
  arith, leb, none, ◌&&◌, ◌*◌, ◌-◌, false, zero, ◌+◌, ◌^◌, refl, ltb,
}
use onetimelink.Prelude.Text.{Bytes, str_eq, utf8, str_eq_iff}
use onetimelink.Prelude.Utf8.{is_between, decode_rune}
use onetimelink.Prelude.Int.{ℤ, sub_ℕ, pos}
use mathlib.Core.List.{append-nil, append_assoc}
use mathlib.Core.Path.{subst}

-- unicode.IsSpace
abbrev pub is_space : ℕ → Bool
is_space r =
    is_between 9 13 r
    || (r == 32
        || (r == 0x85
            || (r == 0xa0
                || (r == 0x1680
                    || (is_between 0x2000 0x200a r
                        || (r == 0x2028
                            || (r == 0x2029 || (r == 0x202f || (r == 0x205f || r == 0x3000)))))))))

-- In these three `skip` counts the bytes that the rune before has taken.
unfoldable pub trim_left : ℕ → Bytes → Bytes
trim_left skip [] = []
trim_left (suc skip) (b ∷ s) = trim_left skip s
trim_left zero (b ∷ s) =
    let (rune, width) = decode_rune b s in
    let rest = trim_left (width - 1) s in if is_space rune then rest else b ∷ s

unfoldable pub all_space : ℕ → Bytes → Bool
all_space skip [] = true
all_space (suc skip) (b ∷ s) = all_space skip s
all_space zero (b ∷ s) =
    let (rune, width) = decode_rune b s in is_space rune && all_space (width - 1) s

unfoldable pub trim_right : ℕ → Bytes → Bytes
trim_right skip [] = []
trim_right (suc skip) (b ∷ s) = b ∷ trim_right skip s
trim_right zero (b ∷ s) =
    let (rune, width) = decode_rune b s in
    let rest = trim_right (width - 1) s in
    if is_space rune && all_space (width - 1) s then [] else b ∷ rest

unfoldable pub trim_space : Bytes → Bytes
trim_space s = trim_right 0 (trim_left 0 s)

-- The value of decimal digits behind those that give `acc`; none if another byte stands there.
unfoldable pub digits_value : ℕ → Bytes → Option ℕ
digits_value acc [] = some acc
digits_value acc (c ∷ s) =
    let rest = digits_value (acc * 10 + (c - b'0')) s in
    if is_between b'0' b'9' c then rest else none

-- A magnitude with its sign, if an int64 holds it.
unfoldable pub signed_value : Bool → Option ℕ → Option ℤ
signed_value negative none = none
signed_value true (some n) = if leb n (2 ^ 63) then some (sub_ℕ 0 n) else none
signed_value false (some n) = if ltb n (2 ^ 63) then some (pos n) else none

unfoldable pub atoi_digits : Bool → Bytes → Option ℤ
atoi_digits negative [] = none
atoi_digits negative (c ∷ s) = signed_value negative (digits_value 0 (c ∷ s))

-- strconv.Atoi; none is its error.
unfoldable pub atoi : Bytes → Option ℤ
atoi [] = none
atoi (c ∷ s) =
    if c == b'-'
    then atoi_digits true s
    else if c == b'+'
    then atoi_digits false s
    else atoi_digits false (c ∷ s)

-- path.Base: the text behind the last slash, once the slashes at the end are gone.
unfoldable pub strip_slashes : Bytes → Bytes
strip_slashes [] = []
strip_slashes (c ∷ s) =
    let rest = strip_slashes s in if c == b'/' && str_eq rest [] then [] else c ∷ rest

unfoldable pub last_part : Bytes → Bytes → Bytes
last_part cur [] = cur
last_part cur (c ∷ s) = last_part (if c == b'/' then [] else cur ++ c ∷ []) s

unfoldable pub path_base : Bytes → Bytes
path_base path =
    if str_eq path []
    then utf8 "."
    else let part = last_part [] (strip_slashes path) in if str_eq part [] then utf8 "/" else part

abbrev pub NoSlash : Bytes → Type 0
NoSlash s = All (λ c. c ≢ b'/') s

append-ne_nil : (p s : Bytes) → s ≢ [] → p ++ s ≢ []
append-ne_nil [] s ne = ne
append-ne_nil (x ∷ p) s ne = λ e. cc

strip_slashes-append : (p id : Bytes) → id ≢ [] → NoSlash id → strip_slashes (p ++ id) ≡ p ++ id
unfolding strip_slashes
strip_slashes-append [] id ne h = strip_slashes_of_NoSlash id h
  where
    strip_slashes_of_NoSlash : (s : Bytes) → NoSlash s → strip_slashes s ≡ s
    strip_slashes_of_NoSlash [] n = refl
    strip_slashes_of_NoSlash (c ∷ s) n = ground (arith, strip_slashes_of_NoSlash s n.1)
strip_slashes-append (c ∷ p) id ne h =
    ground (arith, strip_slashes-append p id ne h, str_eq_iff (p ++ id) [], append-ne_nil p id ne)

last_part_of_NoSlash : (cur s : Bytes) → NoSlash s → last_part cur s ≡ cur ++ s
unfolding last_part
last_part_of_NoSlash cur [] h = sym (append-nil cur)
last_part_of_NoSlash cur (c ∷ s) h =
    ground (arith, last_part_of_NoSlash (cur ++ c ∷ []) s h.1, append_assoc cur (c ∷ []) s)

last_part-append : (cur p id : Bytes) → NoSlash id → last_part cur (p ++ b'/' ∷ id) ≡ id
unfolding last_part
last_part-append cur [] id h = last_part_of_NoSlash [] id h
last_part-append cur (c ∷ p) id h =
    last_part-append (if c == b'/' then [] else cur ++ c ∷ []) p id h

-- The base of a path that ends in a name is that name.
pub path_base-append : (p id : Bytes) → id ≢ [] → NoSlash id → path_base (p ++ b'/' ∷ id) ≡ id
unfolding path_base
path_base-append p id ne h =
    let whole : str_eq (p ++ b'/' ∷ id) [] ≡ false =
      ground (arith, str_eq_iff (p ++ b'/' ∷ id) [], append-ne_nil p (b'/' ∷ id) (λ e. cc)) in
    let named : str_eq id [] ≡ false = ground (arith, str_eq_iff id []) in
    rw (whole, stripped, last_part-append [] p id h, named)
  where
    stripped : strip_slashes (p ++ b'/' ∷ id) ≡ p ++ b'/' ∷ id
    stripped =
        subst (λ s. strip_slashes s ≡ s) (append_assoc p (b'/' ∷ []) id)
          (strip_slashes-append (p ++ b'/' ∷ []) id ne h)
