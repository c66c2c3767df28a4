-- ===== src/Prelude/Utf8.antt =====
-- Go's reading of a string as UTF-8 (utf8.DecodeRuneInString, range, strings.Map): an invalid byte is
-- read as U+FFFD of width 1, and written as the three bytes of that rune.
use onetimelink.Prelude.{
  ℕ, Bool, if◌then◌else◌, leb, length, suc, ◌∷◌, [], ltb, ◌%◌, ◌&&◌, ◌==◌, ◌≤◌, ◌*◌, ◌++◌, arith,
  ◌+◌, ◌-◌, zero, length-append, ◌≡◌, ◌≢◌, All, false, Bool-cases, replicate, inl, refl, inr,
  All-append,
}
use onetimelink.Prelude.Text.{rune_bytes, Bytes}

abbrev pub rune_error : ℕ
rune_error = 0xfffd

abbrev pub is_between : ℕ → ℕ → ℕ → Bool
is_between lo hi b = leb lo b && leb b hi

abbrev bad : ℕ × ℕ
bad = (rune_error, 1)

-- A rune of two, three or four bytes: its value and width, from its first byte and what follows.
unfoldable pub decode_two : ℕ → Bytes → ℕ × ℕ
decode_two b0 (b1 ∷ s) = if is_between 0x80 0xbf b1 then (b0 % 32 * 64 + b1 % 64, 2) else bad
decode_two b0 [] = bad

unfoldable pub decode_three : ℕ → Bytes → ℕ × ℕ
decode_three b0 (b1 ∷ b2 ∷ s) =
    if is_between (if b0 == 0xe0 then 0xa0 else 0x80) (if b0 == 0xed then 0x9f else 0xbf) b1
      && is_between 0x80 0xbf b2
    then (b0 % 16 * 4096 + b1 % 64 * 64 + b2 % 64, 3)
    else bad
decode_three b0 (b1 ∷ []) = bad
decode_three b0 [] = bad

unfoldable pub decode_four : ℕ → Bytes → ℕ × ℕ
decode_four b0 (b1 ∷ b2 ∷ b3 ∷ s) =
    if is_between (if b0 == 0xf0 then 0x90 else 0x80) (if b0 == 0xf4 then 0x8f else 0xbf) b1
      && (is_between 0x80 0xbf b2 && is_between 0x80 0xbf b3)
    then (b0 % 8 * 262144 + b1 % 64 * 4096 + b2 % 64 * 64 + b3 % 64, 4)
    else bad
decode_four b0 (b1 ∷ b2 ∷ []) = bad
decode_four b0 (b1 ∷ []) = bad
decode_four b0 [] = bad

-- The first rune of a string and its width.
unfoldable pub decode_rune : ℕ → Bytes → ℕ × ℕ
decode_rune b0 s =
    if ltb b0 0x80
    then (b0, 1)
    else if is_between 0xc2 0xdf b0
    then decode_two b0 s
    else if is_between 0xe0 0xef b0
    then decode_three b0 s
    else if is_between 0xf0 0xf4 b0
    then decode_four b0 s
    else bad

-- strings.Map for a mapping that keeps a rune or drops it. `skip` counts the bytes that the rune
-- before has taken.
unfoldable pub drop_runes : (ℕ → Bool) → ℕ → Bytes → Bytes
drop_runes drops skip [] = []
drop_runes drops (suc skip) (b ∷ s) = drop_runes drops skip s
drop_runes drops zero (b ∷ s) =
    let (rune, width) = decode_rune b s in
    (if drops rune then [] else rune_bytes rune) ++ drop_runes drops (width - 1) s

-- A rune that is written takes at most three bytes for each byte that it was read from.
length-rune_bytes-le :
    (b : ℕ) (s : Bytes) → length (rune_bytes (decode_rune b s).0) ≤ 3 * (decode_rune b s).1
unfolding decode_rune rune_bytes decode_two decode_three decode_four
length-rune_bytes-le b [] = ground arith
length-rune_bytes-le b (b1 ∷ []) = ground arith
length-rune_bytes-le b (b1 ∷ b2 ∷ []) = ground arith
length-rune_bytes-le b (b1 ∷ b2 ∷ b3 ∷ s) = ground arith

decode_rune-width :
    (b : ℕ) (s : Bytes) → (1 ≤ (decode_rune b s).1) × ((decode_rune b s).1 ≤ suc (length s))
unfolding decode_rune decode_two decode_three decode_four
decode_rune-width b [] = ground arith
decode_rune-width b (b1 ∷ []) = ground arith
decode_rune-width b (b1 ∷ b2 ∷ []) = ground arith
decode_rune-width b (b1 ∷ b2 ∷ b3 ∷ s) = ground arith

length-written-le :
    (c : Bool) (bs : Bytes) (n : ℕ) → length bs ≤ n → length (if c then [] else bs) ≤ n
length-written-le c bs n h = ground arith

pub length-drop_runes-le :
    (c : ℕ → Bool) (skip : ℕ) (s : Bytes) → length (drop_runes c skip s) ≤ 3 * (length s - skip)
unfolding drop_runes
length-drop_runes-le c skip [] = omega arith
length-drop_runes-le c (suc skip) (b ∷ s) = omega (arith, length-drop_runes-le c skip s)
length-drop_runes-le c zero (b ∷ s) = omega (
  arith,
  length-append (if c (decode_rune b s).0 then [] else rune_bytes (decode_rune b s).0)
      (drop_runes c ((decode_rune b s).1 - 1) s),
  length-written-le (c (decode_rune b s).0) (rune_bytes (decode_rune b s).0)
      (3 * (decode_rune b s).1) (length-rune_bytes-le b s),
  length-drop_runes-le c ((decode_rune b s).1 - 1) s,
  decode_rune-width b s,
)

-- A byte that is no ASCII control character.
abbrev pub IsPlain : ℕ → Type 0
IsPlain b = (32 ≤ b) × (b ≢ 127)

rune_bytes-IsPlain : (r : ℕ) → 32 ≤ r → r ≢ 127 → All IsPlain (rune_bytes r)
unfolding rune_bytes
rune_bytes-IsPlain r h k = ground arith

-- If the mapping drops the ASCII control characters, none is in the result.
pub drop_runes-IsPlain :
    (c : ℕ → Bool) (skip : ℕ) (s : Bytes)
    → ((r : ℕ) → c r ≡ false → (32 ≤ r) × (r ≢ 127))
    → All IsPlain (drop_runes c skip s)
unfolding drop_runes
drop_runes-IsPlain c skip [] h = tt
drop_runes-IsPlain c (suc skip) (b ∷ s) h = drop_runes-IsPlain c skip s h
drop_runes-IsPlain c zero (b ∷ s) h =
    All-append IsPlain (if c (decode_rune b s).0 then [] else rune_bytes (decode_rune b s).0)
      (drop_runes c ((decode_rune b s).1 - 1) s) written
      (drop_runes-IsPlain c ((decode_rune b s).1 - 1) s h)
  where
    written : All IsPlain (if c (decode_rune b s).0 then [] else rune_bytes (decode_rune b s).0)
    written = elim (Bool-cases (c (decode_rune b s).0)) [
      | inl gone ↦ rw gone tt
      | inr stays ↦
          let (high, other) = h (decode_rune b s).0 stays in
          rw stays (rune_bytes-IsPlain (decode_rune b s).0 high other)
    ]

-- Invalid bytes, each of which is written as three.
pub length-drop_runes-invalid :
    (c : ℕ → Bool) (n : ℕ)
    → c rune_error ≡ false
    → length (drop_runes c 0 (replicate n 0xff)) ≡ 3 * n
unfolding drop_runes decode_rune rune_bytes
length-drop_runes-invalid c zero h = refl
length-drop_runes-invalid c (suc n) h = rw h (omega (arith, length-drop_runes-invalid c n h))
