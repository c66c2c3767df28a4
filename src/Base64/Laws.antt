-- ===== src/Base64/Laws.antt =====
-- The encoding is injective on bytes, gives only URL-safe digits, and has a known length.
use onetimelink.Prelude.{
  ℕ, ◌+◌, ◌*◌, ◌/◌, ◌%◌, ◌≤◌, ◌<◌, ◌≡◌, refl, List, [], ◌∷◌, All, length, arith, ◌⊎◌, ◌≢◌,
}
use onetimelink.Base64.{digit, raw_url_encode}

abbrev pub IsByte : ℕ → Type 0
IsByte b = b < 256

-- A byte of the URL-safe alphabet: a letter, a decimal digit, '-' or '_'.
abbrev pub IsUrlSafe : ℕ → Type 0
IsUrlSafe c =
    ((b'A' ≤ c) × (c ≤ b'Z'))
    ⊎ (((b'a' ≤ c) × (c ≤ b'z')) ⊎ (((b'0' ≤ c) × (c ≤ b'9')) ⊎ ((c ≡ b'-') ⊎ (c ≡ b'_'))))

digit-IsUrlSafe : (n : ℕ) → n < 64 → IsUrlSafe (digit n)
unfolding digit
digit-IsUrlSafe n h = ground arith

digit_injective : (m n : ℕ) → m < 64 → n < 64 → digit m ≡ digit n → m ≡ n
unfolding digit
digit_injective m n hm hn h = ground arith

pub raw_url_encode-IsUrlSafe : (bs : List ℕ) → All IsByte bs → All IsUrlSafe (raw_url_encode bs)
unfolding raw_url_encode
raw_url_encode-IsUrlSafe [] h = tt
raw_url_encode-IsUrlSafe (a ∷ []) (ha, _) =
    (digit-IsUrlSafe _ (omega arith), (digit-IsUrlSafe _ (omega arith), tt))
raw_url_encode-IsUrlSafe (a ∷ b ∷ []) (ha, (hb, _)) = (
  digit-IsUrlSafe _ (omega arith),
  (digit-IsUrlSafe _ (omega arith), (digit-IsUrlSafe _ (omega arith), tt)),
)
raw_url_encode-IsUrlSafe (a ∷ b ∷ c ∷ rest) (ha, (hb, (hc, h))) =
    let safe = raw_url_encode-IsUrlSafe rest h in
    (
      digit-IsUrlSafe _ (omega arith),
      (
        digit-IsUrlSafe _ (omega arith),
        (digit-IsUrlSafe _ (omega arith), (digit-IsUrlSafe _ (omega arith), safe)),
      ),
    )

-- Equal digits, in the positions where they stand in a group, carry equal bytes.
group_one :
    (a a' : ℕ)
    → IsByte a
    → IsByte a'
    → digit (a / 4) ≡ digit (a' / 4)
    → digit (a % 4 * 16) ≡ digit (a' % 4 * 16)
    → a ≡ a'
group_one a a' h h' p q = omega (
  arith,
  digit_injective (a / 4) (a' / 4) (omega arith) (omega arith) p,
  digit_injective (a % 4 * 16) (a' % 4 * 16) (omega arith) (omega arith) q,
)

group_two :
    (a b a' b' : ℕ)
    → (IsByte a × IsByte b) × (IsByte a' × IsByte b')
    → digit (a / 4) ≡ digit (a' / 4)
    → digit (a % 4 * 16 + b / 16) ≡ digit (a' % 4 * 16 + b' / 16)
    → digit (b % 16 * 4) ≡ digit (b' % 16 * 4)
    → (a ≡ a') × (b ≡ b')
group_two a b a' b' h p q r = omega (
  arith,
  digit_injective (a / 4) (a' / 4) (omega arith) (omega arith) p,
  digit_injective _ _ (omega arith) (omega arith) q,
  digit_injective (b % 16 * 4) (b' % 16 * 4) (omega arith) (omega arith) r,
)

group_three :
    (a b c a' b' c' : ℕ)
    → (IsByte a × IsByte b × IsByte c) × (IsByte a' × IsByte b' × IsByte c')
    → digit (a / 4) ≡ digit (a' / 4)
    → digit (a % 4 * 16 + b / 16) ≡ digit (a' % 4 * 16 + b' / 16)
    → digit (b % 16 * 4 + c / 64) ≡ digit (b' % 16 * 4 + c' / 64)
    → digit (c % 64) ≡ digit (c' % 64)
    → (a ≡ a') × (b ≡ b') × (c ≡ c')
group_three a b c a' b' c' h p q r s = omega (
  arith,
  digit_injective (a / 4) (a' / 4) (omega arith) (omega arith) p,
  digit_injective _ _ (omega arith) (omega arith) q,
  digit_injective _ _ (omega arith) (omega arith) r,
  digit_injective (c % 64) (c' % 64) (omega arith) (omega arith) s,
)

-- Different byte strings have different encodings, also where their lengths differ.
pub raw_url_encode_injective :
    (xs ys : List ℕ)
    → All IsByte xs
    → All IsByte ys
    → raw_url_encode xs ≡ raw_url_encode ys
    → xs ≡ ys
unfolding raw_url_encode
raw_url_encode_injective [] [] hx hy e = refl
raw_url_encode_injective (a ∷ []) (a' ∷ []) (ha, _) (ha', _) e =
    cc (group_one a a' ha ha' (cc) (cc))
raw_url_encode_injective (a ∷ b ∷ []) (a' ∷ b' ∷ []) (ha, (hb, _)) (ha', (hb', _)) e =
    let (p, q) = group_two a b a' b' ((ha, hb), (ha', hb')) (cc) (cc) (cc) in cc
raw_url_encode_injective (a ∷ b ∷ c ∷ xs) (a' ∷ b' ∷ c' ∷ ys) (ha, (hb, (hc, hx)))
      (ha', (hb', (hc', hy))) e =
    let (p, q, r) =
      group_three a b c a' b' c' ((ha, hb, hc), (ha', hb', hc')) (cc) (cc) (cc) (cc) in
    cc (raw_url_encode_injective xs ys hx hy (cc))
raw_url_encode_injective [] (a' ∷ []) hx hy e = cc
raw_url_encode_injective [] (a' ∷ b' ∷ []) hx hy e = cc
raw_url_encode_injective [] (a' ∷ b' ∷ c' ∷ ys) hx hy e = cc
raw_url_encode_injective (a ∷ []) [] hx hy e = cc
raw_url_encode_injective (a ∷ []) (a' ∷ b' ∷ []) hx hy e = cc
raw_url_encode_injective (a ∷ []) (a' ∷ b' ∷ c' ∷ ys) hx hy e = cc
raw_url_encode_injective (a ∷ b ∷ []) [] hx hy e = cc
raw_url_encode_injective (a ∷ b ∷ []) (a' ∷ []) hx hy e = cc
raw_url_encode_injective (a ∷ b ∷ []) (a' ∷ b' ∷ c' ∷ ys) hx hy e = cc
raw_url_encode_injective (a ∷ b ∷ c ∷ xs) [] hx hy e = cc
raw_url_encode_injective (a ∷ b ∷ c ∷ xs) (a' ∷ []) hx hy e = cc
raw_url_encode_injective (a ∷ b ∷ c ∷ xs) (a' ∷ b' ∷ []) hx hy e = cc

-- The length: four digits for three bytes, rounded up.
pub length-raw_url_encode : (bs : List ℕ) → length (raw_url_encode bs) ≡ (length bs * 4 + 2) / 3
unfolding raw_url_encode
length-raw_url_encode [] = refl
length-raw_url_encode (a ∷ []) = refl
length-raw_url_encode (a ∷ b ∷ []) = refl
length-raw_url_encode (a ∷ b ∷ c ∷ rest) = omega (arith, length-raw_url_encode rest)

pub raw_url_encode-ne_nil : (bs : List ℕ) → bs ≢ [] → raw_url_encode bs ≢ []
unfolding raw_url_encode
raw_url_encode-ne_nil [] ne = absurd (ne refl)
raw_url_encode-ne_nil (a ∷ []) ne = λ e. cc
raw_url_encode-ne_nil (a ∷ b ∷ []) ne = λ e. cc
raw_url_encode-ne_nil (a ∷ b ∷ c ∷ rest) ne = λ e. cc
