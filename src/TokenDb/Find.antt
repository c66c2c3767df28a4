-- ===== src/TokenDb/Find.antt =====
-- findToken, IsAuthorized and Knows against the list of tokens, where the presented token's hash
-- collides with no other listed one.
use onetimelink.Prelude.Text.{Bytes, str_eq, eq_of_str_eq, str_eq_refl, str_eq_iff}
use onetimelink.TokenDb.{find_token, scan, AuthToken, is_authorized, knows}
use onetimelink.Prelude.{
  List, All, some, ◌∷◌, ◌≡◌, [], if◌then◌else◌, Bool-cases, inl, inr, arith, refl, Bool, ◌⊎◌, ◌≢◌,
  ap, true, ◌↔◌, false, length,
}
use onetimelink.TokenDb.Load.{IsUsable}
use onetimelink.Store.{StoreEntry}

-- No listed token other than `token` has its hash.
abbrev pub NoCollision : (Bytes → Bytes) → Bytes → List AuthToken → Type 0
NoCollision sha256 token tokens = All (λ i. sha256 token ≡ sha256 i.token → token ≡ i.token) tokens

-- The address of the last entry with a token, or the given text if there is none.
abbrev pub last_email : Bytes → Bytes → List AuthToken → Bytes
last_email token email [] = email
last_email token email (i ∷ rest) =
    last_email token (if str_eq token i.token then i.email else email) rest

scan-last_email :
    (sha256 : Bytes → Bytes) (token email : Bytes) (tokens : List AuthToken)
    → NoCollision sha256 token tokens
    → scan sha256 (sha256 token) email tokens ≡ last_email token email tokens
unfolding scan
scan-last_email sha256 token email [] h = refl
scan-last_email sha256 token email (i ∷ rest) h =
    rw same
      (scan-last_email sha256 token (if str_eq token i.token then i.email else email) rest h.1)
  where
    same : str_eq (sha256 token) (sha256 i.token) ≡ str_eq token i.token
    same = elim (Bool-cases (str_eq token i.token)) [
      | inl hit ↦ rw (hit, eq_of_str_eq token i.token hit) (str_eq_refl (sha256 i.token))
      | inr miss ↦
          ground (arith, h.0, str_eq_iff (sha256 token) (sha256 i.token), str_eq_iff token i.token)
    ]

-- findToken gives the address of the last entry with the token, and the empty text if none has it.
pub find_token-last_email :
    (sha256 : Bytes → Bytes) (tokens : List AuthToken) (token : Bytes)
    → NoCollision sha256 token tokens
    → find_token sha256 (some tokens) token ≡ last_email token [] tokens
unfolding find_token
find_token-last_email sha256 tokens token h = scan-last_email sha256 token [] tokens h

-- A token stands in the list.
abbrev pub Listed : Bytes → List AuthToken → Type 0
Listed token [] = ⊥
Listed token (i ∷ rest) = (token ≡ i.token) ⊎ Listed token rest

-- The loop never goes back to the empty text.
last_email-ne_nil :
    (parses : Bytes → Bool) (token email : Bytes) (tokens : List AuthToken)
    → All (IsUsable parses) tokens
    → email ≢ []
    → last_email token email tokens ≢ []
last_email-ne_nil parses token email [] u h = h
last_email-ne_nil parses token email (i ∷ rest) u h =
    last_email-ne_nil parses token (if str_eq token i.token then i.email else email) rest u.1
      (ground (arith, u.0.named))

last_email-Listed :
    (parses : Bytes → Bool) (token : Bytes) (tokens : List AuthToken)
    → All (IsUsable parses) tokens
    → (last_email token [] tokens ≢ []) ↔ Listed token tokens
last_email-Listed parses token [] u = (λ h. h refl, λ h. absurd h)
last_email-Listed parses token (i ∷ rest) u = elim (Bool-cases (str_eq token i.token)) [
  | inl hit ↦ rw hit (
    λ h. inl (eq_of_str_eq token i.token hit),
    λ h. last_email-ne_nil parses token i.email rest u.1 u.0.named,
  )
  | inr miss ↦
      let (to, from) = last_email-Listed parses token rest u.1 in
      rw miss (λ h. inr (to h), λ h. from (ground (arith, str_eq_iff token i.token)))
]

Listed-ne_nil :
    (parses : Bytes → Bool) (token : Bytes) (tokens : List AuthToken)
    → All (IsUsable parses) tokens
    → Listed token tokens
    → token ≢ []
Listed-ne_nil parses token [] u h = absurd h
Listed-ne_nil parses token (i ∷ rest) u (inl here) =
    λ e. omega (arith, u.0.long, ap length here, ap length e)
Listed-ne_nil parses token (i ∷ rest) u (inr later) = Listed-ne_nil parses token rest u.1 later

module _ (sha256 : Bytes → Bytes) (parses : Bytes → Bool) (tokens : List AuthToken)
    (usable : All (IsUsable parses) tokens) where
  -- Knows accepts exactly the tokens of the loaded database.
  pub knows-Listed :
      (token : Bytes)
      → NoCollision sha256 token tokens
      → (knows sha256 (some tokens) token ≡ true) ↔ Listed token tokens
  unfolding knows
  knows-Listed token h =
      let found = find_token-last_email sha256 tokens token h in
      let (to, from) = last_email-Listed parses token tokens usable in
      (
        λ k. to (ground (arith, str_eq_iff token [], str_eq_iff (last_email token [] tokens) [])),
        λ l. ground (
          arith,
          from l,
          Listed-ne_nil parses token tokens usable l,
          str_eq_iff token [],
          str_eq_iff (last_email token [] tokens) [],
        ),
      )

  -- IsAuthorized accepts an entry exactly when Knows accepts its token. It then puts the address in
  -- the token's place and touches nothing else; a refused entry it leaves as it was.
  pub is_authorized-knows :
      (entry : StoreEntry)
      → NoCollision sha256 entry.auth_token tokens
      → ((is_authorized sha256 (some tokens) entry).1 ≡ knows sha256 (some tokens) entry.auth_token)
        × ((is_authorized sha256 (some tokens) entry).1 ≡ true
            → (is_authorized sha256 (some tokens) entry).0
              ≡ record entry { auth_token = last_email entry.auth_token [] tokens })
        × ((is_authorized sha256 (some tokens) entry).1 ≡ false
            → (is_authorized sha256 (some tokens) entry).0 ≡ entry)
  unfolding is_authorized knows
  is_authorized-knows entry h =
      let found = find_token-last_email sha256 tokens entry.auth_token h in
      (ground arith, λ k. ground arith, λ k. ground arith)
