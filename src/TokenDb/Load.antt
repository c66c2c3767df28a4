-- ===== src/TokenDb/Load.antt =====
-- What MakeTokenDB lets through.
use onetimelink.Prelude.Text.{Bytes, str_eq, str_eq_iff, has_prefix, utf8, contains_any}
use onetimelink.TokenDb.{
  check_entries, check_entry, make_token_db, AuthToken, TokenDb, min_token_len,
}
use onetimelink.Misc.Validate.{valid_email}
use onetimelink.Prelude.{
  Bool, Option, List, ◌≡◌, some, true, ◌≤◌, Bool-cases, arith, length, ◌↔◌, All, ◌≢◌, [], ◌∷◌, inl,
  ap, inr, false, refl,
}

-- An entry that may be used: a token of at least 16 bytes, and a mail address that does not begin
-- with a dash and holds no blank or control byte that ends a field.
pub record IsUsable (parses : Bytes → Bool) (entry : AuthToken) : Type 0 where
  pub long : min_token_len ≤ length entry.token
  pub named : entry.email ≢ []
  pub no_dash : has_prefix entry.email (utf8 "-") ≡ false
  pub no_blank : contains_any entry.email (b' ' ∷ 9 ∷ 13 ∷ 10 ∷ 0 ∷ []) ≡ false
  pub address : parses entry.email ≡ true

check_entry-IsUsable :
    (parses : Bytes → Bool) (entry : AuthToken)
    → check_entry parses entry ≡ true
    → IsUsable parses entry
unfolding check_entry valid_email
check_entry-IsUsable parses entry h = record {
  long = ground arith;
  named = ground (arith, str_eq_iff entry.email []);
  no_dash = ground arith;
  no_blank = ground arith;
  address = ground arith;
}

check_entry_of_IsUsable :
    (parses : Bytes → Bool) (entry : AuthToken)
    → IsUsable parses entry
    → check_entry parses entry ≡ true
unfolding check_entry valid_email
check_entry_of_IsUsable parses entry u = elim (Bool-cases (str_eq entry.token [])) [
  | inl empty ↦ absurd (omega (arith, u.long, ap length ((str_eq_iff entry.token []).0 empty)))
  | inr ne ↦ ground (arith, str_eq_iff entry.email [])
]

check_entries-IsUsable :
    (parses : Bytes → Bool) (tokens : List AuthToken)
    → (check_entries parses tokens ≡ true) ↔ All (IsUsable parses) tokens
unfolding check_entries
check_entries-IsUsable parses [] = (λ h. tt, λ h. refl)
check_entries-IsUsable parses (entry ∷ rest) =
    let ih = check_entries-IsUsable parses rest in
    elim (Bool-cases (check_entry parses entry)) [
      | inl fine ↦ (
        λ h. (check_entry-IsUsable parses entry fine, ih.0 (ground arith)),
        λ h. rw fine (ih.1 h.1),
      )
      | inr bad ↦ (
        λ h. absurd (ground arith),
        λ h. absurd (ground (arith, check_entry_of_IsUsable parses entry h.0)),
      )
    ]

-- A database that is valid JSON loads exactly when each of its entries is usable; a single entry that
-- is not makes the whole load fail, and so does text that is not JSON.
pub make_token_db-IsUsable :
    (unmarshal : Bytes → Option TokenDb) (parses : Bytes → Bool) (b : Bytes)
    → ((tokens : List AuthToken)
        → unmarshal b ≡ some (some tokens)
        → (make_token_db unmarshal parses b ≡ some tokens) ↔ All (IsUsable parses) tokens)
      × ((tokens : List AuthToken)
          → make_token_db unmarshal parses b ≡ some tokens
          → (unmarshal b ≡ some (some tokens)) × All (IsUsable parses) tokens)
unfolding make_token_db
make_token_db-IsUsable unmarshal parses b = (
  λ tokens read. (
    λ h. (check_entries-IsUsable parses tokens).0 (ground arith),
    λ h. ground (arith, (check_entries-IsUsable parses tokens).1 h),
  ),
  λ tokens h. (ground arith, (check_entries-IsUsable parses tokens).0 (ground arith)),
)
