-- ===== src/TokenDb/Tests.antt =====
-- Loading and asking a small token database, with a hash that keeps the text.
use onetimelink.Prelude.{
  All, List, Bool, Option, replicate, some, arith, ◌≡◌, ap, false, if◌then◌else◌, true, ◌∷◌, [],
  length, none, refl, ◌↔◌,
}
use onetimelink.Prelude.Text.{Bytes, codes, contains, str_eq, has_prefix, utf8, contains_any}
use onetimelink.Store.{StoreEntry, zero_entry}
use onetimelink.TokenDb.{find_token, is_authorized, knows, AuthToken, scan, TokenDb, make_token_db}
use onetimelink.TokenDb.Load.{IsUsable, make_token_db-IsUsable}
use onetimelink.TokenDb.Find.{last_email, Listed, is_authorized-knows, knows-Listed}

abbrev key : Bytes
key = replicate 16 107

abbrev mallory : Bytes
mallory = replicate 16 109

abbrev tokens : List AuthToken
tokens = record { token = key; email = codes "a@b" } ∷ []

-- The file `x` holds the one token.
abbrev unmarshal : Bytes → Option TokenDb
unmarshal b = if str_eq b (codes "x") then some (some tokens) else none

abbrev parses : Bytes → Bool
parses s = contains s (codes "@")

abbrev sha256 : Bytes → Bytes
sha256 s = s

tokens-IsUsable : All (IsUsable parses) tokens
unfolding has_prefix utf8 contains_any contains
tokens-IsUsable = (
  record {
    long = omega arith;
    named = λ e. omega (arith, ap length e);
    no_dash = refl;
    no_blank = refl;
    address = refl;
  },
  tt,
)

make_token_db-IsUsable_example :
    ((db : List AuthToken)
      → unmarshal (codes "x") ≡ some (some db)
      → (make_token_db unmarshal parses (codes "x") ≡ some db) ↔ All (IsUsable parses) db)
    × ((db : List AuthToken)
        → make_token_db unmarshal parses (codes "x") ≡ some db
        → (unmarshal (codes "x") ≡ some (some db)) × All (IsUsable parses) db)
make_token_db-IsUsable_example = make_token_db-IsUsable unmarshal parses (codes "x")

knows-Listed_example : (knows sha256 (some tokens) mallory ≡ true) ↔ Listed mallory tokens
knows-Listed_example = knows-Listed sha256 parses tokens tokens-IsUsable mallory (λ e. e, tt)

abbrev posted : StoreEntry
posted = record zero_entry { secret = codes "s"; auth_token = key }

is_authorized-knows_example :
    ((is_authorized sha256 (some tokens) posted).1 ≡ knows sha256 (some tokens) key)
    × ((is_authorized sha256 (some tokens) posted).1 ≡ true
        → (is_authorized sha256 (some tokens) posted).0
          ≡ record posted { auth_token = last_email key [] tokens })
    × ((is_authorized sha256 (some tokens) posted).1 ≡ false
        → (is_authorized sha256 (some tokens) posted).0 ≡ posted)
is_authorized-knows_example =
    is_authorized-knows sha256 parses tokens tokens-IsUsable posted (λ e. e, tt)

-- The answers at these inputs.
asked :
    ((is_authorized sha256 (some tokens) posted).0.auth_token ≡ codes "a@b")
    × (knows sha256 (some tokens) mallory ≡ false)
unfolding is_authorized find_token scan knows str_eq
asked = (refl, refl)
