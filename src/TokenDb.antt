-- ===== src/TokenDb.antt =====
-- tokendb/auth.go. Of the standard library `unmarshal` is json.Unmarshal into the token list (none is
-- its error, and some none the nil slice that the text `null` gives), `parses` says whether
-- mail.ParseAddress accepts a text, and `sha256` is the hash; subtle.ConstantTimeCompare of two hashes
-- is equality.
pub mod Load
pub mod Find
mod Tests
use onetimelink.Prelude.{
  List, Option, ℕ, Bool, [], ◌∷◌, if◌then◌else◌, some, true, false, none, not, ltb, length,
}
use onetimelink.Prelude.Text.{Bytes, str_eq}
use onetimelink.Store.{StoreEntry}
use onetimelink.Misc.Validate.{valid_email}

abbrev pub min_token_len : ℕ
min_token_len = 16

pub record AuthToken : Type 0 where
  pub token : Bytes
  pub email : Bytes

-- A slice of tokens, or nil.
abbrev pub TokenDb : Type 0
TokenDb = Option (List AuthToken)

-- `for range db`: a nil slice has no elements.
abbrev pub elements : TokenDb → List AuthToken
elements none = []
elements (some tokens) = tokens

-- The checks that MakeTokenDB makes of one entry, in their order.
unfoldable pub check_entry : (Bytes → Bool) → AuthToken → Bool
check_entry parses entry =
    if str_eq entry.token []
    then false
    else if str_eq entry.email []
    then false
    else if not (valid_email parses entry.email)
    then false
    else if ltb (length entry.token) min_token_len
    then false
    else true

-- The loop of MakeTokenDB: it gives up at the first entry that fails.
unfoldable pub check_entries : (Bytes → Bool) → List AuthToken → Bool
check_entries parses [] = true
check_entries parses (entry ∷ rest) =
    if check_entry parses entry then check_entries parses rest else false

unfoldable pub make_token_db : (Bytes → Option TokenDb) → (Bytes → Bool) → Bytes → TokenDb
make_token_db unmarshal parses b = elim (unmarshal b) [
  | none ↦ none
  | some tokens ↦ if check_entries parses (elements tokens) then tokens else none
]

-- The loop of findToken: it goes through the whole list, so the last match counts.
unfoldable pub scan : (Bytes → Bytes) → Bytes → Bytes → List AuthToken → Bytes
scan sha256 want email [] = email
scan sha256 want email (i ∷ rest) =
    scan sha256 want (if str_eq want (sha256 i.token) then i.email else email) rest

unfoldable pub find_token : (Bytes → Bytes) → TokenDb → Bytes → Bytes
find_token sha256 db token = scan sha256 (sha256 token) [] (elements db)

-- The entry that IsAuthorized leaves behind its pointer, and its result.
unfoldable pub is_authorized : (Bytes → Bytes) → TokenDb → StoreEntry → StoreEntry × Bool
is_authorized sha256 db entry =
    if str_eq entry.auth_token []
    then (entry, false)
    else let email = find_token sha256 db entry.auth_token in
      if str_eq email [] then (entry, false) else (record entry { auth_token = email }, true)

unfoldable pub knows : (Bytes → Bytes) → TokenDb → Bytes → Bool
knows sha256 db token =
    if str_eq token [] then false else not (str_eq (find_token sha256 db token) [])
