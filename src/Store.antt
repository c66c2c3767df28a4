-- ===== src/Store.antt =====
-- store/store.go: the types of package store and the operations of SecretStore. Each operation
-- holds the store's mutex from its first read to its last write, so it is one function from the
-- store before to the store after and the results. Time and random bytes are arguments.
pub mod Serve
pub mod Expire
pub mod Report
pub mod History
pub mod Lookup
pub mod Valid
pub mod Accept
pub mod Memory
pub mod Ids
pub mod Reads
pub mod Mutex
mod Tests
pub mod Lifetime
pub mod Ticks
pub mod Counters
pub mod Metadata
use onetimelink.Prelude.{
  ℕ, zero, suc, ◌+◌, ◌%◌, ◌^◌, Bool, true, false, not, ◌&&◌, Option, none, some, List, [], length,
  ltb, if◌then◌else◌,
}
use onetimelink.Prelude.Int.{ℤ, pos, leb_ℤ}
use onetimelink.Prelude.Text.{Bytes, utf8, str_eq}
use onetimelink.Prelude.GoMap.{GoMap, is_some, lookup, insert}
use onetimelink.Prelude.Result.{Result, ok, err}
use onetimelink.Prelude.Clock.{Time, zero_time}
use onetimelink.Base64.{raw_url_encode}

abbrev pub hidden_string : Bytes
hidden_string = utf8 "#HIDDEN#"

abbrev pub default_validity : ℤ
default_validity = pos 7

abbrev pub default_max_clicks : ℤ
default_max_clicks = pos 1

abbrev pub id_bytes : ℕ
id_bytes = 32

abbrev pub default_max_entries : ℤ
default_max_entries = pos 256

abbrev pub max_secret_len : ℕ
max_secret_len = 4096

pub data StoreError : Type 0 where
  store_full secret_too_long empty_secret : StoreError
  -- crypto/rand failed, and "could not generate a free id"
  rand_failed no_free_id : StoreError

pub record StoreEntry : Type 0 where
  pub secret : Bytes
  pub max_clicks : ℤ
  pub clicks : ℤ
  pub date_added : Time
  pub valid_for : ℤ
  pub auth_token : Bytes

-- The zero value of StoreEntry.
abbrev pub zero_entry : StoreEntry
zero_entry = record {
  secret = [];
  max_clicks = pos 0;
  clicks = pos 0;
  date_added = zero_time;
  valid_for = pos 0;
  auth_token = [];
}

pub record StoreEntryInfo : Type 0 where
  pub entry : StoreEntry
  pub open entry use *
  pub id : Bytes
  pub path_query : Bytes
  pub url : Bytes
  pub api_url : Bytes

abbrev pub zero_info : StoreEntryInfo
zero_info = record { entry = zero_entry; id = []; path_query = []; url = []; api_url = [] }

-- The counters are uint64.
pub record SecretStore : Type 0 where
  pub entries : GoMap StoreEntry
  pub max_entries : ℤ
  pub created : ℕ
  pub claimed : ℕ
  pub expired : ℕ

unfoldable pub new : ℤ → SecretStore
new max_entries = record {
  entries = [];
  max_entries = if leb_ℤ max_entries (pos 0) then default_max_entries else max_entries;
  created = 0;
  claimed = 0;
  expired = 0;
}

-- The outcome of one rand.Read of `id_bytes` bytes: none is its error.
unfoldable pub new_id : Option (List ℕ) → Result StoreError Bytes
new_id none = err rand_failed
new_id (some b) = ok (raw_url_encode b)

-- The loop of AddEntry over `rounds` candidates; `draws i` is the outcome of the i-th rand.Read.
-- It ends with the empty id when every candidate was taken.
unfoldable pub find_id : GoMap StoreEntry → (ℕ → Option (List ℕ)) → ℕ → ℕ → Result StoreError Bytes
find_id entries draws zero i = ok []
find_id entries draws (suc rounds) i =
    let again = find_id entries draws rounds (suc i) in
    elim (new_id (draws i)) [
      | err e ↦ err e
      | ok candidate ↦ if is_some (lookup candidate entries) then again else ok candidate
    ]

-- The id to store under: the given one, or a fresh one if that is empty.
unfoldable pub choose_id :
    GoMap StoreEntry → Bytes → (ℕ → Option (List ℕ)) → Result StoreError Bytes
choose_id entries id draws =
    if not (str_eq id []) then ok id else elim (find_id entries draws 10 0) [
      | err e ↦ err e
      | ok found ↦ if str_eq found [] then err no_free_id else ok found
    ]

-- What AddEntry stores: the entry with its date, no clicks, and defaults for what is not positive.
unfoldable pub normalise : StoreEntry → Time → StoreEntry
normalise e now = record e {
  date_added = now;
  clicks = pos 0;
  valid_for = if leb_ℤ e.valid_for (pos 0) then default_validity else e.valid_for;
  max_clicks = if leb_ℤ e.max_clicks (pos 0) then default_max_clicks else e.max_clicks;
}

-- The end of AddEntry, once the id is known: the capacity check and the write.
unfoldable pub store_under :
    SecretStore → StoreEntry → Bytes → SecretStore × Result StoreError Bytes
store_under st e id =
    if not (is_some (lookup id st.entries)) && leb_ℤ st.max_entries (pos (length st.entries))
    then (st, err store_full)
    else (
      record st { entries = insert id e st.entries; created = (st.created + 1) % 2 ^ 64 },
      ok id,
    )

unfoldable pub add_entry :
    SecretStore
    → StoreEntry
    → Bytes
    → Time
    → (ℕ → Option (List ℕ))
    → SecretStore × Result StoreError Bytes
add_entry st e id now draws =
    if str_eq e.secret []
    then (st, err empty_secret)
    else if ltb max_secret_len (length e.secret)
    then (st, err secret_too_long)
    else elim (choose_id st.entries id draws) [
      | err x ↦ (st, err x)
      | ok chosen ↦ store_under st (normalise e now) chosen
    ]

unfoldable pub new_entry :
    SecretStore
    → Bytes
    → ℤ
    → ℤ
    → Bytes
    → Bytes
    → Time
    → (ℕ → Option (List ℕ))
    → SecretStore × Result StoreError Bytes
new_entry st secret maxclicks validfor at id now draws =
    add_entry st
      (record zero_entry {
        secret = secret;
        max_clicks = maxclicks;
        valid_for = validfor;
        auth_token = at;
      })
      id now draws

unfoldable pub get_entry : SecretStore → Bytes → StoreEntry × Bool
get_entry st id = elim (lookup id st.entries) [ none ↦ (zero_entry, false) | some e ↦ (e, true) ]

-- Len
abbrev pub len : SecretStore → ℕ
len st = length st.entries
