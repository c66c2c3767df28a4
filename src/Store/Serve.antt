-- ===== src/Store/Serve.antt =====
-- store/store.go: makeInfo, GetEntryInfo, GetEntryInfoHidden and Claim.
use onetimelink.Prelude.{◌+◌, ◌%◌, ◌^◌, Bool, true, false, none, some, ◌++◌, if◌then◌else◌}
use onetimelink.Prelude.Int.{pos, ◌+ℤ◌, wrap, ltb_ℤ}
use onetimelink.Prelude.Text.{Bytes, utf8}
use onetimelink.Prelude.GoMap.{GoMap, lookup, insert, delete}
use onetimelink.Store.{StoreEntry, StoreEntryInfo, SecretStore, zero_info, hidden_string, get_entry}

unfoldable pub make_info : StoreEntry → Bytes → Bytes → Bytes → Bytes → StoreEntryInfo
make_info entry id urlbase urlget urlapiget =
    let path_query = urlget ++ (utf8 "?id=" ++ id) in
    record {
      entry = entry;
      id = id;
      path_query = path_query;
      url = urlbase ++ path_query;
      api_url = urlbase ++ (urlapiget ++ id);
    }

unfoldable pub get_entry_info : SecretStore → Bytes → Bytes → Bytes → Bytes → StoreEntryInfo × Bool
get_entry_info st id urlbase urlget urlapiget =
    let (entry, found) = get_entry st id in (make_info entry id urlbase urlget urlapiget, found)

unfoldable pub get_entry_info_hidden :
    SecretStore → Bytes → Bytes → Bytes → Bytes → StoreEntryInfo × Bool
get_entry_info_hidden st id urlbase urlget urlapiget =
    let (si, found) = get_entry_info st id urlbase urlget urlapiget in
    (record si { entry = record (si.entry) { secret = hidden_string } }, found)

-- entry.Clicks++ on an int
unfoldable pub click : StoreEntry → StoreEntry
click e = record e { clicks = wrap (e.clicks +ℤ pos 1) }

-- The entry goes back under its id until its last click is used up.
unfoldable pub put_back : Bytes → StoreEntry → GoMap StoreEntry → GoMap StoreEntry
put_back id entry entries =
    if ltb_ℤ entry.clicks entry.max_clicks then insert id entry entries else delete id entries

unfoldable pub claim :
    SecretStore → Bytes → Bytes → Bytes → Bytes → SecretStore × (StoreEntryInfo × Bool)
claim st id urlbase urlget urlapiget = elim (lookup id st.entries) [
  | none ↦ (st, (zero_info, false))
  | some found ↦
      let entry = click found in
      (
        record st { entries = put_back id entry st.entries; claimed = (st.claimed + 1) % 2 ^ 64 },
        (make_info entry id urlbase urlget urlapiget, true),
      )
]
