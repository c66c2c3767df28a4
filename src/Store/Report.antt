-- ===== src/Store/Report.antt =====
-- store/store.go: EntryMeta, Stats and SecretStore.Stats. A range over a map comes in no fixed
-- order: `visited` holds the entries in the order in which this range yields them.
use onetimelink.Prelude.{ℕ, List, [], ◌∷◌, map, length, if◌then◌else◌}
use onetimelink.Prelude.Int.{ℤ}
use onetimelink.Prelude.Text.{Bytes}
use onetimelink.Prelude.GoMap.{GoMap}
use onetimelink.Prelude.Clock.{Time, add, before}
use onetimelink.Store.{StoreEntry, SecretStore}
use onetimelink.Store.Expire.{real_exp_factor}

pub record EntryMeta : Type 0 where
  pub created : Time
  pub expires : Time
  pub clicks : ℤ
  pub max_clicks : ℤ
  pub bytes : ℕ
  pub author : Bytes

pub record Stats : Type 0 where
  pub live : ℕ
  pub max_entries : ℤ
  pub created : ℕ
  pub claimed : ℕ
  pub expired : ℕ
  pub entries : List EntryMeta

unfoldable pub meta : StoreEntry → EntryMeta
meta e = record {
  created = e.date_added;
  expires = add e.date_added (real_exp_factor e.valid_for);
  clicks = e.clicks;
  max_clicks = e.max_clicks;
  bytes = length e.secret;
  author = e.auth_token;
}

-- sort.Slice by Created.Before, as an insertion sort.
unfoldable pub insert_meta : EntryMeta → List EntryMeta → List EntryMeta
insert_meta x [] = x ∷ []
insert_meta x (y ∷ ys) = if before y.created x.created then y ∷ insert_meta x ys else x ∷ y ∷ ys

unfoldable pub sort_metas : List EntryMeta → List EntryMeta
sort_metas [] = []
sort_metas (x ∷ xs) = insert_meta x (sort_metas xs)

unfoldable pub stats : SecretStore → GoMap StoreEntry → Stats
stats st visited = record {
  live = length st.entries;
  max_entries = st.max_entries;
  created = st.created;
  claimed = st.claimed;
  expired = st.expired;
  entries = sort_metas (map (λ e. meta e.1) visited);
}
