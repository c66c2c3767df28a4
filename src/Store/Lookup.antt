-- ===== src/Store/Lookup.antt =====
-- What each operation does to the entry under an id, to every other entry, and to its result.
use onetimelink.Prelude.{
  ◌≡◌, inl, inr, Option, none, some, if◌then◌else◌, arith, Bool-cases, Option-cases,
}
use onetimelink.Prelude.Int.{ltb_ℤ}
use onetimelink.Prelude.Text.{Bytes, str_eq, str_eq_iff}
use onetimelink.Prelude.GoMap.{GoMap, lookup, lookup-insert, lookup-delete}
use onetimelink.Store.{StoreEntry, SecretStore}
use onetimelink.Store.Serve.{click, put_back, claim}

-- What a claim leaves under the id that it names: the entry with one click more, until the last.
unfoldable pub served : Option StoreEntry → Option StoreEntry
served none = none
served (some e) = if ltb_ℤ (click e).clicks e.max_clicks then some (click e) else none

lookup-put_back :
    (id j : Bytes) (e : StoreEntry) (m : GoMap StoreEntry)
    → lookup j (put_back id e m)
      ≡ (if str_eq id j then (if ltb_ℤ e.clicks e.max_clicks then some e else none) else lookup j m)
unfolding put_back
lookup-put_back id j e m = elim (Bool-cases (ltb_ℤ e.clicks e.max_clicks)) [
  | inl more ↦ rw (more, put_back) (lookup-insert id j e m)
  | inr last ↦ rw (last, put_back) (lookup-delete id j m)
]

module _ (st : SecretStore) (id urlbase urlget urlapiget : Bytes) where
  -- A claim touches no entry but the one that it names, which loses one click or goes.
  pub lookup-claim :
      (j : Bytes)
      → lookup j (claim st id urlbase urlget urlapiget).0.entries
        ≡ (if str_eq id j then served (lookup id st.entries) else lookup j st.entries)
  unfolding claim served click
  lookup-claim j = elim (Option-cases (lookup id st.entries)) [
    | inl missing ↦ rw (missing, claim, served) (ground (arith, str_eq_iff id j))
    | inr (e, found) ↦ rw (found, claim, served) (lookup-put_back id j (click e) st.entries)
  ]
