-- ===== src/Store/Metadata.antt =====
-- The report about the live secrets: complete, in order of creation, and free of their contents.
use mathlib.Core.Option
use mathlib.Core.List.Perm
use onetimelink.Prelude.{
  List, ◌∷◌, Bool-cases, [], arith, map, inl, inr, ◌≡◌, length, ap, refl, suc,
}
use onetimelink.Store.Report.{insert_meta, sort_metas, stats, EntryMeta, meta}
use onetimelink.Store.{SecretStore, StoreEntry, get_entry}
use mathlib.Core.List.{Perm}
use onetimelink.Prelude.GoMap.{GoMap, lookup}
use onetimelink.Prelude.Int.{◌≤ℤ◌}
use onetimelink.Prelude.Clock.{before}
use onetimelink.Prelude.Text.{Bytes, str_eq}
use onetimelink.Store.Serve.{get_entry_info_hidden, get_entry_info, make_info}

abbrev pub IsOldestFirst : List EntryMeta → Type 0
IsOldestFirst [] = Unit
IsOldestFirst (x ∷ []) = Unit
IsOldestFirst (x ∷ y ∷ ys) = (x.created ≤ℤ y.created) × IsOldestFirst (y ∷ ys)

insert_meta-IsOldestFirst :
    (x : EntryMeta) (ys : List EntryMeta) → IsOldestFirst ys → IsOldestFirst (insert_meta x ys)
unfolding insert_meta
insert_meta-IsOldestFirst x [] h = tt
insert_meta-IsOldestFirst x (y ∷ []) h = ground arith
insert_meta-IsOldestFirst x (y ∷ z ∷ zs) h = ground (arith, insert_meta-IsOldestFirst x (z ∷ zs))

sort_metas-IsOldestFirst : (xs : List EntryMeta) → IsOldestFirst (sort_metas xs)
unfolding sort_metas
sort_metas-IsOldestFirst [] = tt
sort_metas-IsOldestFirst (x ∷ xs) =
    insert_meta-IsOldestFirst x (sort_metas xs) (sort_metas-IsOldestFirst xs)

insert_meta-perm : (x : EntryMeta) (ys : List EntryMeta) → Perm (insert_meta x ys) (x ∷ ys)
unfolding insert_meta
insert_meta-perm x [] = Perm.rfl
insert_meta-perm x (y ∷ ys) = elim (Bool-cases (before y.created x.created)) [
  | inl older ↦
      rw (older, insert_meta) (Perm.trans (Perm.cons y (insert_meta-perm x ys)) (Perm.swap x y ys))
  | inr newer ↦ rw (newer, insert_meta) Perm.rfl
]

sort_metas-perm : (xs : List EntryMeta) → Perm (sort_metas xs) xs
unfolding sort_metas
sort_metas-perm [] = Perm.rfl
sort_metas-perm (x ∷ xs) =
    Perm.trans (insert_meta-perm x (sort_metas xs)) (Perm.cons x (sort_metas-perm xs))

-- Whatever the order in which the range visits the map, the report lists each live entry once,
-- oldest first.
pub stats-perm :
    (st : SecretStore) (visited : GoMap StoreEntry)
    → Perm visited st.entries
    → Perm (stats st visited).entries (map (λ e. meta e.1) st.entries)
      × IsOldestFirst (stats st visited).entries
unfolding stats
stats-perm st visited p = (
  Perm.trans (sort_metas-perm _) (Perm.map (λ e. meta e.1) p),
  sort_metas-IsOldestFirst (map (λ e. meta e.1) visited),
)

abbrev pub with_secret : (Bytes → Bytes) → StoreEntry → StoreEntry
with_secret f e = record e { secret = f e.secret }

-- The same store with each secret replaced.
abbrev pub with_secrets : (Bytes → Bytes) → GoMap StoreEntry → GoMap StoreEntry
with_secrets f [] = []
with_secrets f ((k, e) ∷ m) = (k, with_secret f e) ∷ with_secrets f m

pub lookup-with_secrets :
    (f : Bytes → Bytes) (id : Bytes) (m : GoMap StoreEntry)
    → lookup id (with_secrets f m) ≡ Option.map (with_secret f) (lookup id m)
unfolding lookup
lookup-with_secrets f id [] = refl
lookup-with_secrets f id ((k, e) ∷ m) = elim (Bool-cases (str_eq k id)) [
  | inl here ↦ rw (here, lookup)
  | inr later ↦ rw (later, lookup) (lookup-with_secrets f id m)
]

-- What GetEntryInfoHidden returns does not depend on any secret.
pub get_entry_info_hidden-with_secrets :
    (f : Bytes → Bytes) (st : SecretStore) (id urlbase urlget urlapiget : Bytes)
    → get_entry_info_hidden
        (record st { entries = with_secrets f st.entries })
        id
        urlbase
        urlget
        urlapiget
      ≡ get_entry_info_hidden st id urlbase urlget urlapiget
unfolding get_entry_info_hidden get_entry_info get_entry make_info
get_entry_info_hidden-with_secrets f st id urlbase urlget urlapiget =
    ground (arith, lookup-with_secrets f id st.entries)

map-meta-with_secrets :
    (f : Bytes → Bytes) (m : GoMap StoreEntry)
    → ((s : Bytes) → length (f s) ≡ length s)
    → map (λ e. meta e.1) (with_secrets f m) ≡ map (λ e. meta e.1) m
unfolding meta
map-meta-with_secrets f [] same = refl
map-meta-with_secrets f ((k, e) ∷ m) same =
    ground (arith, map-meta-with_secrets f m same, same e.secret)

length-with_secrets :
    (f : Bytes → Bytes) (m : GoMap StoreEntry) → length (with_secrets f m) ≡ length m
length-with_secrets f [] = refl
length-with_secrets f (e ∷ m) = ap suc (length-with_secrets f m)

-- Of a secret the report shows its length and nothing else.
pub stats-with_secrets :
    (f : Bytes → Bytes) (st : SecretStore) (visited : GoMap StoreEntry)
    → ((s : Bytes) → length (f s) ≡ length s)
    → stats (record st { entries = with_secrets f st.entries }) (with_secrets f visited)
      ≡ stats st visited
unfolding stats
stats-with_secrets f st visited same =
    rw (length-with_secrets f st.entries, map-meta-with_secrets f visited same)
