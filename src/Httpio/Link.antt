-- ===== src/Httpio/Link.antt =====
-- A link that the API hands out leads back to its secret.
use onetimelink.Prelude.Text.{Bytes, utf8, rune_bytes, codes, str_eq_refl}
use onetimelink.Prelude.{All, ◌≢◌, [], ◌≡◌, ◌++◌, ◌∷◌, arith, refl, ℕ, Option, List, some, inr, inl}
use onetimelink.Base64.Laws.{IsUrlSafe}
use onetimelink.Httpio.{api_get_route, get_route}
use onetimelink.Prelude.Parse.{NoSlash, path_base, path_base-append}
use mathlib.Core.List.{append_assoc}
use onetimelink.Httpio.Api.{handle_api_get, handle_api_new, json_respond}
use onetimelink.Http.{Decoders, Request, json_info}
use onetimelink.Store.Serve.{claim, make_info, click, get_entry_info_hidden, get_entry_info}
use onetimelink.Store.{SecretStore, StoreEntry, StoreEntryInfo, hidden_string, normalise, add_entry}
use onetimelink.TokenDb.{TokenDb, is_authorized}
use onetimelink.Prelude.Clock.{Time}
use onetimelink.Prelude.GoMap.{lookup, lookup-insert}
use onetimelink.Store.Ids.{GivesBytes, add_entry-IsUrlSafe}
use onetimelink.Store.History.{run}
use onetimelink.Httpio.Access.{
  Admitted, handle_api_new-Admitted, add_and_show_created, status_for_store_error-ne,
}
use onetimelink.Store.Accept.{add_entry-Accepted}

NoSlash-of_IsUrlSafe : (s : Bytes) → All IsUrlSafe s → NoSlash s
NoSlash-of_IsUrlSafe [] h = tt
NoSlash-of_IsUrlSafe (c ∷ s) h = (ground (arith, h.0), NoSlash-of_IsUrlSafe s h.1)

route_split : api_get_route ≡ codes "/api/v1/get" ++ b'/' ∷ []
unfolding utf8 rune_bytes
route_split = refl

-- The path of an API link has the id for its base.
pub path_base-api_get :
    (id : Bytes) → id ≢ [] → All IsUrlSafe id → path_base (api_get_route ++ id) ≡ id
path_base-api_get id ne safe =
    rw (route_split, append_assoc (codes "/api/v1/get") (b'/' ∷ []) id)
      (path_base-append (codes "/api/v1/get") id ne (NoSlash-of_IsUrlSafe id safe))

-- What a request for an API link is answered: the claim of its id.
handle_api_get-claim :
    (st : SecretStore) (urlbase : Bytes) (r : Request) (id : Bytes) (e : StoreEntry)
    → path_base r.path ≡ id
    → lookup id st.entries ≡ some e
    → (handle_api_get st urlbase r).1
      ≡ json_respond 200 (json_info (make_info (click e) id urlbase get_route api_get_route))
unfolding handle_api_get claim
handle_api_get-claim st urlbase r id e named there = rw named (ground arith)

secret-is_authorized :
    (sha256 : Bytes → Bytes) (auth : TokenDb) (entry : StoreEntry)
    → (is_authorized sha256 auth entry).0.secret ≡ entry.secret
unfolding is_authorized
secret-is_authorized sha256 auth entry = ground arith

-- A created secret can be read through the link of the answer: if HandleApiNew answers 201, nothing
-- else touches the store meanwhile, and the random source gives bytes, the answer carries an id and
-- the API link to it but not the secret, and the next request for that link's path is answered 200
-- with the secret that was posted.
pub api_new-api_get :
    (sha256 : Bytes → Bytes) (decoders : Decoders) (st : SecretStore) (urlbase : Bytes)
    (auth : TokenDb) (now : Time) (draws : ℕ → Option (List ℕ)) (r r' : Request)
    → GivesBytes draws
    → (handle_api_new sha256 decoders st urlbase auth now draws [] r).1.status ≡ 201
    → (entry : StoreEntry) × (si : StoreEntryInfo) × (si' : StoreEntryInfo) × Admitted sha256
        decoders st urlbase auth now draws [] r entry
      × ((handle_api_new sha256 decoders st urlbase auth now draws [] r).1
          ≡ json_respond 201 (json_info si))
      × (si.api_url ≡ urlbase ++ (api_get_route ++ si.id))
      × (si.secret ≡ hidden_string)
      × (r'.path ≡ api_get_route ++ si.id
          → (handle_api_get
              (handle_api_new sha256 decoders st urlbase auth now draws [] r).0
              urlbase
              r').1
            ≡ json_respond 200 (json_info si'))
      × (si'.secret ≡ entry.secret)
unfolding get_entry_info_hidden get_entry_info make_info click normalise run json_respond
api_new-api_get sha256 decoders st urlbase auth now draws r r' g created =
    elim (handle_api_new-Admitted sha256 decoders st urlbase auth now draws [] r) [
      | inr (_, failed) ↦ absurd (omega arith)
      | inl (entry, admitted, e) ↦
          let entry' = (is_authorized sha256 auth entry).0 in
          elim (add_and_show_created decoders st urlbase entry' now draws []) [
            | inr (x, refused, shown) ↦
                absurd (status_for_store_error-ne x (rw (e, shown) at created))
            | inl (k, added, shown) ↦
                let a = add_entry-Accepted st entry' [] now draws k added in
                let safe = add_entry-IsUrlSafe st entry' now draws k g added in
                let there : lookup k (add_entry st entry' [] now draws).0.entries
                    ≡ some (normalise entry' now) =
                  rw (
                    a.stored,
                    lookup-insert k k (normalise entry' now) st.entries,
                    str_eq_refl k,
                  ) in
                (
                  entry,
                  (get_entry_info_hidden (add_entry st entry' [] now draws).0 k urlbase get_route
                      api_get_route).0,
                  make_info (click (normalise entry' now)) k urlbase get_route api_get_route,
                  admitted,
                  rw (e, shown) refl,
                  refl,
                  refl,
                  λ p.
                      rw (e, shown)
                        (handle_api_get-claim (add_entry st entry' [] now draws).0 urlbase r' k
                          (normalise entry' now) (rw p (path_base-api_get k a.named.0 safe)) there),
                  secret-is_authorized sha256 auth entry,
                )
          ]
    ]
