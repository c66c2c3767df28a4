-- ===== src/Httpio/Privacy.antt =====
-- What the pages show without handing out the secret does not depend on any secret.
use onetimelink.Prelude.Text.{Bytes, str_eq, utf8}
use onetimelink.Store.{get_entry, SecretStore}
use onetimelink.Http.{Request, method_post}
use onetimelink.Store.Metadata.{
  with_secrets, lookup-with_secrets, get_entry_info_hidden-with_secrets,
}
use onetimelink.Httpio.View.{handle_get, handle_info, render_error, request_token}
use onetimelink.Prelude.{◌≡◌, arith, false, refl}
use onetimelink.TokenDb.{TokenDb, knows}
use onetimelink.Httpio.{get_route, api_get_route}

get_entry-found-with_secrets :
    (f : Bytes → Bytes) (st : SecretStore) (id : Bytes)
    → (get_entry (record st { entries = with_secrets f st.entries }) id).1 ≡ (get_entry st id).1
unfolding get_entry
get_entry-found-with_secrets f st id = ground (arith, lookup-with_secrets f id st.entries)

module _ (f : Bytes → Bytes) (st : SecretStore) (urlbase : Bytes) (r : Request) where
  -- Opening a link with anything but a POST leaves the store as it was, and shows a page that is the
  -- same whatever the secrets are.
  pub handle_get-opening :
      (message : Bytes)
      → str_eq r.method method_post ≡ false
      → ((handle_get st urlbase message r).0 ≡ st)
        × ((handle_get (record st { entries = with_secrets f st.entries }) urlbase message r).1
            ≡ (handle_get st urlbase message r).1)
  unfolding handle_get
  handle_get-opening message opening =
      rw (opening, get_entry-found-with_secrets f st (r.query (utf8 "id")))
        (ground arith, ground arith)

  -- The metadata page leaves the store as it was and is the same whatever the secrets are; without a
  -- token that the database knows it is the refusal, whatever is in the store.
  pub handle_info-with_secrets :
      (sha256 : Bytes → Bytes) (auth : TokenDb)
      → ((handle_info sha256 st urlbase auth r).0 ≡ st)
        × ((handle_info sha256 (record st { entries = with_secrets f st.entries }) urlbase auth r).1
            ≡ (handle_info sha256 st urlbase auth r).1)
        × (knows sha256 auth (request_token r) ≡ false
            → (other : SecretStore)
            → ((handle_info sha256 st urlbase auth r).1.status ≡ 401)
              × ((handle_info sha256 other urlbase auth r).1
                  ≡ (handle_info sha256 st urlbase auth r).1))
  unfolding handle_info render_error
  handle_info-with_secrets sha256 auth =
      let same =
        get_entry_info_hidden-with_secrets f st (r.query (utf8 "id")) urlbase get_route
          api_get_route in
      (ground arith, rw same (ground arith), λ unknown other. rw unknown (refl, refl))
