-- ===== src/Httpio/Reveal.antt =====
-- Pressing the button: the answer to a POST of a link.
use onetimelink.Httpio.View.{handle_get, render_gone, render_error, render}
use onetimelink.Store.Serve.{claim, click, make_info}
use onetimelink.Store.{SecretStore, StoreEntry, StoreEntryInfo}
use onetimelink.Prelude.Text.{Bytes, str_eq, utf8, str_eq_refl}
use onetimelink.Store.Valid.{IsLive, IsValid, click_parts}
use onetimelink.Prelude.GoMap.{lookup, AllValues-lookup}
use onetimelink.Prelude.Int.{◌-ℤ◌, pos, eq_of_parts, int_laws, neg_part_of_nonneg}
use onetimelink.Http.{Request, method_post, view_page}
use onetimelink.Prelude.{◌≡◌, some, true, refl, ◌+◌, none, arith}
use onetimelink.Store.History.{left_of, remaining}
use onetimelink.Store.Lookup.{served, lookup-claim}
use onetimelink.Store.Reads.{left_of-served}
use onetimelink.Httpio.{get_route, api_get_route}

claim_answer :
    (st : SecretStore) (id urlbase urlget urlapiget : Bytes) (e : StoreEntry)
    → lookup id st.entries ≡ some e
    → (claim st id urlbase urlget urlapiget).1
      ≡ (make_info (click e) id urlbase urlget urlapiget, true)
unfolding claim
claim_answer st id urlbase urlget urlapiget e found = rw (found, claim) refl

-- The number that the page shows is what is left after the click.
left_shown :
    (e : StoreEntry) → IsLive e → e.max_clicks -ℤ (click e).clicks ≡ pos (left_of (served (some e)))
left_shown e v =
    let parts = click_parts e v in
    let left = left_of-served e v in
    eq_of_parts (e.max_clicks -ℤ (click e).clicks) (pos (left_of (served (some e))))
      (omega (int_laws, parts, left, neg_part_of_nonneg e.clicks, neg_part_of_nonneg e.max_clicks))

abbrev shown_info : SecretStore → Bytes → Request → StoreEntry → StoreEntryInfo
shown_info st urlbase r e =
    make_info (click e) (r.query (utf8 "id")) urlbase get_route api_get_route

secret-shown_info :
    (st : SecretStore) (urlbase : Bytes) (r : Request) (e : StoreEntry)
    → (shown_info st urlbase r e).secret ≡ e.secret
unfolding make_info click
secret-shown_info st urlbase r e = refl

handle_get_found :
    (st : SecretStore) (urlbase message : Bytes) (r : Request) (e : StoreEntry)
    → str_eq r.method method_post ≡ true
    → lookup (r.query (utf8 "id")) st.entries ≡ some e
    → handle_get st urlbase message r ≡ (
      (claim st (r.query (utf8 "id")) urlbase get_route api_get_route).0,
      render (view_page (shown_info st urlbase r e) message (e.max_clicks -ℤ (click e).clicks)),
    )
unfolding handle_get make_info click
handle_get_found st urlbase message r e posted found =
    rw (posted, claim_answer st (r.query (utf8 "id")) urlbase get_route api_get_route e found) refl

handle_get_missing :
    (st : SecretStore) (urlbase message : Bytes) (r : Request)
    → str_eq r.method method_post ≡ true
    → lookup (r.query (utf8 "id")) st.entries ≡ none
    → handle_get st urlbase message r ≡ (st, render_gone)
unfolding handle_get claim
handle_get_missing st urlbase message r posted missing = ground arith

-- A POST of a link takes one click off its entry and shows the secret, with the number of times that
-- the link can still be opened; without an entry it answers 404 and leaves the store as it was.
pub handle_get-revealing :
    (st : SecretStore) (urlbase message : Bytes) (r : Request)
    → str_eq r.method method_post ≡ true
    → IsValid st
    → ((e : StoreEntry)
        → lookup (r.query (utf8 "id")) st.entries ≡ some e
        → ((si : StoreEntryInfo) × ((handle_get st urlbase message r).1
              ≡ render (
                  view_page si message
                    (pos (remaining (r.query (utf8 "id")) (handle_get st urlbase message r).0))))
            × (si.secret ≡ e.secret))
          × (remaining (r.query (utf8 "id")) (handle_get st urlbase message r).0 + 1
              ≡ remaining (r.query (utf8 "id")) st))
      × (lookup (r.query (utf8 "id")) st.entries ≡ none
          → ((handle_get st urlbase message r).0 ≡ st)
            × ((handle_get st urlbase message r).1.status ≡ 404))
unfolding render_gone render_error
handle_get-revealing st urlbase message r posted v = (
  λ e found.
      let id = r.query (utf8 "id") in
      let live = AllValues-lookup IsLive id e st.entries v.live found in
      rw
        (
          handle_get_found st urlbase message r e posted found,
          lookup-claim st id urlbase get_route api_get_route id,
          str_eq_refl id,
          found,
        )
        (
          (
            shown_info st urlbase r e,
            rw (left_shown e live) refl,
            secret-shown_info st urlbase r e,
          ),
          left_of-served e live,
        ),
  λ missing. rw (handle_get_missing st urlbase message r posted missing) (refl, refl),
)
