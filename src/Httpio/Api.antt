-- ===== src/Httpio/Api.antt =====
-- httpio/api_handlers.go
use onetimelink.Prelude.{ℕ, Option, List, if◌then◌else◌, [], not, none, some, take}
use onetimelink.Prelude.Text.{Bytes, utf8, str_eq}
use onetimelink.Store.{
  SecretStore, StoreError, StoreEntry, store_full, secret_too_long, empty_secret, rand_failed,
  no_free_id, add_entry,
}
use onetimelink.Http.{Content, Decoders, Request, Response, json_error, json_info, method_post}
use onetimelink.Prelude.Clock.{Time}
use onetimelink.TokenDb.{TokenDb, is_authorized}
use onetimelink.Store.Serve.{claim, get_entry_info_hidden}
use onetimelink.Prelude.Parse.{path_base}
use onetimelink.Httpio.{get_route, api_get_route}
use onetimelink.Store.History.{Op, run}
use onetimelink.Prelude.Result.{err, ok}

abbrev pub max_data : ℕ
max_data = 1048576

-- The text of an error of the store, err.Error().
unfoldable pub error_text : Decoders → StoreError → Bytes
error_text d store_full = utf8 "secret store is full"
error_text d secret_too_long = utf8 "secret too long"
error_text d empty_secret = utf8 "secret is empty"
error_text d rand_failed = d.rand_error
error_text d no_free_id = utf8 "could not generate a free id"

unfoldable pub status_for_store_error : StoreError → ℕ
status_for_store_error store_full = 503
status_for_store_error secret_too_long = 422
status_for_store_error empty_secret = 422
status_for_store_error rand_failed = 500
status_for_store_error no_free_id = 500

-- jsonRespond, where the encoder succeeds: it does so on every value that the handlers pass.
unfoldable pub json_respond : ℕ → Content → Response
json_respond status data_out = record {
  status = status;
  content_type = utf8 "application/json; charset=UTF-8";
  content = data_out;
}

unfoldable pub handle_api_get : SecretStore → Bytes → Request → SecretStore × Response
handle_api_get st urlbase r =
    let (st', (entry, found)) = claim st (path_base r.path) urlbase get_route api_get_route in
    if not found
    then (st', json_respond 404 (json_error (utf8 "not found")))
    else (st', json_respond 200 (json_info entry))

-- The end of HandleApiNew: the store is locked twice, once to add the entry and once to read it back.
-- `between` holds what other goroutines do to the store between the two.
unfoldable pub add_and_show :
    Decoders
    → SecretStore
    → Bytes
    → StoreEntry
    → Time
    → (ℕ → Option (List ℕ))
    → List Op
    → SecretStore × Response
add_and_show decoders st urlbase entry now draws between =
    let (added, result) = add_entry st entry [] now draws in
    elim result [
      | err e ↦
          (added, json_respond (status_for_store_error e) (json_error (error_text decoders e)))
      | ok id ↦
          let st' = run added between in
          (
            st',
            json_respond 201
                (json_info (get_entry_info_hidden st' id urlbase get_route api_get_route).0),
          )
    ]

-- io.LimitReader cuts the body off at `max_data` bytes.
unfoldable pub handle_api_new :
    (Bytes → Bytes)
    → Decoders
    → SecretStore
    → Bytes
    → TokenDb
    → Time
    → (ℕ → Option (List ℕ))
    → List Op
    → Request
    → SecretStore × Response
handle_api_new sha256 decoders st urlbase auth now draws between r =
    if not (str_eq r.method method_post)
    then (st, json_respond 405 (json_error (utf8 "method not allowed")))
    else elim r.body [
      | none ↦ (st, json_respond 400 (json_error (utf8 "could not read request")))
      | some body ↦ elim (decoders.unmarshal_entry (take max_data body)) [
        | err text ↦ (st, json_respond 422 (json_error text))
        | ok entry ↦
            let (entry', authorized) = is_authorized sha256 auth entry in
            if not authorized
            then (st, json_respond 401 (json_error (utf8 "unauthorized")))
            else add_and_show decoders st urlbase entry' now draws between
      ]
    ]
