-- ===== src/Cmd/Server/Live/Stored.antt =====
-- The handlers that store a secret, run alone.
use onetimelink.Cmd.Server.Mux.{Outside, Arrival, Config, ServerState}
use onetimelink.Http.{Headers, method_post, json_error, json_info, text, created_page}
use onetimelink.Cmd.Server.Live.{
  add_if, add_prog, api_new_prog, show_added, create_prog, show_created,
}
use onetimelink.Store.{SecretStore, StoreEntry, StoreError, add_entry, new_entry}
use onetimelink.Httpio.View.{
  render, create_error_text, handle_create, create_from, reply_create_error, read_form, wants_html,
}
use onetimelink.Store.History.{step, run}
use onetimelink.Cmd.Server.{loaded_assets}
use onetimelink.Prelude.{
  ◌≡◌, Bool-cases, inr, if◌then◌else◌, inl, not, refl, Bool, true, false, [], Option-cases, take,
  ◌++◌,
}
use onetimelink.Prelude.Text.{str_eq, utf8, Bytes}
use onetimelink.Misc.RateLimit.Wrap.{client_key}
use onetimelink.Store.Serve.{get_entry_info_hidden}
use onetimelink.Httpio.{get_route, api_get_route}
use onetimelink.Httpio.Api.{
  json_respond, add_and_show, handle_api_new, status_for_store_error, error_text, max_data,
}
use onetimelink.TokenDb.{is_authorized}
use onetimelink.Prelude.Result.{Result, Result-cases, err, ok}
use onetimelink.Httpio.Forms.{form_entry, form_clicks, form_days}
use onetimelink.Cmd.Server.Live.Alone.{alone, returned}

module _ (o : Outside) (c : Config) (a : Arrival) (head : Headers) (s : ServerState) where
  -- The end of HandleApiNew, by what AddEntry has returned.
  alone-show_added :
      (r : Result StoreError Bytes) (st : SecretStore)
      → alone o a head (show_added o c a head r) (record s { store = st })
        ≡ returned o c a head s (elim r [
          | err e ↦
              (st, json_respond (status_for_store_error e) (json_error (error_text o.decoders e)))
          | ok id ↦ (
            st,
            json_respond 201
                (json_info (get_entry_info_hidden st id c.url_base get_route api_get_route).0),
          )
        ])
  unfolding alone show_added
  alone-show_added (err e) st = refl
  alone-show_added (ok id) st = refl

  alone-add_prog :
      (entry : StoreEntry)
      → alone o a head (add_prog o c a head entry) s
        ≡ returned o c a head s (add_and_show o.decoders s.store c.url_base entry a.now a.draws [])
  unfolding alone add_prog add_and_show step run
  alone-add_prog entry =
      let called = add_entry s.store entry [] a.now a.draws in alone-show_added called.1 called.0

  alone-add_if :
      (r : StoreEntry × Bool)
      → alone o a head (add_if o c a head r) s
        ≡ returned o c a head s (
            if not r.1
            then (s.store, json_respond 401 (json_error (utf8 "unauthorized")))
            else add_and_show o.decoders s.store c.url_base r.0 a.now a.draws [])
  unfolding alone add_if
  alone-add_if (entry, false) = refl
  alone-add_if (entry, true) = alone-add_prog entry

  pub alone-api_new_prog :
      alone o a head (api_new_prog o c a head) s
      ≡ returned o c a head s (
          handle_api_new o.sha256 o.decoders s.store c.url_base
            (loaded_assets s.assets).auth
            a.now
            a.draws
            []
            a.request)
  unfolding alone api_new_prog handle_api_new client_key
  alone-api_new_prog = elim (Bool-cases (str_eq a.request.method method_post)) [
    | inr other ↦ rw (other, api_new_prog, handle_api_new) refl
    | inl posted ↦ elim (Option-cases a.request.body) [
      | inl unread ↦ rw (posted, unread, api_new_prog, handle_api_new) refl
      | inr (body, sent) ↦ elim (Result-cases (o.decoders.unmarshal_entry (take max_data body))) [
        | inr (message, bad) ↦ rw (posted, sent, bad, api_new_prog, handle_api_new) refl
        | inl (entry, decoded) ↦
            rw (posted, sent, decoded, api_new_prog, handle_api_new)
              (alone-add_if (is_authorized o.sha256 (loaded_assets s.assets).auth entry))
      ]
    ]
  ]

  -- The end of HandleCreate, by what AddEntry has returned.
  alone-show_created :
      (form : Bytes → Bytes) (r : Result StoreError Bytes) (st : SecretStore)
      → alone o a head (show_created o c a head form st r) (record s { store = st })
        ≡ returned o c a head s (elim r [
          | err e ↦
              let (status, title, message) = create_error_text e st.max_entries in
              (st, reply_create_error a.request status title message)
          | ok id ↦
              let link = c.url_base ++ (get_route ++ (utf8 "?id=" ++ id)) in
              if not (wants_html a.request)
              then (
                st,
                record {
                  status = 200;
                  content_type = utf8 "text/plain; charset=utf-8";
                  content = text link;
                },
              )
              else (st, render (created_page link (form_clicks form) (form_days form)))
        ])
  unfolding alone show_created
  alone-show_created form (err e) st = refl
  alone-show_created form (ok id) st = elim (Bool-cases (wants_html a.request)) [
    | inl html ↦ rw (html, show_created) refl
    | inr plain ↦ rw (plain, show_created) refl
  ]

  pub alone-create_prog :
      alone o a head (create_prog o c a head) s
      ≡ returned o c a head s (handle_create o.decoders s.store c.url_base a.now a.draws a.request)
  unfolding alone create_prog handle_create create_from new_entry step client_key
  alone-create_prog = elim (Bool-cases (str_eq a.request.method method_post)) [
    | inr other ↦ rw (other, create_prog, handle_create) refl
    | inl posted ↦ elim (Option-cases (read_form o.decoders a.request)) [
      | inl unread ↦ rw (posted, unread, create_prog, handle_create) refl
      | inr (form, read) ↦
          let entry = form_entry form (form_clicks form) (form_days form) in
          let called = add_entry s.store entry [] a.now a.draws in
          rw (posted, read, create_prog, handle_create) (alone-show_created form called.1 called.0)
    ]
  ]
