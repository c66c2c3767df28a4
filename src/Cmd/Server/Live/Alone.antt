-- ===== src/Cmd/Server/Live/Alone.antt =====
-- With nothing in between, the steps of a handler are the handler of Cmd.Server.Mux.
use onetimelink.Cmd.Server.Mux.{Outside, Arrival, Config, ServerState}
use onetimelink.Http.{
  Headers, Reply, Response, method_post, json_error, confirm_page, info_page, json_info, view_page,
}
use onetimelink.Cmd.Server.Live.{
  Prog, get_prog, answers, loads, reads, acts, admits, too_many, for_new, for_get, api_get_prog,
  confirm, describe, info_prog, reveal, send_json, inform,
}
use onetimelink.Store.{SecretStore, get_entry, StoreEntryInfo}
use onetimelink.Httpio.View.{
  handle_get, handle_info, render_gone, render, request_token, render_error,
}
use onetimelink.Store.History.{step}
use onetimelink.Cmd.Server.{loaded_assets}
use onetimelink.Prelude.{◌≡◌, Bool-cases, inr, if◌then◌else◌, inl, not, refl, Bool, true, false}
use onetimelink.Prelude.Text.{str_eq, utf8}
use onetimelink.Misc.RateLimit.{allow}
use onetimelink.Misc.RateLimit.Wrap.{client_key}
use onetimelink.Store.Serve.{claim, get_entry_info_hidden}
use onetimelink.Httpio.{get_route, api_get_route}
use onetimelink.Httpio.Api.{handle_api_get, json_respond}
use onetimelink.Prelude.Parse.{path_base}
use onetimelink.TokenDb.{knows}
use onetimelink.Prelude.Int.{◌-ℤ◌}

module _ (o : Outside) (a : Arrival) (head : Headers) where
  -- What is left of a handler, run to its end.
  unfoldable pub alone : Prog → ServerState → ServerState × Reply
  alone (answers reply) s = (s, reply)
  alone (loads f) s = alone (f (loaded_assets s.assets)) s
  alone (reads f) s = alone (f s.store) s
  alone (acts op f) s = alone (f s.store) (record s { store = step s.store op })
  alone (admits for_new p) s =
      let (l, passes) = allow s.new_limiter (client_key o.split_host_port a.request) a.seen in
      let s' = record s { new_limiter = l } in
      let rest = alone p s' in if not passes then (s', too_many head) else rest
  alone (admits for_get p) s =
      let (l, passes) = allow s.get_limiter (client_key o.split_host_port a.request) a.seen in
      let s' = record s { get_limiter = l } in
      let rest = alone p s' in if not passes then (s', too_many head) else rest

module _ (o : Outside) (c : Config) (a : Arrival) (head : Headers) (s : ServerState) where
  -- A handler's result in the server's state.
  abbrev pub returned : SecretStore × Response → ServerState × Reply
  returned (st, response) =
      (record s { store = st }, record { headers = head; response = response })

  alone-reveal :
      (r : StoreEntryInfo × Bool) (st : SecretStore)
      → alone o a head (reveal o c a head r) (record s { store = st })
        ≡ returned (
            if not r.1 then (st, render_gone) else (
              st,
              render (
                  view_page r.0
                    (loaded_assets s.assets).user_message_view
                    (r.0.max_clicks -ℤ r.0.clicks)),
            ))
  unfolding alone reveal
  alone-reveal (entry, true) st = refl
  alone-reveal (entry, false) st = refl

  alone-confirm :
      (found : Bool)
      → alone o a head (confirm o c a head found) s
        ≡ returned (
            if not found then (s.store, render_gone) else (
              s.store,
              render (
                  confirm_page
                    (a.request.query (utf8 "id"))
                    (loaded_assets s.assets).user_message_view),
            ))
  unfolding alone confirm
  alone-confirm true = refl
  alone-confirm false = refl

  alone-describe :
      (r : StoreEntryInfo × Bool)
      → alone o a head (describe o c a head r) s
        ≡ returned (if not r.1 then (s.store, render_gone) else (s.store, render (info_page r.0)))
  unfolding alone describe
  alone-describe (entry, true) = refl
  alone-describe (entry, false) = refl

  alone-send_json :
      (r : StoreEntryInfo × Bool) (st : SecretStore)
      → alone o a head (send_json o c a head r) (record s { store = st })
        ≡ returned (
            if not r.1
            then (st, json_respond 404 (json_error (utf8 "not found")))
            else (st, json_respond 200 (json_info r.0)))
  unfolding alone send_json
  alone-send_json (entry, true) st = refl
  alone-send_json (entry, false) st = refl

  pub alone-get_prog :
      alone o a head (get_prog o c a head) s
      ≡ returned
          (handle_get s.store c.url_base (loaded_assets s.assets).user_message_view a.request)
  unfolding alone get_prog handle_get step
  alone-get_prog = elim (Bool-cases (str_eq a.request.method method_post)) [
    | inr opening ↦
        rw (opening, get_prog, handle_get)
          (alone-confirm (get_entry s.store (a.request.query (utf8 "id"))).1)
    | inl posted ↦
        let called =
          claim s.store (a.request.query (utf8 "id")) c.url_base get_route api_get_route in
        rw (posted, get_prog, handle_get) (alone-reveal called.1 called.0)
  ]

  pub alone-api_get_prog :
      alone o a head (api_get_prog o c a head) s
      ≡ returned (handle_api_get s.store c.url_base a.request)
  unfolding alone api_get_prog handle_api_get step
  alone-api_get_prog =
      let called = claim s.store (path_base a.request.path) c.url_base get_route api_get_route in
      alone-send_json called.1 called.0

  alone-inform :
      (known : Bool)
      → alone o a head (inform o c a head known) s
        ≡ returned (
            if not known
            then (
              s.store,
              render_error 401 (utf8 "Нет доступа") (utf8 "Для просмотра метаданных нужен токен."),
            )
            else let (entry, found) =
                get_entry_info_hidden s.store
                  (a.request.query (utf8 "id"))
                  c.url_base
                  get_route
                  api_get_route in
              if not found then (s.store, render_gone) else (s.store, render (info_page entry)))
  unfolding alone inform
  alone-inform false = refl
  alone-inform true = alone-describe (
      get_entry_info_hidden s.store (a.request.query (utf8 "id")) c.url_base get_route
        api_get_route)

  pub alone-info_prog :
      alone o a head (info_prog o c a head) s
      ≡ returned (handle_info o.sha256 s.store c.url_base (loaded_assets s.assets).auth a.request)
  unfolding alone info_prog handle_info
  alone-info_prog =
      alone-inform (knows o.sha256 (loaded_assets s.assets).auth (request_token a.request))
