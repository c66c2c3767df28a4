-- ===== src/Cmd/Server/Live.antt =====
-- cmd/server.go while it runs: net/http serves each request in a goroutine of its own, the goroutine of
-- SIGHUP reloads the files, and that of Expiry drops old secrets. A handler is the sequence of what it does
-- with shared state: a call of a limiter or of the store holds its mutex, and loadedAssets is one atomic
-- load. Between two of these anything else can happen.
mod Tests
pub mod Alone
pub mod Stored
pub mod Sequential
pub mod Steps
pub mod Price
pub mod Charge
pub mod ShownPrice
pub mod Shown
pub mod Authorised
pub mod CreatedPrice
pub mod Created
use onetimelink.Prelude.{
  Bool, List, ℕ, Option, [], ◌∷◌, ◌++◌, ◌≡◌, if◌then◌else◌, not, none, some, true, false, take, ◌-◌,
}
use onetimelink.Cmd.Server.Mux.{
  Outside, Config, Arrival, Route, index, get, info, create, api_get, api_new, fav, css, js,
  client_shell,
}
use onetimelink.Http.{
  Headers, Reply, Response, http_error, method_post, json_error, confirm_page, info_page, json_info,
  text, view_page, created_page,
}
use onetimelink.Cmd.Server.{Assets}
use onetimelink.Prelude.GoMap.{insert}
use onetimelink.Prelude.Text.{utf8, Bytes, str_eq}
use onetimelink.Store.{SecretStore, StoreEntry, StoreError, add_entry, get_entry, StoreEntryInfo}
use onetimelink.Prelude.Parse.{path_base}
use onetimelink.Prelude.Result.{Result, err, ok}
use onetimelink.Store.History.{Op, adds, claims}
use onetimelink.TokenDb.{knows, is_authorized}
use onetimelink.Httpio.View.{
  handle_index, request_token, render_error, reply_create_error, create_error_text, read_form,
  render_gone, render, wants_html,
}
use onetimelink.Httpio.{get_route, api_get_route}
use onetimelink.Httpio.Api.{json_respond, status_for_store_error, error_text, max_data}
use onetimelink.Httpio.Static.{
  handle_static_fav, handle_static_css, handle_static_js, handle_static_client_shell_script,
}
use onetimelink.Store.Serve.{get_entry_info_hidden, claim}
use onetimelink.Httpio.Forms.{form_entry, form_clicks, form_days}
use onetimelink.Prelude.Int.{◌-ℤ◌}

-- The limiter that a route shares with others.
pub data Limit : Type 0 where
  for_new for_get : Limit

-- A handler, or what is left of it.
pub data Prog : Type 0 where
  answers : Reply → Prog
  loads : (Assets → Prog) → Prog
  reads : (SecretStore → Prog) → Prog
  acts : Op → (SecretStore → Prog) → Prog  -- the operation, and what follows from the store before it
  admits : Limit → Prog → Prog

-- What RateLimit answers in the handler's place.
abbrev pub too_many : Headers → Reply
too_many head = record {
  headers = insert (utf8 "Retry-After") (utf8 "1") head;
  response = http_error (utf8 "too many requests") 429;
}

module _ (o : Outside) (c : Config) (a : Arrival) (head : Headers) where
  abbrev pub reply : Response → Prog
  reply response = answers (record { headers = head; response = response })

  -- The ends of the handlers, by what the store has returned.
  unfoldable pub reveal : StoreEntryInfo × Bool → Prog
  reveal (entry, found) =
      if not found
      then reply render_gone
      else loads (λ files.
        reply (render (view_page entry files.user_message_view (entry.max_clicks -ℤ entry.clicks))))

  unfoldable pub confirm : Bool → Prog
  confirm found =
      if not found
      then reply render_gone
      else loads (λ files.
        reply (render (confirm_page (a.request.query (utf8 "id")) files.user_message_view)))

  unfoldable pub describe : StoreEntryInfo × Bool → Prog
  describe (entry, found) =
      if not found then reply render_gone else reply (render (info_page entry))

  unfoldable pub send_json : StoreEntryInfo × Bool → Prog
  send_json (entry, found) =
      if not found
      then reply (json_respond 404 (json_error (utf8 "not found")))
      else reply (json_respond 200 (json_info entry))

  unfoldable pub get_prog : Prog
  get_prog =
      let id = a.request.query (utf8 "id") in
      if not (str_eq a.request.method method_post)
      then reads (λ st. confirm (get_entry st id).1)
      else acts (claims id c.url_base get_route api_get_route)
          (λ st. reveal (claim st id c.url_base get_route api_get_route).1)

  unfoldable pub inform : Bool → Prog
  inform known =
      if not known
      then reply
          (render_error 401 (utf8 "Нет доступа") (utf8 "Для просмотра метаданных нужен токен."))
      else reads (λ st.
        describe (
          get_entry_info_hidden st (a.request.query (utf8 "id")) c.url_base get_route
            api_get_route))

  unfoldable pub info_prog : Prog
  info_prog = loads (λ files. inform (knows o.sha256 files.auth (request_token a.request)))

  unfoldable pub api_get_prog : Prog
  api_get_prog =
      let id = path_base a.request.path in
      acts (claims id c.url_base get_route api_get_route)
        (λ st. send_json (claim st id c.url_base get_route api_get_route).1)

  -- AddEntry, and what is answered to its result.
  unfoldable pub show_added : Result StoreError Bytes → Prog
  show_added (err e) =
      reply (json_respond (status_for_store_error e) (json_error (error_text o.decoders e)))
  show_added (ok id) = reads (λ st. reply (
      json_respond 201
        (json_info (get_entry_info_hidden st id c.url_base get_route api_get_route).0)))

  unfoldable pub add_prog : StoreEntry → Prog
  add_prog entry =
      acts (adds entry [] a.now a.draws) (λ st. show_added (add_entry st entry [] a.now a.draws).1)

  unfoldable pub add_if : StoreEntry × Bool → Prog
  add_if (entry, authorized) =
      if not authorized
      then reply (json_respond 401 (json_error (utf8 "unauthorized")))
      else add_prog entry

  unfoldable pub api_new_prog : Prog
  api_new_prog =
      if not (str_eq a.request.method method_post)
      then reply (json_respond 405 (json_error (utf8 "method not allowed")))
      else elim a.request.body [
        | none ↦ reply (json_respond 400 (json_error (utf8 "could not read request")))
        | some body ↦ elim (o.decoders.unmarshal_entry (take max_data body)) [
          | err message ↦ reply (json_respond 422 (json_error message))
          | ok entry ↦ loads (λ files. add_if (is_authorized o.sha256 files.auth entry))
        ]
      ]

  unfoldable pub show_created : (Bytes → Bytes) → SecretStore → Result StoreError Bytes → Prog
  show_created form st (err e) =
      let (status, title, message) = create_error_text e st.max_entries in
      reply (reply_create_error a.request status title message)
  show_created form st (ok id) =
      let link = c.url_base ++ (get_route ++ (utf8 "?id=" ++ id)) in
      if not (wants_html a.request)
      then reply (record {
        status = 200;
        content_type = utf8 "text/plain; charset=utf-8";
        content = text link;
      })
      else reply (render (created_page link (form_clicks form) (form_days form)))

  unfoldable pub create_prog : Prog
  create_prog =
      if not (str_eq a.request.method method_post)
      then reply (
          reply_create_error a.request 405 (utf8 "Так нельзя")
            (utf8 "Секрет создаётся отправкой формы."))
      else elim (read_form o.decoders a.request) [
        | none ↦ reply (
            reply_create_error a.request 400 (utf8 "Не получилось")
              (utf8 "Секрет длиннее 4 КБ или форма повреждена."))
        | some form ↦
            let entry = form_entry form (form_clicks form) (form_days form) in
            acts (adds entry [] a.now a.draws) (λ st.
              let called = add_entry st entry [] a.now a.draws in
              show_created form called.0 called.1)
      ]

  -- The handler that buildMux registers for a route.
  unfoldable pub route_prog : Route → Prog
  route_prog index = reply (handle_index c.allow_anonymous a.request)
  route_prog get = admits for_get get_prog
  route_prog info = admits for_new info_prog
  route_prog create = admits for_new create_prog
  route_prog api_get = admits for_get api_get_prog
  route_prog api_new = admits for_new api_new_prog
  route_prog fav = reply (handle_static_fav o.favicon)
  route_prog css = loads (λ files.
      answers (handle_static_css o.serve_content (λ _. (files.css, files.updated)) head a.request))
  route_prog js = answers (handle_static_js o.serve_content o.app_js c.started head a.request)
  route_prog client_shell = reply (handle_static_client_shell_script o.client_script c.url_base)
