-- ===== src/Cmd/Server/Live/ShownPrice.antt =====
-- An answer that carries a secret, paid for by the claim before it.
use onetimelink.Cmd.Server.Mux.{
  Outside, Config, Arrival, Route, get, api_get, index, info, create, api_new, fav, css, js,
  client_shell,
}
use onetimelink.Cmd.Server.Live.Price.{Price, Owes}
use onetimelink.Cmd.Server.Live.{
  add_if, add_prog, api_get_prog, api_new_prog, confirm, create_prog, describe, get_prog, inform,
  info_prog, reveal, route_prog, send_json, show_added, show_created,
}
use onetimelink.Http.{Content, json_info, view_page, info_page, text, Headers, Request, method_post}
use onetimelink.Httpio.Static.{
  handle_static_fav, handle_static_css, handle_static_js, handle_static_client_shell_script,
}
use onetimelink.Prelude.Text.{Bytes, utf8, str_eq, str_eq_refl}
use onetimelink.Store.Serve.{claim, get_entry_info_hidden, make_info}
use onetimelink.Httpio.Api.{json_respond, max_data}
use onetimelink.Httpio.View.{
  handle_index, render_error, render_gone, reply_create_error, request_token, wants_html,
  create_error_text, read_form,
}
use onetimelink.Prelude.{
  Bool, some, ℕ, ◌≡◌, ◌≤◌, Bool-cases, arith, if◌then◌else◌, refl, true, Option-cases, false, [],
  inl, inr, ◌&&◌, not, take,
}
use onetimelink.Prelude.Clock.{Time}
use onetimelink.Store.{
  SecretStore, StoreEntryInfo, StoreEntry, hidden_string, StoreError, add_entry, get_entry,
}
use onetimelink.Store.History.{handed_out}
use onetimelink.Prelude.Parse.{path_base}
use onetimelink.Prelude.Result.{Result, err, Result-cases, ok}
use onetimelink.TokenDb.{knows, is_authorized}
use onetimelink.Httpio.{get_route, api_get_route}
use onetimelink.Prelude.GoMap.{lookup}
use onetimelink.Httpio.Forms.{form_entry, form_clicks, form_days}

-- An entry under `id`, not hidden.
abbrev pub reveals : Bytes → StoreEntryInfo → ℕ
reveals id shown = if str_eq shown.id id && not (str_eq shown.secret hidden_string) then 1 else 0

-- Whether an answer carries the secret of the entry under `id`, whatever its status and its request: by
-- the page of a link, that of the metadata or the API.
abbrev pub discloses : Bytes → Content → ℕ
discloses id (json_info shown) = reveals id shown
discloses id (view_page shown message remaining) = reveals id shown
discloses id (info_page shown) = reveals id shown
discloses id _ = 0

abbrev pub IsText : Content → Type 0
IsText content = (served : Bytes) × (content ≡ text served)

-- ServeContent and the mux's own answers are text.
pub record IsSilent (o : Outside) : Type 0 where
  pub serves :
      (head : Headers) (r : Request) (name : Bytes) (time : Time) (bytes : Bytes)
      → IsText (o.serve_content head r name time bytes).response.content
  pub unroutes : (r : Request) → IsText (o.unrouted r).content

pub IsText-discloses : (id : Bytes) (content : Content) → IsText content → discloses id content ≤ 0
IsText-discloses id content (served, e) = rw e (omega arith)

claim_id :
    (st : SecretStore) (id urlbase urlget urlapiget : Bytes)
    → (claim st id urlbase urlget urlapiget).1.1 ≡ true
    → (claim st id urlbase urlget urlapiget).1.0.id ≡ id
unfolding claim make_info
claim_id st id urlbase urlget urlapiget found = elim (Option-cases (lookup id st.entries)) [
  | inl missing ↦ absurd (ground (arith, missing))
  | inr (e, there) ↦ rw (there, claim) refl
]

hidden_secret :
    (st : SecretStore) (id urlbase urlget urlapiget : Bytes)
    → (get_entry_info_hidden st id urlbase urlget urlapiget).0.secret ≡ hidden_string
unfolding get_entry_info_hidden
hidden_secret st id urlbase urlget urlapiget = refl

hidden_reveals :
    (id : Bytes) (shown : StoreEntryInfo) → shown.secret ≡ hidden_string → reveals id shown ≤ 0
hidden_reveals id shown hidden = rw hidden (ground (arith, str_eq_refl hidden_string))

-- An answer that carries the secret under `id` is paid for by a claim that hands it out.
abbrev pub shown_price : Bytes → Price
shown_price id = record {
  counts = λ route r response. discloses id response.content;
  op_cost = handed_out id;
  pass_cost = λ limit r. 0;
  refused = λ route r. refl;
}

-- What a claim hands out.
abbrev claimed_at : Bytes → Bytes → Bool → ℕ
claimed_at id k found = if str_eq k id && found then 1 else 0

module _ (o : Outside) (c : Config) (a : Arrival) (head : Headers) (id : Bytes) where
  confirm-Owes :
      (found : Bool) → Owes (shown_price id) (some Route.get) a.request (confirm o c a head found) 0
  unfolding confirm render_gone render_error
  confirm-Owes true = λ files. omega arith
  confirm-Owes false = omega arith

  reveal-Owes :
      (r : StoreEntryInfo × Bool) (k : Bytes) (n : ℕ)
      → (r.1 ≡ true → r.0.id ≡ k)
      → claimed_at id k r.1 ≤ n
      → Owes (shown_price id) (some Route.get) a.request (reveal o c a head r) n
  unfolding reveal render_gone render_error
  reveal-Owes (entry, true) k n same h = λ files. rw (same refl) (ground arith)
  reveal-Owes (entry, false) k n same h = omega arith

  send_json-Owes :
      (r : StoreEntryInfo × Bool) (k : Bytes) (n : ℕ)
      → (r.1 ≡ true → r.0.id ≡ k)
      → claimed_at id k r.1 ≤ n
      → Owes (shown_price id) (some Route.api_get) a.request (send_json o c a head r) n
  unfolding send_json json_respond
  send_json-Owes (entry, true) k n same h = rw (same refl) (ground arith)
  send_json-Owes (entry, false) k n same h = omega arith

  get_prog-Owes : Owes (shown_price id) (some Route.get) a.request (get_prog o c a head) 0
  unfolding get_prog handed_out
  get_prog-Owes =
      let k = a.request.query (utf8 "id") in
      elim (Bool-cases (str_eq a.request.method method_post)) [
        | inr opening ↦ rw (opening, get_prog) (λ st. confirm-Owes (get_entry st k).1)
        | inl posted ↦
            rw (posted, get_prog)
              (λ st.
                reveal-Owes (claim st k c.url_base get_route api_get_route).1 k _
                  (claim_id st k c.url_base get_route api_get_route) (omega arith))
      ]

  api_get_prog-Owes :
      Owes (shown_price id) (some Route.api_get) a.request (api_get_prog o c a head) 0
  unfolding api_get_prog handed_out
  api_get_prog-Owes = λ st.
      let k = path_base a.request.path in
      send_json-Owes (claim st k c.url_base get_route api_get_route).1 k _
        (claim_id st k c.url_base get_route api_get_route) (omega arith)

  describe-Owes :
      (r : StoreEntryInfo × Bool)
      → r.0.secret ≡ hidden_string
      → Owes (shown_price id) (some Route.info) a.request (describe o c a head r) 0
  unfolding describe render_gone render_error
  describe-Owes (entry, true) hidden = hidden_reveals id entry hidden
  describe-Owes (entry, false) hidden = omega arith

  inform-Owes :
      (known : Bool) → Owes (shown_price id) (some Route.info) a.request (inform o c a head known) 0
  unfolding inform render_error
  inform-Owes false = omega arith
  inform-Owes true = λ st.
      let k = a.request.query (utf8 "id") in
      describe-Owes (get_entry_info_hidden st k c.url_base get_route api_get_route)
        (hidden_secret st k c.url_base get_route api_get_route)

  info_prog-Owes : Owes (shown_price id) (some Route.info) a.request (info_prog o c a head) 0
  unfolding info_prog
  info_prog-Owes = λ files. inform-Owes (knows o.sha256 files.auth (request_token a.request))

  show_added-Owes :
      (r : Result StoreError Bytes)
      → Owes (shown_price id) (some Route.api_new) a.request (show_added o c a head r) 0
  unfolding show_added json_respond
  show_added-Owes (err e) = omega arith
  show_added-Owes (ok k) = λ st.
      hidden_reveals id (get_entry_info_hidden st k c.url_base get_route api_get_route).0
        (hidden_secret st k c.url_base get_route api_get_route)

  add_if-Owes :
      (r : StoreEntry × Bool)
      → Owes (shown_price id) (some Route.api_new) a.request (add_if o c a head r) 0
  unfolding add_if add_prog json_respond handed_out
  add_if-Owes (entry, false) = omega arith
  add_if-Owes (entry, true) = λ st. show_added-Owes (add_entry st entry [] a.now a.draws).1

  api_new_prog-Owes :
      Owes (shown_price id) (some Route.api_new) a.request (api_new_prog o c a head) 0
  unfolding api_new_prog json_respond
  api_new_prog-Owes = elim (Bool-cases (str_eq a.request.method method_post)) [
    | inr other ↦ rw (other, api_new_prog) (omega arith)
    | inl posted ↦ elim (Option-cases a.request.body) [
      | inl unread ↦ rw (posted, unread, api_new_prog) (omega arith)
      | inr (body, sent) ↦ elim (Result-cases (o.decoders.unmarshal_entry (take max_data body))) [
        | inr (message, bad) ↦ rw (posted, sent, bad, api_new_prog) (omega arith)
        | inl (entry, decoded) ↦
            rw (posted, sent, decoded, api_new_prog)
              (λ files. add_if-Owes (is_authorized o.sha256 files.auth entry))
      ]
    ]
  ]

  reply_create_error_quiet :
      (status : ℕ) (title message : Bytes)
      → discloses id (reply_create_error a.request status title message).content ≤ 0
  unfolding reply_create_error render_error
  reply_create_error_quiet status title message = elim (Bool-cases (wants_html a.request)) [
    | inl html ↦ rw (html, reply_create_error) (omega arith)
    | inr plain ↦ rw (plain, reply_create_error) (omega arith)
  ]

  show_created-Owes :
      (form : Bytes → Bytes) (st : SecretStore) (r : Result StoreError Bytes)
      → Owes (shown_price id) (some Route.create) a.request (show_created o c a head form st r) 0
  unfolding show_created
  show_created-Owes form st (err e) =
      let (status, title, message) = create_error_text e st.max_entries in
      reply_create_error_quiet status title message
  show_created-Owes form st (ok k) = elim (Bool-cases (wants_html a.request)) [
    | inl html ↦ rw (html, show_created) (omega arith)
    | inr plain ↦ rw (plain, show_created) (omega arith)
  ]

  create_prog-Owes : Owes (shown_price id) (some Route.create) a.request (create_prog o c a head) 0
  unfolding create_prog handed_out
  create_prog-Owes = elim (Bool-cases (str_eq a.request.method method_post)) [
    | inr other ↦ rw (other, create_prog) (reply_create_error_quiet 405 _ _)
    | inl posted ↦ elim (Option-cases (read_form o.decoders a.request)) [
      | inl unread ↦ rw (posted, unread, create_prog) (reply_create_error_quiet 400 _ _)
      | inr (form, read) ↦
          rw (posted, read, create_prog)
            (λ st.
              let entry = form_entry form (form_clicks form) (form_days form) in
              let called = add_entry st entry [] a.now a.draws in
              show_created-Owes form called.0 called.1)
    ]
  ]

  index-Owes : discloses id (handle_index c.allow_anonymous a.request).content ≤ 0
  unfolding handle_index render_error
  index-Owes = elim (Bool-cases (str_eq a.request.path (utf8 "/"))) [
    | inl root ↦ rw (root, handle_index) (omega arith)
    | inr other ↦ rw (other, handle_index) (omega arith)
  ]

  -- No route but two shows anything.
  pub route_prog-Owes :
      (route : Route)
      → IsSilent o
      → Owes (shown_price id) (some route) a.request (route_prog o c a head route) 0
  unfolding route_prog handle_static_fav handle_static_css handle_static_js
      handle_static_client_shell_script
  route_prog-Owes get silent = get_prog-Owes
  route_prog-Owes api_get silent = api_get_prog-Owes
  route_prog-Owes index silent = index-Owes
  route_prog-Owes info silent = info_prog-Owes
  route_prog-Owes create silent = create_prog-Owes
  route_prog-Owes api_new silent = api_new_prog-Owes
  route_prog-Owes fav silent = omega arith
  route_prog-Owes css silent = λ files.
      IsText-discloses id _
        (silent.serves head a.request (utf8 "custom.css") files.updated files.css)
  route_prog-Owes js silent =
      IsText-discloses id _ (silent.serves head a.request (utf8 "app.js") c.started o.app_js)
  route_prog-Owes client_shell silent = omega arith
