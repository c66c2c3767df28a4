-- ===== src/Cmd/Server/Once.antt =====
-- The server as a whole: how often it shows a secret, by page or API.
use onetimelink.Prelude.{
  Bool, ℕ, List, Option, ◌≡◌, ◌+◌, ◌≤◌, ◌&&◌, ◌==◌, [], ◌∷◌, true, false, some, arith,
  if◌then◌else◌, refl, Bool-cases, Option-cases, inl, inr,
}
use onetimelink.Prelude.Text.{Bytes, str_eq, utf8}
use onetimelink.Prelude.Parse.{path_base}
use onetimelink.Store.{SecretStore, get_entry}
use onetimelink.Store.History.{remaining, claims, handed_out, step, granted}
use onetimelink.Store.Reads.{step_balance}
use onetimelink.Store.Valid.{IsValid, step-IsValid}
use onetimelink.Store.Serve.{claim}
use onetimelink.Httpio.{get_route, api_get_route}
use onetimelink.Httpio.Api.{handle_api_get, json_respond}
use onetimelink.Httpio.View.{handle_get, render_gone, render_error}
use onetimelink.Http.{Request, Response, method_post, Headers}
use onetimelink.Misc.RateLimit.{allow, Limiter}
use onetimelink.Misc.RateLimit.Wrap.{client_key, rate_limit}
use onetimelink.Misc.Headers.{security_headers}
use onetimelink.Cmd.Server.{loaded_assets}
use onetimelink.Cmd.Server.Mux.{
  Outside, Config, Route, serve_http, Arrival, handle, route_of, ServerState, create, info, api_new,
  index, get, api_get, fav, css, js, client_shell, serve_http_unrouted, serve_http_routed, under,
}
use onetimelink.Cmd.Server.Routes.{handle_untouched}
use onetimelink.Prelude.Clock.{Time}

-- Whether an answer shows the secret under `id`: 200 to a POST of its link or to the API request for it.
abbrev pub shows : Bytes → Option Route → Request → ℕ → ℕ
shows id (some Route.get) r status =
    if str_eq (r.query (utf8 "id")) id && (str_eq r.method method_post && (status == 200))
    then 1
    else 0
shows id (some Route.api_get) r status =
    if str_eq (path_base r.path) id && (status == 200) then 1 else 0
shows id _ r status = 0

abbrev pub takes_secrets : Option Route → Bool
takes_secrets (some Route.create) = true
takes_secrets (some Route.api_new) = true
takes_secrets _ = false

-- One answer that leaves the store well formed and whose showing came off the reads left under the id.
pub record Spends (id : Bytes) (st st' : SecretStore) (shown : ℕ) : Type 0 where
  pub valid : IsValid st'
  pub spent : shown + remaining id st' ≤ remaining id st

module _ (id : Bytes) (st : SecretStore) (urlbase : Bytes) (r : Request) (v : IsValid st) where
  handle_api_get-Spends :
      Spends id st
        (handle_api_get st urlbase r).0
        (shows id (some Route.api_get) r (handle_api_get st urlbase r).1.status)
  unfolding handle_api_get step handed_out granted json_respond
  handle_api_get-Spends =
      let op = claims (path_base r.path) urlbase get_route api_get_route in
      let balance = step_balance id st op v in
      let valid = step-IsValid st op tt v in
      elim (Bool-cases (claim st (path_base r.path) urlbase get_route api_get_route).1.1) [
        | inl found ↦
            rw (found, handle_api_get) (record { valid = valid; spent = ground (arith, balance) })
        | inr missing ↦
            rw (missing, handle_api_get) (record { valid = valid; spent = ground (arith, balance) })
      ]

  handle_get-Spends :
      (message : Bytes)
      → Spends id st
          (handle_get st urlbase message r).0
          (shows id (some Route.get) r (handle_get st urlbase message r).1.status)
  unfolding handle_get step handed_out granted render_gone render_error
  handle_get-Spends message =
      let op = claims (r.query (utf8 "id")) urlbase get_route api_get_route in
      let balance = step_balance id st op v in
      let valid = step-IsValid st op tt v in
      elim (Bool-cases (str_eq r.method method_post)) [
        | inr opening ↦ elim (Bool-cases (get_entry st (r.query (utf8 "id"))).1) [
          | inl found ↦ rw (opening, handle_get, found) (record { valid = v; spent = ground arith })
          | inr missing ↦
              rw (opening, handle_get, missing) (record { valid = v; spent = ground arith })
        ]
        | inl posted ↦
            elim (Bool-cases (claim st (r.query (utf8 "id")) urlbase get_route api_get_route).1.1) [
              | inl found ↦
                  rw (posted, found, handle_get)
                    (record { valid = valid; spent = ground (arith, balance) })
              | inr missing ↦
                  rw (posted, missing, handle_get)
                    (record { valid = valid; spent = ground (arith, balance) })
            ]
      ]

-- The limiter passes a request on or keeps it from the store and answers 429.
limited-Spends :
    (id : Bytes) (st : SecretStore) (split_host_port : Bytes → Option Bytes) (l : Limiter)
    (now : Time) (head : Headers) (r : Request) (handler : SecretStore → SecretStore × Response)
    (counts : ℕ → ℕ)
    → counts 429 ≡ 0
    → IsValid st
    → Spends id st (handler st).0 (counts (handler st).1.status)
    → Spends id st
        (rate_limit split_host_port l now head r st (λ st. under head (handler st))).1.0
        (counts
          (rate_limit split_host_port l now head r st
            (λ st. under head (handler st))).1.1.response.status)
unfolding rate_limit
limited-Spends id st split_host_port l now head r handler counts nothing v spends =
    elim (Bool-cases (allow l (client_key split_host_port r) now).1) [
      | inl passes ↦ rw passes spends
      | inr refused ↦ rw refused (record { valid = v; spent = rw nothing (omega arith) })
    ]

module _ (o : Outside) (c : Config) where
  -- How many of some requests, one after the other, are answered with the secret under `id`.
  unfoldable pub shown_for : Bytes → ServerState → List Arrival → ℕ
  shown_for id s [] = 0
  shown_for id s (a ∷ rest) =
      shows id (route_of o c a.request) a.request (serve_http o c s a).1.response.status
      + shown_for id (serve_http o c s a).0 rest

  handle-Spends :
      (id : Bytes) (s : ServerState) (a : Arrival) (route : Route)
      → takes_secrets (some route) ≡ false
      → IsValid s.store
      → Spends id s.store (handle o c route s a (security_headers c.tls [])).0.store (
          shows id
            (some route)
            a.request
            (handle o c route s a (security_headers c.tls [])).1.response.status)
  unfolding handle rate_limit
  handle-Spends id s a get h v =
      limited-Spends id s.store o.split_host_port s.get_limiter a.seen (security_headers c.tls [])
        a.request
        (λ st. handle_get st c.url_base (loaded_assets s.assets).user_message_view a.request)
        (shows id (some Route.get) a.request) (ground arith) v
        (handle_get-Spends id s.store c.url_base a.request v
          (loaded_assets s.assets).user_message_view)
  handle-Spends id s a api_get h v =
      limited-Spends id s.store o.split_host_port s.get_limiter a.seen (security_headers c.tls [])
        a.request (λ st. handle_api_get st c.url_base a.request)
        (shows id (some Route.api_get) a.request) (ground arith) v
        (handle_api_get-Spends id s.store c.url_base a.request v)
  handle-Spends id s a index h v = record { valid = v; spent = omega arith }
  handle-Spends id s a info h v =
      let same = handle_untouched o c s a info refl in
      rw same (record { valid = v; spent = omega arith })
  handle-Spends id s a fav h v = record { valid = v; spent = omega arith }
  handle-Spends id s a css h v = record { valid = v; spent = omega arith }
  handle-Spends id s a js h v = record { valid = v; spent = omega arith }
  handle-Spends id s a client_shell h v = record { valid = v; spent = omega arith }
  handle-Spends id s a create h v = absurd (ground arith)
  handle-Spends id s a api_new h v = absurd (ground arith)

  pub serve_http-Spends :
      (id : Bytes) (s : ServerState) (a : Arrival)
      → takes_secrets (route_of o c a.request) ≡ false
      → IsValid s.store
      → Spends id s.store
          (serve_http o c s a).0.store
          (shows id (route_of o c a.request) a.request (serve_http o c s a).1.response.status)
  serve_http-Spends id s a h v = elim (Option-cases (route_of o c a.request)) [
    | inl missing ↦
        rw (serve_http_unrouted o c s a missing, missing)
          (record { valid = v; spent = omega arith })
    | inr (route, found) ↦
        rw (serve_http_routed o c s a route found, found)
          (handle-Spends id s a route (rw found at h) v)
  ]
