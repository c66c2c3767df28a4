-- ===== src/Cmd/Server/Mux.antt =====
-- cmd/server.go: buildMux, and the handling of one request by what it builds. http.ServeMux is a
-- parameter: `choose` gives the registered pattern that serves a request, and `unrouted` is its own
-- answer where it gives none.
use onetimelink.Http.{Headers, Reply, Request, Decoders, Response}
use onetimelink.Prelude.{
  Bool, List, Option, none, [], map, some, ℕ, ◌∷◌, if◌then◌else◌, ◌++◌, ◌≡◌, refl,
}
use onetimelink.Prelude.Text.{Bytes, utf8}
use onetimelink.Store.{SecretStore}
use onetimelink.Httpio.View.{handle_index, handle_get, handle_info, handle_create}
use onetimelink.Misc.Headers.{security_headers, get_real_ip}
use onetimelink.Misc.RateLimit.{Limiter, new_limiter}
use onetimelink.Prelude.Clock.{Time}
use onetimelink.Cmd.Server.{Assets, loaded_assets, new_burst, new_interval, get_burst, get_interval}
use onetimelink.Httpio.{
  api_get_route, api_new_route, fav_route, css_route, js_route, client_shell_route, get_route,
  info_route, create_route,
}
use onetimelink.Httpio.Static.{
  ServeContent, handle_static_fav, handle_static_css, handle_static_js,
  handle_static_client_shell_script,
}
use onetimelink.Misc.RateLimit.Wrap.{rate_limit}
use onetimelink.Prelude.GoMap.{lookup}
use onetimelink.Store.History.{Op}
use onetimelink.Httpio.Api.{handle_api_get, handle_api_new}
use onetimelink.Misc.Redact.{redact_path, sanitize_for_log}

pub data Route : Type 0 where
  index get info create api_get api_new fav css js client_shell : Route

-- The calls of mux.Handle, in their order.
unfoldable pub routes : Bool → List (Bytes × Route)
routes allow_anonymous =
    (utf8 "/", index)
    ∷ (get_route, get)
    ∷ (info_route, info)
    ∷ (if allow_anonymous then (create_route, create) ∷ api_routes else api_routes)
  where
    api_routes : List (Bytes × Route)
    api_routes =
        (api_get_route, api_get)
        ∷ (api_new_route, api_new)
        ∷ (fav_route, fav)
        ∷ (css_route, css)
        ∷ (js_route, js)
        ∷ (client_shell_route, client_shell)
        ∷ []

-- The code outside the repository that the handlers call, and the embedded files.
pub record Outside : Type 0 where
  pub sha256 : Bytes → Bytes
  pub decoders : Decoders
  pub split_host_port : Bytes → Option Bytes
  pub choose : List Bytes → Request → Option Bytes
  pub unrouted : Request → Response
  pub serve_content : ServeContent
  pub favicon : Bytes
  pub app_js : Bytes
  pub client_script : Bytes → Bytes

-- What buildMux is called with, and the variables that it reads.
pub record Config : Type 0 where
  pub url_base : Bytes
  pub allow_anonymous : Bool
  pub tls : Bool
  pub started : Time

-- The state that the handlers share.
pub record ServerState : Type 0 where
  pub store : SecretStore
  pub new_limiter : Limiter
  pub get_limiter : Limiter
  pub assets : Option Assets

-- A request, with the times that the limiter and the store read, the outcomes of crypto/rand, and what
-- other requests do to the store while HandleApiNew does not hold it.
pub record Arrival : Type 0 where
  pub request : Request
  pub seen : Time
  pub now : Time
  pub draws : ℕ → Option (List ℕ)
  pub between : List Op

unfoldable pub start_server : SecretStore → Option Assets → ServerState
start_server store assets = record {
  store = store;
  new_limiter = new_limiter new_burst new_interval;
  get_limiter = new_limiter get_burst get_interval;
  assets = assets;
}

abbrev pub under : Headers → SecretStore × Response → SecretStore × Reply
under head (st, response) = (st, record { headers = head; response = response })

module _ (o : Outside) (c : Config) where
  -- mux.Handle(pattern, misc.RateLimit(newLimiter, handler)), and the same with getLimiter.
  abbrev pub limited_new :
      ServerState → Arrival → Headers → (SecretStore → SecretStore × Response) → ServerState × Reply
  limited_new s a head handler =
      let (l, (st, reply)) =
        rate_limit o.split_host_port s.new_limiter a.seen head a.request s.store
          (λ st. under head (handler st)) in
      (record s { store = st; new_limiter = l }, reply)

  abbrev pub limited_get :
      ServerState → Arrival → Headers → (SecretStore → SecretStore × Response) → ServerState × Reply
  limited_get s a head handler =
      let (l, (st, reply)) =
        rate_limit o.split_host_port s.get_limiter a.seen head a.request s.store
          (λ st. under head (handler st)) in
      (record s { store = st; get_limiter = l }, reply)

  -- The handler that buildMux registers for a route.
  unfoldable pub handle : Route → ServerState → Arrival → Headers → ServerState × Reply
  handle index s a head =
      (s, record { headers = head; response = handle_index c.allow_anonymous a.request })
  handle get s a head =
      limited_get s a head
        (λ st. handle_get st c.url_base (loaded_assets s.assets).user_message_view a.request)
  handle info s a head =
      limited_new s a head
        (λ st. handle_info o.sha256 st c.url_base (loaded_assets s.assets).auth a.request)
  handle create s a head =
      limited_new s a head (λ st. handle_create o.decoders st c.url_base a.now a.draws a.request)
  handle api_get s a head = limited_get s a head (λ st. handle_api_get st c.url_base a.request)
  handle api_new s a head = limited_new s a head (λ st.
      handle_api_new o.sha256 o.decoders st c.url_base (loaded_assets s.assets).auth a.now a.draws
        a.between a.request)
  handle fav s a head = (s, record { headers = head; response = handle_static_fav o.favicon })
  handle css s a head = (
    s,
    handle_static_css o.serve_content
        (λ _. ((loaded_assets s.assets).css, (loaded_assets s.assets).updated)) head a.request,
  )
  handle js s a head = (s, handle_static_js o.serve_content o.app_js c.started head a.request)
  handle client_shell s a head = (
    s,
    record {
      headers = head;
      response = handle_static_client_shell_script o.client_script c.url_base;
    },
  )

  -- The route of a request: what is registered under the pattern that the mux chooses.
  unfoldable pub route_of : Request → Option Route
  route_of r = elim (o.choose (map (λ e. e.0) (routes c.allow_anonymous)) r) [
    | none ↦ none
    | some pattern ↦ lookup pattern (routes c.allow_anonymous)
  ]

  unfoldable pub serve_mux : ServerState → Arrival → Headers → ServerState × Reply
  serve_mux s a head = elim (route_of a.request) [
    | none ↦ (s, record { headers = head; response = o.unrouted a.request })
    | some route ↦ handle route s a head
  ]

  -- The whole of what buildMux returns: SecurityHeaders around Log around the mux. Log only writes a
  -- line and calls the handler.
  unfoldable pub serve_http : ServerState → Arrival → ServerState × Reply
  serve_http s a = serve_mux s a (security_headers c.tls [])

module _ (o : Outside) (c : Config) (s : ServerState) (a : Arrival) where
  pub serve_http_routed :
      (route : Route)
      → route_of o c a.request ≡ some route
      → serve_http o c s a ≡ handle o c route s a (security_headers c.tls [])
  unfolding serve_http serve_mux
  serve_http_routed route found = rw (serve_mux, found) refl

  pub serve_http_unrouted :
      route_of o c a.request ≡ none
      → serve_http o c s a
        ≡ (s, record { headers = security_headers c.tls []; response = o.unrouted a.request })
  unfolding serve_http serve_mux
  serve_http_unrouted missing = rw (serve_mux, missing) refl

-- The line that Log writes for a request; `parse_ip` is net.ParseIP with the String of its result.
unfoldable pub log_line : (Bytes → Option Bytes) → Bytes → Request → Bytes
log_line parse_ip proto r =
    r.remote_addr
    ++ (utf8 " ("
        ++ (get_real_ip parse_ip r
            ++ (utf8 ") \""
                ++ (r.method
                    ++ (utf8 " "
                        ++ (redact_path r.path
                            ++ (utf8 " "
                                ++ (proto
                                    ++ (utf8 "\" \""
                                        ++ (sanitize_for_log (r.header (utf8 "User-Agent")) 200
                                            ++ utf8 "\""))))))))))
