-- ===== src/Cmd/Server/Routes.antt =====
-- Which requests reach the store, and the headers of every answer.
use onetimelink.Cmd.Server.Mux.{
  Outside, Route, Config, ServerState, Arrival, handle, route_of, serve_http, index, under, get,
  info, create, fav, serve_http_unrouted, api_get, css, api_new, js, serve_http_routed,
  client_shell, routes,
}
use onetimelink.Misc.Headers.{security_headers}
use onetimelink.Misc.RateLimit.Wrap.{rate_limit, client_key}
use onetimelink.Prelude.{
  Bool, List, Option, some, true, false, [], ◌≡◌, if◌then◌else◌, ◌∙◌, ◌≢◌, arith, none, ◌⊎◌,
  Option-cases, refl, Bool-cases, inl, ◌∷◌, inr, ◌==◌, All, map,
}
use onetimelink.Prelude.Text.{str_eq, Bytes, utf8, rune_bytes, has_prefix}
use onetimelink.Http.{Headers, Request, Response}
use onetimelink.Prelude.GoMap.{insert, lookup, lookup-insert, lookup-All}
use onetimelink.Misc.RateLimit.{Limiter, allow}
use onetimelink.Prelude.Clock.{Time}
use onetimelink.Store.{SecretStore}
use onetimelink.Httpio.{get_route, api_new_route, create_route, api_get_route}
use onetimelink.Httpio.Privacy.{handle_info-with_secrets}
use onetimelink.Cmd.Server.{loaded_assets}

abbrev ends_in_slash : Bytes → Bool
ends_in_slash [] = false
ends_in_slash (x ∷ []) = x == b'/'
ends_in_slash (x ∷ y ∷ s) = ends_in_slash (y ∷ s)

-- What the code relies on of http.ServeMux: a request is served under a registered pattern that is its
-- path or, with a slash at the end, a prefix of it.

pub record IsMux (choose : List Bytes → Request → Option Bytes) : Type 0 where
  pub fits :
      (patterns : List Bytes) (r : Request) (p : Bytes)
      → choose patterns r ≡ some p
      → (r.path ≡ p) ⊎ ((ends_in_slash p ≡ true) × (has_prefix r.path p ≡ true))

-- The store after a handler for a route that neither adds nor claims.
abbrev pub touches_store : Route → Bool
touches_store Route.get = true
touches_store Route.api_get = true
touches_store Route.create = true
touches_store Route.api_new = true
touches_store _ = false

-- The header fields that keep a secret out of caches, frames and referrers.
pub record IsGuarded (tls : Bool) (head : Headers) : Type 0 where
  pub no_store :
      lookup (utf8 "Cache-Control") head
      ≡ some (utf8 "no-store, no-cache, must-revalidate, private")
  pub no_referrer : lookup (utf8 "Referrer-Policy") head ≡ some (utf8 "no-referrer")
  pub no_frame : lookup (utf8 "X-Frame-Options") head ≡ some (utf8 "DENY")
  pub no_sniff : lookup (utf8 "X-Content-Type-Options") head ≡ some (utf8 "nosniff")
  pub transport :
      lookup (utf8 "Strict-Transport-Security") head
      ≡ (if tls then some (utf8 "max-age=63072000") else none)

security_headers-IsGuarded : (tls : Bool) → IsGuarded tls (security_headers tls [])
unfolding security_headers insert lookup str_eq utf8 rune_bytes
security_headers-IsGuarded true = record {
  no_store = refl;
  no_referrer = refl;
  no_frame = refl;
  no_sniff = refl;
  transport = refl;
}
security_headers-IsGuarded false = record {
  no_store = refl;
  no_referrer = refl;
  no_frame = refl;
  no_sniff = refl;
  transport = refl;
}

-- A rejection by the limiter adds one field and keeps the others.
rejected-IsGuarded :
    (tls : Bool) (head : Headers) (value : Bytes)
    → IsGuarded tls head
    → IsGuarded tls (insert (utf8 "Retry-After") value head)
unfolding str_eq utf8 rune_bytes
rejected-IsGuarded tls head value g = record {
  no_store = lookup-insert _ _ value head ∙ g.no_store;
  no_referrer = lookup-insert _ _ value head ∙ g.no_referrer;
  no_frame = lookup-insert _ _ value head ∙ g.no_frame;
  no_sniff = lookup-insert _ _ value head ∙ g.no_sniff;
  transport = lookup-insert _ _ value head ∙ g.transport;
}

rate_limit-IsGuarded :
    (tls : Bool) (split_host_port : Bytes → Option Bytes) (l : Limiter) (now : Time)
    (head : Headers) (r : Request) (st : SecretStore)
    (handler : SecretStore → SecretStore × Response)
    → IsGuarded tls head
    → IsGuarded tls
        (rate_limit split_host_port l now head r st (λ st. under head (handler st))).1.1.headers
unfolding rate_limit
rate_limit-IsGuarded tls split_host_port l now head r st handler g =
    elim (Bool-cases (allow l (client_key split_host_port r) now).1) [
      | inl passes ↦ rw passes g
      | inr refused ↦ rw refused (rejected-IsGuarded tls head (utf8 "1") g)
    ]

-- The handlers that leave the headers to http.ServeContent.
abbrev is_content : Option Route → Bool
is_content (some Route.css) = true
is_content (some Route.js) = true
is_content _ = false

-- The patterns under which the handlers that touch the store are registered.
abbrev Reaches : Bool → Bytes → Route → Type 0
Reaches allow_anonymous p route =
    touches_store route ≡ true
    → (p ≡ get_route)
      ⊎ ((p ≡ api_new_route)
          ⊎ ((p ≡ api_get_route) ⊎ ((p ≡ create_route) × (allow_anonymous ≡ true))))

routes-Reaches :
    (allow_anonymous : Bool) → All (λ e. Reaches allow_anonymous e.0 e.1) (routes allow_anonymous)
unfolding routes
routes-Reaches true = (
  λ h. absurd (ground arith),
  (
    λ h. inl refl,
    (
      λ h. absurd (ground arith),
      (
        λ h. inr (inr (inr (refl, refl))),
        (
          λ h. inr (inr (inl refl)),
          (
            λ h. inr (inl refl),
            (
              λ h. absurd (ground arith),
              (
                λ h. absurd (ground arith),
                (λ h. absurd (ground arith), (λ h. absurd (ground arith), tt)),
              ),
            ),
          ),
        ),
      ),
    ),
  ),
)
routes-Reaches false = (
  λ h. absurd (ground arith),
  (
    λ h. inl refl,
    (
      λ h. absurd (ground arith),
      (
        λ h. inr (inr (inl refl)),
        (
          λ h. inr (inl refl),
          (
            λ h. absurd (ground arith),
            (
              λ h. absurd (ground arith),
              (λ h. absurd (ground arith), (λ h. absurd (ground arith), tt)),
            ),
          ),
        ),
      ),
    ),
  ),
)

module _ (o : Outside) (c : Config) (s : ServerState) (a : Arrival) where
  handle-IsGuarded :
      (route : Route)
      → is_content (some route) ≡ false
      → IsGuarded c.tls (handle o c route s a (security_headers c.tls [])).1.headers
  unfolding handle
  handle-IsGuarded index h = security_headers-IsGuarded c.tls
  handle-IsGuarded get h =
      rate_limit-IsGuarded c.tls _ _ _ _ _ _ _ (security_headers-IsGuarded c.tls)
  handle-IsGuarded info h =
      rate_limit-IsGuarded c.tls _ _ _ _ _ _ _ (security_headers-IsGuarded c.tls)
  handle-IsGuarded create h =
      rate_limit-IsGuarded c.tls _ _ _ _ _ _ _ (security_headers-IsGuarded c.tls)
  handle-IsGuarded api_get h =
      rate_limit-IsGuarded c.tls _ _ _ _ _ _ _ (security_headers-IsGuarded c.tls)
  handle-IsGuarded api_new h =
      rate_limit-IsGuarded c.tls _ _ _ _ _ _ _ (security_headers-IsGuarded c.tls)
  handle-IsGuarded fav h = security_headers-IsGuarded c.tls
  handle-IsGuarded css h = absurd (ground arith)
  handle-IsGuarded js h = absurd (ground arith)
  handle-IsGuarded client_shell h = security_headers-IsGuarded c.tls

  -- Every answer of the server, whatever the request, carries the header fields that keep it out of
  -- caches, frames and referrers; only of the style sheet and the script it is http.ServeContent that
  -- decides.
  pub serve_http-IsGuarded :
      is_content (route_of o c a.request) ≡ false → IsGuarded c.tls (serve_http o c s a).1.headers
  serve_http-IsGuarded h = elim (Option-cases (route_of o c a.request)) [
    | inl missing ↦ rw (serve_http_unrouted o c s a missing) (security_headers-IsGuarded c.tls)
    | inr (route, found) ↦
        rw (serve_http_routed o c s a route found) (handle-IsGuarded route (rw found at h))
  ]

  pub handle_untouched :
      (route : Route)
      → touches_store route ≡ false
      → (handle o c route s a (security_headers c.tls [])).0.store ≡ s.store
  unfolding handle rate_limit
  handle_untouched index h = refl
  handle_untouched info h =
      elim (Bool-cases (allow s.new_limiter (client_key o.split_host_port a.request) a.seen).1) [
        | inl passes ↦ rw passes (
            (handle_info-with_secrets (λ x. x) s.store c.url_base a.request o.sha256
              (loaded_assets s.assets).auth).0)
        | inr refused ↦ rw refused refl
      ]
  handle_untouched fav h = refl
  handle_untouched css h = refl
  handle_untouched js h = refl
  handle_untouched client_shell h = refl
  handle_untouched get h = absurd (ground arith)
  handle_untouched create h = absurd (ground arith)
  handle_untouched api_get h = absurd (ground arith)
  handle_untouched api_new h = absurd (ground arith)

  route_of-pattern :
      (route : Route)
      → route_of o c a.request ≡ some route
      → (p : Bytes) × (o.choose (map (λ e. e.0) (routes c.allow_anonymous)) a.request ≡ some p)
        × (lookup p (routes c.allow_anonymous) ≡ some route)
  unfolding route_of
  route_of-pattern route found =
      elim (Option-cases (o.choose (map (λ e. e.0) (routes c.allow_anonymous)) a.request)) [
        | inl missing ↦ absurd (ground arith)
        | inr (p, chosen) ↦ (p, chosen, ground arith)
      ]

  -- Only requests for the paths of the routes that hand out or take secrets reach the store: with any
  -- other path, and for /create unless anonymous users are allowed, it stays as it was.
  pub serve_http_untouched :
      IsMux o.choose
      → a.request.path ≢ get_route
      → a.request.path ≢ api_new_route
      → (a.request.path ≢ create_route) ⊎ (c.allow_anonymous ≡ false)
      → has_prefix a.request.path api_get_route ≡ false
      → (serve_http o c s a).0.store ≡ s.store
  unfolding utf8 rune_bytes has_prefix
  serve_http_untouched mux not_get not_new not_create not_api_get =
      elim (Option-cases (route_of o c a.request)) [
        | inl missing ↦ rw (serve_http_unrouted o c s a missing) refl
        | inr (route, found) ↦
            rw (serve_http_routed o c s a route found)
              (handle_untouched route (no_touch route found))
      ]
    where
      unmatched :
          (p : Bytes)
          → ends_in_slash p ≡ false
          → a.request.path ≢ p
          → ((a.request.path ≡ p)
              ⊎ ((ends_in_slash p ≡ true) × (has_prefix a.request.path p ≡ true)))
          → ⊥
      unmatched p bare other (inl same) = other same
      unmatched p bare other (inr (slash, _)) = absurd (ground arith)

      beneath :
          ((a.request.path ≡ api_get_route)
            ⊎ ((ends_in_slash api_get_route ≡ true)
                × (has_prefix a.request.path api_get_route ≡ true)))
          → ⊥
      beneath (inl same) =
          let whole : has_prefix api_get_route api_get_route ≡ true = refl in absurd (cc)
      beneath (inr (_, under)) = absurd (ground arith)

      no_touch : (route : Route) → route_of o c a.request ≡ some route → touches_store route ≡ false
      no_touch route found = elim (Bool-cases (touches_store route)) [
        | inr free ↦ free
        | inl touches ↦
            let (p, chosen, there) = route_of-pattern route found in
            let fit = mux.fits _ a.request p chosen in
            absurd
              (elim (lookup-All (Reaches c.allow_anonymous) p route (routes c.allow_anonymous)
                (routes-Reaches c.allow_anonymous) there touches) [
                  | inl e ↦ unmatched get_route refl not_get (rw e at fit)
                  | inr (inl e) ↦ unmatched api_new_route refl not_new (rw e at fit)
                  | inr (inr (inl e)) ↦ beneath (rw e at fit)
                  | inr (inr (inr (e, allowed))) ↦ elim not_create [
                    | inl ne ↦ unmatched create_route refl ne (rw e at fit)
                    | inr never ↦ absurd (ground arith)
                  ]
                ])
      ]
