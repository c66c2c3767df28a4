-- ===== src/Cmd/Server/Limits.antt =====
-- How many secrets a client can create: RateLimit in front of HandleApiNew, HandleCreate and HandleInfo,
-- which share one limiter.

use onetimelink.Cmd.Server.Mux.{
  Outside, Config, Route, serve_http, Arrival, handle, route_of, ServerState, create, info, api_new,
  index, get, api_get, fav, css, js, client_shell, serve_http_unrouted, serve_http_routed,
  start_server,
}
use onetimelink.Prelude.{
  Option, Bool, List, ℕ, some, true, ◌==◌, ◌∷◌, ◌≤◌, false, if◌then◌else◌, arith, ◌≡◌, Option-cases,
  [], ◌&&◌, inl, ◌+◌, inr, none, refl, Bool-cases, ◌*◌,
}
use onetimelink.Prelude.Text.{Bytes, str_eq}
use onetimelink.Prelude.Clock.{Time, mul}
use onetimelink.Misc.RateLimit.Bound.{passed, InOrder, end_time, passed-le-rate}
use onetimelink.Misc.RateLimit.Wrap.{client_key, rate_limit-allow, rate_limit_refused}
use onetimelink.Misc.RateLimit.{allow, new_limiter, idle}
use onetimelink.Misc.Headers.{security_headers}
use onetimelink.Store.{SecretStore}
use onetimelink.Cmd.Server.{Assets, new_burst, new_interval}
use onetimelink.Prelude.Int.{pos, ◌≤ℤ◌, ◌+ℤ◌, ◌-ℤ◌, int_laws, wrap, ◌*ℤ◌}
use onetimelink.Misc.RateLimit.Levels.{IsSound}

-- The routes behind the limiter `new_limiter`.
abbrev pub is_limited : Option Route → Bool
is_limited (some Route.info) = true
is_limited (some Route.create) = true
is_limited (some Route.api_new) = true
is_limited _ = false

-- Whether an answer says that a secret was stored: 201 of HandleApiNew, 200 of HandleCreate.
abbrev pub says_created : Option Route → ℕ → Bool
says_created (some Route.api_new) status = status == 201
says_created (some Route.create) status = status == 200
says_created _ status = false

pub new_limiter-IsSound : (t : Time) → IsSound t (new_limiter new_burst new_interval)
unfolding new_limiter idle mul wrap ◌*ℤ◌
new_limiter-IsSound t = record {
  distinct = tt;
  levels = tt;
  patient = omega arith;
  positive = omega arith;
}

module _ (o : Outside) (c : Config) where
  -- The server after some requests, one after the other.
  unfoldable pub serve_all : ServerState → List Arrival → ServerState
  serve_all s [] = s
  serve_all s (a ∷ rest) = serve_all (serve_http o c s a).0 rest

  -- How many of these requests store a secret for a client.
  unfoldable created_for : Bytes → ServerState → List Arrival → ℕ
  created_for key s [] = 0
  created_for key s (a ∷ rest) =
      (if str_eq (client_key o.split_host_port a.request) key
          && says_created (route_of o c a.request) (serve_http o c s a).1.response.status
        then 1
        else 0)
      + created_for key (serve_http o c s a).0 rest

  -- The calls of the limiter's Allow that these requests make.
  abbrev pub limiter_calls : List Arrival → List (Bytes × Time)
  limiter_calls [] = []
  limiter_calls (a ∷ rest) =
      if is_limited (route_of o c a.request)
      then (client_key o.split_host_port a.request, a.seen) ∷ limiter_calls rest
      else limiter_calls rest

  -- One request: what it does to the limiter, and that it stores nothing if the limiter refuses it.
  handle-new_limiter :
      (s : ServerState) (a : Arrival)
      → (route : Route)
      → (handle o c route s a (security_headers c.tls [])).0.new_limiter ≡ (
          if is_limited (some route)
          then (allow s.new_limiter (client_key o.split_host_port a.request) a.seen).0
          else s.new_limiter)
  unfolding handle
  handle-new_limiter s a index = refl
  handle-new_limiter s a get = refl
  handle-new_limiter s a info = rate_limit-allow _ _ _ _ _ _ _
  handle-new_limiter s a create = rate_limit-allow _ _ _ _ _ _ _
  handle-new_limiter s a api_get = refl
  handle-new_limiter s a api_new = rate_limit-allow _ _ _ _ _ _ _
  handle-new_limiter s a fav = refl
  handle-new_limiter s a css = refl
  handle-new_limiter s a js = refl
  handle-new_limiter s a client_shell = refl

  serve_http-new_limiter :
      (s : ServerState) (a : Arrival)
      → (serve_http o c s a).0.new_limiter ≡ (
          if is_limited (route_of o c a.request)
          then (allow s.new_limiter (client_key o.split_host_port a.request) a.seen).0
          else s.new_limiter)
  serve_http-new_limiter s a = elim (Option-cases (route_of o c a.request)) [
    | inl missing ↦ rw (serve_http_unrouted o c s a missing, missing) refl
    | inr (route, found) ↦
        rw (serve_http_routed o c s a route found, found) (handle-new_limiter s a route)
  ]

  handle_refused :
      (s : ServerState) (a : Arrival)
      → (allow s.new_limiter (client_key o.split_host_port a.request) a.seen).1 ≡ false
      → (route : Route)
      → says_created
          (some route)
          (handle o c route s a (security_headers c.tls [])).1.response.status
        ≡ false
  unfolding handle
  handle_refused s a refused index = refl
  handle_refused s a refused get = refl
  handle_refused s a refused info = refl
  handle_refused s a refused create = rw ((rate_limit_refused _ _ _ _ _ _ _ refused).1) refl
  handle_refused s a refused api_get = refl
  handle_refused s a refused api_new = rw ((rate_limit_refused _ _ _ _ _ _ _ refused).1) refl
  handle_refused s a refused fav = refl
  handle_refused s a refused css = refl
  handle_refused s a refused js = refl
  handle_refused s a refused client_shell = refl

  serve_http_refused :
      (s : ServerState) (a : Arrival)
      → (allow s.new_limiter (client_key o.split_host_port a.request) a.seen).1 ≡ false
      → says_created (route_of o c a.request) (serve_http o c s a).1.response.status ≡ false
  serve_http_refused s a refused = elim (Option-cases (route_of o c a.request)) [
    | inl missing ↦ rw (serve_http_unrouted o c s a missing, missing) refl
    | inr (route, found) ↦
        rw (serve_http_routed o c s a route found, found) (handle_refused s a refused route)
  ]

  says_created-is_limited :
      (route : Option Route) (status : ℕ)
      → says_created route status ≡ true
      → is_limited route ≡ true
  says_created-is_limited none status h = absurd (ground arith)
  says_created-is_limited (some route) status h = by_route route h
    where
      by_route :
          (route : Route) → says_created (some route) status ≡ true → is_limited (some route) ≡ true
      by_route create h = refl
      by_route info h = refl
      by_route api_new h = refl
      by_route index h = absurd (ground arith)
      by_route get h = absurd (ground arith)
      by_route api_get h = absurd (ground arith)
      by_route fav h = absurd (ground arith)
      by_route css h = absurd (ground arith)
      by_route js h = absurd (ground arith)
      by_route client_shell h = absurd (ground arith)

  created_for-le-passed :
      (key : Bytes) (s : ServerState) (arrivals : List Arrival)
      → created_for key s arrivals ≤ passed key s.new_limiter (limiter_calls arrivals)
  unfolding created_for passed
  created_for-le-passed key s [] = omega arith
  created_for-le-passed key s (a ∷ rest) =
      let ih = created_for-le-passed key (serve_http o c s a).0 rest in
      elim (Bool-cases (is_limited (route_of o c a.request))) [
        | inl limited ↦
            let same = rw limited at (serve_http-new_limiter s a) in
            elim (Bool-cases
              (allow s.new_limiter (client_key o.split_host_port a.request) a.seen).1) [
                | inl passes ↦ rw (limited, passed) (ground (arith, rw same at ih))
                | inr refused ↦
                    rw (limited, passed, serve_http_refused s a refused)
                      (ground (arith, rw same at ih))
              ]
        | inr free ↦
            let same = rw free at (serve_http-new_limiter s a) in
            rw (free, nothing free) (ground (arith, rw same at ih))
      ]
    where
      nothing :
          is_limited (route_of o c a.request) ≡ false
          → says_created (route_of o c a.request) (serve_http o c s a).1.response.status ≡ false
      nothing free = ground (
        arith,
        says_created-is_limited (route_of o c a.request) (serve_http o c s a).1.response.status,
      )

  -- However a client spreads its requests, and whatever others ask for meanwhile, a server that has just
  -- started answers at most ten of them that a secret was stored, and one more for every two seconds
  -- since, where the limiter reads its times in order.
  created_for-le-rate :
      (key : Bytes) (store : SecretStore) (assets : Option Assets) (t : Time)
      (arrivals : List Arrival)
      → InOrder t (limiter_calls arrivals)
      → pos (created_for key (start_server store assets) arrivals * 2_000_000_000)
        ≤ℤ pos 20_000_000_000 +ℤ (end_time t (limiter_calls arrivals) -ℤ t)
  unfolding start_server new_limiter
  created_for-le-rate key store assets t arrivals ordered =
      let l = new_limiter new_burst new_interval in
      omega (
        int_laws,
        created_for-le-passed key (start_server store assets) arrivals,
        passed-le-rate key l t (limiter_calls arrivals) (new_limiter-IsSound t) ordered,
      )
