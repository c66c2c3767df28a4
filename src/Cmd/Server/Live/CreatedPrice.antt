-- ===== src/Cmd/Server/Live/CreatedPrice.antt =====
-- An answer that says that a secret was stored, paid for by a call of the limiter that let it pass.
use onetimelink.Cmd.Server.Mux.{
  Outside, Config, Arrival, Route, create, api_new, index, get, info, api_get, fav, css, js,
  client_shell,
}
use onetimelink.Prelude.{Option, ◌≡◌, arith, some, ℕ, ◌+◌, if◌then◌else◌, none, ◌≤◌, ◌&&◌}
use onetimelink.Prelude.Text.{Bytes, str_eq}
use onetimelink.Cmd.Server.Live.{Limit, route_prog, for_new, create_prog, for_get, api_new_prog}
use onetimelink.Cmd.Server.Live.Price.{Price, Owes, capped-Owes}
use onetimelink.Http.{Response, Headers, Request}
use onetimelink.Misc.RateLimit.Wrap.{client_key}
use onetimelink.Cmd.Server.Limits.{says_created}

module _ (o : Outside) (key : Bytes) where
  -- An answer that says that a secret was stored for the client, and a call of the limiter that let it pass.
  abbrev pub created_counts : Option Route → Request → ℕ → ℕ
  created_counts route r status =
      if str_eq (client_key o.split_host_port r) key && says_created route status then 1 else 0

  abbrev pub pass_counts : Limit → Request → ℕ
  pass_counts for_new r = if str_eq (client_key o.split_host_port r) key then 1 else 0
  pass_counts for_get r = 0

  pub created_counts-429 : (route : Option Route) (r : Request) → created_counts route r 429 ≡ 0
  created_counts-429 none r = ground arith
  created_counts-429 (some Route.index) r = ground arith
  created_counts-429 (some Route.get) r = ground arith
  created_counts-429 (some Route.info) r = ground arith
  created_counts-429 (some Route.create) r = ground arith
  created_counts-429 (some Route.api_get) r = ground arith
  created_counts-429 (some Route.api_new) r = ground arith
  created_counts-429 (some Route.fav) r = ground arith
  created_counts-429 (some Route.css) r = ground arith
  created_counts-429 (some Route.js) r = ground arith
  created_counts-429 (some Route.client_shell) r = ground arith

  abbrev pub created_price : Price
  created_price = record {
    counts = λ route r response. created_counts route r response.status;
    op_cost = λ st op. 0;
    pass_cost = pass_counts;
    refused = created_counts-429;
  }

  created_counts-le :
      (route : Option Route) (r : Request) (response : Response)
      → created_counts route r response.status ≤ pass_counts for_new r
  created_counts-le route r response = ground arith

  creates_nothing :
      (c : Config) (a : Arrival) (head : Headers) (route : Route)
      → ((status : ℕ) → created_counts (some route) a.request status ≤ 0)
      → Owes created_price (some route) a.request (route_prog o c a head route) 0
  creates_nothing c a head route none_created =
      capped-Owes created_price (some route) a.request 0 (λ response. none_created response.status)
        (route_prog o c a head route) 0 (omega arith)

  pub route_prog-Owes :
      (c : Config) (a : Arrival) (head : Headers) (route : Route)
      → Owes created_price (some route) a.request (route_prog o c a head route) 0
  unfolding route_prog
  route_prog-Owes c a head create =
      capped-Owes created_price (some Route.create) a.request (pass_counts for_new a.request)
        (created_counts-le (some Route.create) a.request) (create_prog o c a head)
        (0 + pass_counts for_new a.request) (omega arith)
  route_prog-Owes c a head api_new =
      capped-Owes created_price (some Route.api_new) a.request (pass_counts for_new a.request)
        (created_counts-le (some Route.api_new) a.request) (api_new_prog o c a head)
        (0 + pass_counts for_new a.request) (omega arith)
  route_prog-Owes c a head index = creates_nothing c a head index (λ status. ground arith)
  route_prog-Owes c a head get = creates_nothing c a head get (λ status. ground arith)
  route_prog-Owes c a head info = creates_nothing c a head info (λ status. ground arith)
  route_prog-Owes c a head api_get = creates_nothing c a head api_get (λ status. ground arith)
  route_prog-Owes c a head fav = creates_nothing c a head fav (λ status. ground arith)
  route_prog-Owes c a head css = creates_nothing c a head css (λ status. ground arith)
  route_prog-Owes c a head js = creates_nothing c a head js (λ status. ground arith)
  route_prog-Owes c a head client_shell =
      creates_nothing c a head client_shell (λ status. ground arith)
