-- ===== src/Cmd/Server/Grown.antt =====
-- How often the server shows a secret while others ask it for new ones.
use onetimelink.Prelude.{
  ℕ, List, Option, ◌≡◌, ◌+◌, ◌-◌, ◌^◌, ◌≤◌, [], ◌∷◌, true, some, none, arith, if◌then◌else◌, refl,
  Bool-cases, Option-cases, inl, inr, All,
}
use onetimelink.Prelude.Int.{pos, ◌≤ℤ◌}
use onetimelink.Prelude.Text.{Bytes}
use onetimelink.Prelude.Result.{ok}
use onetimelink.Prelude.Clock.{Time}
use onetimelink.Store.{SecretStore, StoreEntry}
use onetimelink.Store.Accept.{add_entry-Accepted}
use onetimelink.Store.History.{Op, remaining}
use onetimelink.Store.Valid.{IsValid, IsOp, Accepted-IsValid, run-IsValid}
use onetimelink.TokenDb.{TokenDb, is_authorized}
use onetimelink.Http.{Decoders, Request}
use onetimelink.Httpio.Api.{handle_api_new}
use onetimelink.Httpio.View.{handle_create}
use onetimelink.Httpio.Access.{handle_api_new-Admitted, add_and_show_created}
use onetimelink.Httpio.Forms.{handle_create-Kept}
use onetimelink.Misc.RateLimit.{allow}
use onetimelink.Misc.RateLimit.Wrap.{client_key, rate_limit}
use onetimelink.Misc.Headers.{security_headers}
use onetimelink.Cmd.Server.{loaded_assets}
use onetimelink.Cmd.Server.Mux.{
  Outside, Config, Route, serve_http, Arrival, handle, route_of, ServerState, create, api_new,
  serve_http_unrouted, serve_http_routed,
}
use onetimelink.Cmd.Server.Once.{shows, takes_secrets, serve_http-Spends, shown_for}

-- What the JSON decoder guarantees: MaxClicks is an int.
abbrev Fits : Decoders → Type 0
Fits decoders =
    (b : Bytes) (e : StoreEntry)
    → decoders.unmarshal_entry b ≡ ok e
    → e.max_clicks ≤ℤ pos (2 ^ 63 - 1)

max_clicks-is_authorized :
    (sha256 : Bytes → Bytes) (auth : TokenDb) (entry : StoreEntry)
    → (is_authorized sha256 auth entry).0.max_clicks ≡ entry.max_clicks
unfolding is_authorized
max_clicks-is_authorized sha256 auth entry = ground arith

module _ (decoders : Decoders) (st : SecretStore) (urlbase : Bytes) (now : Time)
    (draws : ℕ → Option (List ℕ)) (r : Request) (v : IsValid st) where
  handle_create-IsValid : IsValid (handle_create decoders st urlbase now draws r).0
  handle_create-IsValid = elim (handle_create-Kept st urlbase now draws r decoders) [
    | inr (same, _) ↦ rw same v
    | inl (_, (form, _, k), _) ↦
        Accepted-IsValid st _ [] now k.key _ k.accepted (ground (arith, k.clicks_range)) v
  ]

  handle_api_new-IsValid :
      (sha256 : Bytes → Bytes) (auth : TokenDb) (between : List Op)
      → Fits decoders
      → All IsOp between
      → IsValid (handle_api_new sha256 decoders st urlbase auth now draws between r).0
  handle_api_new-IsValid sha256 auth between fits meanwhile =
      elim (handle_api_new-Admitted sha256 decoders st urlbase auth now draws between r) [
        | inr (same, _) ↦ rw same v
        | inl (entry, admitted, e) ↦
            let entry' = (is_authorized sha256 auth entry).0 in
            let small = fits _ entry admitted.decoded in
            elim (add_and_show_created decoders st urlbase entry' now draws between) [
              | inr (x, _, shown) ↦ rw (e, shown) v
              | inl (k, added, shown) ↦
                  rw (e, shown)
                    (run-IsValid _ between meanwhile (
                      Accepted-IsValid st entry' [] now k _
                        (add_entry-Accepted st entry' [] now draws k added)
                        (rw (max_clicks-is_authorized sha256 auth entry) small) v))
            ]
      ]

module _ (o : Outside) (c : Config) where
  -- The reads that a request for a new secret, and what others do meanwhile, add under an id.
  abbrev pub grown : Bytes → ServerState → Arrival → ℕ
  grown id s a =
      if takes_secrets (route_of o c a.request)
      then remaining id (serve_http o c s a).0.store - remaining id s.store
      else 0

  unfoldable grown_for : Bytes → ServerState → List Arrival → ℕ
  grown_for id s [] = 0
  grown_for id s (a ∷ rest) = grown id s a + grown_for id (serve_http o c s a).0 rest

module _ (o : Outside) (c : Config) (fits : Fits o.decoders) where
  handle_taking-IsValid :
      (route : Route) (s : ServerState) (a : Arrival)
      → takes_secrets (some route) ≡ true
      → All IsOp a.between
      → IsValid s.store
      → IsValid (handle o c route s a (security_headers c.tls [])).0.store
  unfolding handle rate_limit
  handle_taking-IsValid create s a h meanwhile v =
      elim (Bool-cases (allow s.new_limiter (client_key o.split_host_port a.request) a.seen).1) [
        | inl passes ↦
            rw passes
              (handle_create-IsValid o.decoders s.store c.url_base a.now a.draws a.request v)
        | inr refused ↦ rw refused v
      ]
  handle_taking-IsValid api_new s a h meanwhile v =
      elim (Bool-cases (allow s.new_limiter (client_key o.split_host_port a.request) a.seen).1) [
        | inl passes ↦ rw passes (
            handle_api_new-IsValid o.decoders s.store c.url_base a.now a.draws a.request v o.sha256
              (loaded_assets s.assets).auth a.between fits meanwhile)
        | inr refused ↦ rw refused v
      ]
  handle_taking-IsValid Route.index s a h meanwhile v = absurd (ground arith)
  handle_taking-IsValid Route.get s a h meanwhile v = absurd (ground arith)
  handle_taking-IsValid Route.info s a h meanwhile v = absurd (ground arith)
  handle_taking-IsValid Route.api_get s a h meanwhile v = absurd (ground arith)
  handle_taking-IsValid Route.fav s a h meanwhile v = absurd (ground arith)
  handle_taking-IsValid Route.css s a h meanwhile v = absurd (ground arith)
  handle_taking-IsValid Route.js s a h meanwhile v = absurd (ground arith)
  handle_taking-IsValid Route.client_shell s a h meanwhile v = absurd (ground arith)

  serve_http-IsValid :
      (s : ServerState) (a : Arrival)
      → All IsOp a.between
      → IsValid s.store
      → IsValid (serve_http o c s a).0.store
  serve_http-IsValid s a meanwhile v = elim (Bool-cases (takes_secrets (route_of o c a.request))) [
    | inr free ↦ (serve_http-Spends o c [] s a free v).valid
    | inl taking ↦ elim (Option-cases (route_of o c a.request)) [
      | inl missing ↦ rw (serve_http_unrouted o c s a missing) v
      | inr (route, found) ↦
          rw (serve_http_routed o c s a route found)
            (handle_taking-IsValid route s a (rw found at taking) meanwhile v)
    ]
  ]

  takes_secrets-shows :
      (id : Bytes) (route : Option Route) (r : Request) (status : ℕ)
      → takes_secrets route ≡ true
      → shows id route r status ≡ 0
  takes_secrets-shows id (some create) r status h = refl
  takes_secrets-shows id (some api_new) r status h = refl
  takes_secrets-shows id none r status h = refl
  takes_secrets-shows id (some Route.index) r status h = refl
  takes_secrets-shows id (some Route.get) r status h = absurd (ground arith)
  takes_secrets-shows id (some Route.info) r status h = refl
  takes_secrets-shows id (some Route.api_get) r status h = absurd (ground arith)
  takes_secrets-shows id (some Route.fav) r status h = refl
  takes_secrets-shows id (some Route.css) r status h = refl
  takes_secrets-shows id (some Route.js) r status h = refl
  takes_secrets-shows id (some Route.client_shell) r status h = refl

  serve_http-grown :
      (id : Bytes) (s : ServerState) (a : Arrival)
      → IsValid s.store
      → shows id (route_of o c a.request) a.request (serve_http o c s a).1.response.status
          + remaining id (serve_http o c s a).0.store
        ≤ remaining id s.store + grown o c id s a
  serve_http-grown id s a v = elim (Bool-cases (takes_secrets (route_of o c a.request))) [
    | inr free ↦ rw free (omega (arith, (serve_http-Spends o c id s a free v).spent))
    | inl taking ↦
        rw
          (
            taking,
            takes_secrets-shows id (route_of o c a.request) a.request
                (serve_http o c s a).1.response.status taking,
          )
          (omega arith)
  ]

  -- However the requests come, by page or API and from whichever clients, requests for new secrets among
  -- them: a server with a well-formed store answers at most as many with the secret under an id as reads
  -- were left there at first and as the requests for new secrets, with what others do meanwhile, have added
  -- under it. The MaxClicks of decoded entries and of those that others add are ones that their Go type
  -- int has room for.
  shown_for-le-grown_for :
      (id : Bytes) (s : ServerState) (arrivals : List Arrival)
      → All (λ a. All IsOp a.between) arrivals
      → IsValid s.store
      → shown_for o c id s arrivals ≤ remaining id s.store + grown_for o c id s arrivals
  unfolding shown_for grown_for
  shown_for-le-grown_for id s [] h v = omega arith
  shown_for-le-grown_for id s (a ∷ rest) h v = omega (
    arith,
    serve_http-grown id s a v,
    shown_for-le-grown_for id (serve_http o c s a).0 rest h.1 (serve_http-IsValid s a h.0 v),
  )
