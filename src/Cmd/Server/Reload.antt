-- ===== src/Cmd/Server/Reload.antt =====
-- What a reload does to those who hold a token.
use onetimelink.Cmd.Server.Mux.{
  Outside, Config, ServerState, Arrival, route_of, Route, serve_http, serve_http_routed, handle,
}
use onetimelink.Cmd.Server.{Sources, reload, update_files, loaded_assets}
use onetimelink.Prelude.Clock.{Time}
use onetimelink.TokenDb.{make_token_db, is_authorized, find_token, scan}
use onetimelink.Fileio.{try_read_file}
use onetimelink.Prelude.Text.{utf8, Bytes, str_eq}
use onetimelink.Prelude.{
  ◌≡◌, none, some, ◌≢◌, Bool-cases, inl, inr, [], ℕ, ◌≤◌, Option, arith, List, false,
}
use onetimelink.Misc.RateLimit.{allow}
use onetimelink.Misc.RateLimit.Wrap.{client_key, rate_limit}
use onetimelink.Http.{Decoders, Headers, Request}
use onetimelink.Misc.Headers.{security_headers}
use onetimelink.Store.{SecretStore, StoreEntry}
use onetimelink.Store.History.{Op}
use onetimelink.Httpio.Api.{handle_api_new}
use onetimelink.Httpio.Access.{handle_api_new-Admitted}

pub not_is_authorized :
    (sha256 : Bytes → Bytes) (entry : StoreEntry) → (is_authorized sha256 none entry).1 ≡ false
unfolding is_authorized find_token scan str_eq
not_is_authorized sha256 entry = ground arith

-- Without a token database HandleApiNew refuses everything.
handle_api_new_locked :
    (sha256 : Bytes → Bytes) (decoders : Decoders) (st : SecretStore) (urlbase : Bytes) (now : Time)
    (draws : ℕ → Option (List ℕ)) (between : List Op) (r : Request)
    → ((handle_api_new sha256 decoders st urlbase none now draws between r).0 ≡ st)
      × (400 ≤ (handle_api_new sha256 decoders st urlbase none now draws between r).1.status)
handle_api_new_locked sha256 decoders st urlbase now draws between r =
    elim (handle_api_new-Admitted sha256 decoders st urlbase none now draws between r) [
      | inr refused ↦ refused
      | inl (entry, admitted, _) ↦
          absurd (ground (arith, admitted.authorized, not_is_authorized sha256 entry))
    ]

handle_locked :
    (o : Outside) (c : Config) (s : ServerState) (a : Arrival) (head : Headers)
    → (loaded_assets s.assets).auth ≡ none
    → ((handle o c Route.api_new s a head).0.store ≡ s.store)
      × (400 ≤ (handle o c Route.api_new s a head).1.response.status)
unfolding handle rate_limit
handle_locked o c s a head locked =
    let closed =
      handle_api_new_locked o.sha256 o.decoders s.store c.url_base a.now a.draws a.between
        a.request in
    elim (Bool-cases (allow s.new_limiter (client_key o.split_host_port a.request) a.seen).1) [
      | inl passes ↦ (ground (arith, closed), ground (arith, closed))
      | inr refused ↦ (ground arith, ground arith)
    ]

module _ (o : Outside) (c : Config) (s : ServerState) (a : Arrival) (sources : Sources)
    (now : Time) where
  -- A token database that does not load shuts everybody out: after the reload no request for a new
  -- secret through the API reaches the store, and none is answered 201.
  reload_unusable :
      make_token_db sources.unmarshal sources.parses (try_read_file sources.files (utf8 "auth.db"))
        ≡ none
      → route_of o c a.request ≡ some Route.api_new
      → ((serve_http o c (record s { assets = reload sources now }) a).0.store ≡ s.store)
        × ((serve_http o c (record s { assets = reload sources now }) a).1.response.status ≢ 201)
  unfolding reload update_files loaded_assets
  reload_unusable bad found =
      let s' : ServerState = record s { assets = reload sources now } in
      let (same, refused) = handle_locked o c s' a (security_headers c.tls []) bad in
      rw (serve_http_routed o c s' a Route.api_new found) (same, λ e. omega (arith, refused))
