-- ===== src/Cmd/Server/Run.antt =====
-- cmd/server.go: runServer up to the point where it listens, and shutdownWhen. `fs` has the calls of the
-- operating system that the admin socket makes; the flags are parsed, `rest` are the arguments behind
-- them. What is logged is a list of lines.
use onetimelink.Admin.{FileSystem, AdminError, Server, serve, close}
use onetimelink.Cmd.Server.Mux.{ServerState, Config, start_server}
use onetimelink.Fileio.{Files, try_file}
use onetimelink.Prelude.Result.{Result, err, ok}
use onetimelink.Prelude.Text.{Bytes, str_eq, str_eq_iff}
use onetimelink.Cmd.Server.{
  Sources, Flags, crt_file, key_file, reload, stop_notice, get_url_base, update_files,
}
use onetimelink.Prelude.{
  Option, List, if◌then◌else◌, none, ◌∷◌, ◌≡◌, [], false, ◌⊎◌, ◌≢◌, some, inl, inr, refl,
  Bool-cases, length, arith,
}
use onetimelink.Prelude.Clock.{Time, Duration}
use onetimelink.Store.{SecretStore, new}
use onetimelink.Prelude.Int.{ℤ, leb_ℤ, pos}
use onetimelink.Cmd.Server.Stop.{shutdown_lines}

pub data Fatal : Type 0 where
  unexpected_argument : Bytes → Fatal
  unable_to_open : Bytes → Fatal

abbrev read_header_timeout : Duration
read_header_timeout = pos 10_000_000_000

abbrev read_timeout : Duration
read_timeout = pos 30_000_000_000

abbrev write_timeout : Duration
write_timeout = pos 30_000_000_000

abbrev idle_timeout : Duration
idle_timeout = pos 60_000_000_000

abbrev max_header_bytes : ℤ
max_header_bytes = pos 65_536

-- What net/http's Server is given, apart from the handler.
pub record HttpServer : Type 0 where
  pub addr : Bytes
  pub read_header : Duration
  pub read : Duration
  pub write : Duration
  pub idle : Duration
  pub header_bytes : ℤ

-- A server that is about to listen: the certificate and the key, with TLS.
pub record Running (Listener : Type 0) : Type 0 where
  pub state : ServerState
  pub config : Config
  pub srv : HttpServer
  pub stats : Option (Server Listener)
  pub certificate : Option (Bytes × Bytes)

-- The files that ListenAndServeTLS is called with, or the one that TryFile does not find.
unfoldable pub tls_files : Files → Result Fatal (Bytes × Bytes)
tls_files fs =
    let cf = try_file fs crt_file in
    let kf = try_file fs key_file in
    if str_eq cf []
    then err (unable_to_open crt_file)
    else if str_eq kf []
    then err (unable_to_open key_file)
    else ok (cf, kf)

-- The server of the admin socket; an error of it is logged and forgotten.
unfoldable pub stats_server {ℓ} :
    {World : Type ℓ} {Listener : Type 0}
    → World × Result AdminError (Option (Server Listener))
    → World × Option (Server Listener)
stats_server (w, err x) = (w, none)
stats_server (w, ok stats) = (w, stats)

tls_files_found :
    (fs : Files)
    → try_file fs crt_file ≢ []
    → try_file fs key_file ≢ []
    → tls_files fs ≡ ok (try_file fs crt_file, try_file fs key_file)
unfolding tls_files
tls_files_found fs c k =
    ground (arith, str_eq_iff (try_file fs crt_file) [], str_eq_iff (try_file fs key_file) [])

module _ {World Listener : Type 0} (fs : FileSystem World Listener) (sources : Sources) where
  -- What has been set up by then.
  abbrev ready :
      Flags → Time → Time → Option (Server Listener) → Option (Bytes × Bytes) → Running Listener
  ready f start_time now stats certificate = record {
    state = start_server (new f.max_entries) (reload sources now);
    config = record {
      url_base = get_url_base f;
      allow_anonymous = f.allow_anonymous;
      tls = f.tls;
      started = start_time;
    };
    srv = record {
      addr = f.listen;
      read_header = read_header_timeout;
      read = read_timeout;
      write = write_timeout;
      idle = idle_timeout;
      header_bytes = max_header_bytes;
    };
    stats = stats;
    certificate = certificate;
  }

  unfoldable pub run_server :
      Flags → List Bytes → Time → Time → World → World × Result Fatal (Running Listener)
  run_server f (extra ∷ rest) start_time now w = (w, err (unexpected_argument extra))
  run_server f [] start_time now w =
      let (w', stats) = stats_server (serve fs w f.stats_socket) in
      if f.tls
      then elim (tls_files sources.files) [
        | err x ↦ (w', err x)
        | ok files ↦ (w', ok (ready f start_time now stats (some files)))
      ]
      else (w', ok (ready f start_time now stats none))

  -- What the signal's goroutine does: the notice counts the secrets before anything stops.
  unfoldable pub shut_down :
      (World → World × Option Bytes)
      → Bytes
      → Option (Server Listener)
      → SecretStore
      → World
      → World × List Bytes
  shut_down shutdown sig stats memstore w =
      let notice = stop_notice sig (length memstore.entries) in
      let closed = (close fs w stats).0 in
      let (w', failed) = shutdown closed in (w', notice ∷ shutdown_lines failed)

  -- Without TLS and stray arguments the start comes to the call of ListenAndServe, whatever becomes of the
  -- admin socket; with TLS it needs the certificate and the key. Then the store is empty and has the given
  -- capacity, 256 for one that is not positive; the address, the URL base and the anonymous access are
  -- those of the flags.
  pub run_server_starts :
      (f : Flags) (start_time now : Time) (w : World)
      → (f.tls ≡ false)
        ⊎ ((try_file sources.files crt_file ≢ []) × (try_file sources.files key_file ≢ []))
      → (r : Running Listener) × ((run_server f [] start_time now w).1 ≡ ok r)
        × (r.state.store.entries ≡ [])
        × (r.state.store.max_entries
            ≡ (if leb_ℤ f.max_entries (pos 0) then pos 256 else f.max_entries))
        × (r.srv.addr ≡ f.listen)
        × (r.config.url_base ≡ get_url_base f)
        × (r.config.allow_anonymous ≡ f.allow_anonymous)
        × (r.state.assets ≡ some (update_files sources now))
  unfolding run_server start_server reload new
  run_server_starts f start_time now w h = elim (Bool-cases f.tls) [
    | inr plain ↦ (
      ready f start_time now (stats_server (serve fs w f.stats_socket)).1 none,
      ground arith,
      refl,
      refl,
      refl,
      refl,
      refl,
      refl,
    )
    | inl tls ↦
        let cert = try_file sources.files crt_file in
        let key = try_file sources.files key_file in
        let found : tls_files sources.files ≡ ok (cert, key) = elim h [
          | inl plain ↦ absurd (ground arith)
          | inr (c, k) ↦ tls_files_found sources.files c k
        ] in
        (
          ready f start_time now (stats_server (serve fs w f.stats_socket)).1 (some (cert, key)),
          ground (arith, found),
          refl,
          refl,
          refl,
          refl,
          refl,
          refl,
        )
  ]
