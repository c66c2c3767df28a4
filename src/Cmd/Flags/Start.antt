-- ===== src/Cmd/Flags/Start.antt =====
-- cmd/server.go: runServer from its arguments on, over the flags and Cmd.Server.Run.
use onetimelink.Cmd.Flags.{server_flags}
use onetimelink.Cmd.Flags.Laws.{
  Setting, AreRead, command_line, set_all, server_defaults, parse-command_line,
}
use onetimelink.Cmd.Server.Run.{Fatal, Running, run_server, run_server_starts}
use onetimelink.Cmd.Root.{execute, server_command}
use onetimelink.Prelude.Flag.{FlagError, parse}
use onetimelink.Admin.{FileSystem}
use onetimelink.Cmd.Server.{Sources, crt_file, Flags, key_file, get_url_base, update_files}
use onetimelink.Prelude.Result.{Result, ok, err}
use onetimelink.Prelude.Text.{Bytes, utf8, str_eq}
use onetimelink.Prelude.{
  Option, List, Bool, ◌≢◌, [], ◌≡◌, false, refl, ◌⊎◌, ◌∷◌, if◌then◌else◌, some, ap, ◌∙◌,
}
use onetimelink.Prelude.Int.{ℤ, leb_ℤ, pos}
use onetimelink.Fileio.{try_file}
use onetimelink.Prelude.Clock.{Time}

-- Why the process ends: in Parse, or later.
pub data StartError : Type 0 where
  bad_flags : FlagError → StartError
  fails_with : Fatal → StartError

abbrev as_started :
    {Listener : Type 0} → Result Fatal (Running Listener) → Result StartError (Running Listener)
as_started (ok r) = ok r
as_started (err e) = err (fails_with e)

module _ {World Listener : Type 0} (fs : FileSystem World Listener) (sources : Sources)
    (parse_int : Bytes → Option ℤ) where
  unfoldable pub run_server_args :
      List Bytes → Time → Time → World → World × Result StartError (Running Listener)
  run_server_args args start_time now w = elim (parse parse_int server_flags args) [
    | err e ↦ (w, err (bad_flags e))
    | ok (f, rest) ↦
        let (w', result) = run_server fs sources f rest start_time now w in (w', as_started result)
  ]

  run_server_args_parsed :
      (args : List Bytes) (start_time now : Time) (w : World) (f : Flags) (rest : List Bytes)
      → parse parse_int server_flags args ≡ ok (f, rest)
      → (run_server_args args start_time now w).1
        ≡ as_started (run_server fs sources f rest start_time now w).1
  unfolding run_server_args
  run_server_args_parsed args start_time now w f rest h = rw (h, run_server_args) refl

  -- The files that TLS needs are found.
  abbrev pub HasFiles : Type 0
  HasFiles = (try_file sources.files crt_file ≢ []) × (try_file sources.files key_file ≢ [])

  -- `gjfy server` with settings in any order, as in Cmd.Flags.Laws, comes to the call of ListenAndServe,
  -- whatever becomes of the admin socket, if the settings leave TLS off or both of its files are found.
  -- Then the store is empty and has the capacity of the last such setting, 256 for one that is not
  -- positive and where there is none; the address, the URL base and the anonymous access are those of
  -- the settings, and the files are loaded.
  pub gjfy_server-listens :
      (quoted : Bytes → Bytes) (version program : Bytes) (given : List (Bool × Setting))
      (start_time now : Time) (w : World)
      → AreRead parse_int given
      → ((set_all given server_defaults).tls ≡ false) ⊎ HasFiles
      → (execute quoted version (program ∷ utf8 "server" ∷ command_line given [])
          ≡ server_command (command_line given []))
        × (r : Running Listener) × ((run_server_args (command_line given []) start_time now w).1
            ≡ ok r)
        × (r.state.store.entries ≡ [])
        × (r.state.store.max_entries ≡ (
            if leb_ℤ (set_all given server_defaults).max_entries (pos 0)
            then pos 256
            else (set_all given server_defaults).max_entries))
        × (r.srv.addr ≡ (set_all given server_defaults).listen)
        × (r.config.url_base ≡ get_url_base (set_all given server_defaults))
        × (r.config.allow_anonymous ≡ (set_all given server_defaults).allow_anonymous)
        × (r.state.assets ≡ some (update_files sources now))
  unfolding execute utf8 str_eq
  gjfy_server-listens quoted version program given start_time now w hs h =
      let f = set_all given server_defaults in
      let (r, started, empty, room, addr, base, anonymous, files) =
        run_server_starts fs sources f start_time now w h in
      let parsed =
        run_server_args_parsed (command_line given []) start_time now w f []
          (parse-command_line parse_int given [] hs tt) in
      (refl, r, parsed ∙ ap as_started started, empty, room, addr, base, anonymous, files)
