-- ===== src/Cmd/Flags/Tests.antt =====
-- The command line of the server.
use onetimelink.Cmd.Flags.{server_flags, stats_flags}
use onetimelink.Cmd.Flags.Laws.{
  parse-command_line, listens, holds, bare_tls, set_all, server_defaults, Setting, command_line,
  answers_on,
}
use onetimelink.Prelude.Flag.{
  parse, help_requested, needs_argument, parse_from, read_argument, next_step, read_name, find_flag,
  cut_value, apply_flag, assign, one_of,
}
use onetimelink.Prelude.{
  List, Bool, Option, true, if◌then◌else◌, some, ◌∷◌, [], false, none, ◌≡◌, refl, inl,
}
use onetimelink.Prelude.Text.{Bytes, str_eq, utf8, rune_bytes, codes}
use onetimelink.Prelude.Int.{ℤ, pos}
use onetimelink.Prelude.Result.{ok, err}
use onetimelink.Cmd.Root.{execute, server_command}
use onetimelink.Cmd.Server.Run.{Running}
use onetimelink.Cmd.Flags.Start.{run_server_args, gjfy_server-listens}
use onetimelink.Cmd.Server.Tests.{broken, sources}
use onetimelink.Cmd.Server.{get_url_base, update_files}

-- strconv.ParseInt on one text.
abbrev parse_int : Bytes → Option ℤ
parse_int s = if str_eq s (codes "64") then some (pos 64) else none

abbrev given : List (Bool × Setting)
given =
    (true, listens (codes ":80"))
    ∷ (false, holds (pos 64) (codes "64"))
    ∷ (true, bare_tls)
    ∷ (false, listens (codes ":443"))
    ∷ []

parse-command_line_example :
    parse parse_int server_flags (command_line given (codes "extra" ∷ []))
    ≡ ok (set_all given server_defaults, codes "extra" ∷ [])
unfolding str_eq read_argument
parse-command_line_example =
    parse-command_line parse_int given (codes "extra" ∷ []) (tt, (refl, (tt, (tt, tt)))) refl

stats_json :
    parse parse_int stats_flags (codes "-j" ∷ codes "--socket=/s" ∷ codes "--" ∷ codes "-v" ∷ [])
    ≡ ok (record { socket = codes "/s"; json = true; verbose = false }, codes "-v" ∷ [])
unfolding parse_from utf8 rune_bytes next_step read_argument read_name find_flag cut_value
    apply_flag assign str_eq
stats_json = refl

stats_help : parse parse_int stats_flags (codes "-h" ∷ []) ≡ err help_requested
unfolding parse_from utf8 rune_bytes next_step read_argument read_name find_flag cut_value
    apply_flag assign str_eq one_of
stats_help = refl

server_lacks : parse parse_int server_flags (codes "-m" ∷ []) ≡ err (needs_argument (codes "m"))
unfolding parse_from utf8 rune_bytes next_step read_argument read_name find_flag cut_value
    apply_flag assign str_eq
server_lacks = refl

-- Without any file, and with an operating system that refuses the admin socket.
abbrev small : List (Bool × Setting)
small = (false, holds (pos 64) (codes "64")) ∷ (true, answers_on (codes "/run/s")) ∷ []

gjfy_server-listens_example :
    (execute (λ s. s) [] (codes "gjfy" ∷ utf8 "server" ∷ command_line small [])
      ≡ server_command (command_line small []))
    × (r : Running (Unit {0})) × ((run_server_args broken sources parse_int
          (command_line small [])
          (pos 0)
          (pos 1)
          tt).1
        ≡ ok r)
    × (r.state.store.entries ≡ [])
    × (r.state.store.max_entries ≡ pos 64)
    × (r.srv.addr ≡ utf8 ":9154")
    × (r.config.url_base ≡ get_url_base (set_all small server_defaults))
    × (r.config.allow_anonymous ≡ false)
    × (r.state.assets ≡ some (update_files sources (pos 1)))
unfolding str_eq
gjfy_server-listens_example =
    gjfy_server-listens broken sources parse_int (λ s. s) [] (codes "gjfy") small (pos 0) (pos 1) tt
      (refl, (tt, tt)) (inl refl)
