-- ===== src/Cmd/Root.antt =====
-- cmd/root.go: the dispatch of the commands. The two commands that do more get the arguments behind the
-- command's name; `quoted` prints an argument by %q.
use onetimelink.Prelude.{List, if◌then◌else◌, ◌∷◌, ◌++◌, [], ◌||◌}
use onetimelink.Prelude.Text.{Bytes, utf8, str_eq}
use onetimelink.Cmd.Stats.{Outcome}

abbrev pub root_usage : Bytes
root_usage =
    utf8 "gjfy is a web service for creating and providing one-time clickable links.\n\nusage:\n"
    ++ (utf8 "  gjfy server [flags]   run the web service (see: gjfy server --help)\n"
        ++ (utf8 "  gjfy stats [flags]    report how many secrets are held right now (root only)\n"
            ++ (utf8 "  gjfy version          print the version\n"
                ++ utf8 "  gjfy help             print this text\n")))

-- What the command line asks for.
pub data Command : Type 0 where
  server_command : List Bytes → Command
  stats_command : List Bytes → Command
  finish : Outcome → Command

unfoldable pub version_or_devel : Bytes → Bytes
version_or_devel version = if str_eq version [] then utf8 "(devel)" else version

unfoldable pub execute : (Bytes → Bytes) → Bytes → List Bytes → Command
execute quoted version [] = finish (record { stdout = []; stderr = root_usage; exit_code = 1 })
execute quoted version (program ∷ []) =
    finish (record { stdout = []; stderr = root_usage; exit_code = 1 })
execute quoted version (program ∷ name ∷ args) =
    if str_eq name (utf8 "server")
    then server_command args
    else if str_eq name (utf8 "stats")
    then stats_command args
    else if str_eq name (utf8 "version")
        || (str_eq name (utf8 "--version") || str_eq name (utf8 "-V"))
    then finish (record {
      stdout = utf8 "gjfy " ++ (version_or_devel version ++ utf8 "\n");
      stderr = [];
      exit_code = 0;
    })
    else if str_eq name (utf8 "help") || (str_eq name (utf8 "--help") || str_eq name (utf8 "-h"))
    then finish (record { stdout = root_usage; stderr = []; exit_code = 0 })
    else finish (record {
      stdout = [];
      stderr = utf8 "unknown command " ++ (quoted name ++ (utf8 "\n\n" ++ root_usage));
      exit_code = 1;
    })
