-- ===== src/Cmd/Flags.antt =====
-- The flags of the two commands: the helpers of cmd/root.go that register a flag under two names,
-- serverFlags of cmd/server.go and statsFlags of cmd/stats.go.
pub mod Laws
pub mod Start
mod Tests
use onetimelink.Prelude.{Bool, false, ◌++◌, []}
use onetimelink.Prelude.Flag.{FlagSet, string_flag, bool_flag, int_flag}
use onetimelink.Prelude.Int.{ℤ, pos}
use onetimelink.Prelude.Text.{Bytes, utf8}
use onetimelink.Cmd.Server.{Flags}
use onetimelink.Cmd.Stats.{StatsFlags}
use onetimelink.Store.{default_max_entries}

abbrev pub string_var :
    {F : Type 0} → FlagSet F → (Bytes → F → F) → Bytes → Bytes → Bytes → Bytes → FlagSet F
string_var fs p long short value usage =
    string_flag (string_flag fs p long value usage) p short value (usage ++ utf8 " (shorthand)")

abbrev pub bool_var :
    {F : Type 0} → FlagSet F → (Bool → F → F) → Bytes → Bytes → Bool → Bytes → FlagSet F
bool_var fs p long short value usage =
    bool_flag (bool_flag fs p long value usage) p short value (usage ++ utf8 " (shorthand)")

abbrev pub int_var : {F : Type 0} → FlagSet F → (ℤ → F → F) → Bytes → Bytes → ℤ → Bytes → FlagSet F
int_var fs p long short value usage =
    int_flag (int_flag fs p long value usage) p short value (usage ++ utf8 " (shorthand)")

abbrev listen_default : Bytes
listen_default = utf8 ":9154"

abbrev tls_default : Bool
tls_default = false

abbrev allow_anonymous_default : Bool
allow_anonymous_default = false

abbrev max_entries_default : ℤ
max_entries_default = default_max_entries

-- The variables of the packages as Go initialises them.
abbrev zero_flags : Flags
zero_flags = record {
  listen = [];
  url_base = [];
  tls = false;
  allow_anonymous = false;
  max_entries = pos 0;
  stats_socket = [];
}

abbrev zero_stats_flags : StatsFlags
zero_stats_flags = record { socket = []; json = false; verbose = false }

abbrev pub server_flags : FlagSet Flags
server_flags =
    let fs : FlagSet Flags = record { formal = []; vars = zero_flags } in
    let fs =
      string_var fs (λ v f. record f { listen = v }) (utf8 "listen") (utf8 "l") listen_default
        (utf8 "Listen on IP:port") in
    let fs =
      string_var fs (λ v f. record f { url_base = v }) (utf8 "urlbase") (utf8 "u") []
        (utf8 "Base URL (will be generated by default)") in
    let fs =
      bool_var fs (λ v f. record f { tls = v }) (utf8 "tls") (utf8 "s") tls_default
        (utf8 "Use TLS connection") in
    let fs =
      bool_var fs (λ v f. record f { allow_anonymous = v }) (utf8 "allow-anonymous") (utf8 "a")
        allow_anonymous_default (utf8 "Allow secrets by anonymous users") in
    let fs =
      int_var fs (λ v f. record f { max_entries = v }) (utf8 "max-entries") (utf8 "m")
        max_entries_default (utf8 "Maximum number of secrets held in memory") in
    string_var fs (λ v f. record f { stats_socket = v }) (utf8 "stats-socket") (utf8 "S") []
      (utf8 "Path of a unix socket answering how many secrets are held (empty: no socket)")

abbrev path : Bytes
path = utf8 "/run/gjfy/stats.sock"

abbrev pub stats_flags : FlagSet StatsFlags
stats_flags =
    let fl : FlagSet StatsFlags = record { formal = []; vars = zero_stats_flags } in
    let fl =
      string_var fl (λ v f. record f { socket = v }) (utf8 "socket") (utf8 "s") path
        (utf8 "Path of the stats socket") in
    let fl =
      bool_var fl (λ v f. record f { json = v }) (utf8 "json") (utf8 "j") false
        (utf8 "Print the raw report as JSON") in
    bool_var fl (λ v f. record f { verbose = v }) (utf8 "verbose") (utf8 "v") false
      (utf8 "List the live secrets (metadata only, never ids or contents)")
