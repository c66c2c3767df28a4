-- ===== src/Cmd/Stats.antt =====
-- cmd/stats.go: `gjfy stats`. `local` prints a time in the local zone in a layout; Hours and Minutes of a
-- duration are taken exactly, where the code rounds them to a float64 first.
pub mod Laws
mod Tests
use onetimelink.Prelude.{
  List, ℕ, Bool, if◌then◌else◌, [], ltb, ◌++◌, ◌==◌, ◌∷◌, not, ◌||◌, ◌/◌, length, ◌%◌,
}
use onetimelink.Prelude.Clock.{Duration, Time, zero_time, is_zero, sub, mul, before, second}
use onetimelink.Prelude.Text.{Bytes, utf8}
use onetimelink.Admin.Report.{Report, FetchError}
use onetimelink.Store.Report.{EntryMeta}
use onetimelink.Prelude.Int.{ltb_ℤ, pos, pos_part}
use onetimelink.Prelude.Format.{decimal, pad_left}
use onetimelink.Prelude.Result.{Result, err, ok}

abbrev long_layout : Bytes
long_layout = utf8 "2006-01-02 15:04 MST"

abbrev short_layout : Bytes
short_layout = utf8 "2006-01-02 15:04"

-- The errors that statsHint tells apart.
pub data ReadError : Type 0 where
  no_permission : ReadError
  no_file : ReadError
  other_failure : ReadError

unfoldable pub stats_hint : ReadError → Bytes
stats_hint no_permission = utf8 "the socket is root-only by design; try again as root\n"
stats_hint no_file =
    utf8 "no socket there: is the service running, and was it started with --stats-socket?\n"
stats_hint other_failure = []

unfoldable pub restart_cost : ℕ → Bytes
restart_cost live =
    if live == 0
    then utf8 "a restart would lose nothing"
    else if live == 1
    then utf8 "a restart would lose it"
    else utf8 "a restart would lose all " ++ decimal (pos live)

-- The loop of nextExpiry.
unfoldable pub earliest : Time → List EntryMeta → Time
earliest next [] = next
earliest next (e ∷ entries) =
    earliest (if is_zero next || before e.expires next then e.expires else next) entries

unfoldable pub next_expiry : List EntryMeta → Time × Bool
next_expiry entries = let next = earliest zero_time entries in (next, not (is_zero next))

unfoldable pub human_duration : Duration → Bytes
human_duration d =
    if ltb_ℤ d (pos 0)
    then utf8 "now"
    else let hours = pos_part d / 3_600_000_000_000 in
      let days = hours / 24 in
      let minutes = pos_part d / 60_000_000_000 % 60 in
      if ltb 0 days
      then decimal (pos days) ++ (utf8 "d " ++ (decimal (pos (hours % 24)) ++ utf8 "h"))
      else if ltb 0 (hours % 24)
      then decimal (pos (hours % 24)) ++ (utf8 "h " ++ (decimal (pos minutes) ++ utf8 "m"))
      else decimal (pos minutes) ++ utf8 "m"

module _ (local : Bytes → Time → Bytes) where
  -- One line of the table.
  unfoldable pub format_entry : EntryMeta → Bytes
  format_entry e =
      local short_layout e.created
      ++ (utf8 "  "
          ++ (local short_layout e.expires
              ++ (utf8 "  "
                  ++ (pad_left 5 (decimal e.clicks ++ (utf8 "/" ++ decimal e.max_clicks))
                      ++ (utf8 "  "
                          ++ (pad_left 5 (decimal (pos e.bytes))
                              ++ (utf8 "  " ++ (e.author ++ utf8 "\n"))))))))

  unfoldable pub format_entries : List EntryMeta → Bytes
  format_entries [] = []
  format_entries (e ∷ entries) = format_entry e ++ format_entries entries

  -- The line on the next expiry, if there is one.
  unfoldable pub format_next : List EntryMeta → Time → Bytes
  format_next entries now =
      let (next, found) = next_expiry entries in
      if found
      then utf8 "next expiry:   "
        ++ (local long_layout next
            ++ (utf8 " (in " ++ (human_duration (sub next now) ++ utf8 ")\n")))
      else []

  unfoldable pub format_report : Report → Time → Bool → Bytes
  format_report rep now verbose =
      let summary =
        utf8 "live secrets:  "
        ++ (decimal (pos rep.live)
            ++ (utf8 " of "
                ++ (decimal rep.max_entries
                    ++ (utf8 "  (" ++ (restart_cost rep.live ++ utf8 ")\n"))))) in
      let since =
        utf8 "running since: "
        ++ (local long_layout rep.started_at
            ++ (utf8 ", up " ++ (human_duration (mul rep.uptime_seconds second) ++ utf8 "\n"))) in
      let counts =
        utf8 "since then:    "
        ++ (decimal (pos rep.created)
            ++ (utf8 " created, "
                ++ (decimal (pos rep.claimed)
                    ++ (utf8 " read, " ++ (decimal (pos rep.expired) ++ utf8 " expired\n"))))) in
      let out = summary ++ (since ++ (counts ++ format_next rep.entries now)) in
      if not verbose || length rep.entries == 0
      then out
      else out
        ++ (utf8 "\ncreated           expires           reads  bytes  author\n"
            ++ format_entries rep.entries)

-- What the command writes, and the code that it exits with.
pub record Outcome : Type 0 where
  pub stdout : Bytes
  pub stderr : Bytes
  pub exit_code : ℕ

-- The flags of `gjfy stats`.
pub record StatsFlags : Type 0 where
  pub socket : Bytes
  pub json : Bool
  pub verbose : Bool

-- runStats once the flags are parsed, with the arguments behind them. `fetched` is the result of
-- admin.Fetch; of an error `text_of` is its text, `kind_of` what errors.Is finds in it and `quoted` prints
-- an argument by %q.
unfoldable pub run_stats :
    (Bytes → Time → Bytes)
    → (Report → Bytes)
    → (FetchError → Bytes)
    → (FetchError → ReadError)
    → (Bytes → Bytes)
    → StatsFlags
    → List Bytes
    → Result FetchError Report
    → Time
    → Outcome
run_stats local encode text_of kind_of quoted f (extra ∷ rest) fetched now = record {
  stdout = [];
  stderr = utf8 "unexpected argument " ++ (quoted extra ++ utf8 "\n");
  exit_code = 1;
}
run_stats local encode text_of kind_of quoted f [] (err e) now = record {
  stdout = [];
  stderr =
      utf8 "could not read "
      ++ (f.socket ++ (utf8 ": " ++ (text_of e ++ (utf8 "\n" ++ stats_hint (kind_of e)))));
  exit_code = 1;
}
run_stats local encode text_of kind_of quoted f [] (ok rep) now = record {
  stdout = if f.json then encode rep else format_report local rep now f.verbose;
  stderr = [];
  exit_code = 0;
}
