-- ===== src/Cmd/Stats/Tests.antt =====
-- `gjfy stats` on small reports.
use onetimelink.Admin.Report.{Report, snapshot}
use onetimelink.Cmd.Stats.{StatsFlags, human_duration, run_stats, other_failure}
use onetimelink.Prelude.Text.{Bytes, codes, utf8, rune_bytes}
use onetimelink.Store.{SecretStore, new, zero_entry}
use onetimelink.Store.Report.{EntryMeta}
use onetimelink.Prelude.{[], replicate, ◌∷◌, false, length, ◌≡◌, true, refl, length-replicate, ℕ}
use onetimelink.Prelude.Format.{decimal, decimal_digits}
use onetimelink.Prelude.Int.{pos}
use onetimelink.Prelude.Result.{ok}
use onetimelink.Store.Metadata.{with_secrets}
use onetimelink.Cmd.Stats.Laws.{run_stats-with_secrets}

abbrev sooner : EntryMeta
sooner = record {
  created = pos 1;
  expires = pos 90_000_000_000;
  clicks = pos 0;
  max_clicks = pos 1;
  bytes = 3;
  author = codes "a@b";
}

abbrev later : EntryMeta
later = record sooner { expires = pos 180_000_000_000_000 }

two_days : human_duration (pos 180_000_000_000_000) ≡ codes "2d 2h"
unfolding human_duration decimal decimal_digits utf8 rune_bytes
two_days = refl

a_minute : human_duration (pos 90_000_000_000) ≡ codes "1m"
unfolding human_duration decimal decimal_digits utf8 rune_bytes
a_minute = refl

abbrev secrets : SecretStore
secrets = record (new (pos 0)) {
  entries = (codes "k", record zero_entry { secret = codes "s3"; max_clicks = pos 1 }) ∷ [];
}

abbrev show : Report → Bytes
show rep = decimal (pos rep.live)

abbrev quiet : StatsFlags
quiet = record { socket = codes "s"; json = false; verbose = true }

-- Every secret is replaced by blanks.
abbrev blank : Bytes → Bytes
blank s = replicate (length s) 32

run_stats-with_secrets_example :
    run_stats
      (λ layout t. layout)
      show
      (λ e. [])
      (λ e. other_failure)
      (λ s. s)
      quiet
      []
      (ok (
        snapshot
          (record secrets { entries = with_secrets blank secrets.entries })
          (with_secrets blank secrets.entries)
          (pos 0)
          (pos 1)))
      (pos 2)
    ≡ run_stats
        (λ layout t. layout)
        show
        (λ e. [])
        (λ e. other_failure)
        (λ s. s)
        quiet
        []
        (ok (snapshot secrets secrets.entries (pos 0) (pos 1)))
        (pos 2)
run_stats-with_secrets_example =
    run_stats-with_secrets blank secrets secrets.entries (pos 0) (pos 1) (pos 2)
      (λ layout t. layout) show (λ e. []) (λ e. other_failure) (λ s. s) quiet []
      (λ s. length-replicate {A = ℕ} (length s) 32)
