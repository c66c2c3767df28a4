-- ===== src/Cmd/Server.antt =====
-- cmd/server.go: the flags and what can be reloaded. The atomic pointer `currentAssets` is an option that
-- reload replaces as a whole; none is its nil. The flags stand in a record in place of variables of the
-- package.
pub mod Mux
pub mod Run
pub mod Stop
pub mod Reload
pub mod Routes
pub mod Limits
pub mod Once
pub mod Grown
pub mod Live
pub mod Logs
pub mod Tests
use onetimelink.Fileio.{Files, try_read_file, file_or_func, file_or_const}
use onetimelink.Prelude.{Bool, Option, none, [], if◌then◌else◌, some, ℕ, not, ◌++◌}
use onetimelink.Prelude.Clock.{Duration, Time, second, zero_time}
use onetimelink.Prelude.Int.{ℤ, pos}
use onetimelink.Prelude.Text.{Bytes, utf8, str_eq, last, split}
use onetimelink.TokenDb.{TokenDb, make_token_db}
use onetimelink.Prelude.Format.{decimal}

abbrev pub new_burst : ℤ
new_burst = pos 10

abbrev pub new_interval : Duration
new_interval = pos 2_000_000_000

abbrev pub get_burst : ℤ
get_burst = pos 30

abbrev pub get_interval : Duration
get_interval = second

abbrev pub crt_file : Bytes
crt_file = utf8 "gjfy.crt"

abbrev pub key_file : Bytes
key_file = utf8 "gjfy.key"

pub record Flags : Type 0 where
  pub listen : Bytes
  pub url_base : Bytes
  pub tls : Bool
  pub allow_anonymous : Bool
  pub max_entries : ℤ
  pub stats_socket : Bytes

pub record Assets : Type 0 where
  pub auth : TokenDb
  pub css : Bytes
  pub user_message_view : Bytes
  pub updated : Time

-- The variable `scheme`, which runServer sets before it asks for the URL base.
abbrev pub scheme : Bool → Bytes
scheme tls = if tls then utf8 "https://" else utf8 "http://"

unfoldable pub get_url_base : Flags → Bytes
get_url_base f =
    if not (str_eq f.url_base [])
    then f.url_base
    else scheme f.tls ++ (utf8 "localhost" ++ (utf8 ":" ++ last (split f.listen b':')))

-- What updateFiles calls: the files, the decoder of the token database, the check of mail addresses, and
-- the embedded style sheet.
pub record Sources : Type 0 where
  pub files : Files
  pub unmarshal : Bytes → Option TokenDb
  pub parses : Bytes → Bool
  pub custom_css : Bytes

abbrev pub user_message_view_default_text : Bytes
user_message_view_default_text =
    utf8
      "Кто-то поделился с вами секретом — например паролем.\n\tСохраните его сейчас: ссылка одноразовая и живёт недолго."

unfoldable pub update_files : Sources → Time → Assets
update_files s now = record {
  auth = make_token_db s.unmarshal s.parses (try_read_file s.files (utf8 "auth.db"));
  css = file_or_func s.files (utf8 "custom.css") (λ fn. s.custom_css);
  user_message_view =
      file_or_const s.files (utf8 "userMessageView.txt") user_message_view_default_text;
  updated = now;
}

-- What reload publishes.
unfoldable pub reload : Sources → Time → Option Assets
reload s now = some (update_files s now)

abbrev pub no_assets : Assets
no_assets = record { auth = none; css = []; user_message_view = []; updated = zero_time }

unfoldable pub loaded_assets : Option Assets → Assets
loaded_assets none = no_assets
loaded_assets (some a) = a

unfoldable pub stop_notice : Bytes → ℕ → Bytes
stop_notice sig live =
    utf8 "got "
    ++ (sig ++ (utf8 ", stopping: " ++ (decimal (pos live) ++ utf8 " live secret(s) will be lost")))
