-- ===== src/Cmd/Server/Tests.antt =====
-- The server on small requests.

use onetimelink.Cmd.Server.{Assets, Sources, Flags, get_url_base}
use onetimelink.Cmd.Server.Mux.{
  Arrival, Config, Outside, ServerState, route_of, routes, start_server, serve_http,
}
use onetimelink.Cmd.Server.Routes.{IsMux, serve_http_untouched, IsGuarded, serve_http-IsGuarded}
use onetimelink.Fileio.{Files}
use onetimelink.Http.{Decoders, Request, http_error, text}
use onetimelink.Prelude.{
  List, Option, [], if◌then◌else◌, inl, none, replicate, some, ◌≡◌, arith, false, true, ◌∷◌, ◌++◌,
  inr, refl,
}
use onetimelink.Prelude.Text.{Bytes, utf8, codes, rune_bytes, str_eq, str_eq_iff, has_prefix, split}
use onetimelink.Prelude.Int.{pos}
use onetimelink.Store.{new, zero_entry}
use onetimelink.Prelude.GoMap.{lookup}
use onetimelink.Prelude.Result.{ok, err}
use onetimelink.Admin.{FileSystem, OsError, other_error}
use onetimelink.Store.History.{Op, run, adds}

-- A mux that serves a path under the pattern equal to it.
abbrev choose_in : List Bytes → Bytes → Option Bytes
choose_in [] path = none
choose_in (p ∷ patterns) path =
    let rest = choose_in patterns path in if str_eq path p then some p else rest

abbrev choose : List Bytes → Request → Option Bytes
choose patterns r = choose_in patterns r.path

choose_in_fits :
    (patterns : List Bytes) (path p : Bytes) → choose_in patterns path ≡ some p → path ≡ p
choose_in_fits [] path p h = absurd (ground arith)
choose_in_fits (q ∷ patterns) path p h =
    ground (arith, choose_in_fits patterns path p, str_eq_iff path q)

choose-IsMux : IsMux choose
choose-IsMux = record {
  fits = λ patterns r p chosen. inl (choose_in_fits patterns r.path p chosen);
}

abbrev key : Bytes
key = replicate 16 107

abbrev decoders : Decoders
decoders = record {
  unmarshal_entry = λ b.
      if str_eq b (codes "good")
      then ok (record zero_entry { secret = codes "s3"; auth_token = key })
      else err (codes "bad json");
  parse_form = λ q t b. some (λ name. []);
  rand_error = codes "rand";
}

abbrev pub outside : Outside
outside = record {
  sha256 = λ s. s;
  decoders = decoders;
  split_host_port = λ s. some (codes "192.0.2.1");
  choose = choose;
  unrouted = λ r. http_error (codes "404 page not found") 404;
  serve_content = λ head r name time content. record {
    headers = head;
    response = record { status = 200; content_type = []; content = text content };
  };
  favicon = [];
  app_js = [];
  client_script = λ url. url;
}

abbrev pub config : Config
config = record { url_base = []; allow_anonymous = false; tls = true; started = pos 0 }

abbrev pub assets : Assets
assets = record {
  auth = some (record { token = key; email = codes "a@b" } ∷ []);
  css = [];
  user_message_view = [];
  updated = pos 0;
}

abbrev server : ServerState
server = start_server (new (pos 0)) (some assets)

abbrev pub post_entry : Arrival
post_entry = record {
  request = record {
    method = codes "POST";
    path = codes "/api/v1/new";
    query = λ name. [];
    header = λ name. [];
    body = some (codes "good");
    remote_addr = codes "192.0.2.1:5000";
  };
  seen = pos 1;
  now = pos 1;
  draws = λ i. some (i ∷ 0 ∷ 0 ∷ []);
  between = [];
}

-- A POST to /create, which this server does not offer.
abbrev post_form : Arrival
post_form = record post_entry { request = record (post_entry.request) { path = codes "/create" } }

serve_http-IsGuarded_example :
    IsGuarded true (serve_http outside config server post_entry).1.headers
unfolding route_of routes utf8 rune_bytes str_eq lookup
serve_http-IsGuarded_example = serve_http-IsGuarded outside config server post_entry refl

serve_http_untouched_example : (serve_http outside config server post_form).0.store ≡ server.store
unfolding has_prefix utf8 rune_bytes
serve_http_untouched_example =
    serve_http_untouched outside config server post_form choose-IsMux (λ e. cc) (λ e. cc) (inr refl)
      refl

-- A directory without files.
abbrev no_files : Files
no_files = record {
  working_dir = none;
  opens = λ p. false;
  read_file = λ p. none;
  join = λ dir fn. dir ++ fn;
}

abbrev pub sources : Sources
sources = record { files = no_files; unmarshal = λ b. none; parses = λ s. true; custom_css = [] }

-- An operating system that refuses every call.
abbrev refusal : OsError
refusal = other_error (codes "refused")

abbrev pub broken : FileSystem (Unit {0}) (Unit {0})
broken = record {
  lstat = λ w p. err refusal;
  stat = λ w p. err refusal;
  dial = λ w p. some refusal;
  remove = λ w p. (w, some refusal);
  listen = λ w p. (w, err refusal);
  is_unix = λ ln. true;
  set_unlink_on_close = λ ln b. ln;
  close = λ w ln. w;
  shutdown = λ w ln. (w, none);
  chmod = λ w p m. (w, some refusal);
}

abbrev flags : Flags
flags = record {
  listen = codes ":9154";
  url_base = [];
  tls = false;
  allow_anonymous = true;
  max_entries = pos 0;
  stats_socket = codes "/run/s";
}

default_url : get_url_base flags ≡ codes "http://localhost:9154"
unfolding get_url_base split str_eq utf8
default_url = refl

abbrev pub fill : List Op
fill =
    adds (record zero_entry { secret = codes "s3"; max_clicks = pos 1 }) (codes "k") (pos 5)
      (λ i. none)
    ∷ []

-- A secret under the id "k", of one read, and a POST of its link.
abbrev pub full_server : ServerState
full_server = start_server (run (new (pos 0)) fill) (some assets)

abbrev pub follow_link : Arrival
follow_link = record post_entry {
  request = record (post_entry.request) {
    path = codes "/g";
    query = λ name. codes "k";
    body = some [];
  };
}
