-- ===== src/Admin/Report.antt =====
-- admin/admin.go: the report, its handler, and Fetch. `encode` is the indenting JSON encoder and `decode`
-- its reader; `visited` is the order in which the range of Stats visits the map.
use onetimelink.Http.{Response, Request, text, method_get, http_error}
use onetimelink.Prelude.{
  List, ℕ, Option, [], if◌then◌else◌, not, ◌==◌, ◌∷◌, ◌≡◌, true, some, refl, ◌∙◌, ap,
}
use onetimelink.Prelude.Text.{Bytes, utf8, str_eq}
use onetimelink.Store.{SecretStore, StoreEntry}
use onetimelink.Prelude.GoMap.{GoMap, is_some}
use onetimelink.Prelude.Int.{ℤ}
use onetimelink.Prelude.Result.{Result, err, ok}
use onetimelink.Prelude.Clock.{Time, quot, sub, second}
use onetimelink.Store.Report.{EntryMeta, stats}

pub record Report : Type 0 where
  pub live : ℕ
  pub lost_on_restart : ℕ
  pub max_entries : ℤ
  pub started_at : Time
  pub uptime_seconds : ℤ
  pub created : ℕ
  pub claimed : ℕ
  pub expired : ℕ
  pub entries : List EntryMeta

unfoldable pub snapshot : SecretStore → GoMap StoreEntry → Time → Time → Report
snapshot st visited started now =
    let s = stats st visited in
    record {
      live = s.live;
      lost_on_restart = s.live;
      max_entries = s.max_entries;
      started_at = started;
      uptime_seconds = quot (sub now started) second;
      created = s.created;
      claimed = s.claimed;
      expired = s.expired;
      entries = s.entries;
    }

abbrev pub stats_route : Bytes
stats_route = utf8 "/stats"

-- The function that Handler registers for "/stats", the only pattern of its mux.
unfoldable pub handle_stats :
    (Report → Bytes) → SecretStore → GoMap StoreEntry → Time → Time → Request → Response
handle_stats encode st visited started now r =
    if not (str_eq r.method method_get)
    then http_error (utf8 "method not allowed") 405
    else record {
      status = 200;
      content_type = utf8 "application/json; charset=UTF-8";
      content = text (encode (snapshot st visited started now));
    }

-- Handler, over http.ServeMux: the pattern that it chooses, and its own answer where it chooses none.
unfoldable pub stats_handler :
    (List Bytes → Request → Option Bytes)
    → (Request → Response)
    → (Report → Bytes)
    → SecretStore
    → GoMap StoreEntry
    → Time
    → Time
    → Request
    → Response
stats_handler choose unrouted encode st visited started now r =
    if is_some (choose (stats_route ∷ []) r)
    then handle_stats encode st visited started now r
    else unrouted r

pub data FetchError : Type 0 where
  not_reached : Bytes → FetchError
  answered : ℕ → FetchError
  not_decoded : Bytes → FetchError

-- A response as the HTTP client sees it.
pub record Answer : Type 0 where
  pub status : ℕ
  pub body : Bytes

-- Fetch: `get` is the request for /stats over the socket at a path. What it returns beside an error is
-- not used.
unfoldable pub fetch :
    (Bytes → Result Bytes Answer) → (Bytes → Result Bytes Report) → Bytes → Result FetchError Report
fetch get decode path = elim (get path) [
  | err e ↦ err (not_reached e)
  | ok resp ↦
      if not (resp.status == 200)
      then err (answered resp.status)
      else elim (decode resp.body) [ err e ↦ err (not_decoded e) | ok rep ↦ ok rep ]
]

-- What reaches the client of a response: its status and the bytes of its text.
abbrev pub sent : Response → Answer
sent response = record {
  status = response.status;
  body = elim response.content [ text s ↦ s | _ ↦ [] ];
}

-- Where the client reaches the handler and the JSON reader inverts the writer on
-- the report, Fetch returns the snapshot of the store.
pub fetch-snapshot :
    (get : Bytes → Result Bytes Answer) (decode : Bytes → Result Bytes Report)
    (choose : List Bytes → Request → Option Bytes) (unrouted : Request → Response)
    (encode : Report → Bytes) (st : SecretStore) (visited : GoMap StoreEntry) (started now : Time)
    (r : Request) (path : Bytes)
    → str_eq r.method method_get ≡ true
    → choose (stats_route ∷ []) r ≡ some stats_route
    → get path ≡ ok (sent (stats_handler choose unrouted encode st visited started now r))
    → decode (encode (snapshot st visited started now)) ≡ ok (snapshot st visited started now)
    → fetch get decode path ≡ ok (snapshot st visited started now)
unfolding fetch stats_handler handle_stats
fetch-snapshot get decode choose unrouted encode st visited started now r path gets chosen reached
      inverse =
    rw (reached ∙ ap ok stats_answer, fetch, inverse) refl
  where
    stats_answer :
        sent (stats_handler choose unrouted encode st visited started now r)
        ≡ record { status = 200; body = encode (snapshot st visited started now) }
    stats_answer = rw (chosen, gets) refl
