-- ===== src/Http.antt =====
-- What the handlers use of Go's net/http. A request is what its handler reads of it; the response is
-- the status, the content type that the handler sets, and what it writes.
use onetimelink.Prelude.{ℕ, Option, Bool, ◌++◌, ◌∷◌, []}
use onetimelink.Prelude.Text.{Bytes, utf8}
use onetimelink.Prelude.Result.{Result}
use onetimelink.Store.{StoreEntryInfo, StoreEntry}
use onetimelink.Prelude.Int.{ℤ}
use onetimelink.Prelude.GoMap.{GoMap}

pub record Request : Type 0 where
  pub method : Bytes
  pub path : Bytes
  -- r.URL.Query().Get and r.Header.Get: the empty text for what is missing.
  pub query : Bytes → Bytes
  pub header : Bytes → Bytes
  -- The bytes of the body; none if reading them fails.
  pub body : Option Bytes
  pub remote_addr : Bytes

abbrev pub method_get : Bytes
method_get = utf8 "GET"

abbrev pub method_post : Bytes
method_post = utf8 "POST"

-- The pages of the templates that the handlers execute, with the data handed to each, and JSON.
pub data Content : Type 0 where
  json_error : Bytes → Content
  json_info : StoreEntryInfo → Content
  error_page : Bytes → Bytes → Content
  index_page : Bool → ℕ → ℕ → Content
  confirm_page : Bytes → Bytes → Content
  view_page : StoreEntryInfo → Bytes → ℤ → Content
  info_page : StoreEntryInfo → Content
  created_page : Bytes → ℤ → ℤ → Content
  text : Bytes → Content

pub record Response : Type 0 where
  pub status : ℕ
  pub content_type : Bytes
  pub content : Content

-- The decoders of the standard library: json.Unmarshal into a StoreEntry, with the error's text, and
-- the form that ParseForm builds from the query, the Content-Type and what reading the body to its end
-- gives, read by Form.Get; and the text of an error
-- of crypto/rand.
pub record Decoders : Type 0 where
  pub unmarshal_entry : Bytes → Result Bytes StoreEntry
  pub parse_form : (Bytes → Bytes) → Bytes → Option Bytes → Option (Bytes → Bytes)
  pub rand_error : Bytes

-- The header fields of a response, w.Header(), apart from Content-Type and from what http.ServeMux
-- adds in an answer of its own.
abbrev pub Headers : Type 0
Headers = GoMap Bytes

pub record Reply : Type 0 where
  pub headers : Headers
  pub response : Response

-- http.Error: the text as text/plain, with a newline behind it.
abbrev pub http_error : Bytes → ℕ → Response
http_error message status = record {
  status = status;
  content_type = utf8 "text/plain; charset=utf-8";
  content = text (message ++ 10 ∷ []);
}
