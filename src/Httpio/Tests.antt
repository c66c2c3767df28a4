-- ===== src/Httpio/Tests.antt =====
-- The handlers on small requests.
use onetimelink.Http.{Decoders, Request, json_info, method_post, view_page}
use onetimelink.Httpio.Api.{handle_api_new, json_respond, handle_api_get, add_and_show}
use onetimelink.Httpio.View.{
  handle_get, handle_info, request_token, render, read_form, handle_create,
}
use onetimelink.Prelude.{
  ℕ, Option, [], if◌then◌else◌, replicate, some, List, ◌++◌, ◌∷◌, ◌≡◌, refl, ◌≢◌, arith, false, All,
  true, ◌+◌, none, ◌⊎◌, ◌≤◌, ap, length,
}
use onetimelink.Prelude.Text.{Bytes, codes, str_eq, utf8}
use onetimelink.Store.{
  SecretStore, StoreEntry, StoreEntryInfo, new, zero_entry, add_entry, hidden_string, choose_id,
  find_id, new_id, store_under,
}
use onetimelink.Store.Ids.{GivesBytes}
use onetimelink.TokenDb.{TokenDb, is_authorized, knows, find_token, scan}
use onetimelink.Httpio.Access.{Admitted, handle_api_new_created}
use onetimelink.Prelude.Int.{pos}
use onetimelink.Prelude.Result.{ok, err}
use onetimelink.Store.Accept.{Accepted}
use onetimelink.Store.Metadata.{with_secrets}
use onetimelink.Httpio.{api_get_route}
use onetimelink.Httpio.Privacy.{handle_get-opening, handle_info-with_secrets}
use onetimelink.Store.History.{run, remaining}
use onetimelink.Httpio.Link.{api_new-api_get}
use mathlib.Core.Path.{subst}
use onetimelink.Base64.Laws.{IsByte}
use onetimelink.Prelude.GoMap.{lookup}
use onetimelink.Base64.{raw_url_encode}
use onetimelink.Store.Valid.{IsValid}
use onetimelink.Httpio.Forms.{Kept, handle_create-Kept}
use onetimelink.Httpio.Reveal.{handle_get-revealing}

abbrev key : Bytes
key = replicate 16 107

abbrev auth : TokenDb
auth = some (record { token = key; email = codes "a@b" } ∷ [])

abbrev sha256 : Bytes → Bytes
sha256 s = s

abbrev no_values : Bytes → Bytes
no_values name = []

-- The body "good" is an entry with the known token, any other text is not JSON.
abbrev decoders : Decoders
decoders = record {
  unmarshal_entry = λ b.
      if str_eq b (codes "good")
      then ok (record zero_entry { secret = codes "s3"; auth_token = key })
      else err (codes "bad json");
  parse_form = λ q t b. some no_values;
  rand_error = codes "rand";
}

abbrev empty : SecretStore
empty = new (pos 0)

-- rand.Read gives three zero bytes, whose text is AAAA.
abbrev draws : ℕ → Option (List ℕ)
draws i = some (0 ∷ 0 ∷ 0 ∷ [])

draws-GivesBytes : GivesBytes draws
draws-GivesBytes i b e =
    let same : 0 ∷ 0 ∷ 0 ∷ [] ≡ b = ground arith in
    subst (All IsByte) same (omega arith, (omega arith, (omega arith, tt)))

abbrev post_entry : Request
post_entry = record {
  method = codes "POST";
  path = codes "/api/v1/new";
  query = no_values;
  header = no_values;
  body = some (codes "good");
  remote_addr = codes "192.0.2.1:5000";
}

-- A GET of the link with the id that these bytes give.
abbrev follow : Request
follow = record {
  method = codes "GET";
  path = codes "/api/v1/get/AAAA";
  query = no_values;
  header = no_values;
  body = some [];
  remote_addr = codes "192.0.2.1:5000";
}

created : (handle_api_new sha256 decoders empty [] auth (pos 0) draws [] post_entry).1.status ≡ 201
unfolding handle_api_new str_eq utf8 is_authorized find_token scan add_and_show add_entry choose_id
    find_id new_id lookup new raw_url_encode store_under json_respond
created = refl

refused : (handle_api_new sha256 decoders empty [] auth (pos 0) draws [] follow).1.status ≢ 201
unfolding handle_api_new json_respond str_eq utf8
refused = omega arith

api_new-api_get_example :
    (entry : StoreEntry) × (si : StoreEntryInfo) × (si' : StoreEntryInfo) × Admitted sha256 decoders
      empty [] auth
      (pos 0)
      draws
      []
      post_entry
      entry
    × ((handle_api_new sha256 decoders empty [] auth (pos 0) draws [] post_entry).1
        ≡ json_respond 201 (json_info si))
    × (si.api_url ≡ api_get_route ++ si.id)
    × (si.secret ≡ hidden_string)
    × (follow.path ≡ api_get_route ++ si.id
        → (handle_api_get
            (handle_api_new sha256 decoders empty [] auth (pos 0) draws [] post_entry).0
            []
            follow).1
          ≡ json_respond 200 (json_info si'))
    × (si'.secret ≡ entry.secret)
api_new-api_get_example =
    api_new-api_get sha256 decoders empty [] auth (pos 0) draws post_entry follow draws-GivesBytes
      created

handle_api_new_created_example :
    (entry : StoreEntry) × (k : Bytes) × Admitted sha256 decoders empty [] auth
      (pos 0)
      draws
      []
      post_entry
      entry
    × Accepted empty
        (is_authorized sha256 auth entry).0
        []
        (pos 0)
        k
        (add_entry empty (is_authorized sha256 auth entry).0 [] (pos 0) draws).0
    × ((handle_api_new sha256 decoders empty [] auth (pos 0) draws [] post_entry).0
        ≡ run (add_entry empty (is_authorized sha256 auth entry).0 [] (pos 0) draws).0 [])
handle_api_new_created_example =
    handle_api_new_created sha256 decoders empty [] auth (pos 0) draws [] post_entry created

-- A store whose one secret every name opens, and what replaces the secret.
abbrev full_store : SecretStore
full_store = record empty {
  entries =
      ([], record zero_entry { secret = codes "s3"; max_clicks = pos 1; valid_for = pos 1 }) ∷ [];
}

abbrev other : Bytes → Bytes
other s = codes "other"

handle_get-opening_example :
    ((handle_get full_store [] [] follow).0 ≡ full_store)
    × ((handle_get
          (record full_store { entries = with_secrets other full_store.entries })
          []
          []
          follow).1
        ≡ (handle_get full_store [] [] follow).1)
unfolding str_eq utf8
handle_get-opening_example = handle_get-opening other full_store [] follow [] refl

handle_info-with_secrets_example :
    ((handle_info sha256 full_store [] auth follow).0 ≡ full_store)
    × ((handle_info sha256
          (record full_store { entries = with_secrets other full_store.entries })
          []
          auth
          follow).1
        ≡ (handle_info sha256 full_store [] auth follow).1)
    × (knows sha256 auth (request_token follow) ≡ false
        → (store : SecretStore)
        → ((handle_info sha256 full_store [] auth follow).1.status ≡ 401)
          × ((handle_info sha256 store [] auth follow).1
              ≡ (handle_info sha256 full_store [] auth follow).1))
handle_info-with_secrets_example = handle_info-with_secrets other full_store [] follow sha256 auth

full_store-IsValid : IsValid full_store
unfolding new lookup
full_store-IsValid = record {
  distinct = (refl, tt);
  bounded = omega arith;
  positive = omega arith;
  live = (
    record {
      nonempty = λ e. omega (arith, ap length e);
      short = omega arith;
      counted = omega arith;
      unspent = omega arith;
      limited = omega arith;
      dated = omega arith;
    },
    tt,
  );
}

-- A POST of the form without values, and one whose form asks for ten openings of a secret.
abbrev press : Request
press = record post_entry { body = some [] }

abbrev ten_openings : Bytes → Bytes
ten_openings name = if str_eq name (codes "days") then [] else codes "10"

abbrev forms : Decoders
forms = record decoders { parse_form = λ q t b. some ten_openings }

handle_get-revealing_example :
    ((e : StoreEntry)
      → lookup [] full_store.entries ≡ some e
      → ((si : StoreEntryInfo) × ((handle_get full_store [] [] press).1
            ≡ render (view_page si [] (pos (remaining [] (handle_get full_store [] [] press).0))))
          × (si.secret ≡ e.secret))
        × (remaining [] (handle_get full_store [] [] press).0 + 1 ≡ remaining [] full_store))
    × (lookup [] full_store.entries ≡ none
        → ((handle_get full_store [] [] press).0 ≡ full_store)
          × ((handle_get full_store [] [] press).1.status ≡ 404))
unfolding str_eq utf8
handle_get-revealing_example = handle_get-revealing full_store [] [] press refl full_store-IsValid

handle_create-Kept_example :
    ((str_eq press.method method_post ≡ true)
      × ((form : Bytes → Bytes) × (read_form forms press ≡ some form)
          × Kept empty []
              (pos 0)
              draws
              press
              form
              (handle_create forms empty [] (pos 0) draws press).0)
      × ((handle_create forms empty [] (pos 0) draws press).1.status ≡ 200))
    ⊎ (((handle_create forms empty [] (pos 0) draws press).0 ≡ empty)
        × (400 ≤ (handle_create forms empty [] (pos 0) draws press).1.status))
handle_create-Kept_example = handle_create-Kept empty [] (pos 0) draws press forms
