-- ===== src/Misc/Headers.antt =====
-- misc/headers.go. `parse_ip` is net.ParseIP with the String of its result; none is its nil.
use onetimelink.Prelude.{Bool, String, Option, if◌then◌else◌, not, [], some, none}
use onetimelink.Prelude.Text.{Bytes, utf8, str_eq, first, split}
use onetimelink.Http.{Headers, Request}
use onetimelink.Prelude.GoMap.{insert}
use onetimelink.Prelude.Parse.{trim_space}

unfoldable pub get_real_ip : (Bytes → Option Bytes) → Request → Bytes
get_real_ip parse_ip r =
    let forwarded = r.header (utf8 "X-Forwarded-For") in
    let real = trim_space (r.header (utf8 "X-Real-IP")) in
    if not (str_eq forwarded [])
    then elim (parse_ip (trim_space (first (split forwarded b',')))) [
      | some ip ↦ ip
      | none ↦ utf8 "invalid"
    ]
    else if not (str_eq real [])
    then elim (parse_ip real) [ some ip ↦ ip | none ↦ utf8 "invalid" ]
    else utf8 "none"

-- head.Set
abbrev pub set_header : String → String → Headers → Headers
set_header name value head = insert (utf8 name) (utf8 value) head

-- What SecurityHeaders sets before it calls the handler.
unfoldable pub security_headers : Bool → Headers → Headers
security_headers tls head =
    let basic =
      set_header "Content-Security-Policy"
        "default-src 'none'; img-src 'self'; style-src 'self'; script-src 'self'; form-action 'self'; frame-ancestors 'none'; base-uri 'none'"
        (set_header "Referrer-Policy" "no-referrer" (
          set_header "X-Frame-Options" "DENY" (
            set_header "X-Content-Type-Options" "nosniff" (
              set_header "Expires" "0" (
                set_header "Pragma" "no-cache" (
                  set_header "Cache-Control" "no-store, no-cache, must-revalidate, private"
                    head)))))) in
    if tls then set_header "Strict-Transport-Security" "max-age=63072000" basic else basic
