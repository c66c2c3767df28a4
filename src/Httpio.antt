-- ===== src/Httpio.antt =====
-- Package httpio: the handlers. Each is a function from the store and the request to the store after
-- and the response.
pub mod Api
pub mod View
pub mod Static
pub mod Link
pub mod Reveal
pub mod Privacy
pub mod Access
pub mod Forms
mod Tests
-- httpio/routes.go
use onetimelink.Prelude.Text.{Bytes, utf8}

abbrev pub get_route : Bytes
get_route = utf8 "/g"

abbrev pub api_get_route : Bytes
api_get_route = utf8 "/api/v1/get/"

abbrev pub api_new_route : Bytes
api_new_route = utf8 "/api/v1/new"

abbrev pub create_route : Bytes
create_route = utf8 "/create"

abbrev pub info_route : Bytes
info_route = utf8 "/i"

abbrev pub client_shell_route : Bytes
client_shell_route = utf8 "/gjfy-post"

abbrev pub fav_route : Bytes
fav_route = utf8 "/favicon.ico"

abbrev pub css_route : Bytes
css_route = utf8 "/custom.css"

abbrev pub js_route : Bytes
js_route = utf8 "/app.js"
