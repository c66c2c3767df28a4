-- ===== src/Httpio/Static.antt =====
-- httpio/static_handlers.go. `favicon` and `app_js` are embedded files; `serve_content` is
-- http.ServeContent with the name, the modification time and the bytes that it serves; `client_script`
-- is what misc.ClientShellScript writes for a URL.
use onetimelink.Http.{Headers, Request, Response, Reply, text}
use onetimelink.Prelude.Text.{Bytes, utf8}
use onetimelink.Prelude.Clock.{Time}
use onetimelink.Prelude.{◌++◌}
use onetimelink.Httpio.{api_new_route}

abbrev pub ServeContent : Type 0
ServeContent = Headers → Request → Bytes → Time → Bytes → Reply

unfoldable pub handle_static_fav : Bytes → Response
handle_static_fav favicon = record {
  status = 200;
  content_type = utf8 "image/x-icon";
  content = text favicon;
}

unfoldable pub handle_static_css :
    ServeContent → (Unit {0} → Bytes × Time) → Headers → Request → Reply
handle_static_css serve_content get head r =
    let (css, updated) = get tt in serve_content head r (utf8 "custom.css") updated css

unfoldable pub handle_static_js : ServeContent → Bytes → Time → Headers → Request → Reply
handle_static_js serve_content app_js started head r =
    serve_content head r (utf8 "app.js") started app_js

unfoldable pub handle_static_client_shell_script : (Bytes → Bytes) → Bytes → Response
handle_static_client_shell_script client_script urlbase = record {
  status = 200;
  content_type = utf8 "application/x-sh";
  content = text (client_script (urlbase ++ api_new_route));
}
