-- ===== src/Misc/ClientSh.antt =====
-- misc/client-sh.go. `parse` and `run` are template.New("shellClient").Parse and Execute of text/template;
-- the variables of a template are a ClientVars.
use onetimelink.Prelude.Text.{Bytes, utf8}
use onetimelink.Prelude.Result.{Result, err, ok}
use onetimelink.Prelude.{Option, ◌++◌, [], some}

pub record ClientVars : Type 0 where
  pub default_post_url : Bytes

abbrev pub shell_client : Bytes
shell_client =
    utf8 "#!/bin/bash\n\nPOSTURL=\"${GJFY_POSTURL:-{{.DefaultPostURL}}}\"\n\n"
    ++ (utf8
          "which jq >/dev/null 2>&1 || {\n    echo \"jq utility not found\" >&2\n    exit 1\n}\n\n"
        ++ (utf8
              "if [[ $# -lt 2 ]]\nthen\n    echo \"usage: $0 <authtoken> <secret>\" >&2\n    exit 2\nfi\n\n"
            ++ (utf8
                  "if [[ -z \"$3\" ]]\nthen\n    postdata=\"{\\\"auth_token\\\":\\\"$1\\\",\\\"secret\\\":\\\"$2\\\"}\"\n"
                ++ (utf8
                      "else\n    postdata=\"{\\\"auth_token\\\":\\\"$1\\\",\\\"secret\\\":\\\"$2\\\",\\\"max_clicks\\\":$3}\"\nfi\n"
                    ++ utf8
                        "curl -s -X POST -d \"$postdata\" \"$POSTURL\" | jq -r '.url,.api_url,.error | select (.!=null)'\n"))))

module _ {Template : Type 0} (parse : Bytes → Result Bytes Template)
    (run : Template → ClientVars → Bytes × Option Bytes) where
  -- What ClientShellScript writes, and its error.
  unfoldable pub client_shell_script : Bytes → Bytes × Option Bytes
  client_shell_script url = elim (parse shell_client) [
    | err e ↦ ([], some e)
    | ok tmpl ↦ run tmpl (record { default_post_url = url })
  ]
