-- ===== src/Cmd/Server/Logs.antt =====
-- What the access log says about the id of a secret.
use onetimelink.Cmd.Server.Mux.{log_line}
use onetimelink.Misc.Headers.{get_real_ip}
use onetimelink.Prelude.Text.{Bytes}
use onetimelink.Prelude.{Option, ◌<◌, length, take, ◌≡◌, ◌⊎◌, ◌≢◌, [], ◌≤◌, ◌++◌, inl, inr, refl}
use onetimelink.Http.{Request}
use onetimelink.Misc.Redact.{id_prefix_len, api_get_prefix, redact_path-prefix}

-- The line that is logged for an API request does not depend on more than the first six bytes of the id:
-- two ids of more than six bytes that agree there leave the same line, and so do any two shorter ones.
log_line-prefix :
    (parse_ip : Bytes → Option Bytes) (proto s t : Bytes) (r : Request)
    → ((id_prefix_len < length s)
        × (id_prefix_len < length t)
        × (take id_prefix_len s ≡ take id_prefix_len t))
      ⊎ ((s ≢ []) × (t ≢ []) × (length s ≤ id_prefix_len) × (length t ≤ id_prefix_len))
    → log_line parse_ip proto (record r { path = api_get_prefix ++ s })
      ≡ log_line parse_ip proto (record r { path = api_get_prefix ++ t })
unfolding log_line get_real_ip
log_line-prefix parse_ip proto s t r (inl (hs, ht, same)) =
    rw ((redact_path-prefix s t).0 hs ht same) refl
log_line-prefix parse_ip proto s t r (inr (s_ne, t_ne, hs, ht)) =
    rw ((redact_path-prefix s t).1 s_ne t_ne hs ht) refl
