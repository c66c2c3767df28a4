-- ===== src/Misc/RateLimit/Wrap.antt =====
-- misc/ratelimit.go: ClientKey and RateLimit. `split_host_port` is the host of net.SplitHostPort; none
-- is its error.
use onetimelink.Prelude.Text.{Bytes, utf8}
use onetimelink.Prelude.{Option, none, some, if◌then◌else◌, not, ◌≡◌, arith, false, true, refl}
use onetimelink.Http.{Request, Headers, Reply, http_error}
use onetimelink.Misc.RateLimit.{Limiter, allow}
use onetimelink.Prelude.Clock.{Time}
use onetimelink.Prelude.GoMap.{insert}

unfoldable pub client_key : (Bytes → Option Bytes) → Request → Bytes
client_key split_host_port r = elim (split_host_port r.remote_addr) [
  | none ↦ r.remote_addr
  | some host ↦ host
]

-- The handler that RateLimit wraps runs only if the limiter lets the request pass; `state` is what it
-- works on.
unfoldable pub rate_limit {ℓ} :
    {S : Type ℓ}
    → (Bytes → Option Bytes)
    → Limiter
    → Time
    → Headers
    → Request
    → S
    → (S → S × Reply)
    → Limiter × (S × Reply)
rate_limit split_host_port l now head r state inner =
    let (l', passes) = allow l (client_key split_host_port r) now in
    if not passes
    then (
      l',
      (
        state,
        record {
          headers = insert (utf8 "Retry-After") (utf8 "1") head;
          response = http_error (utf8 "too many requests") 429;
        },
      ),
    )
    else (l', inner state)

module _ {ℓ} {S : Type ℓ} (split_host_port : Bytes → Option Bytes) (l : Limiter) (now : Time)
    (head : Headers) (r : Request) (state : S) (inner : S → S × Reply) where
  pub rate_limit-allow :
      (rate_limit split_host_port l now head r state inner).0
      ≡ (allow l (client_key split_host_port r) now).0
  unfolding rate_limit
  rate_limit-allow = ground arith

  pub rate_limit_refused :
      (allow l (client_key split_host_port r) now).1 ≡ false
      → ((rate_limit split_host_port l now head r state inner).1.0 ≡ state)
        × ((rate_limit split_host_port l now head r state inner).1.1.response
            ≡ http_error (utf8 "too many requests") 429)
  unfolding rate_limit
  rate_limit_refused refused = rw refused (refl, refl)

  pub rate_limit_passed :
      (allow l (client_key split_host_port r) now).1 ≡ true
      → (rate_limit split_host_port l now head r state inner).1 ≡ inner state
  unfolding rate_limit
  rate_limit_passed passes = rw passes refl
