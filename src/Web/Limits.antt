-- ===== src/Web/Limits.antt =====
-- The middleware of the rate limiter (quantflow/web/rate_limit.py). SHA-256 comes as a function
-- from the text to the digits that are kept.
use intelligent_trading_syst.Base.{
  ℕ, Bool, true, not, ◌&&◌, Option, none, some, List, [], ◌∷◌, String, ◌==◌, member, strip,
  str_append, eqb, if◌then◌else◌,
}
use Prim.Native.Char.{code}
use intelligent_trading_syst.Registry.Store.{starts_with}
use intelligent_trading_syst.Web.Guard.{header_or_empty}
use intelligent_trading_syst.Web.Bucket.{RateLimiter, acquire}

abbrev pub limited_paths : List String
limited_paths =
    "/api/data/download" ∷ "/api/data/seed-demo" ∷ "/api/data/tag-source" ∷ "/api/analysis/multi-tf"
    ∷ "/api/research" ∷ "/api/validate" ∷ "/api/session/start" ∷ "/api/session/stop"
    ∷ "/api/session/kill-switch" ∷ "/api/workbench/state" ∷ []

-- What the middleware reads of a request; the peer is the address of the transport.
pub record LimitedRequest : Type 0 where
  pub path : String
  pub method : String
  pub peer : Option String
  pub forwarded_for : Option String
  pub authorization : Option String

-- `path.rstrip("/")`
unfoldable pub without_slashes : String → String
without_slashes String.[] = String.[]
without_slashes (String.◌∷◌ c s) =
    let rest = without_slashes s in if eqb (code c) 47 && rest == "" then "" else String.◌∷◌ c rest

-- `s.split(",")[0]`
unfoldable pub before_comma : String → String
before_comma String.[] = String.[]
before_comma (String.◌∷◌ c s) =
    let rest = before_comma s in if eqb (code c) 44 then "" else String.◌∷◌ c rest

abbrev pub peer_or_unknown : Option String → String
peer_or_unknown none = "unknown"
peer_or_unknown (some address) = address

unfoldable pub client_key : List String → LimitedRequest → String
unfolding before_comma
client_key trusted_proxies request =
    let peer = peer_or_unknown request.peer in
    let forwarded = strip (header_or_empty request.forwarded_for) in
    if not (forwarded == "") && member peer trusted_proxies
    then strip (before_comma forwarded)
    else peer

-- The key with a digest of the credential, where the header has one.
unfoldable pub bucket_key : (String → String) → List String → LimitedRequest → String
unfolding client_key
bucket_key digest trusted_proxies request =
    let auth = header_or_empty request.authorization in
    let key = client_key trusted_proxies request in
    if starts_with "Bearer " auth then str_append key (str_append ":" (digest auth)) else key

unfoldable pub is_limited : LimitedRequest → Bool
unfolding without_slashes
is_limited request =
    member (without_slashes request.path) limited_paths && not (request.method == "GET")

-- The middleware: whether the request goes on, and the new limiter.
unfoldable pub limit_request :
    (String → String) → List String → ℕ → LimitedRequest → RateLimiter → RateLimiter × Bool
unfolding bucket_key is_limited
limit_request digest trusted_proxies now request limiter =
    if is_limited request
    then acquire (bucket_key digest trusted_proxies request) now limiter
    else (limiter, true)
