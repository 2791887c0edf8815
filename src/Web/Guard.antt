-- ===== src/Web/Guard.antt =====
-- The guard of the trading controls (quantflow/web/security.py). `urlparse(origin).netloc` and
-- `ip_address(host).is_loopback` of Python's library come as functions; the constant-time
-- comparison of the token is an equality of ASCII texts.
use intelligent_trading_syst.Base.{
  ℕ, Bool, true, false, not, ◌&&◌, ◌||◌, Option, none, some, List, [], ◌∷◌, String, ◌==◌, Dict,
  insert, contains, member, strip, str_append, eqb, suc, if◌then◌else◌,
}
use Prim.Native.Char.{code}
use intelligent_trading_syst.Registry.Store.{starts_with, occurs}

pub record HostLibrary : Type 0 where
  pub netloc : String → Option String
  pub is_loopback : String → Option Bool

-- What the guard reads of a request; a missing header is `none`.
pub record Request : Type 0 where
  pub method : String
  pub authorization : Option String
  pub origin : Option String
  pub host : Option String

abbrev pub mutation_methods : List String
mutation_methods = "POST" ∷ "PUT" ∷ "PATCH" ∷ "DELETE" ∷ []

abbrev pub header_or_empty : Option String → String
header_or_empty none = ""
header_or_empty (some value) = value

-- `_station_token`, of the value of the environment variable.
unfoldable pub station_token : Option String → Option String
station_token value =
    let token = strip (header_or_empty value) in if token == "" then none else some token

-- `s.rsplit(needle, 1)[0]`, for a needle of one or two characters.
unfoldable pub before_last : String → String → String
before_last needle String.[] = String.[]
before_last needle (String.◌∷◌ c s) =
    let rest = before_last needle s in
    if starts_with needle (String.◌∷◌ c s) && not (occurs needle s) then "" else String.◌∷◌ c rest

abbrev pub is_bracket : ℕ → Bool
is_bracket n = eqb n 91 || eqb n 93

-- `s.strip("[]")`
unfoldable pub drop_brackets : String → String
drop_brackets String.[] = String.[]
drop_brackets (String.◌∷◌ c s) =
    let rest = drop_brackets s in if is_bracket (code c) then rest else String.◌∷◌ c s

unfoldable pub drop_brackets_right : String → String
drop_brackets_right String.[] = String.[]
drop_brackets_right (String.◌∷◌ c s) =
    let rest = drop_brackets_right s in
    if is_bracket (code c) && rest == "" then "" else String.◌∷◌ c rest

-- `s.count(":")`
unfoldable pub colons : String → ℕ
colons String.[] = 0
colons (String.◌∷◌ c s) = let rest = colons s in if eqb (code c) 58 then suc rest else rest

-- The host without its brackets and its port.
unfoldable pub cleaned_host : String → String
unfolding before_last drop_brackets drop_brackets_right colons
cleaned_host host =
    let stripped = strip host in
    let address =
      if starts_with "[" stripped && occurs "]:" stripped
      then before_last "]:" stripped
      else stripped in
    let bare = drop_brackets_right (drop_brackets address) in
    if eqb (colons bare) 1 then before_last ":" bare else bare

unfoldable pub is_loopback_host : HostLibrary → String → Bool
unfolding cleaned_host
is_loopback_host lib host =
    let cleaned = cleaned_host host in
    if host == ""
    then false
    else if cleaned == "localhost"
    then true
    else if cleaned == "0.0.0.0" || cleaned == "::"
    then false
    else elim (lib.is_loopback cleaned) [ none ↦ false | some loopback ↦ loopback ]

-- What the guard answers: it calls the handler, or 401, or one of the two 403.
pub data GuardAnswer : Type 0 where
  handled unauthorized cross_origin origin_required : GuardAnswer

-- `auth and hmac.compare_digest(auth, f"Bearer {token}")`, where a token is set.
abbrev pub is_authorized : Option String → Request → Bool
is_authorized none request = true
is_authorized (some token) request =
    let auth = header_or_empty request.authorization in
    not (auth == "") && auth == str_append "Bearer " token

abbrev pub is_same_origin : HostLibrary → String → Request → Bool
is_same_origin lib origin request =
    let host = header_or_empty request.host in
    elim (lib.netloc origin) [
      | none ↦ false
      | some netloc ↦ not (netloc == "") && not (host == "") && netloc == host
    ]

abbrev pub is_set : Option String → Bool
is_set none = false
is_set (some token) = true

-- The test of the origin, and of the host where there is neither an origin nor a token.
unfoldable pub check_origin : HostLibrary → Option String → Request → GuardAnswer
check_origin lib token request =
    let origin = header_or_empty request.origin in
    if not (origin == "")
    then if is_same_origin lib origin request then GuardAnswer.handled else GuardAnswer.cross_origin
    else if is_set token
    then GuardAnswer.handled
    else if is_loopback_host lib (header_or_empty request.host)
    then GuardAnswer.handled
    else GuardAnswer.origin_required

unfoldable pub same_origin_guard : HostLibrary → Option String → Request → GuardAnswer
unfolding check_origin station_token
same_origin_guard lib variable request =
    let token = station_token variable in
    if not (member request.method mutation_methods)
    then GuardAnswer.handled
    else if not (is_authorized token request)
    then GuardAnswer.unauthorized
    else check_origin lib token request

-- `resp.headers.setdefault(key, value)` for each header.
unfoldable pub set_defaults : List (String × String) → Dict String → Dict String
set_defaults [] headers = headers
set_defaults ((key, value) ∷ more) headers =
    set_defaults more (if contains key headers then headers else insert key value headers)

abbrev pub security_headers : List (String × String)
security_headers =
    ("X-Content-Type-Options", "nosniff")
    ∷ ("X-Frame-Options", "DENY")
    ∷ (
      "Content-Security-Policy",
      "default-src 'self'; script-src 'self'; style-src 'self'; object-src 'none'; img-src 'self' data:; connect-src 'self'; frame-ancestors 'none'; base-uri 'self'; form-action 'self'",
    )
    ∷ ("Permissions-Policy", "geolocation=(), microphone=(), camera=()")
    ∷ ("Referrer-Policy", "no-referrer")
    ∷ []

unfoldable pub security_headers_guard : Dict String → Dict String
unfolding set_defaults
security_headers_guard headers = set_defaults security_headers headers
