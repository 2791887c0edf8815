-- ===== src/Monitoring/Urls.antt =====
-- The guard on outbound URLs (quantflow/common/url_safety.py), over `urlparse` and `ip_address` of
-- Python's library, which come as functions.
use intelligent_trading_syst.Base.{
  Bool, true, false, not, ◌||◌, Option, none, some, String, ◌==◌, if◌then◌else◌,
}
use intelligent_trading_syst.Registry.Json.{lower}

-- What the program reads of `urlparse(url)`; a missing scheme or host is empty.
pub record ParsedUrl : Type 0 where
  pub scheme : String
  pub hostname : String
  pub username : String
  pub password : String

-- What it reads of `ip_address(host)`.
pub record IpAddress : Type 0 where
  pub is_loopback : Bool
  pub is_private : Bool
  pub is_link_local : Bool
  pub is_multicast : Bool
  pub is_unspecified : Bool
  pub is_reserved : Bool

-- `none` is the ValueError of each.
pub record UrlLibrary : Type 0 where
  pub parse : String → Option ParsedUrl
  pub ip_address : String → Option IpAddress

unfoldable pub is_suffix : String → String → Bool
is_suffix ending String.[] = ending == ""
is_suffix ending (String.◌∷◌ c s) = String.◌∷◌ c s == ending || is_suffix ending s

abbrev pub is_loopback_name : String → Bool
is_loopback_name host =
    host == "localhost" || host == "localhost.localdomain" || is_suffix ".localhost" host

abbrev pub is_public : IpAddress → Bool
is_public ip = not (
    ip.is_loopback || ip.is_private || ip.is_link_local || ip.is_multicast || ip.is_unspecified
    || ip.is_reserved)

abbrev pub is_scheme_allowed : Bool → String → Bool
is_scheme_allowed true scheme = scheme == "https"
is_scheme_allowed false scheme = scheme == "http" || scheme == "https"

abbrev pub is_host_allowed : UrlLibrary → String → Bool
is_host_allowed lib host = elim (lib.ip_address host) [ none ↦ true | some ip ↦ is_public ip ]

-- `validate_outbound_url`, as whether it returns.
unfoldable pub validate_outbound_url : UrlLibrary → Bool → String → Bool
unfolding is_suffix
validate_outbound_url lib require_https url = if url == "" then false else elim (lib.parse url) [
  | none ↦ false
  | some parsed ↦
      let host = lower parsed.hostname in
      if not (is_scheme_allowed require_https (lower parsed.scheme))
      then false
      else if host == ""
      then false
      else if not (parsed.username == "") || not (parsed.password == "")
      then false
      else if is_loopback_name host
      then false
      else is_host_allowed lib host
]
