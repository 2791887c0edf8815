-- ===== src/Web/Origins.antt =====
-- What a mutation must show to reach the trading controls.
use intelligent_trading_syst.Base.{
  ◌≡◌, Bool, true, false, not, ◌&&◌, ◌||◌, Option, String, ◌==◌, member, arith, ◌≢◌, ◌⊎◌, inl, inr,
  sym, ap, ◌∙◌, none, some, Option-cases, eq_iff, eq_refl, refl, if◌then◌else◌, str_append,
}
use intelligent_trading_syst.Web.Guard.{
  HostLibrary, Request, GuardAnswer, mutation_methods, header_or_empty, station_token,
  is_authorized, is_same_origin, is_set, is_loopback_host, cleaned_host, check_origin,
  same_origin_guard,
}

-- The request comes from the site itself, or carries no origin and either a token guards the
-- station or the host is a loopback one.
abbrev is_trusted_origin : HostLibrary → Option String → Request → Bool
is_trusted_origin lib token request =
    let origin = header_or_empty request.origin in
    not (origin == "") && is_same_origin lib origin request
    || origin == "" && (is_set token || is_loopback_host lib (header_or_empty request.host))

abbrev pub is_handled : GuardAnswer → Bool
is_handled GuardAnswer.handled = true
is_handled _ = false

check_origin-is_handled :
    (lib : HostLibrary) (token : Option String) (request : Request)
    → is_handled (check_origin lib token request) ≡ is_trusted_origin lib token request
unfolding check_origin
check_origin-is_handled lib token request = ground arith

same_origin_guard-exact :
    (lib : HostLibrary) (variable : Option String) (request : Request)
    → let token = station_token variable in
      is_handled (same_origin_guard lib variable request) ≡ (
        not (member request.method mutation_methods)
        || is_authorized token request && is_trusted_origin lib token request)
unfolding same_origin_guard
same_origin_guard-exact lib variable request =
    ground (arith, check_origin-is_handled lib (station_token variable) request)

-- What a mutation shows that reaches its handler, of its headers and of what Python's library
-- reads in them: the token, if the station has one; a host that is the one in the origin, if there
-- is an origin; a loopback host, if there is neither an origin nor a token.
pub record IsTrusted (lib : HostLibrary) (variable : Option String) (request : Request)
    : Type 0 where
  pub token :
      (secret : String)
      → station_token variable ≡ some secret
      → request.authorization ≡ some (str_append "Bearer " secret)
  pub origin :
      (from : String)
      → request.origin ≡ some from
      → from ≢ ""
      → (host : String) × (request.host ≡ some host) × (lib.netloc from ≡ some host) × (host ≢ "")
  pub local :
      (header_or_empty request.origin ≡ "")
      → station_token variable ≡ none
      → (cleaned_host (header_or_empty request.host) ≡ "localhost")
        ⊎ (lib.is_loopback (cleaned_host (header_or_empty request.host)) ≡ some true)

eq-true : (a b : String) → (a == b) ≡ true → a ≡ b
eq-true a b h = grind (arith, h, eq_iff a b)

authorized-header :
    (secret : String) (auth : Option String)
    → (not (header_or_empty auth == "") && header_or_empty auth == str_append "Bearer " secret)
      ≡ true
    → auth ≡ some (str_append "Bearer " secret)
authorized-header secret none shown = ground (arith, shown, eq_refl "")
authorized-header secret (some auth) shown =
    ap some (eq-true auth (str_append "Bearer " secret) (ground (arith, shown)))

same-host :
    (lib : HostLibrary) (from : String) (request : Request)
    → is_same_origin lib from request ≡ true
    → (host : String) × (request.host ≡ some host) × (lib.netloc from ≡ some host) × (host ≢ "")
same-host lib from request same = elim (Option-cases request.host) [
  | inl missing ↦ ground (arith, missing, same)
  | inr (host, found) ↦ elim (Option-cases (lib.netloc from)) [
    | inl unread ↦ ground (arith, unread, same)
    | inr (netloc, read) ↦ (
      host,
      found,
      grind (arith, read, found, same, eq_iff netloc host),
      grind (arith, read, found, same, eq_iff host ""),
    )
  ]
]

local-cases :
    (host cleaned : String) (answer : Option Bool)
    → (if host == ""
        then false
        else if cleaned == "localhost"
        then true
        else if cleaned == "0.0.0.0" || cleaned == "::"
        then false
        else elim answer [ none ↦ false | some loopback ↦ loopback ])
      ≡ true
    → (cleaned ≡ "localhost") ⊎ (answer ≡ some true)
local-cases host cleaned none loopback =
    inl (eq-true cleaned "localhost" (ground (arith, loopback)))
local-cases host cleaned (some false) loopback =
    inl (eq-true cleaned "localhost" (ground (arith, loopback)))
local-cases host cleaned (some true) loopback = inr refl

loopback-local :
    (lib : HostLibrary) (host : String)
    → is_loopback_host lib host ≡ true
    → (cleaned_host host ≡ "localhost") ⊎ (lib.is_loopback (cleaned_host host) ≡ some true)
unfolding is_loopback_host
loopback-local lib host loopback =
    local-cases host (cleaned_host host) (lib.is_loopback (cleaned_host host)) loopback

-- A mutation that reaches its handler is trusted: it shows the station's token as its bearer text,
-- if there is one; if it has an origin, the host that Python's library reads there is its own; and
-- without an origin and a token its host is "localhost" or a loopback address.
pub same_origin_guard-IsTrusted :
    (lib : HostLibrary) (variable : Option String) (request : Request)
    → member request.method mutation_methods ≡ true
    → same_origin_guard lib variable request ≡ GuardAnswer.handled
    → IsTrusted lib variable request
same_origin_guard-IsTrusted lib variable request mutation reached =
    let ok = sym (same_origin_guard-exact lib variable request) ∙ ap is_handled reached in
    record {
      token = λ secret held.
          authorized-header secret request.authorization (ground (arith, ok, mutation, held));
      origin = λ from given sized.
          same-host lib from request (grind (arith, ok, mutation, given, sized, eq_iff from ""));
      local = λ absent free.
          loopback-local lib (header_or_empty request.host)
            (grind (arith, ok, mutation, absent, free, eq_iff (header_or_empty request.origin) ""));
    }
