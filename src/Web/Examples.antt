-- ===== src/Web/Examples.antt =====
-- Rate limiter and guard: test data, runs of the definitions and instances of the theorems.
use intelligent_trading_syst.Base.{
  ◌+◌, ◌-◌, ◌*◌, ◌≤◌, ◌≡◌, refl, [], ◌∷◌, lookup, insert, arith, true, none, some, ◌==◌, member,
  strip, strip_left, strip_right, is_space, if◌then◌else◌,
}
use intelligent_trading_syst.Registry.Store.{starts_with, occurs}
use intelligent_trading_syst.Web.Guard.{
  HostLibrary, Request, GuardAnswer, station_token, before_last, drop_brackets, drop_brackets_right,
  colons, cleaned_host, is_loopback_host, check_origin, same_origin_guard,
}
use intelligent_trading_syst.Web.Origins.{IsTrusted, same_origin_guard-IsTrusted}
use intelligent_trading_syst.Web.Limits.{
  LimitedRequest, is_limited, without_slashes, bucket_key, client_key, before_comma,
}
use intelligent_trading_syst.Web.Bucket.{RateLimiter, acquire, retry_after, evict, refilled}
use intelligent_trading_syst.Web.Rate.{Calls, run, granted, granted-bounded}

-- A burst of two tokens and a refill of two a second.
abbrev limiter : RateLimiter
limiter = record { capacity = 2000000; refill_per_sec = 2000; buckets = [] }

abbrev calls : Calls
calls = ("a", 100) ∷ ("a", 101) ∷ ("b", 102) ∷ ("a", 103) ∷ ("a", 700) ∷ []

grants : granted "a" calls limiter ≡ 3
unfolding granted acquire evict lookup insert refilled
grants = refl

waits : retry_after "a" (run (("a", 100) ∷ ("a", 101) ∷ ("a", 103) ∷ []) limiter) ≡ 497
unfolding retry_after run acquire evict lookup insert refilled
waits = refl

-- After the burst is spent, the second run of the calls gets what the pause refills.
granted-bounded_example :
    granted "a" (("a", 800) ∷ ("a", 900) ∷ []) (run calls limiter) * 1000000
    ≤ 2000000 + 2000 * (1000 - 700)
granted-bounded_example =
    granted-bounded "a" calls (("a", 800) ∷ ("a", 900) ∷ []) 100 700 1000 limiter refl (omega arith)
      (omega arith, (omega arith, (omega arith, (omega arith, (omega arith, omega arith)))))
      (omega arith, (omega arith, omega arith))

-- A library that reads the host after the scheme of one origin, and knows 127.0.0.1.
abbrev hosts : HostLibrary
hosts = record {
  netloc = λ origin.
      some (if origin == "http://127.0.0.1:8099" then "127.0.0.1:8099" else "evil.example");
  is_loopback = λ host. if host == "127.0.0.1" then some true else none;
}

abbrev stop : Request
stop = record {
  method = "POST";
  authorization = some "Bearer secret";
  origin = none;
  host = some "127.0.0.1:8099";
}

-- A loopback client may stop trading; a page of another site may not, with the token either.
guard_run :
    (same_origin_guard hosts none stop ≡ GuardAnswer.handled)
    × (same_origin_guard hosts
          (some " secret ")
          (record stop { origin = some "http://evil.example" })
        ≡ GuardAnswer.cross_origin)
    × (same_origin_guard hosts none (record stop { host = some "10.0.0.5:8099" })
        ≡ GuardAnswer.origin_required)
unfolding same_origin_guard station_token check_origin is_loopback_host cleaned_host before_last
    drop_brackets drop_brackets_right colons strip strip_left strip_right is_space starts_with
    occurs member
guard_run = (refl, refl, refl)

same_origin_guard-IsTrusted_example : IsTrusted hosts none stop
unfolding same_origin_guard station_token check_origin is_loopback_host cleaned_host before_last
    drop_brackets drop_brackets_right colons strip strip_left strip_right is_space starts_with
    occurs member
same_origin_guard-IsTrusted_example = same_origin_guard-IsTrusted hosts none stop refl refl

abbrev kill : LimitedRequest
kill = record {
  path = "/api/session/kill-switch/";
  method = "POST";
  peer = some "10.0.0.5";
  forwarded_for = some "1.2.3.4";
  authorization = none;
}

-- The trailing slash does not slip past the limiter, and a header from an unknown peer is not read.
key_run :
    (is_limited kill ≡ true)
    × (bucket_key (λ auth. auth) [] kill ≡ "10.0.0.5")
    × (bucket_key (λ auth. auth) ("10.0.0.5" ∷ []) kill ≡ "1.2.3.4")
unfolding is_limited without_slashes bucket_key client_key before_comma strip strip_left strip_right
    is_space starts_with member
key_run = (refl, refl, refl)

-- One peer has a bucket of its own for each bearer text that it makes up.
rotated_run :
    bucket_key (λ auth. auth) [] (record kill { authorization = some "Bearer a" })
    ≡ "10.0.0.5:Bearer a"
unfolding bucket_key client_key before_comma strip strip_left strip_right is_space starts_with
    member
rotated_run = refl
