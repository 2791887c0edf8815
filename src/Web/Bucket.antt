-- ===== src/Web/Bucket.antt =====
-- The token bucket of quantflow/web/rate_limit.py.
-- Tokens and the capacity are in millionths of a token, the rate is in thousandths of a token to a
-- second, and clock readings, which come as arguments, are in milliseconds, so that a refill is a
-- whole number. `time.monotonic` does not run backwards, so an elapsed time is
-- a natural number. The lock makes `acquire` one step.
use intelligent_trading_syst.Base.{
  ℕ, ◌+◌, ◌-◌, ◌*◌, ◌/◌, Bool, true, false, Option, none, some, [], ◌∷◌, String, Dict, lookup,
  insert, size, leb, ltb, if◌then◌else◌,
}

pub record Bucket : Type 0 where
  pub tokens : ℕ
  pub last_refill : ℕ

pub record RateLimiter : Type 0 where
  pub capacity : ℕ
  pub refill_per_sec : ℕ
  pub buckets : Dict Bucket

abbrev pub one_token : ℕ
one_token = 1000000

-- An hour, after which the bucket of a key that is not seen may be dropped.
abbrev pub stale_after : ℕ
stale_after = 3600000

-- `b.last_refill < now - 3600.0`
abbrev pub is_dead : ℕ → Bucket → Bool
is_dead now b = ltb (b.last_refill + stale_after) now

unfoldable pub drop_dead : ℕ → Dict Bucket → Dict Bucket
drop_dead now [] = []
drop_dead now ((key, b) ∷ buckets) =
    let rest = drop_dead now buckets in if is_dead now b then rest else (key, b) ∷ rest

-- The lazy eviction, for more than 64 buckets.
unfoldable pub evict : ℕ → Dict Bucket → Dict Bucket
unfolding drop_dead
evict now buckets = if ltb 64 (size buckets) then drop_dead now buckets else buckets

-- `min(capacity, tokens + elapsed * refill_per_sec)`
unfoldable pub refilled : ℕ → RateLimiter → Bucket → ℕ
refilled now l b =
    let tokens = b.tokens + l.refill_per_sec * (now - b.last_refill) in
    if leb l.capacity tokens then l.capacity else tokens

-- What is in the bucket of a key when the call looks at it.
unfoldable pub available : ℕ → RateLimiter → Option Bucket → ℕ
unfolding refilled
available now l none = l.capacity
available now l (some b) = refilled now l b

-- The take of one token, if there is one.
unfoldable pub take_token : ℕ → Bool × ℕ
take_token tokens = if leb one_token tokens then (true, tokens - one_token) else (false, tokens)

unfoldable pub acquire : String → ℕ → RateLimiter → RateLimiter × Bool
unfolding evict available take_token
acquire key now l =
    let kept = evict now l.buckets in
    let taken = take_token (available now l (lookup key kept)) in
    (
      record l { buckets = insert key (record { tokens = taken.1; last_refill = now }) kept },
      taken.0,
    )

-- Milliseconds until the next token, rounded down; a second where nothing refills.
unfoldable pub retry_after : String → RateLimiter → ℕ
retry_after key l = elim (lookup key l.buckets) [
  | none ↦ 0
  | some b ↦
      if leb one_token b.tokens
      then 0
      else if leb l.refill_per_sec 0
      then 1000
      else (one_token - b.tokens) / l.refill_per_sec
]
