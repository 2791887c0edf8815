-- ===== src/Net/Retry.antt =====
-- `RetryableLimiter` and `retry_call` (quantflow/common/netretry.py). Times are in milliseconds on
-- the monotonic clock. A sleep lasts as long as it was asked for and a lag, and a call that is
-- cancelled at the timeout ends some time after it. One caller has the limiter to itself: its lock
-- and the callers that wait for it, and push its slots back, are not modelled.
use intelligent_trading_syst.Base.{
  ℕ, ◌+◌, ◌*◌, Bool, true, false, ◌||◌, none, some, List, [], ◌∷◌, String, ltb, ℤ, if◌then◌else◌,
  zero, suc, div_ℤ,
}
use intelligent_trading_syst.Registry.Json.{Json, Conversions, is_null, one, to_float}
use intelligent_trading_syst.Registry.Store.{occurs}

abbrev pub max_retries : ℕ
max_retries = 3

abbrev pub base_backoff : ℕ
base_backoff = 1000

abbrev pub call_timeout : ℕ
call_timeout = 30000

-- The classes of exceptions that `is_retryable_error` tells apart: TimeoutError, ConnectionError
-- and OSError; ccxt's RateLimitExceeded, DDoSProtection and NetworkError; and the rest.
pub data ErrorClass : Type 0 where
  system_error exchange_error other_class : ErrorClass

pub record CallError : Type 0 where
  pub class : ErrorClass
  pub message : String

abbrev pub is_network_class : ErrorClass → Bool
is_network_class ErrorClass.other_class = false
is_network_class _ = true

unfoldable pub is_retryable_error : CallError → Bool
is_retryable_error e = occurs "50011" e.message || is_network_class e.class

-- What the call of the factory gives, and how long it takes.
pub data CallReply (A : Type 0) : Type 0 where
  answers : A → CallReply A
  raises : CallError → CallReply A

-- The endpoint and the clock, as the environment decides them: the reply of a call that starts at
-- a time, its duration, the time that its cancellation takes, the lag of a sleep that starts at a
-- time, and the jitter drawn then.
pub record Endpoint (G A : Type 0) : Type 0 where
  pub call : ℕ → G → G × CallReply A
  pub duration : ℕ → G → ℕ
  pub overrun : ℕ → ℕ
  pub lag : ℕ → ℕ
  pub jitter : ℕ → ℕ

pub record RetryableLimiter : Type 0 where
  pub min_interval : ℕ
  pub last_request : ℕ

-- A call in progress: the exchange, the limiter, the clock, and the starts so far, latest first.
pub record Session (G : Type 0) : Type 0 where
  pub exchange : G
  pub limiter : RetryableLimiter
  pub now : ℕ
  pub starts : List ℕ

-- The clock after `acquire`. The difference is 0 where the slot is free, and then nothing waits.
unfoldable pub slot : (ℕ → ℕ) → RetryableLimiter → ℕ → ℕ
slot lag limiter now =
    if ltb now (limiter.last_request + limiter.min_interval)
    then limiter.last_request + limiter.min_interval + lag now
    else now

-- `acquire`, which claims the slot.
unfoldable pub acquire_slot : {G : Type 0} → (ℕ → ℕ) → Session G → Session G
unfolding slot
acquire_slot lag s = record s {
  limiter = record {
    min_interval = s.limiter.min_interval;
    last_request = slot lag s.limiter s.now;
  };
  now = slot lag s.limiter s.now;
  starts = slot lag s.limiter s.now ∷ s.starts;
}

abbrev pub timeout_error : CallError
timeout_error = record { class = ErrorClass.system_error; message = "" }

-- `asyncio.wait_for(factory(), timeout=CALL_TIMEOUT)`
unfoldable pub wait_for : {G A : Type 0} → Endpoint G A → Session G → Session G × CallReply A
wait_for ops s =
    let took = ops.duration s.now s.exchange in
    let reply = ops.call s.now s.exchange in
    if ltb call_timeout took
    then (
      record s { exchange = reply.0; now = s.now + call_timeout + ops.overrun s.now },
      CallReply.raises timeout_error,
    )
    else (record s { exchange = reply.0; now = s.now + took }, reply.1)

-- `asyncio.sleep(delay + jitter)`
unfoldable pub back_off : {G A : Type 0} → Endpoint G A → ℕ → Session G → Session G
back_off ops delay s = record s { now = s.now + delay + ops.jitter s.now + ops.lag s.now }

-- The value, or the `DataError` of the call.
pub data Outcome (A : Type 0) : Type 0 where
  value : A → Outcome A
  data_error : CallError → Outcome A

-- The rest of the loop, with `left` attempts after this one.
unfoldable pub retry_from :
    {G A : Type 0} → Endpoint G A → ℕ → ℕ → Session G → Session G × Outcome A
unfolding acquire_slot wait_for back_off
retry_from ops zero delay s =
    let tried = wait_for ops (acquire_slot ops.lag s) in
    elim tried.1 [
      | answers v ↦ (tried.0, Outcome.value v)
      | raises e ↦ (tried.0, Outcome.data_error e)
    ]
retry_from ops (suc left) delay s =
    let tried = wait_for ops (acquire_slot ops.lag s) in
    elim tried.1 [
      | answers v ↦ (tried.0, Outcome.value v)
      | raises e ↦ elim (is_retryable_error e) [
        | false ↦ (tried.0, Outcome.data_error e)
        | true ↦ retry_from ops left (delay * 2) (back_off ops delay tried.0)
      ]
    ]

unfoldable pub retry_call : {G A : Type 0} → Endpoint G A → Session G → Session G × Outcome A
unfolding retry_from
retry_call ops s = retry_from ops max_retries base_backoff (record s { starts = [] })

-- `to_float` and `to_int`, which coerce a field of a reply and never raise.
unfoldable pub float_or : Conversions → ℤ → Json → ℤ
float_or c default v =
    if is_null v then default else elim (to_float c v) [ none ↦ default | some n ↦ n ]

unfoldable pub int_or : Conversions → ℤ → Json → ℤ
int_or c default v =
    if is_null v then default else elim (to_float c v) [ none ↦ default | some n ↦ div_ℤ n one ]
