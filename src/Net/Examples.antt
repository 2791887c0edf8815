-- ===== src/Net/Examples.antt =====
-- An endpoint that fails twice and then answers, and an instance of the theorem.
use intelligent_trading_syst.Base.{ℕ, ◌+◌, ◌*◌, ◌≤◌, ◌≡◌, refl, [], ◌∷◌, length, zero, suc, arith}
use intelligent_trading_syst.Registry.Store.{occurs, starts_with}
use intelligent_trading_syst.Net.Retry.{
  CallReply, ErrorClass, Endpoint, Session, Outcome, slot, acquire_slot, wait_for, back_off,
  is_retryable_error, retry_from, retry_call, call_timeout,
}
use intelligent_trading_syst.Net.Attempts.{IsKind, Spaced, retry_call_ends}

-- The exchange counts the failures that are left.
abbrev reply : ℕ → ℕ × CallReply ℕ
reply zero = (0, CallReply.answers 7)
reply (suc n) =
    (n, CallReply.raises (record { class = ErrorClass.other_class; message = "code 50011" }))

abbrev endpoint : Endpoint ℕ ℕ
endpoint = record {
  call = λ now failures. reply failures;
  duration = λ now failures. 50;
  overrun = λ now. 1;
  lag = λ now. 1;
  jitter = λ now. 100;
}

abbrev session : Session ℕ
session = record {
  exchange = 2;
  limiter = record { min_interval = 200; last_request = 900 };
  now = 1000;
  starts = [];
}

-- The third call answers: it starts 1 s and 2 s of delay after the first two.
retry_run :
    ((retry_call endpoint session).1 ≡ Outcome.value 7)
    × ((retry_call endpoint session).0.starts ≡ 4403 ∷ 2252 ∷ 1101 ∷ [])
unfolding retry_call retry_from acquire_slot slot wait_for back_off is_retryable_error occurs
    starts_with
retry_run = (refl, refl)

abbrev kind : IsKind endpoint 1
kind = record { lags = λ t. omega arith; overruns = λ t. omega arith; jitters = λ t. omega arith }

retry_call_ends_example :
    let after = (retry_call endpoint session).0 in
    (length after.starts ≤ 4)
    × Spaced 200 after.starts
    × (after.now ≤ 1000 + 4 * (200 + call_timeout) + 11 * 1 + 8200)
retry_call_ends_example = retry_call_ends endpoint 1 kind session (omega arith)
