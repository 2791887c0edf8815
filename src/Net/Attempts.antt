-- ===== src/Net/Attempts.antt =====
-- How often, how far apart and for how long `retry_call` calls.
use intelligent_trading_syst.Base.{
  ℕ, ◌+◌, ◌*◌, ◌≤◌, ◌≡◌, refl, List, [], ◌∷◌, length, zero, suc, arith, Bool-cases, inl, inr, ◌⊎◌,
}
use intelligent_trading_syst.Net.Retry.{
  answers, raises, CallError, CallReply, Endpoint, RetryableLimiter, Session, slot, acquire_slot,
  wait_for, back_off, is_retryable_error, retry_from, retry_call, call_timeout, base_backoff,
  max_retries,
}

-- The environment is kind: no sleep lags more than `most`, no cancellation takes longer, and the
-- jitter is at most a tenth of the longest delay, 4 s.
pub record IsKind {G A : Type 0} (ops : Endpoint G A) (most : ℕ) : Type 0 where
  pub lags : (t : ℕ) → ops.lag t ≤ most
  pub overruns : (t : ℕ) → ops.overrun t ≤ most
  pub jitters : (t : ℕ) → ops.jitter t ≤ 400

-- The starts are at least the interval apart, the latest first.
abbrev pub Spaced : ℕ → List ℕ → Type 0
Spaced interval [] = Unit
Spaced interval (t ∷ []) = Unit
Spaced interval (t ∷ u ∷ ts) = (u + interval ≤ t) × Spaced interval (u ∷ ts)

-- The limiter remembers the latest start.
abbrev Remembers : ℕ → List ℕ → Type 0
Remembers last [] = Unit
Remembers last (t ∷ ts) = last ≡ t

-- The longest that the loop lasts with `left` attempts after this one.
abbrev pub longest : ℕ → ℕ → ℕ → ℕ → ℕ
longest interval most zero delay = interval + most + call_timeout + most
longest interval most (suc left) delay =
    interval
    + most
    + call_timeout
    + most
    + delay
    + 400
    + most
    + longest interval most left (delay * 2)

record Sound {G : Type 0} (interval : ℕ) (s : Session G) : Type 0 where
  keeps : s.limiter.min_interval ≡ interval
  past : s.limiter.last_request ≤ s.now
  spaced : Spaced interval s.starts
  remembers : Remembers s.limiter.last_request s.starts

start-Spaced :
    (interval last t : ℕ) (starts : List ℕ)
    → Spaced interval starts
    → Remembers last starts
    → last + interval ≤ t
    → Spaced interval (t ∷ starts)
start-Spaced interval last t [] h r k = tt
start-Spaced interval last t (u ∷ us) h r k = (omega (arith, r, k), h)

slot_after :
    (lag : ℕ → ℕ) (limiter : RetryableLimiter) (now : ℕ)
    → (limiter.last_request + limiter.min_interval ≤ slot lag limiter now)
      × (now ≤ slot lag limiter now)
unfolding slot
slot_after lag limiter now = ground arith

slot_before :
    (lag : ℕ → ℕ) (limiter : RetryableLimiter) (now most : ℕ)
    → ((t : ℕ) → lag t ≤ most)
    → limiter.last_request ≤ now
    → slot lag limiter now ≤ now + limiter.min_interval + most
unfolding slot
slot_before lag limiter now most h k = ground (arith, h now)

CallReply-cases :
    {A : Type 0} (r : CallReply A)
    → ((a : A) × (r ≡ answers a)) ⊎ ((e : CallError) × (r ≡ raises e))
CallReply-cases (answers a) = inl (a, refl)
CallReply-cases (raises e) = inr (e, refl)

module _ {G A : Type 0} (ops : Endpoint G A) (interval most : ℕ) (kind : IsKind ops most) where
  attempt : Session G → Session G × CallReply A
  attempt s = wait_for ops (acquire_slot ops.lag s)

  attempt-Sound : (s : Session G) → Sound interval s → Sound interval (attempt s).0
  unfolding attempt acquire_slot wait_for
  attempt-Sound s h = ground (
    arith,
    slot_after ops.lag s.limiter s.now,
    h.keeps,
    start-Spaced interval s.limiter.last_request (slot ops.lag s.limiter s.now) s.starts h.spaced
        h.remembers,
  )

  attempt_lem :
      (s : Session G)
      → Sound interval s
      → (length (attempt s).0.starts ≡ suc (length s.starts))
        × ((attempt s).0.now ≤ s.now + (interval + most + call_timeout + most))
  unfolding attempt acquire_slot wait_for
  attempt_lem s h = ground (
    arith,
    slot_before ops.lag s.limiter s.now most kind.lags h.past,
    h.keeps,
    kind.overruns (slot ops.lag s.limiter s.now),
  )

  back_off-Sound :
      (delay : ℕ) (s : Session G) → Sound interval s → Sound interval (back_off ops delay s)
  unfolding back_off
  back_off-Sound delay s h = record {
    keeps = h.keeps;
    past = omega (arith, h.past);
    spaced = h.spaced;
    remembers = h.remembers;
  }

  back_off_lem :
      (delay : ℕ) (s : Session G)
      → (length (back_off ops delay s).starts ≡ length s.starts)
        × ((back_off ops delay s).now ≤ s.now + (delay + 400 + most))
  unfolding back_off
  back_off_lem delay s = (refl, omega (arith, kind.lags s.now, kind.jitters s.now))

  -- What the loop adds to the session.
  abbrev Bounded : ℕ → ℕ → Session G → Session G → Type 0
  Bounded left delay s t =
      (length t.starts ≤ length s.starts + suc left)
      × Spaced interval t.starts
      × (t.now ≤ s.now + longest interval most left delay)

  retry_from-Bounded :
      (left delay : ℕ) (s : Session G)
      → Sound interval s
      → Bounded left delay s (retry_from ops left delay s).0
  unfolding retry_from attempt
  retry_from-Bounded zero delay s h =
      let here = attempt_lem s h in
      let sound = attempt-Sound s h in ground (arith, here, sound.spaced)
  retry_from-Bounded (suc left) delay s h =
      let here = attempt_lem s h in
      let sound = attempt-Sound s h in
      let next = back_off ops delay (attempt s).0 in
      let later =
        retry_from-Bounded left (delay * 2) next (back_off-Sound delay (attempt s).0 sound) in
      let waits = back_off_lem delay (attempt s).0 in
      elim (CallReply-cases (attempt s).1) [
        | inl (v, e) ↦ ground (arith, e, here, sound.spaced)
        | inr (error, e) ↦ elim (Bool-cases (is_retryable_error error)) [
          | inl r ↦ ground (arith, e, r, here, waits, later)
          | inr r ↦ ground (arith, e, r, here, sound.spaced)
        ]
      ]

-- `retry_call` ends, for a caller that has the limiter to itself: it starts at most four calls,
-- each at least the limiter's interval after the one before, and is over within four intervals and
-- timeouts, the delays of 1 s, 2 s and 4 s with their jitter, and the lags of seven sleeps and four
-- cancellations. None of these is longer than `most`, the jitter is at most a tenth of 4 s, and the
-- limiter's last request is in the past.
pub retry_call_ends :
    {G A : Type 0} (ops : Endpoint G A) (most : ℕ)
    → IsKind ops most
    → (s : Session G) → s.limiter.last_request ≤ s.now
    → let interval = s.limiter.min_interval in
      let after = (retry_call ops s).0 in
      (length after.starts ≤ 4)
      × Spaced interval after.starts
      × (after.now ≤ s.now + 4 * (interval + call_timeout) + 11 * most + 8200)
unfolding retry_call
retry_call_ends ops most kind s past =
    let bounded =
      retry_from-Bounded ops s.limiter.min_interval most kind max_retries base_backoff
        (record s { starts = [] })
        (record { keeps = refl; past = past; spaced = tt; remembers = tt }) in
    (bounded.0, bounded.1, omega (arith, bounded.2))
