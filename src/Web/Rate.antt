-- ===== src/Web/Rate.antt =====
-- What a client can get out of the rate limiter in a stretch of time.
use intelligent_trading_syst.Base.{
  ℕ, ◌+◌, ◌-◌, ◌*◌, ◌≤◌, ◌≡◌, refl, Option, none, some, List, [], ◌∷◌, String, ◌==◌, Dict, lookup,
  Distinct, arith, lookup-insert, insert-Distinct, eq_iff, Option-cases, inl, inr, if◌then◌else◌,
  ap, ◌∙◌,
}
use intelligent_trading_syst.Web.Bucket.{
  Bucket, RateLimiter, one_token, stale_after, is_dead, drop_dead, evict, refilled, available,
  take_token, acquire,
}

-- Calls of `acquire`, with their keys and readings.
abbrev pub Calls : Type 0
Calls = List (String × ℕ)

unfoldable pub run : Calls → RateLimiter → RateLimiter
run [] l = l
run ((key, now) ∷ calls) l = run calls (acquire key now l).0

-- The tokens that the calls grant to one key.
unfoldable pub granted : String → Calls → RateLimiter → ℕ
granted k [] l = 0
granted k ((key, now) ∷ calls) l =
    let rest = granted k calls (acquire key now l).0 in
    if key == k then (if (acquire key now l).1 then rest + 1 else rest) else rest

-- The readings do not run backwards, from `from` to `until`.
abbrev pub IsClockBetween : ℕ → ℕ → Calls → Type 0
IsClockBetween from until [] = from ≤ until
IsClockBetween from until ((key, now) ∷ calls) = (from ≤ now) × IsClockBetween now until calls

-- No bucket was filled after the reading.
abbrev pub IsPast : ℕ → Dict Bucket → Type 0
IsPast now buckets = (k : String) (b : Bucket) → lookup k buckets ≡ some b → b.last_refill ≤ now

mul_gap : (r a b c : ℕ) → a ≤ b → b ≤ c → r * (c - a) ≡ r * (b - a) + r * (c - b)
mul_gap r a b c h k =
    let gap : c - a ≡ (b - a) + (c - b) = omega arith in omega (arith, ap (λ (x : ℕ). r * x) gap)

later-available :
    (from now : ℕ) (l : RateLimiter) (o : Option Bucket)
    → from ≤ now
    → ((b : Bucket) → o ≡ some b → b.last_refill ≤ from)
    → available now l o ≤ available from l o + l.refill_per_sec * (now - from)
unfolding available refilled
later-available from now l none h past = omega arith
later-available from now l (some b) h past =
    ground (arith, mul_gap l.refill_per_sec b.last_refill from now (past b refl) h)

available-capacity :
    (now : ℕ) (l : RateLimiter) (o : Option Bucket) → available now l o ≤ l.capacity
unfolding available refilled
available-capacity now l none = omega arith
available-capacity now l (some b) = ground arith

mul_mono : (r a b : ℕ) → a ≤ b → r * a ≤ r * b
mul_mono r a b h =
    let split : a + (b - a) ≡ b = omega arith in omega (arith, ap (λ (x : ℕ). r * x) split)

lookup-drop_dead :
    (now : ℕ) (k : String) (d : Dict Bucket)
    → Distinct d
    → lookup k (drop_dead now d)
      ≡ elim (lookup k d) [ none ↦ none | some b ↦ if is_dead now b then none else some b ]
unfolding drop_dead lookup
lookup-drop_dead now k [] distinct = refl
lookup-drop_dead now k ((j, b) ∷ d) distinct = grind (arith, eq_iff j k, lookup-drop_dead now k d)

drop_dead-Distinct : (now : ℕ) (d : Dict Bucket) → Distinct d → Distinct (drop_dead now d)
unfolding drop_dead
drop_dead-Distinct now [] distinct = tt
drop_dead-Distinct now ((j, b) ∷ d) distinct =
    grind (arith, lookup-drop_dead now j d, drop_dead-Distinct now d)

evict-Distinct : (now : ℕ) (d : Dict Bucket) → Distinct d → Distinct (evict now d)
unfolding evict
evict-Distinct now d distinct = ground (arith, drop_dead-Distinct now d distinct)

-- An eviction gives nobody more: an hour refills a bucket to its capacity.
evict-available :
    (now : ℕ) (k : String) (l : RateLimiter)
    → l.capacity ≤ l.refill_per_sec * stale_after
    → Distinct l.buckets
    → available now l (lookup k (evict now l.buckets)) ≤ available now l (lookup k l.buckets)
unfolding evict available refilled
evict-available now k l full distinct = elim (Option-cases (lookup k l.buckets)) [
  | inl absent ↦ ground (arith, absent, lookup-drop_dead now k l.buckets distinct)
  | inr (b, found) ↦ ground (
    arith,
    found,
    full,
    lookup-drop_dead now k l.buckets distinct,
    mul_mono l.refill_per_sec stale_after (now - b.last_refill),
  )
]

-- The token that a call grants to a key.
abbrev grant : String → String → ℕ → RateLimiter → ℕ
grant k key now l = if key == k then (if (acquire key now l).1 then one_token else 0) else 0

acquire-available :
    (k key : String) (now : ℕ) (l : RateLimiter)
    → available now l (lookup k (acquire key now l).0.buckets) + grant k key now l
      ≤ available now l (lookup k (evict now l.buckets))
unfolding acquire take_token refilled available
acquire-available k key now l = ground (
  arith,
  eq_iff key k,
  lookup-insert key k
      (record {
        tokens = (take_token (available now l (lookup key (evict now l.buckets)))).1;
        last_refill = now;
      })
      (evict now l.buckets),
  available-capacity now l (lookup key (evict now l.buckets)),
)

evict-IsPast :
    (from now : ℕ) (d : Dict Bucket)
    → from ≤ now
    → Distinct d
    → IsPast from d
    → IsPast now (evict now d)
unfolding evict
evict-IsPast from now d h distinct past =
    λ k b found. grind (arith, lookup-drop_dead now k d, past k b)

acquire-IsPast :
    (from now : ℕ) (key : String) (l : RateLimiter)
    → from ≤ now
    → Distinct l.buckets
    → IsPast from l.buckets
    → IsPast now (acquire key now l).0.buckets
unfolding acquire
acquire-IsPast from now key l h distinct past =
    λ k b found. grind (arith, lookup-insert, evict-IsPast from now l.buckets h distinct past k b)

acquire-Distinct :
    (now : ℕ) (key : String) (l : RateLimiter)
    → Distinct l.buckets
    → Distinct (acquire key now l).0.buckets
unfolding acquire
acquire-Distinct now key l distinct =
    insert-Distinct key _ (evict now l.buckets) (evict-Distinct now l.buckets distinct)

acquire-full :
    (key : String) (now : ℕ) (l : RateLimiter)
    → l.capacity ≤ l.refill_per_sec * stale_after
    → (acquire key now l).0.capacity ≤ (acquire key now l).0.refill_per_sec * stale_after
unfolding acquire
acquire-full key now l full = full

-- The call leaves the configuration, so the bound reads the same after it.
acquire-bound :
    (key : String) (now time until : ℕ) (l : RateLimiter) (o : Option Bucket)
    → available time (acquire key now l).0 o + (acquire key now l).0.refill_per_sec * until
      ≡ available time l o + l.refill_per_sec * until
unfolding acquire available refilled
acquire-bound key now time until l none = refl
acquire-bound key now time until l (some b) = refl

clock-le : (from until : ℕ) (calls : Calls) → IsClockBetween from until calls → from ≤ until
clock-le from until [] clock = clock
clock-le from until ((key, now) ∷ calls) clock =
    omega (arith, clock.0, clock-le now until calls clock.1)

granted-cons :
    (k key : String) (now : ℕ) (calls : Calls) (l : RateLimiter)
    → granted k ((key, now) ∷ calls) l * one_token
      ≡ granted k calls (acquire key now l).0 * one_token + grant k key now l
unfolding granted
granted-cons k key now calls l = ground arith

granted-available :
    (k : String) (calls : Calls) (from until : ℕ) (l : RateLimiter)
    → l.capacity ≤ l.refill_per_sec * stale_after
    → Distinct l.buckets
    → IsPast from l.buckets
    → IsClockBetween from until calls
    → granted k calls l * one_token
      ≤ available from l (lookup k l.buckets) + l.refill_per_sec * (until - from)
unfolding granted
granted-available k [] from until l full distinct past clock = omega arith
granted-available k ((key, now) ∷ calls) from until l full distinct past clock =
    let next = (acquire key now l).0 in
    omega (
      arith,
      granted-cons k key now calls l,
      granted-available k calls now until next (acquire-full key now l full)
          (acquire-Distinct now key l distinct)
          (acquire-IsPast from now key l clock.0 distinct past) clock.1,
      acquire-bound key now now (until - now) l (lookup k next.buckets),
      acquire-available k key now l,
      evict-available now k l full distinct,
      later-available from now l (lookup k l.buckets) clock.0 (past k),
      mul_gap l.refill_per_sec from now until clock.0 (clock-le now until calls clock.1),
    )

-- What the calls before a stretch keep: the configuration, and buckets that are past.
record IsReady (until : ℕ) (l l' : RateLimiter) : Type 0 where
  capacity : l'.capacity ≡ l.capacity
  rate : l'.refill_per_sec ≡ l.refill_per_sec
  distinct : Distinct l'.buckets
  past : IsPast until l'.buckets

acquire-configured :
    (key : String) (now : ℕ) (l : RateLimiter)
    → ((acquire key now l).0.capacity ≡ l.capacity)
      × ((acquire key now l).0.refill_per_sec ≡ l.refill_per_sec)
unfolding acquire
acquire-configured key now l = (refl, refl)

run-IsReady :
    (calls : Calls) (from until : ℕ) (l : RateLimiter)
    → Distinct l.buckets
    → IsPast from l.buckets
    → IsClockBetween from until calls
    → IsReady until l (run calls l)
unfolding run
run-IsReady [] from until l distinct past clock = record {
  capacity = refl;
  rate = refl;
  distinct = distinct;
  past = λ k b found. omega (arith, past k b found);
}
run-IsReady ((key, now) ∷ calls) from until l distinct past clock =
    let next = (acquire key now l).0 in
    let ready =
      run-IsReady calls now until next (acquire-Distinct now key l distinct)
        (acquire-IsPast from now key l clock.0 distinct past) clock.1 in
    record {
      capacity = ready.capacity ∙ (acquire-configured key now l).0;
      rate = ready.rate ∙ (acquire-configured key now l).1;
      distinct = ready.distinct;
      past = ready.past;
    }

-- In any stretch of time a bucket key gets no more than the burst and the refill: after any calls
-- `before` on a limiter without buckets, the tokens that later calls grant to the key between the
-- readings `from` and `until` are at most the capacity and what the rate refills in between. The
-- clock does not run backwards, and an hour refills a whole bucket, so that the eviction of idle
-- buckets gives nothing away.
pub granted-bounded :
    (k : String) (before calls : Calls) (start from until : ℕ) (l : RateLimiter)
    → l.buckets ≡ []
    → l.capacity ≤ l.refill_per_sec * stale_after
    → IsClockBetween start from before
    → IsClockBetween from until calls
    → granted k calls (run before l) * one_token ≤ l.capacity + l.refill_per_sec * (until - from)
unfolding lookup
granted-bounded k before calls start from until l empty full earlier clock =
    let reached = run before l in
    let ready =
      run-IsReady before start from l (rw empty tt) (λ j b found. ground (arith, empty, found))
        earlier in
    let bound =
      granted-available k calls from until reached (rw (ready.capacity, ready.rate) full)
        ready.distinct ready.past clock in
    omega (
      arith,
      bound,
      available-capacity from reached (lookup k reached.buckets),
      ready.capacity,
      ap (λ r. r * (until - from)) ready.rate,
    )
