-- ===== src/Monitoring/Throttle.antt =====
-- The deduplicator treats each key by itself.
use mathlib.Core.Path.{subst}
use intelligent_trading_syst.Base.{
  ℕ, ◌+◌, ◌≡◌, refl, sym, Bool, true, false, Option, none, some, List, [], ◌∷◌, String, ◌==◌,
  lookup, lookup-insert, eq_iff, keep_if, ltb, arith, Bool-cases, inl, inr, if◌then◌else◌,
}
use intelligent_trading_syst.Monitoring.Alerts.{
  AlertDeduplicator, times_or_none, kept_times, should_send,
}

-- The answers to the calls with one key, among calls with any keys.
abbrev pub answers_for : String → List (String × ℕ) → AlertDeduplicator → List Bool
answers_for key [] d = []
answers_for key ((k, now) ∷ calls) d =
    let next = should_send k now d in
    let rest = answers_for key calls next.0 in if k == key then next.1 ∷ rest else rest

abbrev pub times_of : String → List (String × ℕ) → List ℕ
times_of key [] = []
times_of key ((k, now) ∷ calls) = if k == key then now ∷ times_of key calls else times_of key calls

-- An alert goes out unless less than `window` has passed since the last one that did.
abbrev pub throttle : ℕ → Option ℕ → List ℕ → List Bool
throttle window last [] = []
throttle window none (now ∷ times) = true ∷ throttle window (some now) times
throttle window (some t) (now ∷ times) =
    if ltb now (t + window)
    then false ∷ throttle window (some t) times
    else true ∷ throttle window (some now) times

-- The key's list holds the last time that an alert went out.
abbrev Remembers : Option ℕ → List ℕ → Type 0
Remembers none ts = ts ≡ []
Remembers (some t) ts = ts ≡ t ∷ []

should_send-window :
    (k : String) (now : ℕ) (d : AlertDeduplicator) → (should_send k now d).0.window ≡ d.window
unfolding should_send
should_send-window k now d = ground arith

should_send_other :
    (key k : String) (now : ℕ) (d : AlertDeduplicator)
    → (k == key) ≡ false
    → lookup key (should_send k now d).0.seen ≡ lookup key d.seen
unfolding should_send
should_send_other key k now d h = grind (arith, lookup-insert, h)

-- What the call answers, and the time that it leaves as the last one.
abbrev next_last : ℕ → ℕ → Option ℕ → Bool × ℕ
next_last window now none = (true, now)
next_last window now (some t) = if ltb now (t + window) then (false, t) else (true, now)

kept_none : (now window : ℕ) → kept_times now window [] ≡ []
unfolding kept_times keep_if
kept_none now window = refl

kept_one :
    (now window t : ℕ)
    → kept_times now window (t ∷ []) ≡ (if ltb now (t + window) then t ∷ [] else [])
unfolding kept_times keep_if
kept_one now window t = refl

should_send_self :
    (key k : String) (now : ℕ) (d : AlertDeduplicator) (last : Option ℕ)
    → (k == key) ≡ true
    → Remembers last (times_or_none (lookup key d.seen))
    → let (answer, time) = next_last d.window now last in
      ((should_send k now d).1 ≡ answer)
      × (times_or_none (lookup key (should_send k now d).0.seen) ≡ time ∷ [])
unfolding should_send
should_send_self key k now d none e h =
    ground
      (arith, e, h, eq_iff k key, kept_none now d.window, lookup-insert k key (now ∷ []) d.seen)
should_send_self key k now d (some t) e h = ground (
  arith,
  e,
  h,
  eq_iff k key,
  kept_one now d.window t,
  lookup-insert k key (now ∷ []) d.seen,
  lookup-insert k key (t ∷ []) d.seen,
)

throttle_next :
    (window : ℕ) (last : Option ℕ) (now : ℕ) (times : List ℕ)
    → let (answer, time) = next_last window now last in
      throttle window last (now ∷ times) ≡ answer ∷ throttle window (some time) times
throttle_next window none now times = refl
throttle_next window (some t) now times = ground arith

answers-throttle :
    (key : String) (calls : List (String × ℕ)) (d : AlertDeduplicator) (last : Option ℕ)
    → Remembers last (times_or_none (lookup key d.seen))
    → answers_for key calls d ≡ throttle d.window last (times_of key calls)
answers-throttle key [] d last h = refl
answers-throttle key ((k, now) ∷ calls) d last h =
    let next = (should_send k now d).0 in
    elim (Bool-cases (k == key)) [
      | inl e ↦
          let self = should_send_self key k now d last e h in
          ground (
            arith,
            e,
            self.0,
            should_send-window k now d,
            throttle_next d.window last now (times_of key calls),
            answers-throttle key calls next (some (next_last d.window now last).1) self.1,
          )
      | inr e ↦ ground (
        arith,
        e,
        should_send-window k now d,
        answers-throttle key calls next last (
            subst (λ (o : Option (List ℕ)). Remembers last (times_or_none o))
              (sym (should_send_other key k now d e)) h),
      )
    ]

-- From a new deduplicator, whatever calls with other keys come between, the answers to the calls
-- with one key are those of a throttle on these calls alone: an alert goes out unless less than
-- the window has passed since the last alert of its key that did.
pub should_send-throttle :
    (key : String) (calls : List (String × ℕ)) (window : ℕ)
    → let fresh : AlertDeduplicator = record { window = window; seen = []; suppressed_count = 0 } in
      answers_for key calls fresh ≡ throttle window none (times_of key calls)
unfolding lookup
should_send-throttle key calls window = answers-throttle key calls _ none refl
