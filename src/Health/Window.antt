-- ===== src/Health/Window.antt =====
-- The sliding window: `_purge` drops outcomes from the old end only.
use intelligent_trading_syst.Base.{ℕ, ◌+◌, ◌≤◌, ◌≡◌, refl, Bool, [], ◌∷◌, keep_if, leb, arith}
use intelligent_trading_syst.Health.{Outcomes, purge_events}

-- Readings that do not decrease, from `t` on.
abbrev pub IsClockFrom : ℕ → Outcomes → Type 0
IsClockFrom t [] = Unit
IsClockFrom t ((stamp, success) ∷ events) = (t ≤ stamp) × IsClockFrom stamp events

-- The outcome is not older than the window.
abbrev pub is_recent : ℕ → ℕ → ℕ × Bool → Bool
is_recent now window (stamp, success) = leb now (stamp + window)

keep_if_recent :
    (now window t : ℕ) (events : Outcomes)
    → now ≤ t + window
    → IsClockFrom t events
    → keep_if (is_recent now window) events ≡ events
unfolding keep_if
keep_if_recent now window t [] h c = refl
keep_if_recent now window t ((stamp, success) ∷ events) h c =
    ground (arith, keep_if_recent now window stamp events)

-- For readings that do not decrease, `_purge` keeps exactly the outcomes inside the window.
pub purge-keep_if :
    (now window t : ℕ) (events : Outcomes)
    → IsClockFrom t events
    → purge_events now window events ≡ keep_if (is_recent now window) events
unfolding keep_if purge_events
purge-keep_if now window t [] c = refl
purge-keep_if now window t ((stamp, success) ∷ events) c =
    ground (arith, purge-keep_if now window stamp events, keep_if_recent now window stamp events)
