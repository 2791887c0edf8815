-- ===== src/Monitoring/Alerts.antt =====
-- The deduplicator and the alert manager (quantflow/monitoring/alerts.py). Clock readings are in
-- milliseconds. The texts of the messages are left out; what a channel answers is a function.
use intelligent_trading_syst.Base.{
  ℕ, ◌+◌, Bool, true, false, not, ◌&&◌, Option, none, some, List, [], ◌∷◌, String, ◌==◌, Dict,
  lookup, insert, member, keep_if, ltb, eqb, suc, if◌then◌else◌,
}
use intelligent_trading_syst.Monitoring.Urls.{UrlLibrary, validate_outbound_url}
use intelligent_trading_syst.Monitoring.Routing.{
  AlertLevel, AlertCategory, AlertPriority, resolve_alert_channels, inferred_level, make_key,
}

pub record AlertDeduplicator : Type 0 where
  pub window : ℕ
  pub seen : Dict (List ℕ)
  pub suppressed_count : ℕ

-- `self._seen[alert_key]` of the defaultdict.
abbrev pub times_or_none : Option (List ℕ) → List ℕ
times_or_none none = []
times_or_none (some ts) = ts

-- `now - t < window`
unfoldable pub kept_times : ℕ → ℕ → List ℕ → List ℕ
kept_times now window ts = keep_if (λ t. ltb now (t + window)) ts

unfoldable pub should_send : String → ℕ → AlertDeduplicator → AlertDeduplicator × Bool
unfolding kept_times
should_send key now d = elim (kept_times now d.window (times_or_none (lookup key d.seen))) [
  | [] ↦ (record d { seen = insert key (now ∷ []) d.seen }, true)
  | t ∷ ts ↦ (
    record d { seen = insert key (t ∷ ts) d.seen; suppressed_count = suc d.suppressed_count },
    false,
  )
]

unfoldable pub reset_dedup : AlertDeduplicator → AlertDeduplicator
reset_dedup d = record d { seen = []; suppressed_count = 0 }

pub record AlertManager : Type 0 where
  pub telegram_token : String
  pub line_token : String
  pub webhook_url : String
  pub dedup : AlertDeduplicator

-- The HTTP status that a post to a channel gets at a level, or `none` where it raises.
abbrev pub Posting : Type 0
Posting = String → AlertLevel → Option ℕ

unfoldable pub send_telegram : Posting → AlertLevel → Bool
send_telegram post level = elim (post "telegram" level) [
  | none ↦ false
  | some status ↦ eqb status 200
]

unfoldable pub send_line : Posting → AlertLevel → Bool
send_line post level = elim (post "line" level) [ none ↦ false | some status ↦ eqb status 200 ]

unfoldable pub send_webhook : UrlLibrary → Posting → AlertLevel → AlertManager → Bool
send_webhook lib post level manager =
    if not (validate_outbound_url lib true manager.webhook_url)
    then false
    else elim (post "webhook" level) [ none ↦ false | some status ↦ ltb status 400 ]

-- `results[channel] = ...`, if the channel is asked for and has its setting.
abbrev pub attempt_send : Bool → String → String → Bool → Dict Bool → Dict Bool
attempt_send asked setting channel success results =
    if asked && not (setting == "") then insert channel success results else results

-- The sends to the channels that are asked for.
unfoldable pub send_to :
    UrlLibrary → Posting → (String → Bool) → AlertLevel → AlertManager → Dict Bool
unfolding send_telegram send_line send_webhook
send_to lib post asked level m =
    attempt_send (asked "webhook") m.webhook_url "webhook" (send_webhook lib post level m) (
      attempt_send (asked "line") m.line_token "line" (send_line post level)
        (attempt_send (asked "telegram") m.telegram_token "telegram" (send_telegram post level) []))

unfoldable pub send : UrlLibrary → Posting → AlertLevel → AlertManager → Dict Bool
unfolding send_to
send lib post level m = send_to lib post (λ channel. true) level m

abbrev pub level_or : AlertLevel → Option AlertLevel → AlertLevel
level_or default none = default
level_or default (some level) = level

unfoldable pub send_routed :
    UrlLibrary
    → Posting
    → AlertCategory
    → AlertPriority
    → String
    → Option AlertLevel
    → ℕ
    → AlertManager
    → AlertManager × Dict Bool
unfolding should_send send_to
send_routed lib post category priority symbol level now m =
    let asked = should_send (make_key category symbol) now m.dedup in
    (
      record m { dedup = asked.0 },
      if asked.1
          then send_to lib post
              (λ channel. member channel (resolve_alert_channels category priority))
              (level_or (inferred_level priority) level) m
          else [],
    )
