-- ===== src/Monitoring/Routing.antt =====
-- Categories, priorities and the routing matrix of alerts (quantflow/monitoring/alerts.py).
use intelligent_trading_syst.Base.{List, [], ◌∷◌, String, ◌==◌, str_append, if◌then◌else◌}

pub data AlertLevel : Type 0 where
  info warning critical : AlertLevel

pub data AlertCategory : Type 0 where
  system_health connectivity performance : AlertCategory
  execution_failure order_timeout reconciliation_drift orphan_order : AlertCategory
  risk_threshold position_limit drawdown_breach var_breach : AlertCategory
  data_staleness data_anomaly feed_interrupt : AlertCategory
  signal_generation strategy_error : AlertCategory

pub data AlertPriority : Type 0 where
  p0_emergency p1_high p2_medium p3_low : AlertPriority

-- `category.value`
abbrev pub category_value : AlertCategory → String
category_value AlertCategory.system_health = "system_health"
category_value AlertCategory.connectivity = "connectivity"
category_value AlertCategory.performance = "performance"
category_value AlertCategory.execution_failure = "execution_failure"
category_value AlertCategory.order_timeout = "order_timeout"
category_value AlertCategory.reconciliation_drift = "reconciliation_drift"
category_value AlertCategory.orphan_order = "orphan_order"
category_value AlertCategory.risk_threshold = "risk_threshold"
category_value AlertCategory.position_limit = "position_limit"
category_value AlertCategory.drawdown_breach = "drawdown_breach"
category_value AlertCategory.var_breach = "var_breach"
category_value AlertCategory.data_staleness = "data_staleness"
category_value AlertCategory.data_anomaly = "data_anomaly"
category_value AlertCategory.feed_interrupt = "feed_interrupt"
category_value AlertCategory.signal_generation = "signal_generation"
category_value AlertCategory.strategy_error = "strategy_error"

abbrev pub default_alert_channels : List String
default_alert_channels = "telegram" ∷ []

-- `ALERT_ROUTING.get((category, priority), DEFAULT_ALERT_CHANNELS)`
unfoldable pub resolve_alert_channels : AlertCategory → AlertPriority → List String
resolve_alert_channels AlertCategory.reconciliation_drift AlertPriority.p0_emergency =
    "telegram" ∷ "webhook" ∷ []
resolve_alert_channels AlertCategory.execution_failure AlertPriority.p0_emergency =
    "telegram" ∷ "webhook" ∷ []
resolve_alert_channels AlertCategory.drawdown_breach AlertPriority.p0_emergency =
    "telegram" ∷ "line" ∷ "webhook" ∷ []
resolve_alert_channels AlertCategory.feed_interrupt AlertPriority.p0_emergency =
    "telegram" ∷ "webhook" ∷ []
resolve_alert_channels AlertCategory.orphan_order AlertPriority.p1_high =
    "telegram" ∷ "webhook" ∷ []
resolve_alert_channels AlertCategory.var_breach AlertPriority.p1_high = "telegram" ∷ "webhook" ∷ []
resolve_alert_channels AlertCategory.system_health AlertPriority.p3_low = "webhook" ∷ []
resolve_alert_channels AlertCategory.signal_generation AlertPriority.p3_low = "webhook" ∷ []
resolve_alert_channels AlertCategory.strategy_error AlertPriority.p3_low = "webhook" ∷ []
resolve_alert_channels category priority = default_alert_channels

-- The level that a priority stands for.
abbrev pub inferred_level : AlertPriority → AlertLevel
inferred_level AlertPriority.p0_emergency = AlertLevel.critical
inferred_level AlertPriority.p1_high = AlertLevel.critical
inferred_level AlertPriority.p2_medium = AlertLevel.warning
inferred_level AlertPriority.p3_low = AlertLevel.info

unfoldable pub make_key : AlertCategory → String → String
make_key category symbol =
    if symbol == ""
    then category_value category
    else str_append (category_value category) (str_append ":" symbol)
