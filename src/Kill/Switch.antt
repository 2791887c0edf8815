-- ===== src/Kill/Switch.antt =====
-- The kill switch (quantflow/execution/kill_switch.py): `activate` cancels the orders, closes the
-- positions with reduce-only market orders, and says what it could not do.
use intelligent_trading_syst.Base.{
  ℕ, Bool, true, false, Option, none, some, List, [], ◌∷◌, String, ◌==◌, str_append, pos, abs,
  is_pos, ltb, if◌then◌else◌,
}
use mathlib.Core.List.{◌++◌}
use intelligent_trading_syst.Models.{buy, sell, Order, OrderStatus, Position}
use intelligent_trading_syst.Gateways.{GatewayBase}
use intelligent_trading_syst.Kill.Pauses.{PauseReasonSet, empty_reasons, add_reason}

pub record KillSwitch : Type 0 where
  pub active : Bool
  pub reason : Option String
  pub pause_reasons : PauseReasonSet

pub data StopStatus : Type 0 where
  already_active activated failed partly : StopStatus

-- An entry of `closed_positions`.
pub record Closed : Type 0 where
  pub symbol : String
  pub quantity : ℕ
  pub order_id : String

pub record StopReport : Type 0 where
  pub status : StopStatus
  pub reason : Option String
  pub cancelled_orders : List Bool
  pub closed_positions : List Closed
  pub errors : List String

unfoldable pub init : KillSwitch
init = record { active = false; reason = none; pause_reasons = empty_reasons }

-- The reduce-only market order against a position.
unfoldable pub close_order : Position → Order
close_order p = record {
  order_id = "";
  symbol = p.symbol;
  side = if is_pos p.quantity then sell else buy;
  order_type = "market";
  quantity = pos (abs p.quantity);
  price = none;
  status = OrderStatus.created;
  filled_quantity = pos 0;
  filled_price = pos 0;
  fee = pos 0;
  strategy_id = "";
  created_at = 0;
  applied_filled_qty = pos 0;
  params = ("reduceOnly", true) ∷ [];
}

-- Append to `closed_positions` what was sent, or to `errors` the step that raised.
unfoldable pub note_close : Position → Option String → StopReport → StopReport
note_close p none report = record report {
  errors = report.errors ++ (str_append "close_" p.symbol ∷ []);
}
note_close p (some oid) report = record report {
  closed_positions =
      report.closed_positions
      ++ (record { symbol = p.symbol; quantity = abs p.quantity; order_id = oid } ∷ []);
}

abbrev pub is_sized : Position → Bool
is_sized p = ltb 0 (abs p.quantity)

-- The status once every position was tried.
unfoldable pub grade : StopReport → StopReport
grade report = elim report.errors [ [] ↦ report | e ∷ es ↦ record report { status = partly } ]

abbrev pub start_report : String → StopReport
start_report reason = record {
  status = activated;
  reason = some reason;
  cancelled_orders = [];
  closed_positions = [];
  errors = [];
}

module _ {G : Type 0} (ops : GatewayBase G) (now : ℕ) where
  -- The loop over the positions.
  unfoldable pub close_loop : List Position → G → StopReport → G × StopReport
  unfolding close_order note_close
  close_loop [] gw report = (gw, report)
  close_loop (p ∷ ps) gw report =
      let sent = ops.send_order now (close_order p) gw in
      if is_sized p
      then close_loop ps sent.gateway (note_close p sent.exchange_id report)
      else close_loop ps gw report

  -- Step 2: without the list of positions the stop has failed.
  unfoldable pub close_positions : G → StopReport → G × StopReport
  unfolding close_loop grade
  close_positions gw report =
      let asked = ops.query_positions gw in
      elim asked.1 [
        | none ↦ (
          asked.0,
          record report { status = failed; errors = report.errors ++ ("query_positions" ∷ []) },
        )
        | some positions ↦
            let closed = close_loop positions asked.0 report in (closed.0, grade closed.1)
      ]

  -- Step 1.
  unfoldable pub cancel_orders : G → StopReport → G × StopReport
  cancel_orders gw report =
      let asked = ops.cancel_all_orders gw in
      (
        asked.0,
        elim asked.1 [
          | none ↦ record report { errors = report.errors ++ ("cancel_orders" ∷ []) }
          | some cancelled ↦ record report { cancelled_orders = cancelled }
        ],
      )

  unfoldable pub stop_all : String → G → G × StopReport
  unfolding cancel_orders close_positions
  stop_all reason gw =
      let cancelled = cancel_orders gw (start_report reason) in
      close_positions cancelled.0 cancelled.1

  unfoldable pub activate : String → KillSwitch → G → KillSwitch × (G × StopReport)
  unfolding stop_all
  activate reason ks gw =
      if ks.active
      then (
        record ks {
          pause_reasons =
              add_reason (if reason == "" then "kill_switch" else reason) ks.pause_reasons;
        },
        (
          gw,
          record {
            status = already_active;
            reason = ks.reason;
            cancelled_orders = [];
            closed_positions = [];
            errors = [];
          },
        ),
      )
      else (
        record {
          active = true;
          reason = some reason;
          pause_reasons = add_reason reason (add_reason "kill_switch" ks.pause_reasons);
        },
        stop_all reason gw,
      )

unfoldable pub deactivate : KillSwitch → KillSwitch
deactivate ks = record ks { active = false; reason = none }
