-- ===== src/Recon/Daily.antt =====
-- A reconciliation run (quantflow/reconciliation/engine.py): the two snapshots, their comparison,
-- the orphan orders, the alert, the audit events and the report.
-- The portfolio is the production one, which has a `positions` mapping and neither
-- `get_positions` nor `get_symbols` nor `get_pending_order_ids`. The symbols of a Python set come
-- in the order of the dicts. The lock only keeps the snapshots apart; a run is one step here.
use intelligent_trading_syst.Base.{
  ℕ, ◌*◌, Bool, Option, none, some, List, [], ◌∷◌, ◌++◌, String, Dict, lookup, contains, insert,
  keys, ℤ, ◌-ℤ◌, abs, ltb, eqb, if◌then◌else◌,
}
use intelligent_trading_syst.Models.{Order, Position}
use intelligent_trading_syst.Recon.Discrepancies.{DiscrepancyType, Entry, Discrepancy}

-- `OpenOrder`: the fields that the engine reads.
pub record OpenOrder : Type 0 where
  pub id : String
  pub filled_amount : ℤ
  pub timestamp : ℕ

-- What a call of the gateway gives: a result, a `GatewayError`, or another exception.
pub data Reply (A : Type 0) : Type 0 where
  ok : A → Reply A
  gateway_error : String → Reply A
  other_error : String → Reply A

-- The calls of the gateway that the engine makes.
pub record ReconGateway (G : Type 0) : Type 0 where
  pub query_positions : G → G × Reply (List Position)
  pub query_open_orders : String → G → G × Reply (List OpenOrder)

-- The errors that the monitoring sink and the audit logger raise, if they do.
pub record Sinks : Type 0 where
  pub alert_error : Option String
  pub event_error : Option String
  pub report_error : Option String

-- `order_manager` holds the open orders of the injected order manager, if there is one. The
-- drift threshold is in basis points, the staleness threshold in seconds.
pub record ReconciliationEngine : Type 0 where
  pub drift_threshold_bps : ℕ
  pub order_staleness_threshold : ℕ
  pub portfolio : Dict Position
  pub order_manager : Option (List Order)
  pub sinks : Sinks

unfoldable pub position_entry : Position → Entry
position_entry p = record {
  amount = p.quantity;
  entry_price = p.entry_price;
  unrealized_pnl = p.unrealized_pnl;
}

unfoldable pub local_positions : Dict Position → Dict Entry
unfolding position_entry
local_positions [] = []
local_positions ((symbol, p) ∷ mapping) = (symbol, position_entry p) ∷ local_positions mapping

-- The loop that fills the exchange's snapshot: the last position in a symbol stays.
unfoldable pub exchange_entries : List Position → Dict Entry → Dict Entry
unfolding position_entry
exchange_entries [] entries = entries
exchange_entries (p ∷ ps) entries = exchange_entries ps (insert p.symbol (position_entry p) entries)

-- The symbols of `new` that `old` does not have.
unfoldable pub keys_beyond : Dict Entry → Dict Entry → List String
keys_beyond old [] = []
keys_beyond old ((symbol, entry) ∷ new) =
    let rest = keys_beyond old new in if contains symbol old then rest else symbol ∷ rest

unfoldable pub all_symbols : Dict Entry → Dict Entry → List String
unfolding keys_beyond
all_symbols l e = keys l ++ keys_beyond l e

-- `drift_bps > threshold`, for `drift_bps = abs(l - e) / abs(l) * 10000`
abbrev pub drifts : ℕ → ℤ → ℤ → Bool
drifts threshold l e = ltb (threshold * abs l) (abs (l -ℤ e) * 10000)

unfoldable pub mismatch : ℕ → String → ℤ → ℤ → List Discrepancy
mismatch threshold symbol l e =
    if eqb (abs l) 0
    then []
    else if drifts threshold l e
    then record {
      type = DiscrepancyType.position_mismatch;
      symbol = symbol;
      local_value = some l;
      exchange_value = some e;
    }
      ∷ []
    else []

-- The body of the loop over the symbols. An entry is a dict with keys, so it counts as true.
unfoldable pub compare_symbol : ℕ → Dict Entry → Dict Entry → String → List Discrepancy
unfolding mismatch
compare_symbol threshold l e symbol = elim (lookup symbol l) [
  | some here ↦ elim (lookup symbol e) [
    | some there ↦ mismatch threshold symbol here.amount there.amount
    | none ↦
        record {
          type = DiscrepancyType.orphan_position_local;
          symbol = symbol;
          local_value = some here.amount;
          exchange_value = none;
        }
        ∷ []
  ]
  | none ↦
      record {
        type = DiscrepancyType.orphan_position_exchange;
        symbol = symbol;
        local_value = none;
        exchange_value =
            some (elim (lookup symbol e) [ none ↦ ℤ.pos 0 | some there ↦ there.amount ]);
      }
      ∷ []
]

unfoldable pub compare_symbols : ℕ → Dict Entry → Dict Entry → List String → List Discrepancy
unfolding compare_symbol
compare_symbols threshold l e [] = []
compare_symbols threshold l e (symbol ∷ symbols) =
    compare_symbol threshold l e symbol ++ compare_symbols threshold l e symbols
