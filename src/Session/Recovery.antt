-- ===== src/Session/Recovery.antt =====
-- Crash recovery of a session (quantflow/strategy/engine.py): the snapshot of the book, its
-- restoration into a fresh portfolio, and the reconciliation that verifies it. The entries of a
-- snapshot are the typed ones that `_build_snapshot` writes; the conversions of the text on disk
-- are not modelled. The gateway's two interfaces, for orders and for reconciliation, act on one
-- state.
use intelligent_trading_syst.Base.{
  ℕ, Bool, true, false, ◌&&◌, ◌||◌, Option, none, some, List, [], ◌∷◌, String, ◌==◌, values, ℤ,
  ◌-ℤ◌, abs, ltb, eqb, if◌then◌else◌,
}
use intelligent_trading_syst.Models.{OrderSide, OrderStatus, Order, Position, money_epsilon}
use intelligent_trading_syst.Orders.{get_open_orders}
use intelligent_trading_syst.Portfolio.{PortfolioManager, total_value, update_cash, set_position}
use intelligent_trading_syst.Engine.Submit.{Engine}
use intelligent_trading_syst.Recon.Daily.{ReconGateway, Sinks, ReconciliationEngine}
use intelligent_trading_syst.Recon.Discrepancies.{DailyReconReport, is_completed}
use intelligent_trading_syst.Recon.Reports.{run_daily_reconciliation}
use intelligent_trading_syst.Session.{TradingSession}

pub record OpenOrderEntry : Type 0 where
  pub order_id : String
  pub symbol : String
  pub side : OrderSide
  pub order_type : String
  pub status : OrderStatus
  pub quantity : ℤ
  pub price : Option ℤ
  pub strategy_id : String

-- A position's entry has the fields of the position.
pub record BookSnapshot : Type 0 where
  pub saved_at_ms : ℕ
  pub mode : String
  pub cash : ℤ
  pub positions : List Position
  pub open_orders : List OpenOrderEntry
  pub equity : ℤ

abbrev order_entry : Order → OpenOrderEntry
order_entry o = record {
  order_id = o.order_id;
  symbol = o.symbol;
  side = o.side;
  order_type = o.order_type;
  status = o.status;
  quantity = o.quantity;
  price = o.price;
  strategy_id = o.strategy_id;
}

unfoldable pub order_entries : List Order → List OpenOrderEntry
order_entries [] = []
order_entries (o ∷ orders) = order_entry o ∷ order_entries orders

unfoldable pub build_snapshot : {G : Type 0} → ℕ → String → Engine G → BookSnapshot
unfolding order_entries
build_snapshot now mode e = record {
  saved_at_ms = now;
  mode = mode;
  cash = e.portfolio.cash;
  positions = values e.portfolio.positions;
  open_orders = order_entries (get_open_orders e.order_mgr);
  equity = total_value e.portfolio;
}

-- The loop over the positions.
unfoldable pub restore_positions : List Position → PortfolioManager → PortfolioManager
restore_positions [] pm = pm
restore_positions (p ∷ ps) pm =
    restore_positions ps (if p.symbol == "" then pm else set_position p.symbol p pm)

unfoldable pub restore_cash : ℤ → PortfolioManager → PortfolioManager
restore_cash cash pm =
    let delta = cash -ℤ pm.cash in
    if ltb money_epsilon (abs delta) then update_cash delta pm else pm

unfoldable pub restore_from_snapshot : BookSnapshot → PortfolioManager → PortfolioManager
unfolding restore_cash restore_positions
restore_from_snapshot snapshot pm =
    restore_positions snapshot.positions (restore_cash snapshot.cash pm)

-- The settings of the reconciliation, with the sinks.
pub record ReconSettings : Type 0 where
  pub drift_threshold_bps : ℕ
  pub order_staleness_seconds : ℕ
  pub sinks : Sinks

unfoldable pub build_reconciliation_engine :
    {G : Type 0} → ReconSettings → Engine G → ReconciliationEngine
build_reconciliation_engine settings e = record {
  drift_threshold_bps = settings.drift_threshold_bps;
  order_staleness_threshold = settings.order_staleness_seconds;
  portfolio = e.portfolio.positions;
  order_manager = some (get_open_orders e.order_mgr);
  sinks = settings.sinks;
}

abbrev pub is_verified : DailyReconReport → Bool
is_verified report = is_completed report.status && eqb report.discrepancies.total_discrepancies 0

-- Without a gateway no engine is built.
unfoldable pub verify_recovery :
    {G : Type 0} → ReconGateway G → ReconSettings → ℕ → String → Engine G → Engine G × Bool
unfolding build_reconciliation_engine
verify_recovery ops settings now id e = elim e.gateway [
  | none ↦ (e, false)
  | some gw ↦
      let run = run_daily_reconciliation ops now id (build_reconciliation_engine settings e) gw in
      (record e { gateway = some run.gateway }, is_verified run.report)
]

-- What `load_checkpoint` gives: nothing, an error, or a snapshot.
pub data Checkpoint : Type 0 where
  absent corrupt : Checkpoint
  loaded : BookSnapshot → Checkpoint

unfoldable pub restore_checkpoint :
    {G : Type 0}
    → ReconGateway G
    → ReconSettings
    → ℕ
    → String
    → Checkpoint
    → TradingSession G
    → TradingSession G
unfolding restore_from_snapshot verify_recovery
restore_checkpoint ops settings now id absent s = record s { recovery_verified = true }
restore_checkpoint ops settings now id corrupt s = record s { recovery_verified = false }
restore_checkpoint ops settings now id (loaded snapshot) s =
    let restored = record s.engine {
      portfolio = restore_from_snapshot snapshot s.engine.portfolio;
    } in
    let verified = verify_recovery ops settings now id restored in
    record s { engine = verified.0; recovery_verified = verified.1 }

-- The crash recovery of `start`, where no earlier start has left a reconciliation engine.
unfoldable pub recover :
    {G : Type 0}
    → ReconGateway G
    → ReconSettings
    → ℕ
    → String
    → Bool
    → String
    → Checkpoint
    → TradingSession G
    → TradingSession G
unfolding restore_checkpoint
recover ops settings now id enabled mode checkpoint s =
    if enabled && (mode == "paper" || mode == "live")
    then restore_checkpoint ops settings now id checkpoint s
    else record s { recovery_verified = true }
