-- ===== src/Session/Restored.antt =====
-- What the crash recovery of a session guarantees (quantflow/strategy/engine.py): the restored
-- book, and the meaning of a verified recovery.
use intelligent_trading_syst.Base.{
  sym, int_laws, ◌||◌, ℕ, ◌≤◌, ◌≡◌, refl, ap, ◌∙◌, true, false, Option, none, some, List, [], ◌∷◌,
  String, ◌==◌, Dict, lookup, values, Distinct, ℤ, ◌-ℤ◌, abs, eqb, length, arith, lookup-insert,
  eq_iff,
}
use mathlib.Core.Path.{subst}
use intelligent_trading_syst.Models.{Position, money_epsilon}
use intelligent_trading_syst.Portfolio.{
  PortfolioManager, refresh_drawdown, update_cash, set_position,
}
use intelligent_trading_syst.Engine.Submit.{Engine}
use intelligent_trading_syst.Recon.Daily.{Reply, ReconGateway, ReconciliationEngine}
use intelligent_trading_syst.Recon.Discrepancies.{DiscrepancySet, discrepancy_set, is_completed}
use intelligent_trading_syst.Recon.Reports.{run_daily_reconciliation}
use intelligent_trading_syst.Recon.Compare.{tolerates, held_amount, last_amount, is_reported}
use intelligent_trading_syst.Recon.Agreement.{run-is_reported}
use intelligent_trading_syst.Session.{TradingSession}
use intelligent_trading_syst.Recon.Discrepancies.{Discrepancy}
use intelligent_trading_syst.Recon.Agreement.{completed-found}
use intelligent_trading_syst.Session.Recovery.{
  restore_cash, BookSnapshot, ReconSettings, loaded, build_snapshot, restore_positions,
  restore_from_snapshot, build_reconciliation_engine, is_verified, verify_recovery,
  restore_checkpoint, recover,
}

-- Every position stands under its own symbol, which is not empty.
abbrev pub AreNamed : Dict Position → Type 0
AreNamed [] = Unit
AreNamed ((symbol, p) ∷ d) = (symbol ≡ p.symbol) × ((symbol == "") ≡ false) × AreNamed d

abbrev pub first_of : Option Position → Option Position → Option Position
first_of none q = q
first_of (some p) q = some p

restore_positions-lookup :
    (s : String) (d : Dict Position) (pm : PortfolioManager)
    → AreNamed d
    → Distinct d
    → lookup s (restore_positions (values d) pm).positions
      ≡ first_of (lookup s d) (lookup s pm.positions)
unfolding restore_positions lookup set_position refresh_drawdown
restore_positions-lookup s [] pm named distinct = refl
restore_positions-lookup s ((symbol, p) ∷ d) pm (same, filled, named) (new, distinct) = grind (
  arith,
  same,
  eq_iff,
  lookup-insert,
  restore_positions-lookup s d (set_position p.symbol p pm) named distinct,
)

restore_positions-cash :
    (ps : List Position) (pm : PortfolioManager) → (restore_positions ps pm).cash ≡ pm.cash
unfolding restore_positions set_position refresh_drawdown
restore_positions-cash [] pm = refl
restore_positions-cash (p ∷ ps) pm =
    ground
      (arith, restore_positions-cash ps pm, restore_positions-cash ps (set_position p.symbol p pm))

restore_cash-positions :
    (cash : ℤ) (pm : PortfolioManager) → (restore_cash cash pm).positions ≡ pm.positions
unfolding restore_cash update_cash refresh_drawdown
restore_cash-positions cash pm = ground arith

restore_cash-near :
    (cash : ℤ) (pm : PortfolioManager) → abs ((restore_cash cash pm).cash -ℤ cash) ≤ money_epsilon
unfolding restore_cash update_cash refresh_drawdown
restore_cash-near cash pm = grind (arith, int_laws)

first_of-none : (p q : Option Position) → q ≡ none → first_of p q ≡ p
first_of-none none q empty = empty
first_of-none (some p) q empty = refl

-- A snapshot of an engine's book, restored into a portfolio without positions, gives back every
-- position of the book and no other, and the cash up to the epsilon. Every position of the book
-- stands once, under its own symbol, which is not empty.
pub restore_from_snapshot-build_snapshot :
    {G : Type 0} (now : ℕ) (mode : String) (e : Engine G) (pm : PortfolioManager)
    → AreNamed e.portfolio.positions
    → Distinct e.portfolio.positions
    → pm.positions ≡ []
    → let restored = restore_from_snapshot (build_snapshot now mode e) pm in
      ((s : String) → lookup s restored.positions ≡ lookup s e.portfolio.positions)
      × (abs (restored.cash -ℤ e.portfolio.cash) ≤ money_epsilon)
unfolding restore_from_snapshot build_snapshot lookup
restore_from_snapshot-build_snapshot now mode e pm named distinct fresh =
    let d = e.portfolio.positions in
    let base = restore_cash e.portfolio.cash pm in
    (
      λ s.
          restore_positions-lookup s d base named distinct
          ∙ first_of-none (lookup s d) (lookup s base.positions)
              (ap (lookup s) (restore_cash-positions e.portfolio.cash pm ∙ fresh)),
      subst (λ c. abs (c -ℤ e.portfolio.cash) ≤ money_epsilon)
          (sym (restore_positions-cash (values d) base)) (restore_cash-near e.portfolio.cash pm),
    )

unreported :
    (s : String) (ds : List Discrepancy) → eqb (length ds) 0 ≡ true → is_reported s ds ≡ false
unreported s [] none_found = refl
unreported s (d ∷ ds) none_found = ground (arith, none_found)

module _ {G : Type 0} (ops : ReconGateway G) (now : ℕ) (engine : ReconciliationEngine) where
  verified-tolerates :
      (id : String) (gw : G) (ps : List Position) (s : String)
      → (ops.query_positions gw).1 ≡ Reply.ok ps
      → is_verified (run_daily_reconciliation ops now id engine gw).report ≡ true
      → tolerates engine.drift_threshold_bps 10000
          (held_amount s engine.portfolio)
          (last_amount s none ps)
        ≡ true
  unfolding discrepancy_set
  verified-tolerates id gw ps s shown verified =
      let report = (run_daily_reconciliation ops now id engine gw).report in
      let completed : is_completed report.status ≡ true = ground (arith, verified) in
      let clean : eqb report.discrepancies.total_discrepancies 0 ≡ true =
        ground (arith, verified) in
      let (orders, _, shape) = completed-found ops now engine id gw ps shown completed in
      let total = ap (λ (d : DiscrepancySet). eqb d.total_discrepancies 0) shape in
      let silent =
        ap (λ (d : DiscrepancySet). is_reported s d.items) shape
        ∙ unreported s _ (sym total ∙ clean) in
      ground (arith, silent, run-is_reported ops now engine id gw ps s shown completed)

module _ {G : Type 0} (ops : ReconGateway G) (settings : ReconSettings) (now : ℕ) where
  verify_recovery-tolerates :
      (id : String) (e : Engine G) (gw : G) (ps : List Position) (s : String)
      → e.gateway ≡ some gw
      → (ops.query_positions gw).1 ≡ Reply.ok ps
      → (verify_recovery ops settings now id e).1 ≡ true
      → tolerates settings.drift_threshold_bps 10000
          (held_amount s (verify_recovery ops settings now id e).0.portfolio.positions)
          (last_amount s none ps)
        ≡ true
  unfolding verify_recovery build_reconciliation_engine
  verify_recovery-tolerates id e gw ps s started shown verified =
      grind (
        arith,
        verified-tolerates ops now (build_reconciliation_engine settings e) id gw ps s shown,
      )

  -- A session that is verified after it restored a snapshot has no drift that the reconciliation
  -- compares: in no symbol does only one of the two books hold a position, and a restored amount
  -- that is not zero is within the drift threshold of the last amount that the exchange shows. A
  -- restored amount of zero is compared with nothing. The exchange answers with the positions `ps`,
  -- and the state is enabled in a paper or live session.
  pub recover-tolerates :
      (id mode : String) (snapshot : BookSnapshot) (s : TradingSession G) (gw : G)
      (ps : List Position) (symbol : String)
      → (mode == "paper" || mode == "live") ≡ true
      → s.engine.gateway ≡ some gw
      → (ops.query_positions gw).1 ≡ Reply.ok ps
      → let recovered = recover ops settings now id true mode (loaded snapshot) s in
        recovered.recovery_verified ≡ true
        → tolerates settings.drift_threshold_bps 10000
            (held_amount symbol recovered.engine.portfolio.positions)
            (last_amount symbol none ps)
          ≡ true
  unfolding recover restore_checkpoint
  recover-tolerates id mode snapshot s gw ps symbol durable started shown verified = grind (
    arith,
    verify_recovery-tolerates id
        (record s.engine { portfolio = restore_from_snapshot snapshot s.engine.portfolio }) gw ps
        symbol started shown,
  )
