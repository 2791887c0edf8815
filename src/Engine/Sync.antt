-- ===== src/Engine/Sync.antt =====
-- The sync of the book with the exchange.
use intelligent_trading_syst.Base.{
  ℕ, ◌≡◌, refl, true, false, Option, none, some, [], ◌∷◌, String, ◌==◌, Dict, lookup, values,
  Distinct, lookup-insert, eq_iff, arith, if◌then◌else◌,
}
use intelligent_trading_syst.Models.{Position}
use intelligent_trading_syst.Portfolio.{PortfolioManager, set_position, refresh_drawdown}
use intelligent_trading_syst.Gateways.{GatewayBase}
use intelligent_trading_syst.Engine.Submit.{Engine}
use intelligent_trading_syst.Engine.Desk.{sync_loop, sync_positions}

-- Each position stands under its own symbol.
abbrev pub IsKeyed : Dict Position → Type 0
IsKeyed [] = Unit
IsKeyed ((k, p) ∷ d) = (p.symbol ≡ k) × IsKeyed d

set_position-lookup :
    (symbol s : String) (p : Position) (pm : PortfolioManager)
    → lookup s (set_position symbol p pm).positions
      ≡ (if symbol == s then some p else lookup s pm.positions)
unfolding set_position refresh_drawdown
set_position-lookup symbol s p pm = lookup-insert symbol s p pm.positions

-- What the exchange holds, else what the book held.
abbrev pub overlaid : String → Dict Position → Dict Position → Option Position
overlaid s truth book = elim (lookup s truth) [ none ↦ lookup s book | some p ↦ some p ]

sync_loop-overlaid :
    (truth : Dict Position) (s : String) (pm : PortfolioManager)
    → Distinct truth
    → IsKeyed truth
    → lookup s (sync_loop (values truth) pm).positions ≡ overlaid s truth pm.positions
unfolding sync_loop lookup
sync_loop-overlaid [] s pm distinct keyed = refl
sync_loop-overlaid ((k, p) ∷ truth) s pm distinct keyed = grind (
  arith,
  eq_iff k s,
  sync_loop-overlaid truth s (set_position p.symbol p pm) distinct.1 keyed.1,
  set_position-lookup p.symbol s p pm,
)

-- A sync with a started gateway is all or nothing. If the query raises a `GatewayError`, the sync
-- says so and leaves the book as it was. If the exchange reports positions, one to a symbol, the
-- sync says so, and the book then holds what the exchange reports, and a symbol that the exchange
-- does not report keeps its old entry.
pub sync_positions-overlaid :
    {G : Type 0}
    → (ops : GatewayBase G) (now : ℕ) (gw : G) (truth : Dict Position) (e : Engine G)
    → e.gateway ≡ some gw
    → Distinct truth
    → IsKeyed truth
    → let synced = sync_positions ops now e in
      ((ops.query_positions gw).1 ≡ none → (synced.1 ≡ false) × (synced.0.portfolio ≡ e.portfolio))
      × ((ops.query_positions gw).1 ≡ some (values truth)
          → (synced.1 ≡ true)
            × ((s : String)
                → lookup s synced.0.portfolio.positions ≡ overlaid s truth e.portfolio.positions))
unfolding sync_positions
sync_positions-overlaid ops now gw truth e started distinct keyed = (
  λ failed. ground (arith, started, failed),
  λ known. (
    ground (arith, started, known),
    λ s. ground (arith, started, known, sync_loop-overlaid truth s e.portfolio distinct keyed),
  ),
)
