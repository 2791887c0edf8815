-- ===== src/Paper/Parity.antt =====
-- The gateway's position view and the authoritative book of the portfolio manager.
use intelligent_trading_syst.Base.{◌≡◌, refl, false, List, [], ◌∷◌, String, Dict, ℤ, ◌+ℤ◌, arith}
use intelligent_trading_syst.Models.{Position}
use intelligent_trading_syst.Portfolio
use intelligent_trading_syst.Portfolio.{
  PortfolioManager, is_flat, merged_position, apply_fill, pay, refresh_drawdown, open_position,
}
use intelligent_trading_syst.Portfolio.Signs.{is_pos-*}
use intelligent_trading_syst.Paper.Positions
use intelligent_trading_syst.Paper.Positions.{moved_position}

average_price-parity :
    (p : Position) (delta price new_qty : ℤ)
    → Positions.average_price p delta price new_qty ≡ Portfolio.average_price p delta price new_qty
unfolding Positions.average_price Portfolio.average_price
average_price-parity p delta price new_qty = ground (arith, is_pos-* p.quantity delta)

moved_position-merged :
    (symbol : String) (p : Position) (delta price : ℤ) (sid : String)
    → moved_position symbol p delta price sid ≡ merged_position symbol p delta price sid
unfolding moved_position merged_position
moved_position-merged symbol p delta price sid =
    rw (average_price-parity p delta price (p.quantity +ℤ delta)) refl

-- A fill that is not dust moves the gateway's view of the positions and the positions of the
-- portfolio manager in the same way: adds, reductions, closes and flips, entry prices included.
pub update_position-parity :
    (symbol : String) (delta price fee : ℤ) (sid : String) (pm : PortfolioManager)
    → is_flat delta ≡ false
    → Positions.update_position symbol delta price sid pm.positions
      ≡ (Portfolio.update_position symbol delta price fee sid pm).positions
unfolding Positions.update_position Portfolio.update_position apply_fill pay refresh_drawdown
    open_position
update_position-parity symbol delta price fee sid pm sized = grind (arith, moved_position-merged)

-- A run of fills, each a symbol, a signed quantity, a price, a fee and a strategy.
pub record Fill : Type 0 where
  pub symbol : String
  pub delta : ℤ
  pub price : ℤ
  pub fee : ℤ
  pub strategy_id : String

abbrev pub AreSized : List Fill → Type 0
AreSized [] = Unit
AreSized (f ∷ fills) = (is_flat f.delta ≡ false) × AreSized fills

abbrev pub view_fills : List Fill → Dict Position → Dict Position
view_fills [] positions = positions
view_fills (f ∷ fills) positions =
    view_fills fills (Positions.update_position f.symbol f.delta f.price f.strategy_id positions)

abbrev pub book_fills : List Fill → PortfolioManager → PortfolioManager
book_fills [] pm = pm
book_fills (f ∷ fills) pm =
    book_fills fills (Portfolio.update_position f.symbol f.delta f.price f.fee f.strategy_id pm)

-- The gateway's view and the book that start from the same positions and get the same fills, none
-- of them dust, hold the same positions at the end.
pub views_agree :
    (fills : List Fill) (pm : PortfolioManager)
    → AreSized fills
    → view_fills fills pm.positions ≡ (book_fills fills pm).positions
views_agree [] pm sized = refl
views_agree (f ∷ fills) pm sized =
    rw (update_position-parity f.symbol f.delta f.price f.fee f.strategy_id pm sized.0) (
      views_agree fills (Portfolio.update_position f.symbol f.delta f.price f.fee f.strategy_id pm)
        sized.1)
