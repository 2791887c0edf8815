-- ===== src/Portfolio/Sums.antt =====
-- The value of the positions as a sum over the book.
use intelligent_trading_syst.Base.{◌≡◌, refl, [], ◌∷◌, Dict, ◌+ℤ◌, ap, weigh}
use intelligent_trading_syst.Models.{Position, market_value, positions_value}

pub positions_value-weigh :
    (positions : Dict Position) → positions_value positions ≡ weigh market_value positions
unfolding positions_value weigh
positions_value-weigh [] = refl
positions_value-weigh ((k, p) ∷ positions) =
    ap (◌+ℤ◌ (market_value p)) (positions_value-weigh positions)
