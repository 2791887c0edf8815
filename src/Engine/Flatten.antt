-- ===== src/Engine/Flatten.antt =====
-- Closing a position in the book (`close_position` of quantflow/execution/position_manager.py).
use intelligent_trading_syst.Base.{
  ◌≡◌, true, false, none, some, [], ◌∷◌, String, lookup, erase, Distinct, lookup-erase_self, ℤ, pos,
  ◌+ℤ◌, neg_ℤ, is_pos, arith, int_laws, +ℤ-zero, sym, ap, ◌∙◌,
}
use intelligent_trading_syst.Models.{Position, market_value}
use intelligent_trading_syst.Portfolio
use intelligent_trading_syst.Portfolio.{
  PortfolioManager, total_value, is_flat, update_market_prices,
}
use intelligent_trading_syst.Portfolio.Equity.{
  charged, equity_conserved, mark_one-value, cancel_right,
}
use intelligent_trading_syst.Paper.Parity.{update_position-parity}
use intelligent_trading_syst.Kill.Flatten.{update-closing}
use intelligent_trading_syst.Engine.Routing.{flatten_position}

opposite_sum : (q : ℤ) → q +ℤ neg_ℤ q ≡ pos 0
opposite_sum q = omega int_laws

opposite_sized : (q : ℤ) → is_flat q ≡ false → is_flat (neg_ℤ q) ≡ false
unfolding neg_ℤ
opposite_sized q h = ground arith

close-erases :
    (symbol : String) (p : Position) (price : ℤ) (pm : PortfolioManager)
    → lookup symbol pm.positions ≡ some p
    → is_flat p.quantity ≡ false
    → (Portfolio.update_position symbol (neg_ℤ p.quantity) price (pos 0) "" pm).positions
      ≡ erase symbol pm.positions
close-erases symbol p price pm held sized =
    sym (
      update_position-parity symbol (neg_ℤ p.quantity) price (pos 0) "" pm
        (opposite_sized p.quantity sized))
    ∙ update-closing symbol p (neg_ℤ p.quantity) price "" pm.positions held
        (opposite_sum p.quantity)

-- Marking a position at the price it has moves no value.
mark_same :
    (symbol : String) (p : Position) (pm : PortfolioManager)
    → lookup symbol pm.positions ≡ some p
    → total_value (update_market_prices ((symbol, p.current_price) ∷ []) pm) ≡ total_value pm
unfolding market_value
mark_same symbol p pm held =
    cancel_right _ _ (market_value p) (mark_one-value symbol p p.current_price pm held)

close-value :
    (symbol : String) (p : Position) (pm : PortfolioManager)
    → Distinct pm.positions
    → lookup symbol pm.positions ≡ some p
    → is_flat p.quantity ≡ false
    → total_value
        (Portfolio.update_position symbol (neg_ℤ p.quantity) p.current_price (pos 0) "" pm)
      ≡ total_value pm
close-value symbol p pm distinct held sized =
    sym (+ℤ-zero _)
    ∙ ap
        (λ (fee : ℤ).
          total_value
            (Portfolio.update_position symbol (neg_ℤ p.quantity) p.current_price (pos 0) "" pm)
          +ℤ fee)
        (sym (no_fee (neg_ℤ p.quantity)))
    ∙ equity_conserved symbol (neg_ℤ p.quantity) p.current_price (pos 0) "" pm distinct
    ∙ mark_same symbol p pm held
  where
    no_fee : (delta : ℤ) → charged delta (pos 0) ≡ pos 0
    no_fee delta = ground arith

-- Closing a position that has a size and a positive mark takes the symbol out of the book and
-- leaves the book's total value as it was.
pub flatten_position-total_value :
    (symbol : String) (p : Position) (pm : PortfolioManager)
    → Distinct pm.positions
    → lookup symbol pm.positions ≡ some p
    → is_flat p.quantity ≡ false
    → is_pos p.current_price ≡ true
    → let closed = (flatten_position symbol pm).0 in
      (lookup symbol closed.positions ≡ none) × (total_value closed ≡ total_value pm)
unfolding flatten_position
flatten_position-total_value symbol p pm distinct held sized marked = (
  ground (
    arith,
    held,
    marked,
    close-erases symbol p p.current_price pm held sized,
    lookup-erase_self symbol pm.positions,
  ),
  ground (arith, held, marked, close-value symbol p pm distinct held sized),
)
