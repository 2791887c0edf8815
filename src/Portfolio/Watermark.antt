-- ===== src/Portfolio/Watermark.antt =====
-- The high-water mark: peak and drawdown after the methods that move money, positions or marks.
use intelligent_trading_syst.Base.{
  List, lookup, Option-cases, Bool-cases, inl, inr, refl, ◌≡◌, Bool, true, false, [], ◌∷◌, String,
  Dict, ℤ, ◌-ℤ◌, ◌≤ℤ◌, is_pos, pos_part, arith,
}
use intelligent_trading_syst.Models.{Position}
use intelligent_trading_syst.Portfolio.{
  is_flat, PortfolioManager, total_value, refresh_drawdown, set_position, update_position,
  mark_to_market, update_cash, apply_fill, pay, update_market_prices, set_capital_baseline,
}
use intelligent_trading_syst.Portfolio.Equity.{
  update_position-nothing, update_position-open, opened, update_position-flat,
  update_position-trade,
}

-- The equity is not above the peak, and the drawdown is their distance over the peak.
pub record IsMarked (pm : PortfolioManager) : Type 0 where
  pub below_peak : total_value pm ≤ℤ pm.peak_equity
  pub distance :
      is_pos pm.peak_equity ≡ true
      → (pm.current_drawdown.num ≡ total_value pm -ℤ pm.peak_equity)
        × (pm.current_drawdown.den ≡ pos_part pm.peak_equity)

refresh-IsMarked : (pm : PortfolioManager) → IsMarked (refresh_drawdown pm)
unfolding refresh_drawdown total_value
refresh-IsMarked pm = ground arith

refresh-peak-le : (pm : PortfolioManager) → pm.peak_equity ≤ℤ (refresh_drawdown pm).peak_equity
unfolding refresh_drawdown
refresh-peak-le pm = ground arith

-- What a method that ends in `_refresh_drawdown` gives: a marked book whose peak did not fall.
abbrev Rises : PortfolioManager → PortfolioManager → Type 0
Rises pm pm' = IsMarked pm' × (pm.peak_equity ≤ℤ pm'.peak_equity)

refresh-Rises :
    (pm pm' : PortfolioManager) → pm.peak_equity ≡ pm'.peak_equity → Rises pm (refresh_drawdown pm')
refresh-Rises pm pm' e = (refresh-IsMarked pm', rw e (refresh-peak-le pm'))

-- The methods of the book that move money, positions or marks. `price_move` is
-- `update_market_prices`, which leaves the peak and the drawdown as they are.
pub data Move : Type 0 where
  set_move : String → Position → Move
  fill_move : String → ℤ → ℤ → ℤ → String → Move
  mark_move : Dict ℤ → Move
  price_move : Dict ℤ → Move
  cash_move : ℤ → Move
  baseline_move : ℤ → Move

unfoldable pub apply : Move → PortfolioManager → PortfolioManager
apply (set_move symbol p) pm = set_position symbol p pm
apply (fill_move symbol delta price fee sid) pm = update_position symbol delta price fee sid pm
apply (mark_move prices) pm = mark_to_market prices pm
apply (price_move prices) pm = update_market_prices prices pm
apply (cash_move amount) pm = update_cash amount pm
apply (baseline_move capital) pm = set_capital_baseline capital pm

unfoldable pub run : List Move → PortfolioManager → PortfolioManager
unfolding apply
run [] pm = pm
run (move ∷ moves) pm = run moves (apply move pm)

-- The moves that end in `_refresh_drawdown`.
abbrev pub is_refreshing : Move → Bool
is_refreshing (price_move prices) = false
is_refreshing (baseline_move capital) = false
is_refreshing _ = true

-- No move sets the capital baseline.
abbrev pub keep_baseline : List Move → Bool
keep_baseline [] = true
keep_baseline (baseline_move capital ∷ moves) = false
keep_baseline (_ ∷ moves) = keep_baseline moves

fill-Rises :
    (symbol : String) (delta price fee : ℤ) (sid : String) (pm : PortfolioManager)
    → Rises pm (update_position symbol delta price fee sid pm)
unfolding apply_fill pay update_market_prices
fill-Rises symbol delta price fee sid pm = elim (Option-cases (lookup symbol pm.positions)) [
  | inl new ↦ elim (Bool-cases (is_flat delta)) [
    | inl flat ↦
        rw (update_position-nothing symbol delta price fee sid pm new flat)
          (refresh-Rises pm pm refl)
    | inr sized ↦
        rw (update_position-open symbol delta price fee sid pm new sized)
          (refresh-Rises pm (opened symbol delta price fee sid pm) refl)
  ]
  | inr (p, held) ↦ elim (Bool-cases (is_flat delta)) [
    | inl flat ↦
        rw (update_position-flat symbol delta price fee sid p pm held flat)
          (refresh-Rises pm (update_market_prices ((symbol, price) ∷ []) pm) refl)
    | inr sized ↦
        rw (update_position-trade symbol delta price fee sid p pm held sized)
          (refresh-Rises pm (apply_fill symbol p delta price sid (pay delta price fee pm)) refl)
  ]
]

apply-Rises :
    (move : Move) (pm : PortfolioManager) → is_refreshing move ≡ true → Rises pm (apply move pm)
unfolding apply set_position mark_to_market update_cash update_market_prices
apply-Rises (set_move symbol p) pm h = refresh-Rises pm _ refl
apply-Rises (fill_move symbol delta price fee sid) pm h = fill-Rises symbol delta price fee sid pm
apply-Rises (mark_move prices) pm h = refresh-Rises pm (update_market_prices prices pm) refl
apply-Rises (price_move prices) pm h = ground (arith, h)
apply-Rises (cash_move amount) pm h = refresh-Rises pm _ refl
apply-Rises (baseline_move capital) pm h = ground (arith, h)

apply-peak-le :
    (move : Move) (moves : List Move) (pm : PortfolioManager)
    → keep_baseline (move ∷ moves) ≡ true
    → (pm.peak_equity ≤ℤ (apply move pm).peak_equity) × (keep_baseline moves ≡ true)
unfolding apply update_market_prices
apply-peak-le (set_move symbol p) moves pm h = ((apply-Rises (set_move symbol p) pm refl).1, h)
apply-peak-le (fill_move symbol delta price fee sid) moves pm h =
    ((apply-Rises (fill_move symbol delta price fee sid) pm refl).1, h)
apply-peak-le (mark_move prices) moves pm h = ((apply-Rises (mark_move prices) pm refl).1, h)
apply-peak-le (price_move prices) moves pm h = (omega arith, h)
apply-peak-le (cash_move amount) moves pm h = ((apply-Rises (cash_move amount) pm refl).1, h)
apply-peak-le (baseline_move capital) moves pm h = ground (arith, h)

run-peak-le :
    (moves : List Move) (pm : PortfolioManager)
    → keep_baseline moves ≡ true
    → pm.peak_equity ≤ℤ (run moves pm).peak_equity
unfolding run
run-peak-le [] pm h = omega arith
run-peak-le (move ∷ moves) pm h =
    let (rose, kept) = apply-peak-le move moves pm h in
    let rose' = run-peak-le moves (apply move pm) kept in omega arith

-- After any moves of the book, resets of the capital baseline and marks that do not refresh among
-- them, and then a sync, a fill, a mark to market or a deposit or withdrawal, the equity is at or
-- below the peak, with the drawdown as their distance over a positive peak. The peak has not
-- fallen if no move set the baseline.
pub run-IsMarked :
    (moves : List Move) (move : Move) (pm : PortfolioManager)
    → is_refreshing move ≡ true
    → IsMarked (apply move (run moves pm))
      × (keep_baseline moves ≡ true → pm.peak_equity ≤ℤ (apply move (run moves pm)).peak_equity)
run-IsMarked moves move pm refreshing =
    let (marked, rose) = apply-Rises move (run moves pm) refreshing in
    (marked, λ kept. let rose' = run-peak-le moves pm kept in omega arith)
