-- ===== src/Portfolio/Examples.antt =====
-- Portfolio manager: test data, runs of the definitions and instances of the theorems.
use intelligent_trading_syst.Base.{
  true, is_space, ◌≡◌, refl, none, some, [], ◌∷◌, lookup, insert, erase, pos, negsuc, ◌+ℤ◌, ◌-ℤ◌,
  ◌*ℤ◌, ◌≤ℤ◌, div_ℤ,
}
use intelligent_trading_syst.Models.{Position}
use intelligent_trading_syst.Models.Strategies.{strategy_id_constituents}
use intelligent_trading_syst.Portfolio.{
  PendingEntry, PortfolioManager, total_value, update_position, update_market_prices,
  refresh_drawdown, apply_fill, merged_position, average_price, realized_by, closing_quantity,
  leg_sign, pay,
}
use intelligent_trading_syst.Portfolio.Equity.{equity_conserved}
use intelligent_trading_syst.Portfolio.Basis.{basis, realized_exact}
use intelligent_trading_syst.Portfolio.Watermark
use intelligent_trading_syst.Portfolio.Watermark.{
  fill_move, price_move, baseline_move, keep_baseline, apply, IsMarked, run-IsMarked,
}
use intelligent_trading_syst.Portfolio.Allocation.{get_strategy_allocation}

abbrev pub btc : Position
btc = record {
  symbol = "BTC/USDT";
  quantity = pos 10;
  entry_price = pos 100;
  current_price = pos 110;
  unrealized_pnl = pos 100;
  strategy_id = "trend";
}

abbrev entry : PendingEntry
entry = record {
  symbol = "BTC/USDT";
  notional = pos 500;
  strategy_id = "trend";
  reserved_at_ms = 1000;
}

abbrev pub book : PortfolioManager
book = record {
  initial_capital = pos 5000;
  cash = pos 4000;
  positions = ("BTC/USDT", btc) ∷ [];
  peak_equity = pos 5100;
  current_drawdown = record { num = pos 0; den = 1 };
  allocation = ("trend", pos 600000) ∷ ("momentum", pos 400000) ∷ [];
  realized_pnl = pos 0;
  daily_baseline = none;
  pending = ("a", entry) ∷ [];
  strategy_returns = [];
  symbol_returns = [];
  symbol_allocation = [];
}

-- A sale of 25 at 120 flips the long of 10 into a short of 15, entered at the fill's price.
flip :
    let pm = update_position "BTC/USDT" (negsuc 24) (pos 120) (pos 3) "trend" book in
    (pm.cash ≡ pos 6997)
    × (pm.realized_pnl ≡ pos 200)
    × (lookup "BTC/USDT" pm.positions
        ≡ some (record {
          symbol = "BTC/USDT";
          quantity = negsuc 14;
          entry_price = pos 120;
          current_price = pos 120;
          unrealized_pnl = pos 0;
          strategy_id = "trend";
        }))
unfolding update_position apply_fill merged_position average_price realized_by closing_quantity
    leg_sign pay refresh_drawdown lookup insert erase ◌+ℤ◌ ◌-ℤ◌ ◌*ℤ◌ div_ℤ
flip = (refl, refl, refl)

constituents : strategy_id_constituents " trend,, momentum" ≡ "trend" ∷ "momentum" ∷ []
unfolding strategy_id_constituents is_space
constituents = refl

joined_weight : get_strategy_allocation "momentum,trend" book ≡ pos 1000000
unfolding get_strategy_allocation lookup ◌+ℤ◌ is_space
joined_weight = refl

equity_conserved_example :
    total_value (update_position "BTC/USDT" (negsuc 24) (pos 120) (pos 3) "trend" book) +ℤ pos 3
    ≡ total_value (update_market_prices (("BTC/USDT", pos 120) ∷ []) book)
unfolding lookup
equity_conserved_example =
    equity_conserved "BTC/USDT" (negsuc 24) (pos 120) (pos 3) "trend" book (refl, tt)

realized_exact_example :
    basis (update_position "BTC/USDT" (negsuc 3) (pos 120) (pos 3) "trend" book) +ℤ pos 3
    ≡ basis book
unfolding lookup
realized_exact_example =
    realized_exact "BTC/USDT" btc (negsuc 3) (pos 120) (pos 3) "trend" book (refl, tt) refl refl
      refl

run-IsMarked_example :
    let before = baseline_move (pos 5000) ∷ price_move (("BTC/USDT", pos 500) ∷ []) ∷ [] in
    let fill = fill_move "BTC/USDT" (pos 0) (pos 500) (pos 0) "" in
    IsMarked (apply fill (Watermark.run before book))
    × (keep_baseline before ≡ true
        → book.peak_equity ≤ℤ (apply fill (Watermark.run before book)).peak_equity)
run-IsMarked_example =
    run-IsMarked (baseline_move (pos 5000) ∷ price_move (("BTC/USDT", pos 500) ∷ []) ∷ [])
      (fill_move "BTC/USDT" (pos 0) (pos 500) (pos 0) "") book refl
