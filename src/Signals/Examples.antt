-- ===== src/Signals/Examples.antt =====
-- Votes and sizes on concrete signals, and instances of the theorems.
use mathlib.Core.List.Perm
use intelligent_trading_syst.Base.{
  ◌+◌, ◌*◌, ◌≤◌, ◌≡◌, refl, arith, none, some, [], ◌∷◌, lookup, pos, ◌+ℤ◌, ◌*ℤ◌, div_ℤ, pos_part,
  ◌⊎◌, keep_if, strip, strip_left, strip_right, is_space,
}
use intelligent_trading_syst.Models.{
  Direction, Portfolio, Signal, portfolio_value, positions_value, market_value,
}
use intelligent_trading_syst.Models.Strategies.{strategy_id_constituents, split_commas}
use intelligent_trading_syst.Portfolio.Examples.{btc}
use intelligent_trading_syst.Checkpoint.Sorting.{before}
use intelligent_trading_syst.Signals.Generator.{
  consolidate_signals, consolidated, tally, vote, weight_of, insert_name, average_strength, join,
}
use intelligent_trading_syst.Signals.Votes.{verdict}
use intelligent_trading_syst.Signals.Sizer.{
  Method, PositionSizer, size_order, base_notional, kelly_base_notional, blend_win_rate,
  matched_rates, clamped_target, vol_target_notional, realized_vol, known_returns,
  existing_notional, net_of_fees, round_cents,
}
use intelligent_trading_syst.Signals.Caps.{limit, size_order-bounded}

abbrev pub trend : Signal
trend = record {
  symbol = "BTC/USDT";
  direction = Direction.long;
  strength = pos 1000000;
  price = pos 110;
  strategy_id = "trend";
  timestamp = 0;
}

abbrev carry : Signal
carry = record trend { direction = Direction.short; strength = pos 500000; strategy_id = "carry" }

-- The stronger signal wins, and its strength is the mean with the weights: (1·0.5 + 0.5·0.25)/0.75.
vote_run :
    verdict (consolidate_signals [] (trend ∷ carry ∷ []))
    ≡ some (Direction.long, pos 833333, "carry,trend")
unfolding consolidate_signals consolidated tally vote weight_of insert_name average_strength join
    before lookup ◌*ℤ◌ ◌+ℤ◌ div_ℤ
vote_run = refl

abbrev pub sizer : PositionSizer
sizer = record {
  method = Method.fixed;
  kelly_fraction = 500000;
  fixed_pct = 900000;
  max_position_pct = 200000;
  min_order_notional = 10;
  fee_rate = 1000;
  vol_target_pct = none;
  vol_window = 30;
  returns_history = [];
  cent = 100;
}

abbrev account : Portfolio
account = record {
  cash = pos 98900;
  positions = ("BTC/USDT", btc) ∷ [];
  current_drawdown = record { num = pos 0; den = 1 };
  realized_pnl = pos 0;
  daily_baseline = none;
  pending_exposure = pos 0;
}

-- The account is worth 100,000: the cap of 20,000 less the 1,100 that are held, and less the fees.
size_run :
    size_order
      (λ returns. 0)
      sizer
      trend
      account
      (pos 500000)
      (pos 2000000)
      []
      (pos 1000000)
      (pos 1000000)
    ≡ 18900
unfolding size_order base_notional kelly_base_notional blend_win_rate matched_rates clamped_target
    vol_target_notional realized_vol known_returns existing_notional net_of_fees round_cents
    portfolio_value positions_value market_value strategy_id_constituents split_commas strip
    strip_left strip_right is_space keep_if lookup ◌*ℤ◌ ◌+ℤ◌ div_ℤ
size_run = refl

size_order-bounded_example :
    let size =
      size_order
        (λ returns. 0)
        sizer
        trend
        account
        (pos 500000)
        (pos 2000000)
        []
        (pos 1000000)
        (pos 1000000) in
    (size ≡ 0)
    ⊎ ((existing_notional trend account.positions + size) * 2
        ≤ limit (λ returns. 0) sizer (pos_part (portfolio_value account)) * 2 + 100)
size_order-bounded_example =
    size_order-bounded (λ returns. 0) sizer trend account (pos 500000) (pos 2000000) []
      (pos 1000000) (pos 1000000) (omega arith)
