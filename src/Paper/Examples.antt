-- ===== src/Paper/Examples.antt =====
-- Paper gateway: test data, runs of the definitions and instances of the theorems.
use intelligent_trading_syst.Base.{
  ◌≡◌, ◌⊎◌, refl, true, false, none, some, List, [], ◌∷◌, lookup, ℤ, pos, negsuc, neg_ℤ,
}
use intelligent_trading_syst.Models.{sell, Order, OrderStatus}
use intelligent_trading_syst.Portfolio.Examples.{btc, book}
use intelligent_trading_syst.Paper.State.{PaperConfig, PaperGateway, init, update_orderbook}
use intelligent_trading_syst.Paper.Positions.{held_quantity}
use intelligent_trading_syst.Paper.Send.{send_order}
use intelligent_trading_syst.Paper.Reduce.{Shrinks, reduce_only-Shrinks}
use intelligent_trading_syst.Paper.Parity.{Fill, view_fills, book_fills, views_agree}

abbrev pub config : PaperConfig
config = record {
  slippage = pos 1000;
  taker_fee = pos 1000;
  partial_fill_ratio = none;
  orderbook_fill_enabled = false;
  extra_slippage = pos 0;
  bbo_max_age = pos 0;
}

-- A gateway that holds a long of 10.
abbrev pub gateway : PaperGateway
gateway = record {
  slippage = 1000;
  taker_fee = 1000;
  partial_fill_ratio = none;
  orderbook_fill_enabled = false;
  orderbook_extra_slip = 0;
  bbo_max_age = 0;
  positions = ("BTC/USDT", btc) ∷ [];
  order_counter = 4;
  prices = ("BTC/USDT", pos 20000) ∷ [];
  bbo = [];
  bbo_ts = [];
}

abbrev pub sale : ℤ → Order
sale quantity = record {
  order_id = "";
  symbol = "BTC/USDT";
  side = sell;
  order_type = "market";
  quantity = quantity;
  price = none;
  status = OrderStatus.created;
  filled_quantity = pos 0;
  filled_price = pos 0;
  fee = pos 0;
  strategy_id = "trend";
  created_at = 0;
  applied_filled_qty = pos 0;
  params = ("reduceOnly", true) ∷ [];
}

starts_empty : (init config).positions ≡ []
unfolding init
starts_empty = refl

-- A crossed book is ignored.
crossed : update_orderbook "BTC/USDT" (pos 7) (pos 6) true 5 gateway ≡ gateway
unfolding update_orderbook
crossed = refl

reduce_only-Shrinks_example :
    (send_order 0 (sale (pos 25)) gateway ≡ none)
    ⊎ ((sent : PaperGateway × Order) × (send_order 0 (sale (pos 25)) gateway ≡ some sent)
        × Shrinks (pos 10) (held_quantity "BTC/USDT" sent.0.positions))
unfolding lookup neg_ℤ
reduce_only-Shrinks_example = reduce_only-Shrinks 0 (sale (pos 25)) gateway refl refl

views_agree_example :
    let fills : List Fill =
      record {
        symbol = "BTC/USDT";
        delta = negsuc 24;
        price = pos 120;
        fee = pos 3;
        strategy_id = "trend";
      }
      ∷ record {
        symbol = "ETH/USDT";
        delta = pos 8;
        price = pos 30;
        fee = pos 1;
        strategy_id = "trend";
      }
      ∷ [] in
    view_fills fills (("BTC/USDT", btc) ∷ []) ≡ (book_fills fills book).positions
views_agree_example =
    views_agree
      (record {
        symbol = "BTC/USDT";
        delta = negsuc 24;
        price = pos 120;
        fee = pos 3;
        strategy_id = "trend";
      }
        ∷ record {
          symbol = "ETH/USDT";
          delta = pos 8;
          price = pos 30;
          fee = pos 1;
          strategy_id = "trend";
        }
        ∷ [])
      book (refl, (refl, tt))
