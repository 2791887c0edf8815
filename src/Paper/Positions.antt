-- ===== src/Paper/Positions.antt =====
-- The local position view of the paper gateway (`_update_position`).
use intelligent_trading_syst.Base.{
  ◌&&◌, ◌||◌, none, some, String, Dict, lookup, insert, erase, ℤ, pos, ◌+ℤ◌, ◌-ℤ◌, ◌*ℤ◌, abs,
  is_pos, is_neg, div_ℤ, ◌==◌, if◌then◌else◌,
}
use intelligent_trading_syst.Models.{Position}
use intelligent_trading_syst.Portfolio.{is_flat}

-- The entry price of `_update_position` after a fill that leaves `new_qty`.
unfoldable pub average_price : Position → ℤ → ℤ → ℤ → ℤ
average_price p quantity price new_qty =
    if is_pos quantity && is_pos p.quantity || is_neg quantity && is_neg p.quantity
    then div_ℤ (p.entry_price *ℤ pos (abs p.quantity) +ℤ price *ℤ pos (abs quantity)) (abs new_qty)
    else if is_neg (p.quantity *ℤ new_qty)
    then price
    else p.entry_price

unfoldable pub moved_position : String → Position → ℤ → ℤ → String → Position
unfolding average_price
moved_position symbol p quantity price strategy_id =
    let new_qty = p.quantity +ℤ quantity in
    let average = average_price p quantity price new_qty in
    record {
      symbol = symbol;
      quantity = new_qty;
      entry_price = average;
      current_price = price;
      unrealized_pnl = (price -ℤ average) *ℤ new_qty;
      strategy_id = if p.strategy_id == "" then strategy_id else p.strategy_id;
    }

unfoldable pub update_position : String → ℤ → ℤ → String → Dict Position → Dict Position
update_position symbol quantity price strategy_id positions = elim (lookup symbol positions) [
  | none ↦
      if is_flat quantity
      then positions
      else insert symbol
          (record {
            symbol = symbol;
            quantity = quantity;
            entry_price = price;
            current_price = price;
            unrealized_pnl = pos 0;
            strategy_id = strategy_id;
          })
          positions
  | some p ↦
      if is_flat (p.quantity +ℤ quantity)
      then erase symbol positions
      else insert symbol (moved_position symbol p quantity price strategy_id) positions
]

abbrev pub held_quantity : String → Dict Position → ℤ
held_quantity symbol positions = elim (lookup symbol positions) [
  | none ↦ pos 0
  | some p ↦ p.quantity
]
