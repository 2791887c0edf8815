-- ===== src/Portfolio/Equity.antt =====
-- Equity under fills and marks.
use intelligent_trading_syst.Base.{
  weigh-insert_held, weigh-insert_new, weigh-erase, ap, sym, ◌∙◌, +ℤ-zero, ◌≡◌, refl, true, false,
  none, some, [], ◌∷◌, String, Dict, lookup, insert, erase, Distinct, ℤ, pos, ◌+ℤ◌, ◌*ℤ◌, int_laws,
  arith, *ℤ-distrib_right, *ℤ-zero_left, if◌then◌else◌, Bool-cases, Option-cases, inl, inr,
  pos_part, neg_part,
}
use intelligent_trading_syst.Models.{Position, market_value, positions_value, with_current_price}
use intelligent_trading_syst.Portfolio.Sums.{positions_value-weigh}
use intelligent_trading_syst.Portfolio.{
  PortfolioManager, total_value, refresh_drawdown, is_flat, open_position, merged_position,
  apply_fill, pay, update_position, update_market_prices,
}

value-insert_held :
    (symbol : String) (p q : Position) (positions : Dict Position)
    → lookup symbol positions ≡ some q
    → positions_value (insert symbol p positions) +ℤ market_value q
      ≡ positions_value positions +ℤ market_value p
value-insert_held symbol p q positions held =
    simp positions_value-weigh (weigh-insert_held market_value symbol p q positions held)

value-insert_new :
    (symbol : String) (p : Position) (positions : Dict Position)
    → lookup symbol positions ≡ none
    → positions_value (insert symbol p positions) ≡ positions_value positions +ℤ market_value p
value-insert_new symbol p positions new =
    simp positions_value-weigh (weigh-insert_new market_value symbol p positions new)

value-erase :
    (symbol : String) (q : Position) (positions : Dict Position)
    → Distinct positions
    → lookup symbol positions ≡ some q
    → positions_value (erase symbol positions) +ℤ market_value q ≡ positions_value positions
value-erase symbol q positions d held =
    simp positions_value-weigh (weigh-erase market_value symbol q positions d held)

pub refresh-total_value :
    (pm : PortfolioManager) → total_value (refresh_drawdown pm) ≡ total_value pm
unfolding total_value refresh_drawdown
refresh-total_value pm = refl

-- A marked position is worth its quantity at the price.
marked-value :
    (p : Position) (price : ℤ) → market_value (with_current_price p price) ≡ p.quantity *ℤ price
unfolding market_value with_current_price
marked-value p price = refl

flat_product : (q price : ℤ) → is_flat q ≡ true → q *ℤ price ≡ pos 0
flat_product q price h =
    let zero_quantity : q ≡ pos 0 = ground arith in rw zero_quantity (*ℤ-zero_left price)

merged-value :
    (symbol : String) (p : Position) (delta price : ℤ) (sid : String)
    → market_value (merged_position symbol p delta price sid) ≡ (p.quantity +ℤ delta) *ℤ price
unfolding market_value merged_position
merged-value symbol p delta price sid = refl

opened-value :
    (symbol : String) (delta price : ℤ) (sid : String)
    → market_value (open_position symbol delta price sid) ≡ delta *ℤ price
unfolding market_value open_position
opened-value symbol delta price sid = refl

-- The book's part of the statement, for a symbol that is held.
apply_fill-value :
    (symbol : String) (p : Position) (delta price : ℤ) (sid : String) (pm : PortfolioManager)
    → lookup symbol pm.positions ≡ some p
    → Distinct pm.positions
    → positions_value (apply_fill symbol p delta price sid pm).positions +ℤ market_value p
      ≡ positions_value pm.positions +ℤ (p.quantity +ℤ delta) *ℤ price
unfolding apply_fill
apply_fill-value symbol p delta price sid pm held d = grind (
  int_laws,
  flat_product (p.quantity +ℤ delta) price,
  merged-value symbol p delta price sid,
  value-erase symbol p pm.positions,
  value-insert_held symbol (merged_position symbol p delta price sid) p pm.positions,
)

apply_fill-cash :
    (symbol : String) (p : Position) (delta price : ℤ) (sid : String) (pm : PortfolioManager)
    → (apply_fill symbol p delta price sid pm).cash ≡ pm.cash
unfolding apply_fill
apply_fill-cash symbol p delta price sid pm = refl

-- The fee that a fill pays: one of no size pays none.
abbrev pub charged : ℤ → ℤ → ℤ
charged delta fee = if is_flat delta then pos 0 else fee

-- The value of the book with one more price marked.
pub mark_one-value :
    (symbol : String) (p : Position) (price : ℤ) (pm : PortfolioManager)
    → lookup symbol pm.positions ≡ some p
    → total_value (update_market_prices ((symbol, price) ∷ []) pm) +ℤ market_value p
      ≡ total_value pm +ℤ p.quantity *ℤ price
unfolding update_market_prices total_value
mark_one-value symbol p price pm held = grind (
  int_laws,
  marked-value p price,
  value-insert_held symbol (with_current_price p price) p pm.positions,
)

book_new :
    (symbol : String) (delta price fee : ℤ) (sid : String) (pm : PortfolioManager)
    → lookup symbol pm.positions ≡ none
    → total_value (update_position symbol delta price fee sid pm) +ℤ charged delta fee
      ≡ total_value pm
unfolding update_position total_value pay refresh_drawdown
book_new symbol delta price fee sid pm new = grind (
  int_laws,
  opened-value symbol delta price sid,
  value-insert_new symbol (open_position symbol delta price sid) pm.positions,
)

-- What `update_position` comes to for a held symbol and a fill of some size.
pub update_position-trade :
    (symbol : String) (delta price fee : ℤ) (sid : String) (p : Position) (pm : PortfolioManager)
    → lookup symbol pm.positions ≡ some p
    → is_flat delta ≡ false
    → update_position symbol delta price fee sid pm
      ≡ refresh_drawdown (apply_fill symbol p delta price sid (pay delta price fee pm))
unfolding update_position
update_position-trade symbol delta price fee sid p pm held sized = ground arith

pub update_position-flat :
    (symbol : String) (delta price fee : ℤ) (sid : String) (p : Position) (pm : PortfolioManager)
    → lookup symbol pm.positions ≡ some p
    → is_flat delta ≡ true
    → update_position symbol delta price fee sid pm
      ≡ refresh_drawdown (update_market_prices ((symbol, price) ∷ []) pm)
unfolding update_position update_market_prices
update_position-flat symbol delta price fee sid p pm held flat = ground arith

pub update_position-nothing :
    (symbol : String) (delta price fee : ℤ) (sid : String) (pm : PortfolioManager)
    → lookup symbol pm.positions ≡ none
    → is_flat delta ≡ true
    → update_position symbol delta price fee sid pm ≡ refresh_drawdown pm
unfolding update_position
update_position-nothing symbol delta price fee sid pm new flat = ground arith

-- The book after a first fill, before the mark rises.
abbrev pub opened : String → ℤ → ℤ → ℤ → String → PortfolioManager → PortfolioManager
opened symbol delta price fee sid pm =
    let paid = pay delta price fee pm in
    record paid { positions = insert symbol (open_position symbol delta price sid) paid.positions }

pub update_position-open :
    (symbol : String) (delta price fee : ℤ) (sid : String) (pm : PortfolioManager)
    → lookup symbol pm.positions ≡ none
    → is_flat delta ≡ false
    → update_position symbol delta price fee sid pm
      ≡ refresh_drawdown (opened symbol delta price fee sid pm)
unfolding update_position
update_position-open symbol delta price fee sid pm new sized = ground arith

trade-value :
    (symbol : String) (delta price fee : ℤ) (sid : String) (p : Position) (pm : PortfolioManager)
    → Distinct pm.positions
    → lookup symbol pm.positions ≡ some p
    → total_value (apply_fill symbol p delta price sid (pay delta price fee pm))
        +ℤ fee
        +ℤ market_value p
      ≡ total_value pm +ℤ p.quantity *ℤ price
unfolding total_value pay
trade-value symbol delta price fee sid p pm d held = grind (
  int_laws,
  apply_fill-value symbol p delta price sid (pay delta price fee pm) held d,
  apply_fill-cash symbol p delta price sid (pay delta price fee pm),
  *ℤ-distrib_right p.quantity delta price,
)

book_held :
    (symbol : String) (delta price fee : ℤ) (sid : String) (p : Position) (pm : PortfolioManager)
    → Distinct pm.positions
    → lookup symbol pm.positions ≡ some p
    → total_value (update_position symbol delta price fee sid pm)
        +ℤ charged delta fee
        +ℤ market_value p
      ≡ total_value pm +ℤ p.quantity *ℤ price
book_held symbol delta price fee sid p pm d held = elim (Bool-cases (is_flat delta)) [
  | inl flat ↦
      rw
        (
          update_position-flat symbol delta price fee sid p pm held flat,
          flat,
          refresh-total_value,
          +ℤ-zero,
        )
        (mark_one-value symbol p price pm held)
  | inr sized ↦
      rw
        (
          update_position-trade symbol delta price fee sid p pm held sized,
          sized,
          refresh-total_value,
        )
        (trade-value symbol delta price fee sid p pm d held)
]

mark_new :
    (symbol : String) (price : ℤ) (pm : PortfolioManager)
    → lookup symbol pm.positions ≡ none
    → total_value (update_market_prices ((symbol, price) ∷ []) pm) ≡ total_value pm
unfolding total_value update_market_prices
mark_new symbol price pm new = ground arith

pub cancel_right : (a b c : ℤ) → a +ℤ c ≡ b +ℤ c → a ≡ b
cancel_right a b c h = omega (int_laws, ap pos_part h, ap neg_part h)

-- Equity through a fill: the book is worth what it would be worth if the fill's price were only
-- marked, less the fee. Nothing is gained or lost by the trade itself, whether it opens, adds to,
-- reduces, closes or flips the position.
pub equity_conserved :
    (symbol : String) (delta price fee : ℤ) (sid : String) (pm : PortfolioManager)
    → Distinct pm.positions
    → total_value (update_position symbol delta price fee sid pm) +ℤ charged delta fee
      ≡ total_value (update_market_prices ((symbol, price) ∷ []) pm)
equity_conserved symbol delta price fee sid pm d =
    elim (Option-cases (lookup symbol pm.positions)) [
      | inl new ↦ book_new symbol delta price fee sid pm new ∙ sym (mark_new symbol price pm new)
      | inr (p, held) ↦ cancel_right _ _ (market_value p) (
          book_held symbol delta price fee sid p pm d held
          ∙ sym (mark_one-value symbol p price pm held))
    ]
