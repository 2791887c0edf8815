-- ===== src/Portfolio/Allocation.antt =====
-- Allocation weights and return histories of the portfolio manager
-- (quantflow/signal/portfolio.py). Weights are in millionths.
use mathlib.Core.List.{tail}
use intelligent_trading_syst.Base.{
  Bool-cases, inl, inr, ℕ, ◌+◌, ◌≤◌, ◌<◌, ◌≡◌, refl, Option, none, some, List, [], ◌∷◌, ◌++◌,
  String, Dict, lookup, insert, ℤ, pos, ◌+ℤ◌, ◌*ℤ◌, div_ℤ, length, length-append, ltb, leb, ◌==◌,
  arith, if◌then◌else◌, lookup-insert, eq_iff,
}
use intelligent_trading_syst.Models.Strategies.{strategy_id_constituents}
use intelligent_trading_syst.Portfolio.{ReturnHistory, PortfolioManager}

abbrev pub unit_weight : ℕ
unit_weight = 1000000

unfoldable pub set_allocation : Dict ℤ → PortfolioManager → PortfolioManager
set_allocation allocation pm = record pm { allocation = allocation }

unfoldable pub set_symbol_allocation : Dict ℤ → PortfolioManager → PortfolioManager
set_symbol_allocation allocation pm = record pm { symbol_allocation = allocation }

abbrev weight_of : String → Dict ℤ → ℤ
weight_of key weights = elim (lookup key weights) [ none ↦ pos 0 | some w ↦ w ]

-- `sum(allocation.get(c, 0.0) for c in constituents)`
unfoldable pub sum_weights : List String → Dict ℤ → ℤ
sum_weights [] weights = pos 0
sum_weights (c ∷ cs) weights = weight_of c weights +ℤ sum_weights cs weights

unfoldable pub get_strategy_allocation : String → PortfolioManager → ℤ
unfolding sum_weights strategy_id_constituents
get_strategy_allocation strategy_id pm =
    if strategy_id == "" then pos 0 else elim (strategy_id_constituents strategy_id) [
      | [] ↦ weight_of strategy_id pm.allocation
      | c ∷ cs ↦ sum_weights (c ∷ cs) pm.allocation
    ]

unfoldable pub get_symbol_allocation : String → PortfolioManager → ℤ
get_symbol_allocation symbol pm = elim pm.symbol_allocation [
  | [] ↦ pos unit_weight
  | _ ↦ weight_of symbol pm.symbol_allocation
]

unfoldable pub get_allocation_for_signal : String → String → PortfolioManager → ℤ
unfolding get_strategy_allocation get_symbol_allocation
get_allocation_for_signal strategy_id symbol pm = elim pm.symbol_allocation [
  | [] ↦ get_strategy_allocation strategy_id pm
  | _ ↦
      div_ℤ (get_strategy_allocation strategy_id pm *ℤ get_symbol_allocation symbol pm) unit_weight
]

-- `bucket.append(x)`: a full deque drops its oldest item.
unfoldable pub append : ℤ → ReturnHistory → ReturnHistory
append x h = record h {
  items = if ltb (length h.items) h.maxlen then h.items ++ x ∷ [] else tail h.items ++ x ∷ [];
}

abbrev new_history : ℕ → ReturnHistory
new_history window = record { maxlen = if leb 2 window then window else 2; items = [] }

-- The shared body of `add_strategy_return` and `add_symbol_return`.
unfoldable pub add_return : String → ℤ → ℕ → Dict ReturnHistory → Dict ReturnHistory
unfolding append
add_return key ret window histories = if key == "" then histories else elim (lookup key histories) [
  | none ↦ insert key (append ret (new_history window)) histories
  | some bucket ↦ insert key (append ret bucket) histories
]

unfoldable pub add_strategy_return : String → ℤ → ℕ → PortfolioManager → PortfolioManager
unfolding add_return
add_strategy_return strategy_id ret window pm = record pm {
  strategy_returns = add_return strategy_id ret window pm.strategy_returns;
}

unfoldable pub add_symbol_return : String → ℤ → ℕ → PortfolioManager → PortfolioManager
unfolding add_return
add_symbol_return symbol ret window pm = record pm {
  symbol_returns = add_return symbol ret window pm.symbol_returns;
}

-- Every history is within its bound, which is two or more.
abbrev pub AreBounded : Dict ReturnHistory → Type 0
AreBounded histories =
    (key : String) (h : ReturnHistory)
    → lookup key histories ≡ some h
    → (length h.items ≤ h.maxlen) × (2 ≤ h.maxlen)

length-tail : (xs : List ℤ) → 0 < length xs → length (tail xs) + 1 ≡ length xs
length-tail [] h = absurd (omega arith)
length-tail (x ∷ xs) h = omega arith

append_bound :
    (x : ℤ) (h : ReturnHistory)
    → length h.items ≤ h.maxlen
    → 2 ≤ h.maxlen
    → (length (append x h).items ≤ (append x h).maxlen) × (2 ≤ (append x h).maxlen)
unfolding append
append_bound x h fits two = ground (
  arith,
  length-append h.items (x ∷ []),
  length-append (tail h.items) (x ∷ []),
  length-tail h.items,
)

insert-AreBounded :
    (key : String) (h : ReturnHistory) (histories : Dict ReturnHistory)
    → length h.items ≤ h.maxlen
    → 2 ≤ h.maxlen
    → AreBounded histories
    → AreBounded (insert key h histories)
insert-AreBounded key h histories fits two all =
    λ k g found. ground (arith, eq_iff key k, lookup-insert key k h histories, all k g)

-- A recorded return keeps every history within its bound, whatever the window asked for.
pub add_return-AreBounded :
    (key : String) (ret : ℤ) (window : ℕ) (histories : Dict ReturnHistory)
    → AreBounded histories
    → AreBounded (add_return key ret window histories)
unfolding add_return
add_return-AreBounded key ret window histories all = elim (Bool-cases (key == "")) [
  | inl nameless ↦ rw nameless all
  | inr named ↦ rw named (go (lookup key histories) refl)
]
  where
    go :
        (found : Option ReturnHistory)
        → lookup key histories ≡ found
        → AreBounded (elim found [
          | none ↦ insert key (append ret (new_history window)) histories
          | some bucket ↦ insert key (append ret bucket) histories
        ])
    go none missing =
        let (fits, two) = append_bound ret (new_history window) (omega arith) (ground arith) in
        insert-AreBounded key _ histories fits two all
    go (some bucket) held =
        let (fits, two) = append_bound ret bucket (all key bucket held).0 (all key bucket held).1 in
        insert-AreBounded key _ histories fits two all
