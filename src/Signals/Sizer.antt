-- ===== src/Signals/Sizer.antt =====
-- `PositionSizer` (quantflow/signal/position_sizer.py). Rates and strengths are in millionths and
-- money in lot-ticks, `cent` of them to a cent. The rates of the configuration and the clamped
-- factors are not negative, so that the notional is a natural number. The standard deviation of
-- the returns, annualized, comes as a function.
use intelligent_trading_syst.Base.{
  ℕ, ◌+◌, ◌-◌, ◌*◌, ◌/◌, ◌%◌, Bool, false, not, ◌||◌, Option, none, some, List, [], ◌∷◌, ◌++◌,
  String, Dict, lookup, ℤ, pos, ◌+ℤ◌, ◌*ℤ◌, div_ℤ, is_pos, is_neg, abs, pos_part, ltb, leb, length,
  zero, suc, if◌then◌else◌,
}
use intelligent_trading_syst.Models.{Direction, Position, Portfolio, Signal, portfolio_value}
use intelligent_trading_syst.Models.Strategies.{strategy_id_constituents}

pub data Method : Type 0 where
  kelly fixed risk_parity : Method

abbrev pub million : ℕ
million = 1000000

-- A return of `none` is NaN. The latest return stands last.
pub record PositionSizer : Type 0 where
  pub method : Method
  pub kelly_fraction : ℕ
  pub fixed_pct : ℕ
  pub max_position_pct : ℕ
  pub min_order_notional : ℕ
  pub fee_rate : ℕ
  pub vol_target_pct : Option ℕ
  pub vol_window : ℕ
  pub returns_history : List (Option ℤ)
  pub cent : ℕ

-- `max(vol_window, 2)`, the length of the deque.
abbrev pub history_length : PositionSizer → ℕ
history_length z = if leb z.vol_window 2 then 2 else z.vol_window

-- The first item goes.
abbrev pub without_first : List (Option ℤ) → List (Option ℤ)
without_first [] = []
without_first (x ∷ xs) = xs

unfoldable pub push_return : Option ℤ → PositionSizer → PositionSizer
push_return ret z = record z {
  returns_history =
      (if leb (history_length z) (length z.returns_history)
        then without_first z.returns_history
        else z.returns_history)
      ++ (ret ∷ []);
}

unfoldable pub reset_returns : PositionSizer → PositionSizer
reset_returns z = record z { returns_history = [] }

-- The returns that are numbers.
unfoldable pub known_returns : List (Option ℤ) → List ℤ
known_returns [] = []
known_returns (none ∷ xs) = known_returns xs
known_returns (some r ∷ xs) = r ∷ known_returns xs

-- `_realized_vol`, given the annualized standard deviation of a list of returns.
unfoldable pub realized_vol : (List ℤ → ℕ) → PositionSizer → Option ℕ
unfolding known_returns
realized_vol deviation z = elim z.vol_target_pct [
  | none ↦ none
  | some target ↦
      if ltb (length z.returns_history) z.vol_window
        || ltb (length (known_returns z.returns_history)) 2
      then none
      else some (deviation (known_returns z.returns_history))
]

unfoldable pub vol_target_notional : (List ℤ → ℕ) → PositionSizer → ℕ → Option ℕ
unfolding realized_vol
vol_target_notional deviation z total = elim (realized_vol deviation z) [
  | none ↦ none
  | some zero ↦ none
  | some (suc vol) ↦ elim z.vol_target_pct [
    | none ↦ none
    | some target ↦ some (total * target / suc vol)
  ]
]

-- The rates of the constituents that have one.
unfoldable pub matched_rates : Dict ℤ → List String → List ℤ
matched_rates rates [] = []
matched_rates rates (c ∷ cs) = elim (lookup c rates) [
  | none ↦ matched_rates rates cs
  | some rate ↦ rate ∷ matched_rates rates cs
]

abbrev pub sum_ℤ : List ℤ → ℤ
sum_ℤ [] = pos 0
sum_ℤ (x ∷ xs) = x +ℤ sum_ℤ xs

abbrev pub constituents_or_self : String → List String → List String
constituents_or_self sid [] = sid ∷ []
constituents_or_self sid (c ∷ cs) = c ∷ cs

unfoldable pub blend_win_rate : String → ℤ → Dict ℤ → ℤ
unfolding matched_rates
blend_win_rate sid default rates =
    elim (matched_rates rates (constituents_or_self sid (strategy_id_constituents sid))) [
      | [] ↦ default
      | rate ∷ more ↦ div_ℤ (sum_ℤ (rate ∷ more)) (length (rate ∷ more))
    ]

-- `max(low, min(x, high))`
abbrev pub clamp : ℕ → ℕ → ℤ → ℕ
clamp low high x =
    if ltb (pos_part x) low then low else if ltb high (pos_part x) then high else pos_part x

unfoldable pub kelly_base_notional : PositionSizer → ℕ → ℤ → ℤ → ℕ
kelly_base_notional z total win_rate win_loss_ratio =
    let p = clamp 10000 990000 win_rate in
    let q = (million - p) * million in
    let b = if ltb (pos_part win_loss_ratio) 10000 then 10000 else pos_part win_loss_ratio in
    if leb (p * b) q then 0 else total * z.kelly_fraction * ((p * b - q) / b) / (million * million)

unfoldable pub base_notional : PositionSizer → ℕ → ℤ → ℤ → ℕ
unfolding kelly_base_notional
base_notional z total win_rate win_loss_ratio = elim z.method [
  | fixed ↦ total * z.fixed_pct / million
  | risk_parity ↦ total
  | kelly ↦ kelly_base_notional z total win_rate win_loss_ratio
]

abbrev pub min_ℕ : ℕ → ℕ → ℕ
min_ℕ a b = if leb a b then a else b

abbrev pub capped_by : Option ℕ → ℕ → ℕ
capped_by none target = target
capped_by (some cap) target = min_ℕ target cap

-- `total_value * max_position_pct`
abbrev pub max_notional : PositionSizer → ℕ → ℕ
max_notional z total = total * z.max_position_pct / million

-- Whether the position is on the side of the signal.
abbrev pub is_same_direction : Position → Direction → Bool
is_same_direction p Direction.long = is_pos p.quantity
is_same_direction p Direction.flat = false
is_same_direction p Direction.short = is_neg p.quantity

-- The value of the position in the symbol that the signal adds to.
unfoldable pub existing_notional : Signal → Dict Position → ℕ
existing_notional signal positions = elim (lookup signal.symbol positions) [
  | none ↦ 0
  | some p ↦ if is_same_direction p signal.direction then abs (p.quantity *ℤ p.current_price) else 0
]

-- `round(target, 2)`: to the nearest cent, and from the middle to the even one.
unfoldable pub round_cents : ℕ → ℕ → ℕ
round_cents cent target =
    let cents = target / cent in
    let rest = target % cent * 2 in
    let up = if ltb rest cent then 0 else if ltb cent rest then 1 else cents % 2 in
    (cents + up) * cent

-- The fees of both ways, the smallest order, and the cents.
unfoldable pub net_of_fees : PositionSizer → ℕ → ℕ
unfolding round_cents
net_of_fees z target =
    let left = target - target * z.fee_rate * 2 / million in
    if ltb left z.min_order_notional then 0 else round_cents z.cent left

unfoldable pub clamped_target : (List ℤ → ℕ) → PositionSizer → ℕ → Signal → ℤ → ℤ → ℤ → ℤ → ℕ
unfolding base_notional vol_target_notional
clamped_target deviation z total signal win_rate win_loss_ratio allocation reference =
    let strength = clamp 0 million signal.strength in
    let target =
      base_notional z total win_rate win_loss_ratio
      * strength
      * pos_part allocation
      * pos_part reference
      / (million * million * million) in
    min_ℕ (capped_by (vol_target_notional deviation z total) target) (max_notional z total)

unfoldable pub size_order :
    (List ℤ → ℕ) → PositionSizer → Signal → Portfolio → ℤ → ℤ → Dict ℤ → ℤ → ℤ → ℕ
unfolding blend_win_rate clamped_target existing_notional net_of_fees
size_order deviation z signal portfolio win_rate win_loss_ratio rates allocation reference =
    let total = pos_part (portfolio_value portfolio) in
    let actual = blend_win_rate signal.strategy_id win_rate rates in
    if not (is_pos (portfolio_value portfolio))
    then 0
    else net_of_fees z (
        clamped_target deviation z total signal actual win_loss_ratio allocation reference
        - existing_notional signal portfolio.positions)
