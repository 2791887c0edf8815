-- ===== src/Signals/Generator.antt =====
-- `SignalGenerator` (quantflow/signal/generator.py). Strengths and hit rates are in millionths, so
-- a weight, their product, is in units of 1e-12. The sums of the weights are exact here and floats
-- in the program, whose last digits depend on the order. A new signal has the default timestamp, 0.
use intelligent_trading_syst.Base.{
  Option, none, some, List, [], ◌∷◌, String, ◌==◌, Dict, lookup, ℤ, pos, negsuc, ◌+ℤ◌, ◌*ℤ◌, is_pos,
  is_neg, abs, div_ℤ, min_ℤ, max_ℤ, str_append, if◌then◌else◌,
}
use intelligent_trading_syst.Models.{Direction, Signal}
use intelligent_trading_syst.Checkpoint.Sorting.{before}

-- 1.0 as a strength.
abbrev pub full_strength : ℤ
full_strength = pos 1000000

unfoldable pub generate_signal : Direction → ℤ → String → ℤ → String → Option Signal
generate_signal Direction.flat strength symbol price strategy_id = none
generate_signal direction strength symbol price strategy_id = some (record {
  symbol = symbol;
  direction = direction;
  strength = max_ℤ (pos 0) (min_ℤ strength full_strength);
  price = price;
  strategy_id = strategy_id;
  timestamp = 0;
})

-- `direction.value`
abbrev pub direction_value : Direction → ℤ
direction_value Direction.long = pos 1
direction_value Direction.flat = pos 0
direction_value Direction.short = negsuc 0

-- `s.strength * hit_rates.get(s.strategy_id, 0.5)`
unfoldable pub weight_of : Dict ℤ → Signal → ℤ
weight_of rates s =
    s.strength *ℤ elim (lookup s.strategy_id rates) [ none ↦ pos 500000 | some rate ↦ rate ]

-- A name put into a sorted list without repetition.
unfoldable pub insert_name : String → List String → List String
insert_name a [] = a ∷ []
insert_name a (b ∷ names) =
    let rest = insert_name a names in
    if a == b then b ∷ names else if before a b then a ∷ b ∷ names else b ∷ rest

-- The sums over the signals, and the sorted set of the strategies.
pub record Tally : Type 0 where
  pub net : ℤ
  pub total_weight : ℤ
  pub weighted_strength : ℤ
  pub names : List String

abbrev pub no_votes : Tally
no_votes = record { net = pos 0; total_weight = pos 0; weighted_strength = pos 0; names = [] }

unfoldable pub vote : Dict ℤ → Signal → Tally → Tally
unfolding insert_name weight_of
vote rates s t =
    let w = weight_of rates s in
    record {
      net = direction_value s.direction *ℤ w +ℤ t.net;
      total_weight = w +ℤ t.total_weight;
      weighted_strength = s.strength *ℤ w +ℤ t.weighted_strength;
      names = insert_name s.strategy_id t.names;
    }

unfoldable pub tally : Dict ℤ → List Signal → Tally
unfolding vote
tally rates [] = no_votes
tally rates (s ∷ signals) = vote rates s (tally rates signals)

-- `",".join(names)`
unfoldable pub join : List String → String
join [] = ""
join (a ∷ []) = a
join (a ∷ b ∷ names) = str_append a (str_append "," (join (b ∷ names)))

abbrev pub winner : ℤ → Option Direction
winner net =
    if is_pos net then some Direction.long else if is_neg net then some Direction.short else none

unfoldable pub average_strength : Tally → ℤ
average_strength t =
    if is_pos t.total_weight then div_ℤ t.weighted_strength (abs t.total_weight) else pos 0

-- The signal of a direction, with the symbol and the price of the first signal.
unfoldable pub consolidated : Signal → Tally → Direction → Signal
unfolding average_strength join
consolidated first t direction = record {
  symbol = first.symbol;
  direction = direction;
  strength = average_strength t;
  price = first.price;
  strategy_id = join t.names;
  timestamp = 0;
}

unfoldable pub consolidate_signals : Dict ℤ → List Signal → Option Signal
unfolding tally consolidated
consolidate_signals rates [] = none
consolidate_signals rates (first ∷ signals) =
    let t = tally rates (first ∷ signals) in
    elim (winner t.net) [ none ↦ none | some direction ↦ some (consolidated first t direction) ]
