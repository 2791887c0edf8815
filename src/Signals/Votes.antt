-- ===== src/Signals/Votes.antt =====
-- The consolidated vote forgets the order of the signals.
use mathlib.Core.List.{Perm}
use mathlib.Core.List.Perm
use intelligent_trading_syst.Base.{Option, none, some, List, String, ℤ}
use intelligent_trading_syst.Models.{Direction, Signal}
use intelligent_trading_syst.Signals.Generator.{Tally, winner, average_strength, join}

-- What a caller learns of the vote: the direction, the strength and the strategies.
abbrev pub verdict : Option Signal → Option (Direction × ℤ × String)
verdict none = none
verdict (some s) = some (s.direction, s.strength, s.strategy_id)

abbrev verdict_of : Tally → Option (Direction × ℤ × String)
verdict_of t = elim (winner t.net) [
  | none ↦ none
  | some direction ↦ some (direction, average_strength t, join t.names)
]
