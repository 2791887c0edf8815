-- ===== src/Models/Strategies.antt =====
-- Compound strategy ids: `strategy_id_constituents` of quantflow/common/models.py.
use Prim.Native.Char.{Char, code}
use intelligent_trading_syst.Base.{
  strip, not, List, [], ◌∷◌, String, keep_if, eqb, map, ◌==◌, if◌then◌else◌,
}

put_in_front : Char → List String → List String
put_in_front c [] = String.◌∷◌ c "" ∷ []
put_in_front c (s ∷ parts) = String.◌∷◌ c s ∷ parts

-- `s.split(",")`
unfoldable pub split_commas : String → List String
unfolding put_in_front
split_commas String.[] = "" ∷ []
split_commas (String.◌∷◌ c s) =
    let parts = split_commas s in if eqb (code c) b',' then "" ∷ parts else put_in_front c parts

unfoldable pub strategy_id_constituents : String → List String
unfolding split_commas strip keep_if
strategy_id_constituents strategy_id =
    if strategy_id == ""
    then []
    else keep_if (λ part. not (part == "")) (map strip (split_commas strategy_id))
