-- ===== src/Signals/Names.antt =====
-- Names go into a sorted set in any order.
use Prim.Native.Char.{code}
use text.Mathlib.TextEquality.{Char-path}
use intelligent_trading_syst.Base.{◌≡◌, refl, true, false, List, [], ◌∷◌, String, eq_iff, arith}
use intelligent_trading_syst.Checkpoint.Sorting.{before}
use intelligent_trading_syst.Signals.Generator.{insert_name}

before_asym : (a b : String) → before a b ≡ true → before b a ≡ false
unfolding before
before_asym String.[] String.[] h = refl
before_asym String.[] (String.◌∷◌ d t) h = refl
before_asym (String.◌∷◌ c s) String.[] h = ground arith
before_asym (String.◌∷◌ c s) (String.◌∷◌ d t) h = ground (arith, before_asym s t)

before_trans : (a b c : String) → before a b ≡ true → before b c ≡ true → before a c ≡ true
unfolding before
before_trans a b String.[] h k = ground arith
before_trans String.[] b (String.◌∷◌ e u) h k = refl
before_trans (String.◌∷◌ c s) String.[] (String.◌∷◌ e u) h k = ground arith
before_trans (String.◌∷◌ c s) (String.◌∷◌ d t) (String.◌∷◌ e u) h k =
    ground (arith, before_trans s t u)

before_total : (a b : String) → before a b ≡ false → before b a ≡ false → a ≡ b
unfolding before
before_total String.[] String.[] h k = refl
before_total String.[] (String.◌∷◌ d t) h k = ground arith
before_total (String.◌∷◌ c s) String.[] h k = ground arith
before_total (String.◌∷◌ c s) (String.◌∷◌ d t) h k =
    let same : code c ≡ code d = ground arith in
    let rest = before_total s t (ground arith) (ground arith) in
    λ i. String.◌∷◌ (Char-path c d same i) (rest i)

pub insert_name_comm :
    (a b : String) (names : List String)
    → insert_name a (insert_name b names) ≡ insert_name b (insert_name a names)
unfolding insert_name
insert_name_comm a b [] = ground (arith, eq_iff a b, eq_iff b a, before_asym a b, before_total a b)
insert_name_comm a b (c ∷ names) = ground (
  arith,
  insert_name_comm a b names,
  eq_iff a b,
  eq_iff b a,
  eq_iff a c,
  eq_iff b c,
  before_asym a b,
  before_total a b,
  before_trans a b c,
  before_trans b a c,
  before_total a c,
  before_total b c,
  before_trans a c b,
  before_trans b c a,
)
