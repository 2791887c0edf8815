-- ===== src/Base/Dicts.antt =====
-- Python's `dict` with text keys, in insertion order, and a `set` of texts as a list.
use mathlib.Core.Path.{◌≡◌, refl}
use mathlib.Core.Bool.{Bool, true, false, ◌||◌}
use mathlib.Core.Option.{Option, none, some}
use mathlib.Core.List.{List, [], ◌∷◌}
use mathlib.Core.Logic.{◌≢◌, inl, inr}
use native.Mathlib.Omega.{arith}
use Prim.Native.Nat.{ℕ, suc}
use Prim.Native.String.{String}
use text.Mathlib.Text.{◌==◌}
use text.Mathlib.TextEquality.{eq_iff}
use text.Mathlib.TextPositions.{eq_refl}
use intelligent_trading_syst.Base.Tests.{if◌then◌else◌, Bool-cases}

abbrev pub Dict {ℓ} : Type ℓ → Type ℓ
Dict V = List (String × V)

pub ==-ne : (j k : String) → j ≢ k → (j == k) ≡ false
==-ne j k h = ground (arith, eq_iff j k)

module _ {ℓ} {V : Type ℓ} where
  -- `d.get(k)`
  unfoldable pub lookup : String → Dict V → Option V
  lookup k [] = none
  lookup k ((j, v) ∷ d) = if j == k then some v else lookup k d

  -- `k in d`
  unfoldable pub contains : String → Dict V → Bool
  contains k [] = false
  contains k ((j, v) ∷ d) = if j == k then true else contains k d

  -- `d[k] = v`: an old key keeps its place.
  unfoldable pub insert : String → V → Dict V → Dict V
  insert k v [] = (k, v) ∷ []
  insert k v ((j, w) ∷ d) = if j == k then (k, v) ∷ d else (j, w) ∷ insert k v d

  -- `d.pop(k, None)`, `del d[k]`
  unfoldable pub erase : String → Dict V → Dict V
  erase k [] = []
  erase k ((j, v) ∷ d) = let rest = erase k d in if j == k then rest else (j, v) ∷ rest

  abbrev pub size : Dict V → ℕ
  size [] = 0
  size (e ∷ d) = suc (size d)

  abbrev pub keys : Dict V → List String
  keys [] = []
  keys ((k, v) ∷ d) = k ∷ keys d

  abbrev pub values : Dict V → List V
  values [] = []
  values ((k, v) ∷ d) = v ∷ values d

  -- No key stands twice, as in every Python dict.
  abbrev pub Distinct : Dict V → Type ℓ
  Distinct [] = Unit
  Distinct ((k, v) ∷ d) = (lookup k d ≡ none) × Distinct d

  pub lookup-insert :
      (k j : String) (v : V) (d : Dict V)
      → lookup j (insert k v d) ≡ (if k == j then some v else lookup j d)
  unfolding lookup insert
  lookup-insert k j v [] = refl
  lookup-insert k j v ((i, w) ∷ d) =
      ground (arith, eq_iff k j, eq_iff i k, eq_iff i j, lookup-insert k j v d)

  pub lookup-erase :
      (k j : String) (d : Dict V) → lookup j (erase k d) ≡ (if k == j then none else lookup j d)
  unfolding lookup erase
  lookup-erase k j [] = ground arith
  lookup-erase k j ((i, v) ∷ d) =
      ground (arith, lookup-erase k j d, eq_iff i k, eq_iff i j, eq_iff k j)

  pub lookup-insert_self : (k : String) (v : V) (d : Dict V) → lookup k (insert k v d) ≡ some v
  lookup-insert_self k v d = ground (arith, lookup-insert k k v d, eq_refl k)

  pub lookup-insert_ne :
      (k j : String) (v : V) (d : Dict V) → k ≢ j → lookup j (insert k v d) ≡ lookup j d
  lookup-insert_ne k j v d h = ground (arith, lookup-insert k j v d, ==-ne k j h)

  pub lookup-erase_self : (k : String) (d : Dict V) → lookup k (erase k d) ≡ none
  lookup-erase_self k d = ground (arith, lookup-erase k k d, eq_refl k)

  pub lookup-erase_ne : (k j : String) (d : Dict V) → k ≢ j → lookup j (erase k d) ≡ lookup j d
  lookup-erase_ne k j d h = ground (arith, lookup-erase k j d, ==-ne k j h)

  pub insert-insert : (k : String) (v w : V) (d : Dict V) → insert k v (insert k w d) ≡ insert k v d
  unfolding insert
  insert-insert k v w [] = ground (arith, eq_refl k)
  insert-insert k v w ((i, u) ∷ d) = ground (arith, insert-insert k v w d, eq_iff i k, eq_refl k)

  pub insert-Distinct : (k : String) (v : V) (d : Dict V) → Distinct d → Distinct (insert k v d)
  unfolding lookup insert
  insert-Distinct k v [] h = (refl, tt)
  insert-Distinct k v ((i, w) ∷ d) h =
      ground (arith, eq_iff i k, eq_iff k i, lookup-insert k i v d, insert-Distinct k v d h.1)

  pub erase-Distinct : (k : String) (d : Dict V) → Distinct d → Distinct (erase k d)
  unfolding lookup erase
  erase-Distinct k [] h = tt
  erase-Distinct k ((i, v) ∷ d) h =
      ground (arith, eq_iff i k, eq_iff k i, lookup-erase k i d, erase-Distinct k d h.1)

  pub erase_absent : (k : String) (d : Dict V) → lookup k d ≡ none → erase k d ≡ d
  unfolding lookup erase
  erase_absent k [] h = refl
  erase_absent k ((i, v) ∷ d) h = ground (arith, erase_absent k d)

  pub contains-lookup :
      (k : String) (d : Dict V) → contains k d ≡ elim (lookup k d) [ none ↦ false | some _ ↦ true ]
  unfolding lookup contains
  contains-lookup k [] = refl
  contains-lookup k ((i, v) ∷ d) = ground (arith, contains-lookup k d)

-- `x in s`
unfoldable pub member : String → List String → Bool
member k [] = false
member k (j ∷ s) = if j == k then true else member k s

-- `s.add(x)`
unfoldable pub add : String → List String → List String
add k s = if member k s then s else k ∷ s

-- `s.discard(x)`
unfoldable pub discard : String → List String → List String
discard k [] = []
discard k (j ∷ s) = let rest = discard k s in if j == k then rest else j ∷ rest

pub member-add : (k j : String) (s : List String) → member j (add k s) ≡ ((k == j) || member j s)
unfolding member add
member-add k j s = elim (Bool-cases (k == j)) [
  | inl e ↦ ground (arith, eq_iff k j)
  | inr e ↦ ground arith
]

pub member-discard :
    (k j : String) (s : List String)
    → member j (discard k s) ≡ (if k == j then false else member j s)
unfolding member discard
member-discard k j [] = ground arith
member-discard k j (i ∷ s) =
    ground (arith, member-discard k j s, eq_iff i k, eq_iff i j, eq_iff k j)
