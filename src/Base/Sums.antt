-- ===== src/Base/Sums.antt =====
-- Sums over the entries of a dict, under the dict operations.
use mathlib.Core.Path.{◌≡◌}
use mathlib.Core.Option.{none, some}
use mathlib.Core.List.{[], ◌∷◌}
use Prim.Native.String.{String}
use text.Mathlib.TextEquality.{eq_iff}
use intelligent_trading_syst.Base.Int.{ℤ, pos, ◌+ℤ◌, int_laws, +ℤ_comm}
use intelligent_trading_syst.Base.Dicts.{Dict, lookup, insert, erase, Distinct, erase_absent}

-- The sum of a weight over all entries.
unfoldable pub weigh : {V : Type 0} → (V → ℤ) → Dict V → ℤ
weigh f [] = pos 0
weigh f ((k, p) ∷ entries) = f p +ℤ weigh f entries

module _ {V : Type 0} (f : V → ℤ) where
  pub weigh-insert_held :
      (key : String) (p q : V) (entries : Dict V)
      → lookup key entries ≡ some q
      → weigh f (insert key p entries) +ℤ f q ≡ weigh f entries +ℤ f p
  unfolding weigh lookup insert
  weigh-insert_held key p q [] held = cc
  weigh-insert_held key p q ((k, r) ∷ entries) held =
      grind (int_laws, weigh-insert_held key p q entries)

  pub weigh-insert_new :
      (key : String) (p : V) (entries : Dict V)
      → lookup key entries ≡ none
      → weigh f (insert key p entries) ≡ weigh f entries +ℤ f p
  unfolding weigh lookup insert
  weigh-insert_new key p [] new = +ℤ_comm (f p) (pos 0)
  weigh-insert_new key p ((k, r) ∷ entries) new = grind (int_laws, weigh-insert_new key p entries)

  pub weigh-erase :
      (key : String) (q : V) (entries : Dict V)
      → Distinct entries
      → lookup key entries ≡ some q
      → weigh f (erase key entries) +ℤ f q ≡ weigh f entries
  unfolding weigh lookup erase
  weigh-erase key q [] d held = cc
  weigh-erase key q ((k, r) ∷ entries) d held =
      grind (int_laws, eq_iff k key, erase_absent key entries, weigh-erase key q entries)
