-- ===== src/Recon/Partition.antt =====
-- What the ghost report says of each symbol.
use intelligent_trading_syst.Base.{
  ℕ, ◌≡◌, refl, Bool, false, not, ◌&&◌, ◌||◌, none, some, List, [], ◌∷◌, String, ◌==◌, Dict, lookup,
  contains, insert, member, lookup-insert, contains-lookup, eq_iff, ℤ, pos, ◌+ℤ◌, int_laws, arith,
  if◌then◌else◌,
}
use intelligent_trading_syst.Models.{Position}
use intelligent_trading_syst.Portfolio.Pending.{get_or_zero}
use intelligent_trading_syst.Kill.Pauses.{strip_all}
use intelligent_trading_syst.Recon.Ghosts.{
  is_counted, exchange_by_sym, untracked, missing, find_ghost_positions,
}

-- The exchange shows a position in the symbol that is not dust.
abbrev pub is_shown : ℕ → String → List Position → Bool
is_shown dust s [] = false
is_shown dust s (p ∷ ps) = is_counted dust p && p.symbol == s || is_shown dust s ps

-- The sum of the quantities in the symbol that are not dust.
abbrev pub shown_quantity : ℕ → String → List Position → ℤ
shown_quantity dust s [] = pos 0
shown_quantity dust s (p ∷ ps) =
    if is_counted dust p && p.symbol == s
    then p.quantity +ℤ shown_quantity dust s ps
    else shown_quantity dust s ps

shift : (a b c : ℤ) → a +ℤ b +ℤ c ≡ a +ℤ (b +ℤ c)
shift a b c = omega int_laws

zero_left : (a : ℤ) → pos 0 +ℤ a ≡ a
zero_left a = omega int_laws

zero_right : (a : ℤ) → a +ℤ pos 0 ≡ a
zero_right a = omega int_laws

hidden :
    (dust : ℕ) (s : String) (ps : List Position)
    → is_shown dust s ps ≡ false
    → shown_quantity dust s ps ≡ pos 0
hidden dust s [] h = refl
hidden dust s (p ∷ ps) h = ground (arith, hidden dust s ps)

exchange_by_sym-lookup :
    (dust : ℕ) (s : String) (ps : List Position) (found : Dict ℤ)
    → lookup s (exchange_by_sym dust ps found) ≡ (
        if is_shown dust s ps
        then some (get_or_zero s found +ℤ shown_quantity dust s ps)
        else lookup s found)
unfolding exchange_by_sym
exchange_by_sym-lookup dust s [] found = refl
exchange_by_sym-lookup dust s (p ∷ ps) found =
    let g = get_or_zero p.symbol found in
    ground (
      arith,
      eq_iff p.symbol s,
      lookup-insert p.symbol s (g +ℤ p.quantity) found,
      exchange_by_sym-lookup dust s ps found,
      exchange_by_sym-lookup dust s ps (insert p.symbol (g +ℤ p.quantity) found),
      hidden dust s ps,
      shift g p.quantity (shown_quantity dust s ps),
      zero_right p.quantity,
    )

untracked-lookup :
    (tracked : List String) (s : String) (found : Dict ℤ)
    → lookup s (untracked tracked found) ≡ (if member s tracked then none else lookup s found)
unfolding untracked lookup
untracked-lookup tracked s [] = ground arith
untracked-lookup tracked s ((k, q) ∷ found) =
    ground (arith, eq_iff k s, untracked-lookup tracked s found)

member-missing :
    (s : String) (tracked : List String) (found : Dict ℤ)
    → member s (missing tracked found) ≡ (member s tracked && not (contains s found))
unfolding missing member
member-missing s [] found = refl
member-missing s (t ∷ tracked) found = ground (arith, eq_iff t s, member-missing s tracked found)

shown-contains :
    (dust : ℕ) (s : String) (ps : List Position)
    → contains s (exchange_by_sym dust ps []) ≡ is_shown dust s ps
unfolding lookup
shown-contains dust s ps =
    ground
      (arith, contains-lookup s (exchange_by_sym dust ps []), exchange_by_sym-lookup dust s ps [])

-- The ghost report is exact for every symbol. It is a ghost if and only if the exchange shows a
-- position in it that is not dust and no stripped tracked symbol names it, and then with the net
-- of the quantities that are not dust; and it is missing if and only if it is tracked and the
-- exchange shows no such position.
pub find_ghost_positions-exact :
    (tracked : List String) (positions : List Position) (dust : ℕ) (s : String)
    → let report = find_ghost_positions tracked positions dust in
      let named = member s (strip_all tracked) in
      let shown = is_shown dust s positions in
      (lookup s report.ghosts
        ≡ (if shown && not named then some (shown_quantity dust s positions) else none))
      × (member s report.missing_on_exchange ≡ (named && not shown))
unfolding find_ghost_positions lookup
find_ghost_positions-exact tracked positions dust s = (
  ground (
    arith,
    untracked-lookup (strip_all tracked) s (exchange_by_sym dust positions []),
    exchange_by_sym-lookup dust s positions [],
    zero_left (shown_quantity dust s positions),
  ),
  ground (
    arith,
    member-missing s (strip_all tracked) (exchange_by_sym dust positions []),
    shown-contains dust s positions,
  ),
)
