-- ===== src/Registry/Costs.antt =====
-- The cost gate of a promotion (quantflow/strategy/validation/cost_fidelity.py): the grid of fees
-- and slippages, the refusal of results that only hold at zero cost, and the funding assumptions.
use intelligent_trading_syst.Base.{
  ℕ, Bool, true, false, not, ◌&&◌, ◌||◌, Option, none, some, List, [], ◌∷◌, String, ◌==◌, ℤ, pos,
  negsuc, ◌-ℤ◌, abs, leb, leb_ℤ, ltb_ℤ, member, if◌then◌else◌,
}
use intelligent_trading_syst.Registry.Json.{
  null, flag, number, text, array, object, no_items, item, Json, Items, Fields, Conversions, get,
  get_or, fields_of, is_full_dict, is_full_list, is_null, or_else, to_float, to_text, lower,
}
use intelligent_trading_syst.Registry.Paths.{check_promotion_path}

-- What a gate does: it returns, it raises `CostFidelityError`, or another exception leaves it.
pub data Gate : Type 0 where
  passes refuses crashes : Gate

-- 0.001, the production fee and the production slippage.
abbrev pub default_cost : ℤ
default_cost = pos 1000000000

-- The rows of a list; nothing otherwise.
abbrev pub items_of : Json → Items
items_of (array rows) = rows
items_of _ = no_items

unfoldable pub first_full_list : List Json → Option Items
first_full_list [] = none
first_full_list (v ∷ vs) =
    let rest = first_full_list vs in if is_full_list v then some (items_of v) else rest

unfoldable pub extract_cost_grid : Fields → Option Items
unfolding first_full_list
extract_cost_grid report =
    let cost = fields_of (get "cost_fidelity" report) in
    let cf = fields_of (get "cost_fidelity" (fields_of (get "checks" report))) in
    first_full_list (
      get "fee_slip_grid" report
      ∷ get "cost_grid" report
      ∷ get "fee_slip" report
      ∷ or_else (get "fee_slip_grid" cost) (get "cost_grid" cost)
      ∷ or_else (get "fee_slip_grid" cf) (get "cost_grid" cf)
      ∷ [])

-- `abs(float(v) - x) <= tol`, with `none` where `float` raises.
unfoldable pub is_close : Conversions → ℕ → ℤ → Json → Option Bool
is_close c tol x v = elim (to_float c v) [ none ↦ none | some f ↦ some (leb (abs (f -ℤ x)) tol) ]

-- `a and b` of two tests that may raise.
abbrev pub and_then : Option Bool → Option Bool → Option Bool
and_then none b = none
and_then (some false) b = some false
and_then (some true) b = b

-- Whether the row has the fee and the slippage, where a missing one is `missing`.
unfoldable pub is_cell : Conversions → ℕ → Json → ℤ → ℤ → Fields → Option Bool
unfolding is_close get_or
is_cell c tol missing fee slip row =
    and_then (is_close c tol fee (get_or (get_or missing "fee" row) "taker_fee" row))
      (is_close c tol slip (get_or (get_or missing "slip" row) "slippage" row))

abbrev pub is_dict : Json → Bool
is_dict (object d) = true
is_dict _ = false

-- A row that does not convert is passed over.
unfoldable pub grid_has_fee_slip : Conversions → ℤ → ℤ → Items → Bool
unfolding is_cell
grid_has_fee_slip c fee slip no_items = false
grid_has_fee_slip c fee slip (item row rows) =
    let rest = grid_has_fee_slip c fee slip rows in
    if is_dict row
    then elim (is_cell c 1 null fee slip (fields_of row)) [
      | none ↦ rest
      | some found ↦ if found then true else rest
    ]
    else rest

unfoldable pub require_cost_grid : Conversions → Bool → Fields → Gate
unfolding extract_cost_grid grid_has_fee_slip
require_cost_grid c require_zero_and_default report = elim (extract_cost_grid report) [
  | none ↦ Gate.refuses
  | some grid ↦
      if not require_zero_and_default
      then Gate.passes
      else if not (grid_has_fee_slip c (pos 0) (pos 0) grid)
      then Gate.refuses
      else if not (grid_has_fee_slip c default_cost default_cost grid)
      then Gate.refuses
      else Gate.passes
]

-- What `next` finds: a row, no row, or the exception of a row before it.
pub data Search : Type 0 where
  found : Fields → Search
  absent raised : Search

-- The first row with the costs, within less than 1e-12. A missing cost counts as -1.
unfoldable pub find_cell : Conversions → ℤ → ℤ → Items → Search
unfolding is_cell
find_cell c fee slip no_items = Search.absent
find_cell c fee slip (item row rows) =
    let rest = find_cell c fee slip rows in
    if is_dict row
    then elim (is_cell c 0 (number (negsuc 999999999999)) fee slip (fields_of row)) [
      | none ↦ Search.raised
      | some hit ↦ if hit then Search.found (fields_of row) else rest
    ]
    else rest

-- The metric under the first key with a value.
unfoldable pub row_metric : Conversions → Fields → List String → Option ℤ
unfolding to_float
row_metric c row [] = none
row_metric c row (k ∷ ks) =
    let rest = row_metric c row ks in if is_null (get k row) then rest else to_float c (get k row)

-- A metric above `high` at zero cost that is missing or not positive at the production costs.
abbrev pub is_zero_cost_only : ℤ → Option ℤ → Option ℤ → Bool
is_zero_cost_only high none prod = false
is_zero_cost_only high (some z) none = ltb_ℤ high z
is_zero_cost_only high (some z) (some p) = ltb_ℤ high z && leb_ℤ p (pos 0)

abbrev pub is_true : Json → Bool
is_true (flag b) = b
is_true _ = false

-- The last tests of `reject_zero_cost_only_go`, on the two rows.
unfoldable pub judge_cells : Conversions → Fields → Fields → Fields → Gate
unfolding row_metric
judge_cells c report zero prod =
    let sharpe = λ (row : Fields). row_metric c row ("sharpe" ∷ "sharpe_annualized" ∷ []) in
    let returns = λ (row : Fields). row_metric c row ("return_pct" ∷ "return" ∷ []) in
    if is_true (get "zero_cost_only_go" report)
    then Gate.refuses
    else if is_zero_cost_only (pos 500000000000) (sharpe zero) (sharpe prod)
    then Gate.refuses
    else if is_zero_cost_only (pos 5000000000000) (returns zero) (returns prod)
    then Gate.refuses
    else Gate.passes

unfoldable pub reject_zero_cost_only_go : Conversions → Fields → Gate
unfolding extract_cost_grid find_cell judge_cells
reject_zero_cost_only_go c report = elim (extract_cost_grid report) [
  | none ↦ Gate.refuses
  | some grid ↦ elim (find_cell c (pos 0) (pos 0) grid) [
    | raised ↦ Gate.crashes
    | absent ↦ elim (find_cell c default_cost default_cost grid) [
      | raised ↦ Gate.crashes
      | absent ↦ Gate.refuses
      | found prod ↦ Gate.refuses
    ]
    | found zero ↦ elim (find_cell c default_cost default_cost grid) [
      | raised ↦ Gate.crashes
      | absent ↦ Gate.refuses
      | found prod ↦ judge_cells c report zero prod
    ]
  ]
]

unfoldable pub first_block : List Json → Option Fields
first_block [] = none
first_block (v ∷ vs) =
    let rest = first_block vs in if is_full_dict v then some (fields_of v) else rest

unfoldable pub extract_funding_tca : Fields → Option Fields
unfolding first_block
extract_funding_tca report =
    let cost = fields_of (get "cost_fidelity" report) in
    let cf = fields_of (get "cost_fidelity" (fields_of (get "checks" report))) in
    first_block (
      get "funding_tca" report
      ∷ get "tca" report
      ∷ get "funding_cost" report
      ∷ or_else (get "funding_tca" cost) (get "tca" cost)
      ∷ or_else (get "funding_tca" cf) (get "tca" cf)
      ∷ [])

abbrev pub valid_funding_modes : List String
valid_funding_modes = "assumption" ∷ "measured" ∷ "hybrid" ∷ []

-- `str(block.get("mode", "")).lower()`
unfoldable pub mode_of : Conversions → Fields → String
unfolding get_or
mode_of c block = lower (to_text c (get_or (text "") "mode" block))

-- One of the fields has a value.
unfoldable pub has_value : Fields → List String → Bool
has_value block [] = false
has_value block (k ∷ ks) = not (is_null (get k block)) || has_value block ks

unfoldable pub require_funding_tca : Conversions → Fields → Gate
unfolding extract_funding_tca mode_of has_value
require_funding_tca c report = elim (extract_funding_tca report) [
  | none ↦ Gate.refuses
  | some block ↦
      if not (mode_of c block == "") && not (member (mode_of c block) valid_funding_modes)
      then Gate.refuses
      else if not (
            has_value block (
              "estimated_annual_drag_fraction" ∷ "estimated_annual_drag_pct"
              ∷ "effective_abs_funding_per_event" ∷ "assumed_abs_funding_per_event" ∷ []))
          && not (is_dict (get "measured" block))
      then Gate.refuses
      else Gate.passes
]

-- `a(); b()`
abbrev pub after : Gate → Gate → Gate
after Gate.passes b = b
after Gate.refuses b = Gate.refuses
after Gate.crashes b = Gate.crashes

unfoldable pub assert_promotion_cost_ready : Conversions → Bool → Bool → Bool → Fields → Gate
unfolding require_cost_grid reject_zero_cost_only_go require_funding_tca
assert_promotion_cost_ready c require_funding require_execution_path require_fingerprint report =
    after (require_cost_grid c true report) (
      after (reject_zero_cost_only_go c report) (
        after (if require_funding then require_funding_tca c report else Gate.passes) (
          if require_execution_path
          then if check_promotion_path c require_fingerprint report
            then Gate.passes
            else Gate.refuses
          else Gate.passes)))
