-- ===== src/Registry/Paths.antt =====
-- The execution path that a promotion must cite (quantflow/strategy/validation/promotion_path.py).
use intelligent_trading_syst.Base.{
  Bool, true, false, not, ◌&&◌, ◌||◌, Option, none, some, List, [], ◌∷◌, String, ◌==◌, member,
  strip, if◌then◌else◌,
}
use intelligent_trading_syst.Registry.Json.{
  null, text, object, no_fields, field, set, Json, Fields, Conversions, get, fields_of,
  is_full_dict, is_null, to_text, translate, lower,
}

abbrev pub allowed_execution_paths : List String
allowed_execution_paths =
    "paper_replay" ∷ "trading_session" ∷ "event_session" ∷ "production_path" ∷ []

abbrev pub refused_execution_paths : List String
refused_execution_paths =
    "vectorized" ∷ "backtest_engine" ∷ "backtest" ∷ "vectorbt" ∷ "vbt" ∷ "optuna_only" ∷ "hyperopt"
    ∷ []

-- The values that may name the path, in the order of the search. A block that is no dict has
-- no keys here; the program does not look into it.
unfoldable pub path_candidates : Fields → List Json
path_candidates raw =
    let checks = fields_of (get "checks" raw) in
    let block = fields_of (get "promotion_path" checks) in
    let run_meta = fields_of (get "run_meta" raw) in
    let artifacts = fields_of (get "artifacts" raw) in
    get "execution_path" raw
    ∷ get "research_path" raw
    ∷ get "eval_path" raw
    ∷ get "execution_path" checks
    ∷ get "execution_path" block
    ∷ get "execution_path" run_meta
    ∷ get "execution_path" artifacts
    ∷ []

-- `str(c).strip().lower().replace("-", "_").replace(" ", "_")`
unfoldable pub normalized : Conversions → Json → String
normalized c v = translate "- " "__" (lower (strip (to_text c v)))

unfoldable pub first_path : Conversions → List Json → Option String
unfolding normalized
first_path c [] = none
first_path c (v ∷ vs) =
    let rest = first_path c vs in
    if is_null v || normalized c v == "" then rest else some (normalized c v)

unfoldable pub extract_execution_path : Conversions → Fields → Option String
unfolding first_path path_candidates
extract_execution_path c report = first_path c (path_candidates report)

-- `isinstance(val, (dict, str)) and val`
abbrev pub is_fingerprint : Json → Bool
is_fingerprint (text s) = not (s == "")
is_fingerprint v = is_full_dict v

unfoldable pub fingerprint_candidates : Fields → List Json
fingerprint_candidates raw =
    let checks = fields_of (get "checks" raw) in
    let block = fields_of (get "promotion_path" checks) in
    let run_meta = fields_of (get "run_meta" raw) in
    let pin = fields_of (get "contract_pin" raw) in
    get "data_fingerprint" raw
    ∷ get "fingerprint" raw
    ∷ get "bar_fingerprint" raw
    ∷ get "data_fingerprint" checks
    ∷ get "fingerprint" checks
    ∷ get "data_fingerprint" block
    ∷ get "data_fingerprint" run_meta
    ∷ get "data_fingerprint" pin
    ∷ []

unfoldable pub first_fingerprint : List Json → Option Json
first_fingerprint [] = none
first_fingerprint (v ∷ vs) =
    let rest = first_fingerprint vs in if is_fingerprint v then some v else rest

unfoldable pub extract_data_fingerprint : Fields → Option Json
unfolding first_fingerprint fingerprint_candidates
extract_data_fingerprint report = first_fingerprint (fingerprint_candidates report)

abbrev pub is_some : Option Json → Bool
is_some none = false
is_some (some v) = true

-- `check_promotion_path` and the assertion on its `passed`, without the texts of the reasons.
unfoldable pub check_promotion_path : Conversions → Bool → Fields → Bool
unfolding extract_execution_path extract_data_fingerprint
check_promotion_path c require_fingerprint report = elim (extract_execution_path c report) [
  | none ↦ false
  | some path ↦
      if member path refused_execution_paths
      then false
      else if not (member path allowed_execution_paths)
      then false
      else not (require_fingerprint && not (is_some (extract_data_fingerprint report)))
]

abbrev pub or_null : Option Json → Json
or_null none = null
or_null (some v) = v

-- The block that `attach_promotion_path` puts under `checks`.
unfoldable pub path_block : String → Option Json → Json
path_block path fingerprint = object (
    field "execution_path" (text path) (
      field "data_fingerprint" (or_null fingerprint)
        (field "rule" (text "W14 paper_replay-or-equivalent required for register") no_fields)))

unfoldable pub with_fingerprint : Option Json → Fields → Fields
with_fingerprint none report = report
with_fingerprint (some v) report = set "data_fingerprint" v report

unfoldable pub attach_promotion_path : String → Option Json → Fields → Fields
unfolding path_block with_fingerprint
attach_promotion_path execution_path fingerprint report =
    let path = lower (strip execution_path) in
    let out = with_fingerprint fingerprint (set "execution_path" (text path) report) in
    set "checks"
      (object (set "promotion_path" (path_block path fingerprint) (fields_of (get "checks" out))))
      out
