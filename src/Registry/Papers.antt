-- ===== src/Registry/Papers.antt =====
-- The floors of a paper session before a promotion
-- (quantflow/strategy/validation/paper_readiness.py). Reports come from JSON, so a time is a text
-- or a number and never a `datetime` object. A number is never NaN, which Python's JSON reader would
-- accept, and which is not below any floor.
use intelligent_trading_syst.Base.{
  ℕ, Bool, true, false, not, ◌&&◌, ◌||◌, Option, none, some, List, [], ◌∷◌, String, ◌==◌, ℤ, pos,
  ◌-ℤ◌, ◌*ℤ◌, div_ℤ, max_ℤ, leb_ℤ, ltb_ℤ, is_pos, strip, if◌then◌else◌,
}
use intelligent_trading_syst.Registry.Json.{
  flag, number, no_fields, field, Json, Fields, Conversions, one, get, get_or, fields_of,
  is_full_dict, is_null, is_truthy, or_else, to_float, to_int, to_text,
}

-- `min_paper_days` is in units of 1e-12 days.
pub record PaperReadinessConfig : Type 0 where
  pub enabled : Bool
  pub min_paper_days : ℤ
  pub min_fills : ℤ
  pub min_orders : ℤ
  pub require_evidence : Bool

abbrev pub default_config : PaperReadinessConfig
default_config = record {
  enabled = true;
  min_paper_days = pos 7000000000000;
  min_fills = pos 20;
  min_orders = pos 0;
  require_evidence = true;
}

-- `text[:-1] + "+00:00"` for a text that ends in "Z".
unfoldable pub without_z : String → String
without_z String.[] = String.[]
without_z (String.◌∷◌ c s) =
    let rest = without_z s in
    if s == "" && String.◌∷◌ c s == "Z" then "+00:00" else String.◌∷◌ c rest

-- The microseconds of a time.
unfoldable pub parse_ts : Conversions → Json → Option ℤ
unfolding without_z
parse_ts c v =
    let s = strip (to_text c v) in if is_null v || s == "" then none else c.iso_text (without_z s)

unfoldable pub first_full_dict : List Json → Option Fields
first_full_dict [] = none
first_full_dict (v ∷ vs) =
    let rest = first_full_dict vs in if is_full_dict v then some (fields_of v) else rest

unfoldable pub extract_paper_evidence : Fields → Option Fields
unfolding first_full_dict
extract_paper_evidence report =
    let validation = fields_of (get "validation" report) in
    first_full_dict (
      get "paper_evidence" report
      ∷ get "paper_session" report
      ∷ get "paper_stats" report
      ∷ get "paper_evidence" validation
      ∷ get "paper_session" validation
      ∷ [])

-- The first value that is there and converts.
unfoldable pub first_number : (Json → Option ℤ) → List Json → Option ℤ
first_number convert [] = none
first_number convert (v ∷ vs) =
    let rest = first_number convert vs in
    if is_null v then rest else elim (convert v) [ none ↦ rest | some n ↦ some n ]

-- The days between two times in microseconds, and between two in milliseconds.
abbrev pub days_between : ℕ → ℤ → ℤ → ℤ
days_between per_day start end = div_ℤ ((end -ℤ start) *ℤ pos one) per_day

-- `start_ms` and `end_ms`, where a failed conversion gives `None`.
unfoldable pub days_of_ms : Conversions → Fields → Option ℤ
days_of_ms c evidence =
    if is_null (get "start_ms" evidence) || is_null (get "end_ms" evidence)
    then none
    else elim (to_int c (get "end_ms" evidence)) [
      | none ↦ none
      | some e ↦ elim (to_int c (get "start_ms" evidence)) [
        | none ↦ none
        | some s ↦ some (max_ℤ (pos 0) (days_between 86400000 s e))
      ]
    ]

unfoldable pub measure_paper_days : Conversions → Fields → Option ℤ
unfolding first_number parse_ts days_of_ms
measure_paper_days c evidence =
    let explicit =
      first_number (to_float c)
        (get "paper_days" evidence ∷ get "duration_days" evidence ∷ get "days" evidence ∷ []) in
    let start = parse_ts c (or_else (get "started_at" evidence) (get "start" evidence)) in
    let end = parse_ts c (
      or_else (or_else (get "ended_at" evidence) (get "end" evidence))
        (get "finished_at" evidence)) in
    elim explicit [
      | some days ↦ some days
      | none ↦ elim start [
        | none ↦ days_of_ms c evidence
        | some s ↦ elim end [
          | none ↦ days_of_ms c evidence
          | some e ↦
              if leb_ℤ s e then some (days_between 86400000000 s e) else days_of_ms c evidence
        ]
      ]
    ]

unfoldable pub measure_fills : Conversions → Fields → Option ℤ
unfolding first_number
measure_fills c evidence = first_number (to_int c) (
    get "fills" evidence
    ∷ get "n_fills" evidence
    ∷ get "fill_count" evidence
    ∷ get "num_fills" evidence
    ∷ [])

unfoldable pub measure_orders : Conversions → Fields → Option ℤ
unfolding first_number
measure_orders c evidence = first_number (to_int c) (
    get "orders" evidence
    ∷ get "n_orders" evidence
    ∷ get "order_count" evidence
    ∷ get "num_orders" evidence
    ∷ [])

-- A quantity that could be measured and is not below its floor.
abbrev pub meets : Option ℤ → ℤ → Bool
meets none least = false
meets (some n) least = not (ltb_ℤ n least)

-- `passed` of `check_paper_readiness`; the evidence is `none` or empty where it is missing.
unfoldable pub check_paper_readiness : Conversions → PaperReadinessConfig → Option Fields → Bool
unfolding measure_paper_days measure_fills measure_orders
check_paper_readiness c config none = not (config.enabled && config.require_evidence)
check_paper_readiness c config (some no_fields) = not (config.enabled && config.require_evidence)
check_paper_readiness c config (some (field k v d)) =
    not config.enabled
    || meets (measure_paper_days c (field k v d)) config.min_paper_days
      && meets (measure_fills c (field k v d)) config.min_fills
      && (not (is_pos config.min_orders)
          || meets (measure_orders c (field k v d)) config.min_orders)

-- `PaperReadinessConfig.from_mapping`; `none` is the exception of a failed conversion.
unfoldable pub from_mapping : Conversions → Fields → Option PaperReadinessConfig
unfolding get_or to_float to_int
from_mapping c no_fields = some default_config
from_mapping c (field k v d) =
    let raw = field k v d in
    elim (to_float c (get_or (number (pos 7000000000000)) "min_paper_days" raw)) [
      | none ↦ none
      | some days ↦ elim (to_int c (get_or (number (pos 20000000000000)) "min_fills" raw)) [
        | none ↦ none
        | some fills ↦ elim (to_int c (get_or (number (pos 0)) "min_orders" raw)) [
          | none ↦ none
          | some orders ↦ some (record {
            enabled = is_truthy (get_or (flag true) "enabled" raw);
            min_paper_days = days;
            min_fills = fills;
            min_orders = orders;
            require_evidence = is_truthy (get_or (flag true) "require_evidence" raw);
          })
        ]
      ]
    ]

unfoldable pub with_requirement : Option Bool → PaperReadinessConfig → PaperReadinessConfig
with_requirement none config = config
with_requirement (some required) config = record config { require_evidence = required }

-- `assert_report_paper_ready`, as whether it returns.
unfoldable pub report_paper_ready : Conversions → PaperReadinessConfig → Option Bool → Fields → Bool
unfolding extract_paper_evidence check_paper_readiness with_requirement
report_paper_ready c config require_when_missing report =
    check_paper_readiness c (with_requirement require_when_missing config)
      (extract_paper_evidence report)
