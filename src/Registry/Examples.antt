-- ===== src/Registry/Examples.antt =====
-- A model that becomes live, calls that are refused, and an instance of the theorem.
use intelligent_trading_syst.Base.{
  ◌≡◌, refl, true, false, none, some, List, [], ◌∷◌, lookup, insert, contains, member, strip,
  strip_left, strip_right, is_space, ℤ, pos, ◌-ℤ◌, div_ℤ,
}
use intelligent_trading_syst.Registry.Json.{
  number, text, array, object, no_items, item, no_fields, field, Json, Fields, Conversions, get,
  set, has_key, get_or, to_float, to_int, to_text, translate_char, translate, lower,
}
use intelligent_trading_syst.Registry.Paths.{
  path_candidates, normalized, first_path, extract_execution_path, fingerprint_candidates,
  first_fingerprint, extract_data_fingerprint, check_promotion_path, attach_promotion_path,
  path_block, with_fingerprint,
}
use intelligent_trading_syst.Registry.Costs.{
  Gate, assert_promotion_cost_ready, first_full_list, extract_cost_grid, is_close, is_cell,
  grid_has_fee_slip, require_cost_grid, find_cell, row_metric, judge_cells,
  reject_zero_cost_only_go, first_block, extract_funding_tca, mode_of, has_value,
  require_funding_tca,
}
use intelligent_trading_syst.Registry.Papers.{
  default_config, first_full_dict, extract_paper_evidence, first_number, measure_paper_days,
  measure_fills, measure_orders, check_paper_readiness, parse_ts, days_of_ms,
}
use intelligent_trading_syst.Registry.Store.{
  ModelRegistry, register, register_go, decision_of, write, is_valid_id, occurs, starts_with,
  paper_entry, rejected_entry, summarize_validation, keep_key, kept_checks, kept_check,
  promote_to_live, promote_entry, is_ai_blocked, evidence_for, live_entry, with_evidence,
  attach_paper_evidence, Answer,
}
use intelligent_trading_syst.Registry.History.{Call, run, has_status, goes_live, live-goes_live}

-- Texts convert to nothing, and `str` of a value that is no text is empty.
abbrev conversions : Conversions
conversions = record {
  float_text = λ s. none;
  int_text = λ s. none;
  iso_text = λ s. none;
  repr = λ v. "";
}

abbrev cell : ℤ → ℤ → Json
cell cost sharpe = object (
    field "taker_fee" (number cost)
      (field "slippage" (number cost) (field "sharpe" (number sharpe) no_fields)))

abbrev grid : Json
grid = array (
    item (cell (pos 0) (pos 1500000000000))
      (item (cell (pos 1000000000) (pos 900000000000)) no_items))

abbrev report : Fields
report = field "decision" (text "GO") (
    field "fee_slip_grid" grid (
      field "funding_tca"
        (object (
          field "mode" (text "assumption")
            (field "estimated_annual_drag_pct" (number (pos 1)) no_fields)))
        (field "execution_path" (text " Paper-Replay")
          (field "data_fingerprint" (text "abc") no_fields))))

abbrev evidence : Fields
evidence =
    field "paper_days" (number (pos 8000000000000))
      (field "fills" (number (pos 25000000000000)) no_fields)

-- The cost and path gates pass the report.
report_passes : assert_promotion_cost_ready conversions true true true report ≡ Gate.passes
unfolding assert_promotion_cost_ready first_full_list extract_cost_grid is_close is_cell
    grid_has_fee_slip require_cost_grid find_cell row_metric judge_cells reject_zero_cost_only_go
    first_block extract_funding_tca mode_of has_value require_funding_tca get has_key get_or
    to_float to_text lower translate translate_char check_promotion_path path_candidates normalized
    first_path extract_execution_path fingerprint_candidates first_fingerprint
    extract_data_fingerprint strip strip_left strip_right is_space member ◌-ℤ◌
report_passes = refl

abbrev calls : List Call
calls =
    Call.registered "m1" "RandomForestClassifier" "abc" report "t1"
    ∷ Call.attached "m1" evidence "t2"
    ∷ Call.promoted "m1" none "t3"
    ∷ []

abbrev start : ModelRegistry
start = record { files = []; paper_readiness = default_config }

becomes_live : has_status "live" "m1" (run conversions calls start) ≡ true
unfolding register register_go decision_of write is_valid_id occurs starts_with paper_entry
    summarize_validation keep_key kept_checks kept_check promote_to_live promote_entry is_ai_blocked
    evidence_for live_entry with_evidence attach_paper_evidence first_full_dict
    extract_paper_evidence first_number measure_paper_days measure_fills measure_orders
    check_paper_readiness parse_ts days_of_ms div_ℤ lookup insert contains set
    assert_promotion_cost_ready first_full_list extract_cost_grid is_close is_cell grid_has_fee_slip
    require_cost_grid find_cell row_metric judge_cells reject_zero_cost_only_go first_block
    extract_funding_tca mode_of has_value require_funding_tca get has_key get_or to_float to_int
    to_text lower translate translate_char check_promotion_path path_candidates normalized
    first_path extract_execution_path fingerprint_candidates first_fingerprint
    extract_data_fingerprint strip strip_left strip_right is_space member ◌-ℤ◌
becomes_live = refl

live-goes_live_example :
    goes_live conversions "m1" false calls (record { files = []; paper_readiness = default_config })
    ≡ true
live-goes_live_example = live-goes_live conversions default_config "m1" calls becomes_live

-- A later report without a GO takes a live model's entry, and a rejected id stays taken.
refused_run :
    let reg =
      (register conversions "m1" "LSTM" "def" no_fields "t4" (run conversions calls start)).0 in
    (has_status "rejected" "m1" reg ≡ true)
    × ((register conversions "m1" "LSTM" "def" report "t5" reg).1 ≡ Answer.registry_error)
unfolding register register_go decision_of write is_valid_id occurs starts_with paper_entry
    rejected_entry summarize_validation keep_key kept_checks kept_check promote_to_live
    promote_entry is_ai_blocked evidence_for live_entry with_evidence attach_paper_evidence
    first_full_dict extract_paper_evidence first_number measure_paper_days measure_fills
    measure_orders check_paper_readiness parse_ts days_of_ms div_ℤ lookup insert contains set
    assert_promotion_cost_ready first_full_list extract_cost_grid is_close is_cell grid_has_fee_slip
    require_cost_grid find_cell row_metric judge_cells reject_zero_cost_only_go first_block
    extract_funding_tca mode_of has_value require_funding_tca get has_key get_or to_float to_int
    to_text lower translate translate_char check_promotion_path path_candidates normalized
    first_path extract_execution_path fingerprint_candidates first_fingerprint
    extract_data_fingerprint strip strip_left strip_right is_space member ◌-ℤ◌
refused_run = (refl, refl)

-- What `attach_promotion_path` writes passes the path gate.
attached_path :
    check_promotion_path conversions true
      (attach_promotion_path "Event_Session " (some (text "abc")) no_fields)
    ≡ true
unfolding attach_promotion_path path_block with_fingerprint set get to_text lower translate
    translate_char check_promotion_path path_candidates normalized first_path extract_execution_path
    fingerprint_candidates first_fingerprint extract_data_fingerprint strip strip_left strip_right
    is_space member
attached_path = refl
