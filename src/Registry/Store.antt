-- ===== src/Registry/Store.antt =====
-- The registry of models (quantflow/strategy/model_registry.py) and the block on the AI lane
-- (`assert_ai_live_not_wired` of quantflow/strategy/ai_validation_bypass.py). A file of the
-- directory is an entry of a dict, under the model's id, and holds the value that was written.
-- The reasons of a refusal are kept without the text of the exception.
use Prim.Native.Char.{code}
use intelligent_trading_syst.Base.{
  Bool, true, false, not, ◌&&◌, ◌||◌, Option, none, some, [], ◌∷◌, String, ◌==◌, Dict, lookup,
  contains, insert, member, eqb, if◌then◌else◌,
}
use intelligent_trading_syst.Registry.Json.{
  flag, text, object, no_fields, field, Json, Fields, Conversions, get, set, has_key, get_or,
  fields_of, to_text,
}
use intelligent_trading_syst.Registry.Costs.{
  passes, refuses, crashes, assert_promotion_cost_ready, is_dict, is_true,
}
use intelligent_trading_syst.Registry.Papers.{
  PaperReadinessConfig, extract_paper_evidence, check_paper_readiness,
}

pub record ModelRegistry : Type 0 where
  pub files : Dict Fields
  pub paper_readiness : PaperReadinessConfig

-- What a method gives: an entry, a `ModelRegistryError`, or another exception.
pub data Answer : Type 0 where
  entry : Fields → Answer
  registry_error other_error : Answer

unfoldable pub starts_with : String → String → Bool
starts_with String.[] s = true
starts_with (String.◌∷◌ c needle) String.[] = false
starts_with (String.◌∷◌ c needle) (String.◌∷◌ d s) = eqb (code c) (code d) && starts_with needle s

-- `needle in s`
unfoldable pub occurs : String → String → Bool
unfolding starts_with
occurs needle String.[] = starts_with needle String.[]
occurs needle (String.◌∷◌ c s) = starts_with needle (String.◌∷◌ c s) || occurs needle s

-- The test of `_path`.
unfoldable pub is_valid_id : String → Bool
unfolding occurs
is_valid_id id = not (id == "" || occurs "/" id || occurs "\\" id || occurs ".." id)

-- `_write`: the path test comes first.
unfoldable pub write : String → Fields → ModelRegistry → ModelRegistry × Answer
write id e reg =
    if is_valid_id id
    then (record reg { files = insert id e reg.files }, Answer.entry e)
    else (reg, Answer.registry_error)

unfoldable pub rejected_entry : String → String → String → String → String → String → Fields
rejected_entry id model_cls features_hash decision reason now = field "model_id" (text id) (
    field "model_cls" (text model_cls) (
      field "features_hash" (text features_hash) (
        field "status" (text "rejected") (
          field "decision" (text decision)
            (field "reason" (text reason) (field "registered_at" (text now) no_fields))))))

-- The inner comprehension of `_summarize_validation`.
unfoldable pub kept_check : Fields → Fields
kept_check no_fields = no_fields
kept_check (field k v d) =
    let rest = kept_check d in
    if member k ("passed" ∷ "dsr" ∷ "pbo" ∷ "oos_efficiency" ∷ []) then field k v rest else rest

unfoldable pub kept_checks : Fields → Fields
unfolding kept_check
kept_checks no_fields = no_fields
kept_checks (field k v d) =
    let rest = kept_checks d in
    if is_dict v then field k (object (kept_check (fields_of v))) rest else rest

-- `if key in report: keep[key] = report[key]`
unfoldable pub keep_key : String → Fields → Fields → Fields
keep_key k report keep = if has_key k report then set k (get k report) keep else keep

unfoldable pub summarize_validation : Fields → Fields
unfolding keep_key kept_checks
summarize_validation report =
    let keep = keep_key "reason" report (keep_key "decision" report no_fields) in
    if is_dict (get "checks" report)
    then set "checks" (object (kept_checks (fields_of (get "checks" report)))) keep
    else keep

unfoldable pub paper_entry : String → String → String → Fields → String → Fields
unfolding summarize_validation
paper_entry id model_cls features_hash report now = field "model_id" (text id) (
    field "model_cls" (text model_cls) (
      field "features_hash" (text features_hash) (
        field "status" (text "paper") (
          field "decision" (text "GO") (
            field "reason" (text "validation gate + cost fidelity + execution path passed") (
              field "registered_at" (text now)
                (field "validation" (object (summarize_validation report)) no_fields)))))))

-- `str(validation_report.get("decision", "NO-GO"))`
unfoldable pub decision_of : Conversions → Fields → String
decision_of c report = to_text c (get_or (text "NO-GO") "decision" report)

-- `register` of a report whose decision is GO.
unfoldable pub register_go :
    Conversions
    → String
    → String
    → String
    → Fields
    → String
    → ModelRegistry
    → ModelRegistry × Answer
unfolding rejected_entry paper_entry write
register_go c id model_cls features_hash report now reg =
    elim (assert_promotion_cost_ready c true true true report) [
      | crashes ↦ (reg, Answer.other_error)
      | refuses ↦
          write id (rejected_entry id model_cls features_hash "NO-GO" "cost fidelity gate" now) reg
      | passes ↦
          if not (is_valid_id id)
          then (reg, Answer.registry_error)
          else if contains id reg.files
          then (reg, Answer.registry_error)
          else write id (paper_entry id model_cls features_hash report now) reg
    ]

unfoldable pub register :
    Conversions
    → String
    → String
    → String
    → Fields
    → String
    → ModelRegistry
    → ModelRegistry × Answer
unfolding decision_of register_go
register c id model_cls features_hash report now reg =
    if decision_of c report == "GO"
    then register_go c id model_cls features_hash report now reg
    else write id
        (rejected_entry id model_cls features_hash (decision_of c report)
          (to_text c (get_or (text "gate did not pass") "reason" report)) now)
        reg

abbrev pub is_text : String → Json → Bool
is_text s (text t) = t == s
is_text s _ = false

-- `assert_ai_live_not_wired`, as whether it raises.
unfoldable pub is_ai_blocked : Fields → Bool
is_ai_blocked e =
    let validation = fields_of (get "validation" e) in
    is_text "validation_bypass" (get "ai_lane" e)
    || is_true (get "ai_live_blocked" e)
    || is_text "validation_bypass" (get "ai_lane" validation)
    || is_true (get "ai_live_blocked" validation)

abbrev pub given : Option Fields → Option Fields
given none = none
given (some no_fields) = none
given (some (field k v d)) = some (field k v d)

abbrev pub or_evidence : Option Fields → Option Fields → Option Fields
or_evidence none later = later
or_evidence (some e) later = some e

-- The evidence of the caller, or else of the entry, or else of its validation block.
unfoldable pub evidence_for : Option Fields → Fields → Option Fields
evidence_for paper_evidence e = or_evidence (given paper_evidence) (
    or_evidence (extract_paper_evidence e)
      (extract_paper_evidence (fields_of (get "validation" e))))

unfoldable pub refused_entry : String → Fields → Fields
refused_entry now e = set "rejected_at" (text now) (
    set "reason" (text "paper readiness gate")
      (set "decision" (text "NO-GO") (set "status" (text "rejected") e)))

unfoldable pub with_evidence : Option Fields → Fields → Fields
with_evidence none e = e
with_evidence (some evidence) e = set "paper_evidence" (object evidence) e

unfoldable pub live_entry : String → Option Fields → Fields → Fields
unfolding with_evidence
live_entry now evidence e = with_evidence evidence (
    set "paper_readiness" (object (field "passed" (flag true) no_fields))
      (set "promoted_at" (text now) (set "status" (text "live") e)))

-- `promote_to_live` of an entry that was read.
unfoldable pub promote_entry :
    Conversions → String → Option Fields → String → Fields → ModelRegistry → ModelRegistry × Answer
unfolding is_ai_blocked evidence_for refused_entry live_entry write
promote_entry c id paper_evidence now e reg =
    if not (is_text "paper" (get "status" e))
    then (reg, Answer.registry_error)
    else if is_ai_blocked e
    then (reg, Answer.registry_error)
    else if check_paper_readiness c reg.paper_readiness (evidence_for paper_evidence e)
    then write id (live_entry now (evidence_for paper_evidence e) e) reg
    else ((write id (refused_entry now e) reg).0, Answer.registry_error)

unfoldable pub promote_to_live :
    Conversions → String → Option Fields → String → ModelRegistry → ModelRegistry × Answer
unfolding promote_entry
promote_to_live c id paper_evidence now reg =
    if not (is_valid_id id) then (reg, Answer.registry_error) else elim (lookup id reg.files) [
      | none ↦ (reg, Answer.registry_error)
      | some e ↦ promote_entry c id paper_evidence now e reg
    ]

unfoldable pub attach_paper_evidence :
    String → Fields → String → ModelRegistry → ModelRegistry × Answer
unfolding write
attach_paper_evidence id evidence now reg =
    if not (is_valid_id id) then (reg, Answer.registry_error) else elim (lookup id reg.files) [
      | none ↦ (reg, Answer.registry_error)
      | some e ↦
          write id
            (set "paper_evidence_updated_at" (text now) (set "paper_evidence" (object evidence) e))
            reg
    ]
