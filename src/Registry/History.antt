-- ===== src/Registry/History.antt =====
-- How a model of the registry becomes live, over any sequence of calls.
use intelligent_trading_syst.Base.{
  ◌≡◌, refl, Bool, true, false, not, ◌&&◌, ◌||◌, Option, none, some, Option-cases, inl, inr, List,
  [], ◌∷◌, String, ◌==◌, lookup, lookup-insert, eq_iff, arith, ℤ, pos, leb_ℤ, is_pos, sym,
}
use intelligent_trading_syst.Registry.Json.{
  text, object, no_fields, field, Fields, Conversions, get, set, get-set, get_or, to_text,
}
use intelligent_trading_syst.Registry.Costs.{Gate, assert_promotion_cost_ready}
use intelligent_trading_syst.Registry.Papers.{
  PaperReadinessConfig, check_paper_readiness, measure_paper_days, measure_fills, measure_orders,
  meets,
}
use intelligent_trading_syst.Registry.Store.{
  ModelRegistry, write, rejected_entry, paper_entry, decision_of, register_go, register, is_text,
  is_ai_blocked, evidence_for, refused_entry, with_evidence, live_entry, promote_entry,
  promote_to_live, attach_paper_evidence,
}

pub data Call : Type 0 where
  registered : String → String → String → Fields → String → Call
  promoted : String → Option Fields → String → Call
  attached : String → Fields → String → Call

abbrev pub step : Conversions → Call → ModelRegistry → ModelRegistry
step c (registered id cls hash report now) reg = (register c id cls hash report now reg).0
step c (promoted id evidence now) reg = (promote_to_live c id evidence now reg).0
step c (attached id evidence now) reg = (attach_paper_evidence id evidence now reg).0

abbrev pub run : Conversions → List Call → ModelRegistry → ModelRegistry
run c [] reg = reg
run c (call ∷ calls) reg = run c calls (step c call reg)

-- The model's entry has the status.
abbrev pub has_status : String → String → ModelRegistry → Bool
has_status status id reg = elim (lookup id reg.files) [
  | none ↦ false
  | some e ↦ is_text status (get "status" e)
]

abbrev pub is_passed : Gate → Bool
is_passed Gate.passes = true
is_passed _ = false

-- The call registers the model with a report that says GO and passes the cost gate and the path
-- gate.
abbrev pub clears : Conversions → String → Call → Bool
clears c id (registered k cls hash report now) =
    k == id
    && decision_of c report == "GO"
    && is_passed (assert_promotion_cost_ready c true true true report)
clears c id _ = false

-- A quantity that could be measured and is at least its floor.
abbrev pub is_at_least : ℤ → Option ℤ → Bool
is_at_least least none = false
is_at_least least (some n) = leb_ℤ least n

-- There is evidence, and its days, its fills and, where orders have a floor, its orders are each at
-- least the floor. Disabled floors ask for nothing, and missing evidence is enough where the
-- configuration does not require any.
unfoldable pub has_sample : Conversions → PaperReadinessConfig → Option Fields → Bool
has_sample c config none = not config.enabled || not config.require_evidence
has_sample c config (some no_fields) = not config.enabled || not config.require_evidence
has_sample c config (some (field k v d)) =
    let evidence = field k v d in
    not config.enabled
    || is_at_least config.min_paper_days (measure_paper_days c evidence)
      && is_at_least config.min_fills (measure_fills c evidence)
      && (leb_ℤ config.min_orders (pos 0)
          || is_at_least config.min_orders (measure_orders c evidence))

pos-floor : (n : ℤ) → not (is_pos n) ≡ leb_ℤ n (pos 0)
pos-floor n = ground arith

meets-floor : (o : Option ℤ) (least : ℤ) → meets o least ≡ is_at_least least o
meets-floor none least = refl
meets-floor (some n) least = ground arith

check_paper_readiness-has_sample :
    (c : Conversions) (config : PaperReadinessConfig) (evidence : Option Fields)
    → check_paper_readiness c config evidence ≡ has_sample c config evidence
unfolding check_paper_readiness has_sample
check_paper_readiness-has_sample c config none = ground arith
check_paper_readiness-has_sample c config (some no_fields) = ground arith
check_paper_readiness-has_sample c config (some (field k v d)) =
    let evidence = field k v d in
    rw
      (
        sym (pos-floor config.min_orders),
        sym (meets-floor (measure_paper_days c evidence) config.min_paper_days),
        sym (meets-floor (measure_fills c evidence) config.min_fills),
        sym (meets-floor (measure_orders c evidence) config.min_orders),
      )
      refl

-- The evidence of the call, or of the entry, is a sample, for a paper entry off the AI lane.
abbrev pub is_ready : Conversions → PaperReadinessConfig → Option Fields → Option Fields → Bool
is_ready c config evidence none = false
is_ready c config evidence (some e) =
    is_text "paper" (get "status" e)
    && not (is_ai_blocked e)
    && has_sample c config (evidence_for evidence e)

-- The call promotes the model, which is ready at that moment.
abbrev pub promotes : Conversions → String → Call → ModelRegistry → Bool
promotes c id (promoted k evidence now) reg =
    k == id && is_ready c reg.paper_readiness evidence (lookup id reg.files)
promotes c id _ reg = false

-- A call promotes the model after an earlier one cleared it, or after `cleared` is true.
abbrev pub goes_live : Conversions → String → Bool → List Call → ModelRegistry → Bool
goes_live c id cleared [] reg = false
goes_live c id cleared (call ∷ calls) reg =
    cleared && promotes c id call reg
    || goes_live c id (cleared || clears c id call) calls (step c call reg)

-- The status of an entry as each method writes it.
live_entry-status :
    (now : String) (evidence : Option Fields) (e : Fields)
    → get "status" (live_entry now evidence e) ≡ text "live"
unfolding live_entry with_evidence
live_entry-status now none e = grind (arith, get-set)
live_entry-status now (some v) e = grind (arith, get-set)

refused_entry-status :
    (now : String) (e : Fields) → get "status" (refused_entry now e) ≡ text "rejected"
unfolding refused_entry
refused_entry-status now e = grind (arith, get-set)

write-has_status :
    (status id k : String) (e : Fields) (reg : ModelRegistry)
    → has_status status id (write k e reg).0 ≡ true
    → (has_status status id reg || k == id && is_text status (get "status" e)) ≡ true
unfolding write
write-has_status status id k e reg h = ground (arith, lookup-insert k id e reg.files, eq_iff k id)

rejected_entry-status :
    (id cls hash decision reason now : String)
    → get "status" (rejected_entry id cls hash decision reason now) ≡ text "rejected"
unfolding get rejected_entry
rejected_entry-status id cls hash decision reason now = refl

paper_entry-status :
    (id cls hash : String) (report : Fields) (now : String)
    → get "status" (paper_entry id cls hash report now) ≡ text "paper"
unfolding get paper_entry
paper_entry-status id cls hash report now = refl

register-has_status :
    (c : Conversions) (s id k cls hash : String) (report : Fields) (now : String)
    (reg : ModelRegistry)
    → has_status s id (register c k cls hash report now reg).0 ≡ true
    → (has_status s id reg
        || "rejected" == s
        || "paper" == s && clears c id (registered k cls hash report now))
      ≡ true
unfolding register register_go
register-has_status c s id k cls hash report now reg h =
    let reason = to_text c (get_or (text "gate did not pass") "reason" report) in
    let refused = rejected_entry k cls hash (decision_of c report) reason now in
    ground (
      arith,
      write-has_status s id k (paper_entry k cls hash report now) reg,
      write-has_status s id k (rejected_entry k cls hash "NO-GO" "cost fidelity gate" now) reg,
      paper_entry-status k cls hash report now,
      rejected_entry-status k cls hash "NO-GO" "cost fidelity gate" now,
      write-has_status s id k refused reg,
      rejected_entry-status k cls hash (decision_of c report) reason now,
    )

promote-has_status :
    (c : Conversions) (s id k : String) (evidence : Option Fields) (now : String)
    (reg : ModelRegistry)
    → has_status s id (promote_to_live c k evidence now reg).0 ≡ true
    → (has_status s id reg
        || "rejected" == s
        || "live" == s && promotes c id (promoted k evidence now) reg)
      ≡ true
unfolding promote_to_live promote_entry
promote-has_status c s id k evidence now reg h = elim (Option-cases (lookup k reg.files)) [
  | inl e ↦ ground (arith, e)
  | inr (old, e) ↦
      let used = evidence_for evidence old in
      ground (
        arith,
        e,
        eq_iff k id,
        write-has_status s id k (live_entry now used old) reg,
        write-has_status s id k (refused_entry now old) reg,
        live_entry-status now used old,
        refused_entry-status now old,
        check_paper_readiness-has_sample c reg.paper_readiness used,
      )
]

attached-status :
    (evidence : Fields) (now : String) (e : Fields)
    → get "status"
        (set "paper_evidence_updated_at" (text now) (set "paper_evidence" (object evidence) e))
      ≡ get "status" e
attached-status evidence now e = grind (arith, get-set)

attach-has_status :
    (s id k : String) (evidence : Fields) (now : String) (reg : ModelRegistry)
    → has_status s id (attach_paper_evidence k evidence now reg).0 ≡ true
    → has_status s id reg ≡ true
unfolding attach_paper_evidence
attach-has_status s id k evidence now reg h = elim (Option-cases (lookup k reg.files)) [
  | inl e ↦ ground (arith, e)
  | inr (old, e) ↦
      let stamped =
        set "paper_evidence_updated_at" (text now) (set "paper_evidence" (object evidence) old) in
      ground (
        arith,
        e,
        eq_iff k id,
        write-has_status s id k stamped reg,
        attached-status evidence now old,
      )
]

-- What one call changes: a paper entry was there or is cleared, a live one was there or promoted.
step_paper :
    (c : Conversions) (id : String) (call : Call) (reg : ModelRegistry)
    → has_status "paper" id (step c call reg) ≡ true
    → (has_status "paper" id reg || clears c id call) ≡ true
step_paper c id (registered k cls hash report now) reg h =
    ground (arith, register-has_status c "paper" id k cls hash report now reg h)
step_paper c id (promoted k evidence now) reg h =
    ground (arith, promote-has_status c "paper" id k evidence now reg h)
step_paper c id (attached k evidence now) reg h =
    ground (arith, attach-has_status "paper" id k evidence now reg h)

step_live :
    (c : Conversions) (id : String) (call : Call) (reg : ModelRegistry)
    → has_status "live" id (step c call reg) ≡ true
    → (has_status "live" id reg || promotes c id call reg) ≡ true
step_live c id (registered k cls hash report now) reg h =
    ground (arith, register-has_status c "live" id k cls hash report now reg h)
step_live c id (promoted k evidence now) reg h =
    ground (arith, promote-has_status c "live" id k evidence now reg h)
step_live c id (attached k evidence now) reg h =
    ground (arith, attach-has_status "live" id k evidence now reg h)

promotes-paper :
    (c : Conversions) (id : String) (call : Call) (reg : ModelRegistry)
    → promotes c id call reg ≡ true
    → has_status "paper" id reg ≡ true
promotes-paper c id (promoted k evidence now) reg h = ground arith
promotes-paper c id (registered k cls hash report now) reg h = ground arith
promotes-paper c id (attached k evidence now) reg h = ground arith

live_cases :
    (live after promo cleared rest paper : Bool)
    → (paper ≡ true → cleared ≡ true)
    → (after || rest) ≡ true
    → (after ≡ true → (live || promo) ≡ true)
    → (promo ≡ true → paper ≡ true)
    → (live || (cleared && promo || rest)) ≡ true
live_cases live after promo cleared rest paper p h k l = ground arith

paper_cases :
    (paper after cleared clears : Bool)
    → (paper ≡ true → cleared ≡ true)
    → (after ≡ true → (paper || clears) ≡ true)
    → after ≡ true
    → (cleared || clears) ≡ true
paper_cases paper after cleared clears p h k = ground arith

run_live :
    (c : Conversions) (id : String) (cleared : Bool) (calls : List Call) (reg : ModelRegistry)
    → (has_status "paper" id reg ≡ true → cleared ≡ true)
    → has_status "live" id (run c calls reg) ≡ true
    → (has_status "live" id reg || goes_live c id cleared calls reg) ≡ true
run_live c id cleared [] reg p h = ground arith
run_live c id cleared (call ∷ calls) reg p h =
    let next = step c call reg in
    live_cases (has_status "live" id reg) (has_status "live" id next) (promotes c id call reg)
      cleared (goes_live c id (cleared || clears c id call) calls next) (has_status "paper" id reg)
      p
      (run_live c id (cleared || clears c id call) calls next
        (paper_cases (has_status "paper" id reg) (has_status "paper" id next) cleared
          (clears c id call) p (step_paper c id call reg))
        h)
      (step_live c id call reg) (promotes-paper c id call reg)

-- A model is live only if some call registered it with a report that says GO and passes the cost
-- gate and the path gate, and a later call promoted it while its entry was a paper one, off the AI
-- lane, with evidence whose measured days, fills and orders were each at least the floor of the
-- configuration. Disabled floors ask for nothing, and missing evidence is enough where none is
-- required. A number is never NaN. The calls may be any, from a registry without files.
pub live-goes_live :
    (c : Conversions) (config : PaperReadinessConfig) (id : String) (calls : List Call)
    → let reg : ModelRegistry = record { files = []; paper_readiness = config } in
      has_status "live" id (run c calls reg) ≡ true → goes_live c id false calls reg ≡ true
unfolding lookup
live-goes_live c config id calls h = run_live c id false calls _ (λ p. ground arith) h
