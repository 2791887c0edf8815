-- ===== src/Recon/Discrepancies.antt =====
-- The discrepancies between the book and the exchange, their severity and the report of a run
-- (quantflow/reconciliation/models.py). Timestamps and the texts for the audit log are left out.
use intelligent_trading_syst.Base.{
  ℕ, ◌+◌, ◌*◌, Bool, true, false, not, ◌&&◌, Option, none, some, List, [], ◌∷◌, String, Dict, ℤ,
  ◌-ℤ◌, abs, ltb, eqb, length, keep_if, if◌then◌else◌,
}

pub data DiscrepancyType : Type 0 where
  position_mismatch orphan_position_local orphan_position_exchange : DiscrepancyType
  order_mismatch orphan_order_local orphan_order_exchange : DiscrepancyType

-- An entry of a snapshot, as `_position_entry` builds it.
pub record Entry : Type 0 where
  pub amount : ℤ
  pub entry_price : ℤ
  pub unrealized_pnl : ℤ

pub data Source : Type 0 where
  local exchange : Source

pub record PositionSnapshot : Type 0 where
  pub positions : Dict Entry
  pub source : Source

pub record Discrepancy : Type 0 where
  pub type : DiscrepancyType
  pub symbol : String
  pub local_value : Option ℤ
  pub exchange_value : Option ℤ

-- A score between 0 and 1, as a quotient of naturals.
pub record Severity : Type 0 where
  pub num : ℕ
  pub den : ℕ

abbrev pub no_severity : Severity
no_severity = record { num = 0; den = 1 }

abbrev pub full_severity : Severity
full_severity = record { num = 1; den = 1 }

-- The critical threshold, 0.8.
abbrev pub critical : Severity
critical = record { num = 8; den = 10 }

abbrev pub is_below : Severity → Severity → Bool
is_below a b = ltb (a.num * b.den) (b.num * a.den)

-- The score of two amounts; `min(relative_diff, 1.0)`.
unfoldable pub relative_severity : ℤ → ℤ → Severity
relative_severity l e =
    if eqb (abs l) 0
    then if eqb (abs e) 0 then no_severity else full_severity
    else if ltb (abs l) (abs (l -ℤ e))
    then full_severity
    else record { num = abs (l -ℤ e); den = abs l }

unfoldable pub severity_score : Discrepancy → Severity
severity_score d = elim d.local_value [
  | none ↦ full_severity
  | some l ↦ elim d.exchange_value [ none ↦ full_severity | some e ↦ relative_severity l e ]
]

-- `max(d.severity_score for d in items)`, from the score `best` of the first item.
unfoldable pub max_from : Severity → List Discrepancy → Severity
max_from best [] = best
max_from best (d ∷ items) =
    max_from (if is_below best (severity_score d) then severity_score d else best) items

-- `abs(value or 0)`
abbrev pub value_or_zero : Option ℤ → ℕ
value_or_zero none = 0
value_or_zero (some v) = abs v

unfoldable pub value_at_risk : List Discrepancy → ℕ
value_at_risk [] = 0
value_at_risk (d ∷ items) =
    value_or_zero d.local_value + value_or_zero d.exchange_value + value_at_risk items

pub record DiscrepancySet : Type 0 where
  pub items : List Discrepancy
  pub total_discrepancies : ℕ
  pub max_severity : Severity
  pub total_value_at_risk : ℕ

unfoldable pub max_severity_of : List Discrepancy → Severity
max_severity_of [] = no_severity
max_severity_of (d ∷ items) = max_from (severity_score d) items

-- The constructor with `__post_init__`.
unfoldable pub discrepancy_set : List Discrepancy → DiscrepancySet
discrepancy_set items = record {
  items = items;
  total_discrepancies = length items;
  max_severity = max_severity_of items;
  total_value_at_risk = value_at_risk items;
}

abbrev pub is_type : DiscrepancyType → DiscrepancyType → Bool
is_type DiscrepancyType.position_mismatch DiscrepancyType.position_mismatch = true
is_type DiscrepancyType.orphan_position_local DiscrepancyType.orphan_position_local = true
is_type DiscrepancyType.orphan_position_exchange DiscrepancyType.orphan_position_exchange = true
is_type DiscrepancyType.order_mismatch DiscrepancyType.order_mismatch = true
is_type DiscrepancyType.orphan_order_local DiscrepancyType.orphan_order_local = true
is_type DiscrepancyType.orphan_order_exchange DiscrepancyType.orphan_order_exchange = true
is_type _ _ = false

unfoldable pub filter_by_type : DiscrepancyType → DiscrepancySet → List Discrepancy
filter_by_type t set = keep_if (λ d. is_type d.type t) set.items

unfoldable pub filter_by_severity : Severity → DiscrepancySet → List Discrepancy
filter_by_severity least set = keep_if (λ d. not (is_below (severity_score d) least)) set.items

pub data ReconStatus : Type 0 where
  completed failed : ReconStatus

pub record DailyReconReport : Type 0 where
  pub local_snapshot : PositionSnapshot
  pub exchange_snapshot : PositionSnapshot
  pub discrepancies : DiscrepancySet
  pub reconciliation_id : String
  pub status : ReconStatus
  pub error_message : Option String

abbrev pub is_completed : ReconStatus → Bool
is_completed ReconStatus.completed = true
is_completed ReconStatus.failed = false

unfoldable pub has_critical_issues : DailyReconReport → Bool
has_critical_issues report = is_below critical report.discrepancies.max_severity

unfoldable pub passed : DailyReconReport → Bool
passed report = not (has_critical_issues report) && is_completed report.status
