-- ===== src/Recon/Severities.antt =====
-- The order of the severity scores, and what the largest score says of every discrepancy.
use native.Mathlib.Nat.{mul-le-mul_left, mul-le-mul_right}
use intelligent_trading_syst.Base.{
  ℕ, ◌*◌, ◌≤◌, ◌<◌, ◌≡◌, true, false, List, [], ◌∷◌, ltb, arith, Bool-cases, inl, inr, All,
  if◌then◌else◌,
}
use intelligent_trading_syst.Recon.Discrepancies.{
  Severity, Discrepancy, severity_score, relative_severity, is_below, critical, max_from,
  max_severity_of,
}

-- The discrepancy is not critical.
abbrev pub IsMild : Discrepancy → Type 0
IsMild d = is_below critical (severity_score d) ≡ false

lt_of_ltb : (a b : ℕ) → ltb a b ≡ true → a < b
lt_of_ltb a b e = ground arith

mild_under : (an ad bn bd : ℕ) → 0 < bd → an * bd ≤ bn * ad → bn * 10 ≤ 8 * bd → an * 10 ≤ 8 * ad
mild_under an ad bn bd p h k = elim (Bool-cases (ltb (8 * ad) (an * 10))) [
  | inr e ↦ ground arith
  | inl e ↦ omega (arith, h, p, mul-le-mul_right ad k, mul-le-mul_left bd (lt_of_ltb _ _ e))
]

score_positive : (d : Discrepancy) → 0 < (severity_score d).den
unfolding severity_score relative_severity
score_positive d = ground arith

step_mild :
    (best s : Severity)
    → 0 < best.den
    → 0 < s.den
    → is_below critical (if is_below best s then s else best) ≡ false
    → (is_below critical best ≡ false) × (is_below critical s ≡ false)
step_mild best s p q h =
    ground (
      arith,
      mild_under best.num best.den s.num s.den q,
      mild_under s.num s.den best.num best.den p,
    )

-- `max` is above every item.
max_from-IsMild :
    (best : Severity) (items : List Discrepancy)
    → 0 < best.den
    → is_below critical (max_from best items) ≡ false
    → (is_below critical best ≡ false) × All IsMild items
unfolding max_from
max_from-IsMild best [] p h = (h, tt)
max_from-IsMild best (d ∷ items) p h =
    let s = severity_score d in
    let positive = score_positive d in
    let next : 0 < (if is_below best s then s else best).den = ground arith in
    let parts = max_from-IsMild (if is_below best s then s else best) items next h in
    let both = step_mild best s p positive parts.0 in (both.0, (both.1, parts.1))

pub max_severity-IsMild :
    (items : List Discrepancy)
    → is_below critical (max_severity_of items) ≡ false
    → All IsMild items
unfolding max_severity_of
max_severity-IsMild [] h = tt
max_severity-IsMild (d ∷ items) h = max_from-IsMild (severity_score d) items (score_positive d) h
