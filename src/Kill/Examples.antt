-- ===== src/Kill/Examples.antt =====
-- Kill switch: runs of the definitions and instances of the theorems.
use intelligent_trading_syst.Base.{
  false, ◌∷◌, strip, is_space, ◌≡◌, refl, true, some, List, [], String, ◌==◌, lookup, arith, eq_iff,
  Bool-cases, inl, inr, member, add, discard,
}
use mathlib.Core.Path.{subst}
use intelligent_trading_syst.Models.{Position}
use intelligent_trading_syst.Validators.{is_valid_symbol, is_symbol_char}
use intelligent_trading_syst.Portfolio.Examples.{btc}
use intelligent_trading_syst.Paper.Examples.{gateway}
use intelligent_trading_syst.Gateways.{paper_gateway}
use intelligent_trading_syst.Kill.Pauses.{empty_reasons, add_reason, remove_reason, is_paused}
use intelligent_trading_syst.Kill.Reasons.{add_call, remove_call, manual_call, run, run-is_paused}
use intelligent_trading_syst.Kill.Switch.{init, activate, activated, stop_all}
use intelligent_trading_syst.Kill.Reports.{Closes, activated-Closes}
use intelligent_trading_syst.Kill.Flatten.{CanClose, activate-flattens}

stripped : strip "  data stale " ≡ "data stale"
unfolding strip is_space
stripped = refl

paused : is_paused (remove_reason "a" (add_reason " b" (add_reason "a" empty_reasons))) ≡ true
unfolding is_paused remove_reason add_reason strip is_space add discard member
paused = refl

one_position :
    (s : String) (p : Position)
    → ("BTC/USDT" == s) ≡ true
    → lookup s gateway.positions ≡ some p
    → btc ≡ p
unfolding lookup
one_position s p same held = ground (arith, same, held)

can_close : (s : String) (p : Position) → lookup s gateway.positions ≡ some p → CanClose s p gateway
unfolding lookup is_valid_symbol is_symbol_char
can_close s p held = elim (Bool-cases ("BTC/USDT" == s)) [
  | inl same ↦
      let name : "BTC/USDT" ≡ s = ground (arith, eq_iff "BTC/USDT" s) in
      subst (λ t. CanClose t p gateway) name
        (subst (λ q. CanClose "BTC/USDT" q gateway) (one_position s p same held)
          (record { keyed = refl; sized = refl; valid = refl; priced = refl }))
  | inr other ↦ ground (arith, held)
]

activate-flattens_example :
    let stopped = activate paper_gateway 0 "drawdown" init gateway in
    (stopped.0.active ≡ true) × (stopped.1.0.positions ≡ []) × (stopped.1.1.status ≡ activated)
unfolding lookup init
activate-flattens_example =
    activate-flattens 0 "drawdown" init gateway refl refl (refl, tt) can_close

activated-Closes_example :
    let stopped = stop_all paper_gateway 0 "drawdown" gateway in
    let asked = paper_gateway.query_positions (paper_gateway.cancel_all_orders gateway).0 in
    (stopped.1.errors ≡ [])
    × ((ps : List Position) × (asked.1 ≡ some ps)
        × Closes paper_gateway 0 ps asked.0 stopped.0 stopped.1.closed_positions)
unfolding activate init lookup
activated-Closes_example =
    activated-Closes paper_gateway 0 "drawdown" gateway
      (activate-flattens 0 "drawdown" init gateway refl refl (refl, tt) can_close).2

run-is_paused_example :
    is_paused (
      run
        (add_call "data_stale" ∷ remove_call "data_stale" ∷ manual_call false ∷ [])
        (add_reason " kill_switch " empty_reasons))
    ≡ true
unfolding strip is_space
run-is_paused_example =
    run-is_paused " kill_switch "
      (add_call "data_stale" ∷ remove_call "data_stale" ∷ manual_call false ∷ []) empty_reasons refl
      (refl, tt)
