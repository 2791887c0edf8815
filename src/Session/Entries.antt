-- ===== src/Session/Entries.antt =====
-- What a signal can do to the engine of a session (`_process_signal_inner`,
-- quantflow/strategy/engine.py): the gates of an entry, the kill switch, and the reservations.
use intelligent_trading_syst.Base.{
  ℕ, ◌<◌, ◌≡◌, ◌⊎◌, ap, ◌∙◌, true, false, none, some, List, String, lookup, ℤ, pos, arith, inl, inr,
}
use intelligent_trading_syst.Models.{Order, OrderStatus, Signal}
use intelligent_trading_syst.Portfolio.Pending.{reserve}
use intelligent_trading_syst.Portfolio.Pending.Ledger.{reserve-release}
use intelligent_trading_syst.Risk.Checks.{RiskEngine}
use intelligent_trading_syst.Kill.Pauses.{is_paused}
use intelligent_trading_syst.Gateways.{GatewayBase}
use intelligent_trading_syst.Engine.Submit.{Engine, submit, submit_order, is_kill_active}
use intelligent_trading_syst.Engine.Routing.{build_order}
use intelligent_trading_syst.Session.{
  TradingSession, accepted, with_event, is_exit, settle_by, settle_pending, entry_request,
  with_book, close_position_for_signal, conclude_entry, submit_entry, risk_decision_of, size_of,
  size_entry, process_signal,
}

module _ {G : Type 0} (ops : GatewayBase G) (now : ℕ) where
  halted-submit :
      (order : Order) (e : Engine G)
      → is_kill_active e.kill_switch ≡ true
      → (submit ops now order e ≡ none)
        ⊎ (submit ops now order e ≡ some (e, record order { status = OrderStatus.rejected }))
  unfolding submit
  halted-submit order e active = ground arith

  -- A raised or refused order gives the reservation back, and an order that is not sent leaves it.
  halted-entry :
      (id : String) (size : ℕ) (signal : Signal) (s : TradingSession G)
      → is_kill_active s.engine.kill_switch ≡ true
      → lookup id s.engine.portfolio.pending ≡ none
      → (submit_entry ops now id size signal s).0.engine ≡ s.engine
  unfolding submit_entry conclude_entry settle_pending settle_by submit_order
  halted-entry id size signal s active new =
      let reserved =
        with_book (reserve id signal.symbol (pos size) signal.strategy_id now) s.engine in
      let (_, back, _) =
        reserve-release id signal.symbol (pos size) signal.strategy_id now s.engine.portfolio new in
      elim (halted-submit (build_order (entry_request size signal)) reserved active) [
        | inl sent ↦
            ap (λ r. (conclude_entry id reserved s r).0.engine) sent
            ∙ ap (λ pm. record s.engine { portfolio = pm }) back
        | inr sent ↦
            ap (λ r. (conclude_entry id reserved s r).0.engine) sent
            ∙ ap (λ pm. record s.engine { portfolio = pm }) back
      ]

  halted-exit :
      (signal : Signal) (s : TradingSession G)
      → is_kill_active s.engine.kill_switch ≡ true
      → (close_position_for_signal ops now signal s).0.engine ≡ s.engine
  unfolding close_position_for_signal submit_order
  halted-exit signal s active = grind (arith, halted-submit)

  module _ (scale_budget_pct : RiskEngine → String → ℤ → ℤ) (cvar : List ℤ → ℤ)
      (deviation : List ℤ → ℕ) (reference : Signal → ℤ) where
    -- While the kill switch is active, no signal changes the engine: neither the book with its
    -- ledger nor the orders nor the gateway, for an entry and for an exit, whether the engine was
    -- started or not. The identifier of the reservation is new.
    pub process_signal-halted :
        (id : String) (signal : Signal) (s : TradingSession G)
        → is_kill_active s.engine.kill_switch ≡ true
        → lookup id s.engine.portfolio.pending ≡ none
        → (process_signal ops now scale_budget_pct cvar deviation reference id signal s).0.engine
          ≡ s.engine
    unfolding process_signal size_entry
    process_signal-halted id signal s active new = ground (
      arith,
      halted-exit signal s active,
      halted-entry id (size_of deviation reference signal s) signal (with_event (accepted signal) s)
          active new,
    )

    -- An entry changes the engine only past every gate: the engine is unchanged, or the recovery is
    -- verified, nothing pauses the session, the risk check passes and the size is positive.
    pub process_signal-gated :
        (id : String) (signal : Signal) (s : TradingSession G)
        → is_exit signal.direction ≡ false
        → ((process_signal ops now scale_budget_pct cvar deviation reference id signal s).0.engine
            ≡ s.engine)
          ⊎ ((s.recovery_verified ≡ true)
              × (is_paused s.risk_pauses ≡ false)
              × ((risk_decision_of scale_budget_pct cvar signal s).passed ≡ true)
              × (0 < size_of deviation reference signal s))
    unfolding process_signal size_entry
    process_signal-gated id signal s entry = ground arith
