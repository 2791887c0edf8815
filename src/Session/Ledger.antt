-- ===== src/Session/Ledger.antt =====
-- The reservations of a session: what an entry (`_process_signal_inner` in
-- quantflow/strategy/engine.py) leaves of the pending ledger.
use intelligent_trading_syst.Base.{
  ◌≡◌, ◌≢◌, ap, ◌∙◌, true, none, some, String, lookup, ℕ, ℤ, pos, ◌*ℤ◌, arith,
}
use intelligent_trading_syst.Models.{Order, Signal}
use intelligent_trading_syst.Portfolio.{
  PortfolioManager, update_position, refresh_drawdown, apply_fill, pay,
}
use intelligent_trading_syst.Portfolio.Pending.{reserve}
use intelligent_trading_syst.Portfolio.Pending.Ledger.{reserve-release}
use intelligent_trading_syst.Gateways.{GatewayBase}
use intelligent_trading_syst.Engine.Submit.{
  Engine, book_fill, publish, announce_fill, handle_fill, settle_fill, record_sent, record_rejected,
  route, submit, submit_order,
}
use intelligent_trading_syst.Engine.Routing.{build_order}
use intelligent_trading_syst.Session.{TradingSession, entry_request, with_book, submit_entry}
use intelligent_trading_syst.Session.Settled.{
  is_settled, kept_of, entry_of, conclude_entry-own, reserve-own, conclude_entry-other,
  reserve-other, conclude_entry-raised, conclude_entry-settled,
}

update_position-pending :
    (symbol : String) (delta price fee : ℤ) (sid : String) (pm : PortfolioManager)
    → (update_position symbol delta price fee sid pm).pending ≡ pm.pending
unfolding update_position refresh_drawdown apply_fill pay
update_position-pending symbol delta price fee sid pm = ground arith

book_fill-pending :
    (order : Order) (pm : PortfolioManager) → (book_fill order pm).pending ≡ pm.pending
unfolding book_fill
book_fill-pending order pm = grind (arith, update_position-pending)

announce_fill-portfolio :
    {G : Type 0} (order : Order) (oid : String) (e : Engine G)
    → (announce_fill order oid e).portfolio ≡ e.portfolio
unfolding announce_fill publish
announce_fill-portfolio order oid e = ground arith

settle_fill-pending :
    {G : Type 0} (order : Order) (oid : String) (e : Engine G)
    → (settle_fill order oid e).0.portfolio.pending ≡ e.portfolio.pending
unfolding settle_fill handle_fill
settle_fill-pending order oid e = grind (arith, announce_fill-portfolio, book_fill-pending)

module _ {G : Type 0} (ops : GatewayBase G) (now : ℕ) where
  record_sent-pending :
      (order : Order) (oid : String) (e : Engine G)
      → (record_sent now order oid e).0.portfolio.pending ≡ e.portfolio.pending
  unfolding record_sent publish
  record_sent-pending order oid e = settle_fill-pending _ oid _

  route-pending :
      (order : Order) (gw : G) (e : Engine G)
      → (route ops now order gw e).0.portfolio.pending ≡ e.portfolio.pending
  unfolding route record_rejected publish
  route-pending order gw e = grind (arith, record_sent-pending)

  submit-pending :
      (order : Order) (e : Engine G) (answer : Engine G × Order)
      → submit ops now order e ≡ some answer
      → answer.0.portfolio.pending ≡ e.portfolio.pending
  unfolding submit
  submit-pending order e answer sent = grind (arith, route-pending)

  entry-other :
      (id oid : String) (size : ℕ) (signal : Signal) (s : TradingSession G)
      → oid ≢ id
      → lookup oid (submit_entry ops now id size signal s).0.engine.portfolio.pending
        ≡ lookup oid s.engine.portfolio.pending
  unfolding submit_entry submit_order
  entry-other id oid size signal s other =
      let reserved =
        with_book (reserve id signal.symbol (pos size) signal.strategy_id now) s.engine in
      let reply = submit ops now (build_order (entry_request size signal)) reserved in
      conclude_entry-other id oid reserved s reply other (submit-pending _ reserved)
      ∙ reserve-other id oid signal.symbol signal.strategy_id (pos size) now s.engine.portfolio
          other

  -- What the entry of a signal does to the ledger: it leaves every other reservation as it was, and
  -- a submission that raises changes nothing in the engine. An order that comes back filled or
  -- rejected leaves the ledger that was there before; a partly filled one leaves the notional that
  -- is not filled yet reserved, unless that is at most the epsilon; and one that is open leaves all
  -- of the size reserved. The identifier is new.
  pub submit_entry-ledger :
      (id : String) (size : ℕ) (signal : Signal) (s : TradingSession G)
      → lookup id s.engine.portfolio.pending ≡ none
      → let reserved =
          with_book (reserve id signal.symbol (pos size) signal.strategy_id now) s.engine in
        let sent = submit_order ops now (entry_request size signal) reserved in
        let result = submit_entry ops now id size signal s in
        ((oid : String)
          → oid ≢ id
          → lookup oid result.0.engine.portfolio.pending ≡ lookup oid s.engine.portfolio.pending)
        × (result.1 ≡ true → result.0.engine ≡ s.engine)
        × ((answer : Engine G × Order)
            → sent ≡ some answer
            → is_settled answer.1.status ≡ true
            → result.0.engine.portfolio.pending ≡ s.engine.portfolio.pending)
        × ((answer : Engine G × Order)
            → sent ≡ some answer
            → lookup id result.0.engine.portfolio.pending
              ≡ kept_of
                  (entry_of now size signal)
                  (answer.1.filled_quantity *ℤ answer.1.filled_price)
                  answer.1.status)
  unfolding submit_entry submit_order
  submit_entry-ledger id size signal s new =
      let pm = s.engine.portfolio in
      let reserved =
        with_book (reserve id signal.symbol (pos size) signal.strategy_id now) s.engine in
      let reply = submit ops now (build_order (entry_request size signal)) reserved in
      let (_, back, _) =
        reserve-release id signal.symbol (pos size) signal.strategy_id now pm new in
      (
        λ oid other. entry-other id oid size signal s other,
        conclude_entry-raised id reserved s reply
            (ap (λ q. record s.engine { portfolio = q }) back),
        λ answer sent settled.
            conclude_entry-settled id reserved s reply answer sent settled
              (submit-pending _ reserved answer sent)
            ∙ ap (λ (q : PortfolioManager). q.pending) back,
        λ answer sent.
            conclude_entry-own id reserved s (entry_of now size signal) reply answer sent
              (submit-pending _ reserved answer sent)
              (reserve-own id signal.symbol signal.strategy_id (pos size) now pm),
      )
