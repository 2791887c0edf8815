-- ===== src/Session/Settled.antt =====
-- What the answer to an order, or an exception, does to its reservation
-- (`_process_signal_inner` in quantflow/strategy/engine.py).
use intelligent_trading_syst.Base.{
  ◌≡◌, ◌≢◌, refl, ap, ◌∙◌, Bool, true, false, Option, none, some, String, lookup, lookup-insert,
  lookup-erase, eq_iff, eq_refl, sym, ℕ, ℤ, pos, ◌-ℤ◌, ◌*ℤ◌, leb_ℤ, if◌then◌else◌, arith,
}
use mathlib.Core.Path.{subst}
use intelligent_trading_syst.Models.{Order, OrderStatus, Signal, money_epsilon}
use intelligent_trading_syst.Portfolio.{PendingEntry, PortfolioManager}
use intelligent_trading_syst.Portfolio.Pending.{reserve, release, confirm, partial_confirm}
use intelligent_trading_syst.Engine.Submit.{Engine}
use intelligent_trading_syst.Session.{
  TradingSession, settle_by, settle_pending, with_book, conclude_entry,
}

abbrev pub is_settled : OrderStatus → Bool
is_settled OrderStatus.filled = true
is_settled OrderStatus.rejected = true
is_settled _ = false

-- What an order leaves of its reservation: nothing if it is filled or rejected; what is not filled
-- yet, unless that is dust, if it is partly filled; and all of it if it is open.
abbrev pub kept_of : PendingEntry → ℤ → OrderStatus → Option PendingEntry
kept_of entry filled OrderStatus.filled = none
kept_of entry filled OrderStatus.rejected = none
kept_of entry filled OrderStatus.partial =
    if leb_ℤ (entry.notional -ℤ filled) (pos money_epsilon)
    then none
    else some (record entry { notional = entry.notional -ℤ filled })
kept_of entry filled _ = some entry

abbrev pub entry_of : ℕ → ℕ → Signal → PendingEntry
entry_of now size signal = record {
  symbol = signal.symbol;
  notional = pos size;
  strategy_id = signal.strategy_id;
  reserved_at_ms = now;
}

pub settle_by-own :
    (status : OrderStatus) (id : String) (filled : ℤ) (entry : PendingEntry) (pm : PortfolioManager)
    → lookup id pm.pending ≡ some entry
    → lookup id (settle_by status id filled pm).pending ≡ kept_of entry filled status
unfolding settle_by confirm release partial_confirm
settle_by-own OrderStatus.filled id filled entry pm held = grind (arith, lookup-erase, eq_refl id)
settle_by-own OrderStatus.rejected id filled entry pm held = grind (arith, lookup-erase, eq_refl id)
settle_by-own OrderStatus.partial id filled entry pm held =
    grind (arith, held, lookup-erase, lookup-insert, eq_refl id)
settle_by-own OrderStatus.created id filled entry pm held = held
settle_by-own OrderStatus.submitted id filled entry pm held = held
settle_by-own OrderStatus.accepted id filled entry pm held = held
settle_by-own OrderStatus.cancelled id filled entry pm held = held
settle_by-own OrderStatus.expired id filled entry pm held = held

pub conclude_entry-own :
    {G : Type 0} (id : String) (reserved : Engine G) (s : TradingSession G) (entry : PendingEntry)
    (reply : Option (Engine G × Order)) (answer : Engine G × Order)
    → reply ≡ some answer
    → answer.0.portfolio.pending ≡ reserved.portfolio.pending
    → lookup id reserved.portfolio.pending ≡ some entry
    → lookup id (conclude_entry id reserved s reply).0.engine.portfolio.pending
      ≡ kept_of entry (answer.1.filled_quantity *ℤ answer.1.filled_price) answer.1.status
unfolding conclude_entry settle_pending
conclude_entry-own id reserved s entry none answer sent kept held = ground (arith, sent)
conclude_entry-own id reserved s entry (some reply) answer sent kept held =
    subst
      (λ o.
        lookup id (conclude_entry id reserved s o).0.engine.portfolio.pending
        ≡ kept_of entry (answer.1.filled_quantity *ℤ answer.1.filled_price) answer.1.status)
      (sym sent)
      (settle_by-own answer.1.status id (answer.1.filled_quantity *ℤ answer.1.filled_price) entry
        answer.0.portfolio (ap (lookup id) kept ∙ held))

pub reserve-own :
    (id symbol sid : String) (notional : ℤ) (now : ℕ) (pm : PortfolioManager)
    → lookup id (reserve id symbol notional sid now pm).pending
      ≡ some
          (record { symbol = symbol; notional = notional; strategy_id = sid; reserved_at_ms = now })
unfolding reserve
reserve-own id symbol sid notional now pm = grind (arith, lookup-insert, eq_refl id)

pub settle_pending-other :
    (id oid : String) (order : Order) (pm : PortfolioManager)
    → oid ≢ id
    → lookup oid (settle_pending id order pm).pending ≡ lookup oid pm.pending
unfolding settle_pending settle_by confirm release partial_confirm
settle_pending-other id oid order pm other = grind (arith, lookup-insert, lookup-erase, eq_iff)

pub conclude_entry-other :
    {G : Type 0} (id oid : String) (reserved : Engine G) (s : TradingSession G)
    (reply : Option (Engine G × Order))
    → oid ≢ id
    → ((answer : Engine G × Order)
        → reply ≡ some answer
        → answer.0.portfolio.pending ≡ reserved.portfolio.pending)
    → lookup oid (conclude_entry id reserved s reply).0.engine.portfolio.pending
      ≡ lookup oid reserved.portfolio.pending
unfolding conclude_entry release
conclude_entry-other id oid reserved s none other kept = grind (arith, lookup-erase, eq_iff)
conclude_entry-other id oid reserved s (some answer) other kept =
    settle_pending-other id oid answer.1 answer.0.portfolio other
    ∙ ap (lookup oid) (kept answer refl)

pub reserve-other :
    (id oid symbol sid : String) (notional : ℤ) (now : ℕ) (pm : PortfolioManager)
    → oid ≢ id
    → lookup oid (reserve id symbol notional sid now pm).pending ≡ lookup oid pm.pending
unfolding reserve
reserve-other id oid symbol sid notional now pm other = grind (arith, lookup-insert, eq_iff)

pub conclude_entry-raised :
    {G : Type 0} (id : String) (reserved : Engine G) (s : TradingSession G)
    (reply : Option (Engine G × Order))
    → with_book (release id) reserved ≡ s.engine
    → (conclude_entry id reserved s reply).1 ≡ true
    → (conclude_entry id reserved s reply).0.engine ≡ s.engine
unfolding conclude_entry
conclude_entry-raised id reserved s none back raised = back
conclude_entry-raised id reserved s (some answer) back raised = ground (arith, raised)

pub conclude_entry-settled :
    {G : Type 0} (id : String) (reserved : Engine G) (s : TradingSession G)
    (reply : Option (Engine G × Order)) (answer : Engine G × Order)
    → reply ≡ some answer
    → is_settled answer.1.status ≡ true
    → answer.0.portfolio.pending ≡ reserved.portfolio.pending
    → (conclude_entry id reserved s reply).0.engine.portfolio.pending
      ≡ (release id reserved.portfolio).pending
unfolding conclude_entry settle_pending settle_by confirm release
conclude_entry-settled id reserved s reply answer sent settled kept = ground arith
