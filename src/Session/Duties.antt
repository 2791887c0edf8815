-- ===== src/Session/Duties.antt =====
-- The pending duties of the data loop (quantflow/strategy/engine.py): the orders that time out, with
-- the release of what they reserved, and the sweep of stale reservations.
use intelligent_trading_syst.Base.{
  ◌⊎◌, inl, inr, sym, ℕ, ◌≡◌, refl, ap, ◌∙◌, Bool, false, ◌||◌, Option, none, some, List, [], ◌∷◌,
  String, ◌==◌, lookup, erase, lookup-erase, erase-Distinct, Distinct, member, eq_iff, arith,
  if◌then◌else◌,
}
use mathlib.Core.Path.{subst}
use intelligent_trading_syst.Models.{Position}
use intelligent_trading_syst.Portfolio.{PortfolioManager, set_position, refresh_drawdown}
use intelligent_trading_syst.Portfolio.Pending.{release, sweep_stale_pending}
use intelligent_trading_syst.Portfolio.Pending.Ledger.{stale_entry, sweep_exact}
use intelligent_trading_syst.Gateways.{GatewayBase}
use intelligent_trading_syst.Engine.Submit.{Engine}
use intelligent_trading_syst.Engine.Desk.{cancel, check_timeouts, sync_positions, sync_loop}
use intelligent_trading_syst.Session.{with_book}

abbrev pub is_yes : Option Bool → Bool
is_yes none = false
is_yes (some b) = b

-- The age after which a reservation is swept, in milliseconds.
abbrev pub max_pending_age : ℕ
max_pending_age = 120000

abbrev pub timed_out_ids : List (String × String) → List String
timed_out_ids [] = []
timed_out_ids ((oid, symbol) ∷ timed_out) = oid ∷ timed_out_ids timed_out

module _ {G : Type 0} (ops : GatewayBase G) (now : ℕ) where
  -- One timed-out order: without a word from the cancel or the sync, nothing is released.
  unfoldable pub handle_timeout : String → String → Engine G → Engine G
  handle_timeout oid symbol e =
      let cancelled = cancel ops now oid symbol e in
      let synced = sync_positions ops now cancelled.0 in
      if symbol == ""
      then with_book (release oid) e
      else if is_yes cancelled.1 || synced.1
      then with_book (release oid) synced.0
      else synced.0

  unfoldable pub handle_timeouts : List (String × String) → Engine G → Engine G
  unfolding handle_timeout
  handle_timeouts [] e = e
  handle_timeouts ((oid, symbol) ∷ timed_out) e =
      handle_timeouts timed_out (handle_timeout oid symbol e)

  -- The duties of one round, with the reservations that were swept.
  unfoldable pub release_pending : Engine G → Engine G × List String
  unfolding handle_timeouts
  release_pending e =
      let checked = check_timeouts ops now e in
      let handled = handle_timeouts checked.1 checked.0 in
      let swept = sweep_stale_pending now max_pending_age handled.portfolio in
      (record handled { portfolio = swept.0 }, swept.1)

sync_loop-pending :
    (ps : List Position) (pm : PortfolioManager) → (sync_loop ps pm).pending ≡ pm.pending
unfolding sync_loop set_position refresh_drawdown
sync_loop-pending [] pm = refl
sync_loop-pending (p ∷ ps) pm = ground (arith, sync_loop-pending ps (set_position p.symbol p pm))

module _ {G : Type 0} (ops : GatewayBase G) (now : ℕ) where
  sync_positions-pending :
      (e : Engine G) → (sync_positions ops now e).0.portfolio.pending ≡ e.portfolio.pending
  unfolding sync_positions
  sync_positions-pending e = grind (arith, sync_loop-pending)

  cancel-pending :
      (oid symbol : String) (e : Engine G)
      → (cancel ops now oid symbol e).0.portfolio.pending ≡ e.portfolio.pending
  unfolding cancel
  cancel-pending oid symbol e = ground arith

  asked-pending :
      (oid symbol : String) (e : Engine G)
      → (sync_positions ops now (cancel ops now oid symbol e).0).0.portfolio.pending
        ≡ e.portfolio.pending
  asked-pending oid symbol e =
      sync_positions-pending (cancel ops now oid symbol e).0 ∙ cancel-pending oid symbol e

  handle_timeout-other :
      (id oid symbol : String) (e : Engine G)
      → (oid == id) ≡ false
      → lookup id (handle_timeout ops now oid symbol e).portfolio.pending
        ≡ lookup id e.portfolio.pending
  unfolding handle_timeout release
  handle_timeout-other id oid symbol e other =
      grind (arith, asked-pending oid symbol e, lookup-erase, eq_iff)

  handle_timeout-either :
      (oid symbol : String) (e : Engine G)
      → ((handle_timeout ops now oid symbol e).portfolio.pending ≡ e.portfolio.pending)
        ⊎ ((handle_timeout ops now oid symbol e).portfolio.pending ≡ erase oid e.portfolio.pending)
  unfolding handle_timeout release
  handle_timeout-either oid symbol e = grind (arith, asked-pending oid symbol e)

  handle_timeout-Distinct :
      (oid symbol : String) (e : Engine G)
      → Distinct e.portfolio.pending
      → Distinct (handle_timeout ops now oid symbol e).portfolio.pending
  handle_timeout-Distinct oid symbol e distinct = elim (handle_timeout-either oid symbol e) [
    | inl q ↦ subst Distinct (sym q) distinct
    | inr q ↦ subst Distinct (sym q) (erase-Distinct oid e.portfolio.pending distinct)
  ]

  handle_timeouts-other :
      (id : String) (timed_out : List (String × String)) (e : Engine G)
      → member id (timed_out_ids timed_out) ≡ false
      → Distinct e.portfolio.pending
      → Distinct (handle_timeouts ops now timed_out e).portfolio.pending
        × (lookup id (handle_timeouts ops now timed_out e).portfolio.pending
            ≡ lookup id e.portfolio.pending)
  unfolding handle_timeouts member
  handle_timeouts-other id [] e other distinct = (distinct, refl)
  handle_timeouts-other id ((oid, symbol) ∷ timed_out) e other distinct =
      let (kept, same) =
        handle_timeouts-other id timed_out (handle_timeout ops now oid symbol e)
          (ground (arith, other)) (handle_timeout-Distinct oid symbol e distinct) in
      (kept, same ∙ handle_timeout-other id oid symbol e (ground (arith, other)))

  -- A reservation under an identifier that is not the one of a timed-out order is released only
  -- for its age: a round of the duties takes it away if it is older than two minutes, names it
  -- among those it swept, and otherwise leaves it as it was. The ledger has each identifier once.
  pub release_pending-stale :
      (id : String) (e : Engine G)
      → Distinct e.portfolio.pending
      → member id (timed_out_ids (check_timeouts ops now e).1) ≡ false
      → let done = release_pending ops now e in
        let old = stale_entry now max_pending_age (lookup id e.portfolio.pending) in
        (lookup id done.0.portfolio.pending ≡ (if old then none else lookup id e.portfolio.pending))
        × (member id done.1 ≡ old)
  unfolding release_pending check_timeouts
  release_pending-stale id e distinct other =
      let checked = check_timeouts ops now e in
      let (kept, same) = handle_timeouts-other id checked.1 checked.0 other distinct in
      let (named, swept) =
        sweep_exact now max_pending_age id (handle_timeouts ops now checked.1 checked.0).portfolio
          kept in
      let aged = ap (λ r. stale_entry now max_pending_age r) same in
      (swept ∙ ap (λ r. if stale_entry now max_pending_age r then none else r) same, named ∙ aged)
