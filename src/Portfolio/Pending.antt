-- ===== src/Portfolio/Pending.antt =====
-- The pending exposure ledger of the portfolio manager (quantflow/signal/portfolio.py): notional
-- reserved before an order goes out, and the snapshot of it that the risk checks read.
pub mod Ledger
use intelligent_trading_syst.Base.{
  ℕ, ◌+◌, ◌≤◌, ◌<◌, ◌≡◌, ◌≢◌, refl, ap, Bool, true, false, not, Option, none, some, List, [], ◌∷◌,
  String, Dict, lookup, insert, erase, size, Distinct, ℤ, pos, ◌+ℤ◌, ◌-ℤ◌, ◌≤ℤ◌, is_pos, ltb, leb,
  leb_ℤ, ◌==◌, eq_iff, int_laws, arith, lookup-insert, lookup-erase, +ℤ_comm, if◌then◌else◌,
  Bool-cases, inl, inr, erase_absent,
}
use intelligent_trading_syst.Models.{money_epsilon}
use intelligent_trading_syst.Portfolio.{PendingEntry, PortfolioManager}

unfoldable pub reserve : String → String → ℤ → String → ℕ → PortfolioManager → PortfolioManager
reserve oid symbol notional strategy_id now_ms pm = record pm {
  pending =
      insert oid
        (record {
          symbol = symbol;
          notional = notional;
          strategy_id = strategy_id;
          reserved_at_ms = now_ms;
        })
        pm.pending;
}

-- `confirm` and `release` are the same pop.
unfoldable pub confirm : String → PortfolioManager → PortfolioManager
confirm oid pm = record pm { pending = erase oid pm.pending }

unfoldable pub release : String → PortfolioManager → PortfolioManager
release oid pm = record pm { pending = erase oid pm.pending }

unfoldable pub partial_confirm : String → ℤ → PortfolioManager → PortfolioManager
partial_confirm oid cumulative pm = elim (lookup oid pm.pending) [
  | none ↦ pm
  | some entry ↦
      if leb_ℤ (entry.notional -ℤ cumulative) (pos money_epsilon)
      then record pm { pending = erase oid pm.pending }
      else record pm {
        pending = insert oid (record entry { notional = entry.notional -ℤ cumulative }) pm.pending;
      }
]

unfoldable pub release_all : PortfolioManager → PortfolioManager × ℕ
release_all pm = (record pm { pending = [] }, size pm.pending)

-- The sums of `pending_for_symbol` and `total_pending_exposure`.
unfoldable pub sum_for_symbol : String → Dict PendingEntry → ℤ
sum_for_symbol symbol [] = pos 0
sum_for_symbol symbol ((oid, entry) ∷ pending) =
    let rest = sum_for_symbol symbol pending in
    if entry.symbol == symbol then entry.notional +ℤ rest else rest

unfoldable pub sum_pending : Dict PendingEntry → ℤ
sum_pending [] = pos 0
sum_pending ((oid, entry) ∷ pending) = entry.notional +ℤ sum_pending pending

unfoldable pub pending_for_symbol : String → PortfolioManager → ℤ
unfolding sum_for_symbol
pending_for_symbol symbol pm = sum_for_symbol symbol pm.pending

unfoldable pub total_pending_exposure : PortfolioManager → ℤ
unfolding sum_pending
total_pending_exposure pm = sum_pending pm.pending

pub record PendingView : Type 0 where
  pub total : ℤ
  pub by_symbol : Dict ℤ
  pub by_strategy : Dict ℤ

-- `d.get(key, 0.0)`
abbrev pub get_or_zero : String → Dict ℤ → ℤ
get_or_zero key d = elim (lookup key d) [ none ↦ pos 0 | some v ↦ v ]

abbrev pub add_to : String → ℤ → Dict ℤ → Dict ℤ
add_to key amount d = insert key (get_or_zero key d +ℤ amount) d

-- The loop of `pending_view`.
unfoldable pub view_loop : Dict PendingEntry → Dict ℤ → Dict ℤ → Dict ℤ × Dict ℤ
view_loop [] by_symbol by_strategy = (by_symbol, by_strategy)
view_loop ((oid, entry) ∷ pending) by_symbol by_strategy =
    view_loop pending (add_to entry.symbol entry.notional by_symbol) (
      if entry.strategy_id == ""
      then by_strategy
      else add_to entry.strategy_id entry.notional by_strategy)

unfoldable pub pending_view : PortfolioManager → PendingView
unfolding view_loop
pending_view pm = record {
  total = total_pending_exposure pm;
  by_symbol = (view_loop pm.pending [] []).0;
  by_strategy = (view_loop pm.pending [] []).1;
}

abbrev pub is_stale : ℕ → ℕ → PendingEntry → Bool
is_stale now_ms max_age_ms entry = ltb (entry.reserved_at_ms + max_age_ms) now_ms

-- The stale ids, and the ledger without them.
unfoldable pub stale_ids : ℕ → ℕ → Dict PendingEntry → List String
stale_ids now_ms max_age_ms [] = []
stale_ids now_ms max_age_ms ((oid, entry) ∷ pending) =
    let rest = stale_ids now_ms max_age_ms pending in
    if is_stale now_ms max_age_ms entry then oid ∷ rest else rest

unfoldable pub erase_all : List String → Dict PendingEntry → Dict PendingEntry
erase_all [] pending = pending
erase_all (oid ∷ oids) pending = erase_all oids (erase oid pending)

unfoldable pub sweep_stale_pending : ℕ → ℕ → PortfolioManager → PortfolioManager × List String
unfolding stale_ids erase_all
sweep_stale_pending now_ms max_age_ms pm =
    let stale = stale_ids now_ms max_age_ms pm.pending in
    (record pm { pending = erase_all stale pm.pending }, stale)
