-- ===== src/Portfolio/Pending/Ledger.antt =====
-- What the pending ledger adds up to, and what its snapshot, its releases and its sweep do.
use intelligent_trading_syst.Base.{
  ℕ, ◌≡◌, refl, Bool, false, Option, none, some, List, [], ◌∷◌, String, Dict, lookup, insert, erase,
  Distinct, ℤ, pos, ◌+ℤ◌, ◌-ℤ◌, leb_ℤ, ◌==◌, eq_iff, int_laws, arith, lookup-insert, lookup-erase,
  +ℤ_comm, if◌then◌else◌, erase_absent,
}
use intelligent_trading_syst.Models.{money_epsilon}
use intelligent_trading_syst.Portfolio.{PendingEntry, PortfolioManager}
use intelligent_trading_syst.Base.{eq_refl, +ℤ-zero, member, ◌∙◌}
use intelligent_trading_syst.Portfolio.Pending.{
  reserve, release, partial_confirm, sum_for_symbol, sum_pending, pending_for_symbol,
  total_pending_exposure, confirm, get_or_zero, add_to, view_loop, pending_view, is_stale,
  stale_ids, erase_all, sweep_stale_pending,
}

get-add_to :
    (symbol key : String) (amount : ℤ) (d : Dict ℤ)
    → get_or_zero symbol (add_to key amount d)
      ≡ (if key == symbol then get_or_zero symbol d +ℤ amount else get_or_zero symbol d)
get-add_to symbol key amount d =
    ground (arith, eq_iff key symbol, lookup-insert key symbol (get_or_zero key d +ℤ amount) d)

view_loop-symbol :
    (symbol : String) (pending : Dict PendingEntry) (by_symbol by_strategy : Dict ℤ)
    → get_or_zero symbol (view_loop pending by_symbol by_strategy).0
      ≡ get_or_zero symbol by_symbol +ℤ sum_for_symbol symbol pending
unfolding view_loop sum_for_symbol
view_loop-symbol symbol [] by_symbol by_strategy = omega int_laws
view_loop-symbol symbol ((oid, entry) ∷ pending) by_symbol by_strategy = grind (
  int_laws,
  get-add_to symbol entry.symbol entry.notional by_symbol,
  view_loop-symbol symbol pending (add_to entry.symbol entry.notional by_symbol) (
      if entry.strategy_id == ""
      then by_strategy
      else add_to entry.strategy_id entry.notional by_strategy),
)

-- The snapshot that the risk checks read agrees with the ledger: for every symbol it holds the
-- sum of the reservations of that symbol, and its total is the sum of all.
pub pending_view-sums :
    (symbol : String) (pm : PortfolioManager)
    → (get_or_zero symbol (pending_view pm).by_symbol ≡ pending_for_symbol symbol pm)
      × ((pending_view pm).total ≡ sum_pending pm.pending)
unfolding pending_view pending_for_symbol total_pending_exposure lookup
pending_view-sums symbol pm =
    (view_loop-symbol symbol pm.pending [] [] ∙ (+ℤ_comm (pos 0) _ ∙ +ℤ-zero _), refl)

sum-insert_new :
    (oid : String) (entry : PendingEntry) (pending : Dict PendingEntry)
    → lookup oid pending ≡ none
    → sum_pending (insert oid entry pending) ≡ sum_pending pending +ℤ entry.notional
unfolding sum_pending lookup insert
sum-insert_new oid entry [] new = +ℤ_comm entry.notional (pos 0)
sum-insert_new oid entry ((k, e) ∷ pending) new = grind (int_laws, sum-insert_new oid entry pending)

sum-insert_held :
    (oid : String) (entry old : PendingEntry) (pending : Dict PendingEntry)
    → lookup oid pending ≡ some old
    → sum_pending (insert oid entry pending) +ℤ old.notional ≡ sum_pending pending +ℤ entry.notional
unfolding sum_pending lookup insert
sum-insert_held oid entry old [] held = cc
sum-insert_held oid entry old ((k, e) ∷ pending) held =
    grind (int_laws, sum-insert_held oid entry old pending)

sum-erase :
    (oid : String) (old : PendingEntry) (pending : Dict PendingEntry)
    → Distinct pending
    → lookup oid pending ≡ some old
    → sum_pending (erase oid pending) +ℤ old.notional ≡ sum_pending pending
unfolding sum_pending lookup erase
sum-erase oid old [] d held = cc
sum-erase oid old ((k, e) ∷ pending) d held =
    grind (int_laws, eq_iff k oid, erase_absent oid pending, sum-erase oid old pending)

erase-insert_new :
    (oid : String) (entry : PendingEntry) (pending : Dict PendingEntry)
    → lookup oid pending ≡ none
    → erase oid (insert oid entry pending) ≡ pending
unfolding lookup insert erase
erase-insert_new oid entry [] new = ground (arith, eq_refl oid)
erase-insert_new oid entry ((k, e) ∷ pending) new =
    ground (arith, erase-insert_new oid entry pending)

-- A reservation under a new id adds its notional to the exposure, and its release, or its
-- confirmation, gives back the very ledger that was there before.
pub reserve-release :
    (oid symbol : String) (notional : ℤ) (sid : String) (now : ℕ) (pm : PortfolioManager)
    → lookup oid pm.pending ≡ none
    → let pm' = reserve oid symbol notional sid now pm in
      (total_pending_exposure pm' ≡ total_pending_exposure pm +ℤ notional)
      × (release oid pm' ≡ pm)
      × (confirm oid pm' ≡ pm)
unfolding reserve release confirm total_pending_exposure
reserve-release oid symbol notional sid now pm new =
    let entry : PendingEntry = record {
      symbol = symbol;
      notional = notional;
      strategy_id = sid;
      reserved_at_ms = now;
    } in
    let back = erase-insert_new oid entry pm.pending new in
    (sum-insert_new oid entry pm.pending new, rw back, rw back)

-- A partial confirmation lowers the exposure by the notional filled so far, or, when no more than
-- the epsilon would be left, by all that was reserved.
pub partial_confirm-total :
    (oid : String) (filled : ℤ) {entry : PendingEntry} (pm : PortfolioManager)
    → Distinct pm.pending
    → lookup oid pm.pending ≡ some entry
    → total_pending_exposure (partial_confirm oid filled pm)
        +ℤ (if leb_ℤ (entry.notional -ℤ filled) (pos money_epsilon) then entry.notional else filled)
      ≡ total_pending_exposure pm
unfolding partial_confirm total_pending_exposure
partial_confirm-total oid filled {entry} pm d held = grind (
  int_laws,
  sum-erase oid entry pm.pending d held,
  sum-insert_held oid (record entry { notional = entry.notional -ℤ filled }) entry pm.pending held,
)

erase_all-lookup :
    (j : String) (oids : List String) (pending : Dict PendingEntry)
    → lookup j (erase_all oids pending) ≡ (if member j oids then none else lookup j pending)
unfolding erase_all member
erase_all-lookup j [] pending = refl
erase_all-lookup j (oid ∷ oids) pending =
    ground (arith, lookup-erase oid j pending, erase_all-lookup j oids (erase oid pending))

abbrev pub stale_entry : ℕ → ℕ → Option PendingEntry → Bool
stale_entry now max_age none = false
stale_entry now max_age (some entry) = is_stale now max_age entry

stale_ids-member :
    (now max_age : ℕ) (j : String) (pending : Dict PendingEntry)
    → Distinct pending
    → member j (stale_ids now max_age pending) ≡ stale_entry now max_age (lookup j pending)
unfolding stale_ids member lookup
stale_ids-member now max_age j [] d = refl
stale_ids-member now max_age j ((oid, entry) ∷ pending) d =
    ground (arith, eq_iff oid j, stale_ids-member now max_age j pending d.1)

-- The sweep returns exactly the ids whose reservation is older than the limit, and removes those
-- and no others.
pub sweep_exact :
    (now max_age : ℕ) (j : String) (pm : PortfolioManager)
    → Distinct pm.pending
    → let (pm', stale) = sweep_stale_pending now max_age pm in
      (member j stale ≡ stale_entry now max_age (lookup j pm.pending))
      × (lookup j pm'.pending
          ≡ (if stale_entry now max_age (lookup j pm.pending) then none else lookup j pm.pending))
unfolding sweep_stale_pending
sweep_exact now max_age j pm d = (
  stale_ids-member now max_age j pm.pending d,
  ground (
    arith,
    stale_ids-member now max_age j pm.pending d,
    erase_all-lookup j (stale_ids now max_age pm.pending) pm.pending,
  ),
)
