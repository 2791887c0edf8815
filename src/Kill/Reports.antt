-- ===== src/Kill/Reports.antt =====
-- The report of an emergency stop, on any gateway.
use intelligent_trading_syst.Base.{
  ℕ, ◌≡◌, refl, true, false, Option, none, some, List, [], ◌∷◌, String, abs, arith, Bool-cases,
  Option-cases, inl, inr, ◌⊎◌, ◌<ℤ◌, pos, lookup, sym, ap, ◌∙◌,
}
use mathlib.Core.Path.{subst}
use mathlib.Core.List.{◌++◌}
use intelligent_trading_syst.Models.{Position, Order, buy, sell, is_flag_set}
use intelligent_trading_syst.Gateways.{GatewayBase}
use intelligent_trading_syst.Kill.Switch.{
  activated, failed, Closed, StopReport, note_close, is_sized, close_order, close_loop,
  start_report, grade, close_positions, cancel_orders, stop_all,
}

-- A market order, reduce-only, for all of the position and against its side.
pub record IsCloseOf (p : Position) (order : Order) : Type 0 where
  pub symbol : order.symbol ≡ p.symbol
  pub quantity : order.quantity ≡ pos (abs p.quantity)
  pub sells : pos 0 <ℤ p.quantity → order.side ≡ sell
  pub buys : p.quantity <ℤ pos 0 → order.side ≡ buy
  pub order_type : order.order_type ≡ "market"
  pub reduce_only : is_flag_set "reduceOnly" order.params ≡ true

close_order-IsCloseOf : (p : Position) → IsCloseOf p (close_order p)
unfolding close_order lookup
close_order-IsCloseOf p = record {
  symbol = refl;
  quantity = refl;
  sells = λ long. ground arith;
  buys = λ short. ground arith;
  order_type = refl;
  reduce_only = refl;
}

abbrev pub closed_of : Position → String → Closed
closed_of p oid = record { symbol = p.symbol; quantity = abs p.quantity; order_id = oid }

-- The gateway goes from `gw` to `gw'` by taking, in order, a close order for each position that
-- has a size, and gives each the id that the list has.
abbrev pub Closes : {G : Type 0} → GatewayBase G → ℕ → List Position → G → G → List Closed → Type 0
Closes ops now [] gw gw' listed = (gw ≡ gw') × (listed ≡ [])
Closes ops now (p ∷ ps) gw gw' listed =
    ((abs p.quantity ≡ 0) × Closes ops now ps gw gw' listed)
    ⊎ ((order : Order) × IsCloseOf p order
        × ((oid : String) × ((ops.send_order now order gw).exchange_id ≡ some oid)
            × ((rest : List Closed) × (listed ≡ closed_of p oid ∷ rest)
                × Closes ops now ps (ops.send_order now order gw).gateway gw' rest)))

++-assoc_one :
    (cs : List Closed) (c : Closed) (rest : List Closed)
    → (cs ++ (c ∷ [])) ++ rest ≡ cs ++ (c ∷ rest)
++-assoc_one [] c rest = refl
++-assoc_one (d ∷ cs) c rest = ap (◌∷◌ d) (++-assoc_one cs c rest)

++-none : (cs : List Closed) → cs ++ [] ≡ cs
++-none [] = refl
++-none (c ∷ cs) = ap (◌∷◌ c) (++-none cs)

not_empty : {B : Type 0} (errors : List String) (e : String) → errors ++ (e ∷ []) ≡ [] → B
not_empty [] e h = ground arith
not_empty (x ∷ errors) e h = ground arith

-- Closes without an error so far: the trace of them, and what it adds to the report.
record IsClean {G : Type 0} (ops : GatewayBase G) (now : ℕ) (report : StopReport) (gw : G)
    (after : G × StopReport) (ps : List Position) : Type 0 where
  no_error : report.errors ≡ []
  listed : List Closed
  closes : after.1.closed_positions ≡ report.closed_positions ++ listed
  trace : Closes ops now ps gw after.0 listed

note-IsClean :
    {G : Type 0} (ops : GatewayBase G) (now : ℕ) (p : Position) (id : Option String)
    (report : StopReport) (gw : G) (after : G × StopReport) (ps : List Position)
    → (ops.send_order now (close_order p) gw).exchange_id ≡ id
    → IsClean ops now
        (note_close p id report)
        (ops.send_order now (close_order p) gw).gateway
        after
        ps
    → IsClean ops now report gw after (p ∷ ps)
unfolding note_close
note-IsClean ops now p none report gw after ps asked h = not_empty report.errors _ h.no_error
note-IsClean ops now p (some oid) report gw after ps asked h = record {
  no_error = h.no_error;
  listed = closed_of p oid ∷ h.listed;
  closes = h.closes ∙ ++-assoc_one report.closed_positions _ h.listed;
  trace = inr (close_order p, close_order-IsCloseOf p, (oid, asked, (h.listed, refl, h.trace)));
}

grade-activated :
    (report : StopReport)
    → (grade report).status ≡ activated
    → (report.errors ≡ []) × (grade report ≡ report)
unfolding grade
grade-activated report h = ground arith

module _ {G : Type 0} (ops : GatewayBase G) (now : ℕ) where
  pub close_loop-sized :
      (p : Position) (ps : List Position) (gw : G) (report : StopReport)
      → is_sized p ≡ true
      → let sent = ops.send_order now (close_order p) gw in
        close_loop ops now (p ∷ ps) gw report
        ≡ close_loop ops now ps sent.gateway (note_close p sent.exchange_id report)
  unfolding close_loop
  close_loop-sized p ps gw report sized = rw sized refl

  close_loop-empty :
      (p : Position) (ps : List Position) (gw : G) (report : StopReport)
      → is_sized p ≡ false
      → close_loop ops now (p ∷ ps) gw report ≡ close_loop ops now ps gw report
  unfolding close_loop
  close_loop-empty p ps gw report empty = rw empty refl

  pub close_loop-nil :
      (gw : G) (report : StopReport) → close_loop ops now [] gw report ≡ (gw, report)
  unfolding close_loop
  close_loop-nil gw report = refl

  close_loop-IsClean :
      (ps : List Position) (gw : G) (report : StopReport)
      → (close_loop ops now ps gw report).1.errors ≡ []
      → IsClean ops now report gw (close_loop ops now ps gw report) ps
  close_loop-IsClean [] gw report clean =
      let nil = close_loop-nil gw report in
      rw nil (record {
        no_error = sym (ap (λ r. r.1.errors) nil) ∙ clean;
        listed = [];
        closes = sym (++-none _);
        trace = (refl, refl);
      })
  close_loop-IsClean (p ∷ ps) gw report clean =
      let sent = ops.send_order now (close_order p) gw in
      elim (Bool-cases (is_sized p)) [
        | inl sized ↦
            let step = close_loop-sized p ps gw report sized in
            rw step (
              note-IsClean ops now p sent.exchange_id report gw _ ps refl (
                close_loop-IsClean ps sent.gateway (note_close p sent.exchange_id report)
                  (sym (ap (λ r. r.1.errors) step) ∙ clean)))
        | inr empty ↦
            let step = close_loop-empty p ps gw report empty in
            let rest = close_loop-IsClean ps gw report (sym (ap (λ r. r.1.errors) step) ∙ clean) in
            rw step (record {
              no_error = rest.no_error;
              listed = rest.listed;
              closes = rest.closes;
              trace = inl (ground (arith, empty), rest.trace);
            })
      ]

  cancel-closed :
      (gw : G) (report : StopReport)
      → (cancel_orders ops now gw report).1.closed_positions ≡ report.closed_positions
  unfolding cancel_orders
  cancel-closed gw report = ground arith

  -- What the stop comes to once the positions are known.
  pub stop-known :
      (reason : String) (gw : G) (ps : List Position)
      → let cancelled = cancel_orders ops now gw (start_report reason) in
        let asked = ops.query_positions cancelled.0 in
        asked.1 ≡ some ps
        → let closed = close_loop ops now ps asked.0 cancelled.1 in
          stop_all ops now reason gw ≡ (closed.0, grade closed.1)
  unfolding stop_all close_positions
  stop-known reason gw ps known = ground (arith, known)

  stop-unknown :
      (reason : String) (gw : G)
      → let cancelled = cancel_orders ops now gw (start_report reason) in
        (ops.query_positions cancelled.0).1 ≡ none → (stop_all ops now reason gw).1.status ≡ failed
  unfolding stop_all close_positions
  stop-unknown reason gw unknown = ground (arith, unknown)

  subst2-Closes :
      (ps : List Position) (gw g g' : G) (cs cs' : List Closed)
      → g ≡ g'
      → cs ≡ cs'
      → Closes ops now ps gw g cs
      → Closes ops now ps gw g' cs'
  subst2-Closes ps gw g g' cs cs' e f h =
      subst (λ x. Closes ops now ps gw x cs') e (subst (λ y. Closes ops now ps gw g y) f h)

  -- An emergency stop that reports the status "activated" met no exception, on any gateway: the
  -- positions could be queried; for each of them that has a size, in order, the gateway took a
  -- reduce-only market order for all of it against its side, and gave an id; and what the report
  -- lists as closed is those positions with these ids. Whether an order was filled is not asked.
  pub activated-Closes :
      (reason : String) (gw : G)
      → (stop_all ops now reason gw).1.status ≡ activated
      → let stopped = stop_all ops now reason gw in
        let asked = ops.query_positions (ops.cancel_all_orders gw).0 in
        (stopped.1.errors ≡ [])
        × ((ps : List Position) × (asked.1 ≡ some ps)
            × Closes ops now ps asked.0 stopped.0 stopped.1.closed_positions)
  unfolding cancel_orders
  activated-Closes reason gw h =
      let cancelled = cancel_orders ops now gw (start_report reason) in
      elim (Option-cases (ops.query_positions (ops.cancel_all_orders gw).0).1) [
        | inl unknown ↦ ground (arith, stop-unknown reason gw unknown)
        | inr (ps, known) ↦
            let stop = stop-known reason gw ps known in
            let step = ap (λ r. r.1) stop in
            let asked = ops.query_positions cancelled.0 in
            let after = close_loop ops now ps asked.0 cancelled.1 in
            let graded : (after.1.errors ≡ []) × (grade after.1 ≡ after.1) =
              grade-activated after.1 (sym (ap (λ r. r.status) step) ∙ h) in
            let clean : IsClean ops now cancelled.1 asked.0 after ps =
              close_loop-IsClean ps asked.0 cancelled.1 graded.0 in
            let none_yet = cancel-closed gw (start_report reason) in
            (
              ap (λ r. r.errors) (step ∙ graded.1) ∙ graded.0,
              (
                ps,
                known,
                subst2-Closes ps asked.0 _ _ _ _ (sym (ap (λ r. r.0) stop))
                    (sym (
                      ap (λ r. r.closed_positions) (step ∙ graded.1)
                      ∙ clean.closes
                      ∙ ap (λ cs. cs ++ clean.listed) none_yet))
                    clean.trace,
              ),
            )
      ]
