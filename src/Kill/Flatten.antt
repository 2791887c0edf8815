-- ===== src/Kill/Flatten.antt =====
-- Emergency stops on the paper gateway, and what they leave of its positions.
use intelligent_trading_syst.Base.{
  ℕ, ◌+◌, ◌≡◌, refl, true, false, ◌&&◌, Option, none, some, [], ◌∷◌, String, ◌==◌, Dict, lookup,
  erase, values, Distinct, lookup-insert, lookup-erase, eq_iff, eq_refl, ℤ, pos, ◌+ℤ◌, neg_ℤ,
  is_pos, arith, if◌then◌else◌, str_append, show, ap, ◌∙◌,
}
use mathlib.Core.Path.{subst}
use intelligent_trading_syst.Models.{OrderSide, buy, sell, Position}
use intelligent_trading_syst.Validators.{is_valid_symbol}
use intelligent_trading_syst.Paper.State.{
  PaperGateway, last_price, resolve_fill_price, query_positions,
}
use intelligent_trading_syst.Paper.Positions.{update_position}
use intelligent_trading_syst.Paper.Send.{
  capped_quantity, signed, slipped_price, fill_order, send_valid, send_numbered, send_order,
}
use intelligent_trading_syst.Gateways.{paper_send, paper_gateway}
use intelligent_trading_syst.Kill.Switch.{
  KillSwitch, activate, activated, StopReport, start_report, note_close, close_order, is_sized,
  close_loop, grade, cancel_orders,
}
use intelligent_trading_syst.Kill.Reports.{close_loop-sized, close_loop-nil, stop-known}

abbrev pub last_known : String → PaperGateway → ℤ
last_known symbol gw = elim (lookup symbol gw.prices) [ none ↦ pos 0 | some price ↦ price ]

-- A position that the paper gateway can close: it stands under its own symbol, a valid one with a
-- known price, and it has a size.
pub record CanClose (symbol : String) (p : Position) (gw : PaperGateway) : Type 0 where
  pub keyed : p.symbol ≡ symbol
  pub sized : is_sized p ≡ true
  pub valid : is_valid_symbol symbol ≡ true
  pub priced : is_pos (last_known symbol gw) ≡ true

close_price :
    (symbol : String) (side : OrderSide) (gw : PaperGateway)
    → gw.orderbook_fill_enabled ≡ false
    → resolve_fill_price symbol side none gw ≡ last_known symbol gw
unfolding resolve_fill_price last_price
close_price symbol side gw off = ground arith

-- The close asks for the whole position, and the cap leaves that as it is.
closes_exactly :
    (p : Position)
    → is_sized p ≡ true
    → let order = close_order p in
      p.quantity +ℤ signed order.side (capped_quantity order.side p.quantity order.quantity) ≡ pos 0
unfolding close_order capped_quantity ◌+ℤ◌ neg_ℤ
closes_exactly p sized = ground arith

pub update-closing :
    (symbol : String) (p : Position) (delta price : ℤ) (sid : String) (positions : Dict Position)
    → lookup symbol positions ≡ some p
    → p.quantity +ℤ delta ≡ pos 0
    → update_position symbol delta price sid positions ≡ erase symbol positions
unfolding update_position
update-closing symbol p delta price sid positions held closing = ground (arith, held, closing)

-- What the close of one position leaves in the gateway.
pub record IsClosed (symbol : String) (before after : PaperGateway) : Type 0 where
  pub positions : after.positions ≡ erase symbol before.positions
  pub prices : (s : String) → (symbol == s) ≡ false → lookup s after.prices ≡ lookup s before.prices
  pub book_off : after.orderbook_fill_enabled ≡ before.orderbook_fill_enabled

fill-IsClosed :
    (oid : String) (p : Position) (price : ℤ) (gw : PaperGateway)
    → lookup p.symbol gw.positions ≡ some p
    → is_sized p ≡ true
    → let order = close_order p in
      IsClosed p.symbol gw
        (fill_order oid order (capped_quantity order.side p.quantity order.quantity) price gw).0
unfolding fill_order close_order
fill-IsClosed oid p price gw held sized = record {
  positions = update-closing p.symbol p _ _ "" gw.positions held (closes_exactly p sized);
  prices = λ s apart. ground (
    arith,
    lookup-insert p.symbol s
        (slipped_price p.symbol (if is_pos p.quantity then sell else buy) price gw) gw.prices,
  );
  book_off = refl;
}

-- Nothing in `send_valid` stops the close.
valid-fills :
    (oid : String) (now : ℕ) (p : Position) (gw : PaperGateway)
    → gw.orderbook_fill_enabled ≡ false
    → lookup p.symbol gw.positions ≡ some p
    → is_sized p ≡ true
    → is_pos (last_known p.symbol gw) ≡ true
    → let order = close_order p in
      send_valid oid now order gw
      ≡ fill_order oid order
          (capped_quantity order.side p.quantity order.quantity)
          (last_known p.symbol gw)
          gw
unfolding send_valid close_order
valid-fills oid now p gw off held sized priced =
    let side : OrderSide = if is_pos p.quantity then sell else buy in
    ground (arith, close_price p.symbol side gw off, held)

valid-IsClosed :
    (oid : String) (now : ℕ) (p : Position) (gw : PaperGateway)
    → gw.orderbook_fill_enabled ≡ false
    → lookup p.symbol gw.positions ≡ some p
    → is_sized p ≡ true
    → is_pos (last_known p.symbol gw) ≡ true
    → IsClosed p.symbol gw (send_valid oid now (close_order p) gw).0
valid-IsClosed oid now p gw off held sized priced =
    rw (valid-fills oid now p gw off held sized priced)
      (fill-IsClosed oid p (last_known p.symbol gw) gw held sized)

sent-IsClosed :
    (now : ℕ) (p : Position) (gw : PaperGateway)
    → gw.orderbook_fill_enabled ≡ false
    → lookup p.symbol gw.positions ≡ some p
    → CanClose p.symbol p gw
    → let sent = paper_send now (close_order p) gw in
      IsClosed p.symbol gw sent.gateway × ((oid : String) × (sent.exchange_id ≡ some oid))
unfolding paper_send send_order send_numbered close_order
sent-IsClosed now p gw off held can =
    let order = close_order p in
    let oid : String = str_append "paper-" (show (gw.order_counter + 1)) in
    let asked : is_pos order.quantity && is_valid_symbol order.symbol ≡ true =
      ground (arith, can.sized, can.valid) in
    let numbered : PaperGateway = record gw { order_counter = gw.order_counter + 1 } in
    let closed : IsClosed p.symbol numbered (send_valid oid now order numbered).0 =
      valid-IsClosed oid now p numbered off held can.sized can.priced in
    rw (paper_send, asked)
      (
        record { positions = closed.positions; prices = closed.prices; book_off = closed.book_off },
        (_, refl),
      )

-- The same entries, whatever the order.
abbrev Agrees : Dict Position → Dict Position → Type 0
Agrees d e = (s : String) → lookup s d ≡ lookup s e

Agrees-erase :
    (k : String) (p : Position) (d rest : Dict Position)
    → Distinct ((k, p) ∷ rest)
    → Agrees d ((k, p) ∷ rest)
    → Agrees (erase k d) rest
unfolding lookup
Agrees-erase k p d rest distinct same =
    λ s. ground (arith, distinct.0, same s, lookup-erase k s d, eq_iff k s)

close_next :
    (k : String) (p q : Position) (rest : Dict Position) (before after : PaperGateway) (s : String)
    → Distinct ((k, p) ∷ rest)
    → ((s : String) → (k == s) ≡ false → lookup s after.prices ≡ lookup s before.prices)
    → lookup s rest ≡ some q
    → (lookup s ((k, p) ∷ rest) ≡ some q → CanClose s q before)
    → CanClose s q after
unfolding lookup
close_next k p q rest before after s distinct prices found can =
    let apart : (k == s) ≡ false = ground (arith, distinct.0, found, eq_iff k s) in
    let was : CanClose s q before = can (rw apart found) in
    record {
      keyed = was.keyed;
      sized = was.sized;
      valid = was.valid;
      priced = rw (last_known, prices s apart) was.priced;
    }

sent-closes :
    (now : ℕ) (k : String) (p : Position) (gw : PaperGateway)
    → gw.orderbook_fill_enabled ≡ false
    → lookup k gw.positions ≡ some p
    → CanClose k p gw
    → let sent = paper_send now (close_order p) gw in
      IsClosed k gw sent.gateway × ((oid : String) × (sent.exchange_id ≡ some oid))
sent-closes now k p gw off held can =
    subst
      (λ s.
        lookup s gw.positions ≡ some p
        → CanClose s p gw
        → let sent = paper_send now (close_order p) gw in
          IsClosed s gw sent.gateway × ((oid : String) × (sent.exchange_id ≡ some oid)))
      can.keyed (sent-IsClosed now p gw off) held can

note_sent :
    (p : Position) (id : Option String) (oid : String) (report : StopReport)
    → id ≡ some oid
    → ((note_close p id report).errors ≡ report.errors)
      × ((note_close p id report).status ≡ report.status)
unfolding note_close
note_sent p id oid report sent = ground (arith, sent)

-- Closing the positions of `rest`, which are all that the gateway holds.
flatten_loop :
    (now : ℕ) (rest : Dict Position) (gw : PaperGateway) (report : StopReport)
    → gw.orderbook_fill_enabled ≡ false
    → Distinct rest
    → Agrees gw.positions rest
    → ((s : String) (p : Position) → lookup s rest ≡ some p → CanClose s p gw)
    → let after = close_loop paper_gateway now (values rest) gw report in
      Agrees after.0.positions []
      × (after.1.errors ≡ report.errors)
      × (after.1.status ≡ report.status)
unfolding paper_gateway lookup
flatten_loop now [] gw report off distinct same can =
    rw (close_loop-nil paper_gateway now gw report) (same, refl, refl)
flatten_loop now ((k, p) ∷ rest) gw report off distinct same can =
    let mine : CanClose k p gw = can k p (ground (arith, eq_refl k)) in
    let held : lookup k gw.positions ≡ some p = same k ∙ ground (arith, eq_refl k) in
    let sent = paper_send now (close_order p) gw in
    let closed = sent-closes now k p gw off held mine in
    let noted = note_sent p sent.exchange_id closed.1.0 report closed.1.1 in
    let after =
      flatten_loop now rest sent.gateway (note_close p sent.exchange_id report)
        (closed.0.book_off ∙ off) distinct.1
        (λ s. ap (lookup s) closed.0.positions ∙ Agrees-erase k p gw.positions rest distinct same s)
        (λ s q found.
          close_next k p q rest gw sent.gateway s distinct closed.0.prices found (can s q)) in
    rw (close_loop-sized paper_gateway now p (values rest) gw report mine.sized)
      (after.0, after.1 ∙ noted.0, after.2 ∙ noted.1)

nothing_left : (d : Dict Position) → Agrees d [] → d ≡ []
unfolding lookup
nothing_left [] h = refl
nothing_left ((k, p) ∷ d) h = ground (arith, h k, eq_refl k)

grade-clean : (report : StopReport) → report.errors ≡ [] → grade report ≡ report
unfolding grade
grade-clean report clean = ground (arith, clean)

-- An emergency stop of a switch that is not active yet, on the paper gateway with the order-book
-- fills off and every position held under its own valid symbol, with a size and a known positive
-- price, leaves the switch active and no position, and reports "activated".
pub activate-flattens :
    (now : ℕ) (reason : String) (ks : KillSwitch) (gw : PaperGateway)
    → ks.active ≡ false
    → gw.orderbook_fill_enabled ≡ false
    → Distinct gw.positions
    → ((s : String) (p : Position) → lookup s gw.positions ≡ some p → CanClose s p gw)
    → let stopped = activate paper_gateway now reason ks gw in
      (stopped.0.active ≡ true) × (stopped.1.0.positions ≡ []) × (stopped.1.1.status ≡ activated)
unfolding activate paper_gateway cancel_orders query_positions
activate-flattens now reason ks gw inactive off distinct can =
    let report = (cancel_orders paper_gateway now gw (start_report reason)).1 in
    let loop = flatten_loop now gw.positions gw report off distinct (λ s. refl) can in
    let after = close_loop paper_gateway now (values gw.positions) gw report in
    let stop = stop-known paper_gateway now reason gw (values gw.positions) refl in
    rw inactive (
      refl,
      nothing_left _ (λ s. ap (λ r. lookup s r.0.positions) stop ∙ loop.0 s),
      ap (λ r. r.1.status) stop ∙ ap (λ r. r.status) (grade-clean after.1 loop.1) ∙ loop.2,
    )
