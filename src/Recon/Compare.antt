-- ===== src/Recon/Compare.antt =====
-- The comparison of two books, symbol by symbol.
use mathlib.Core.Path.{subst}
use intelligent_trading_syst.Base.{
  ℕ, ◌*◌, ◌≡◌, refl, ◌∙◌, Bool, true, false, not, ◌&&◌, ◌||◌, Option, none, some, List, [], ◌∷◌,
  ◌++◌, String, ◌==◌, Dict, lookup, contains, insert, keys, member, lookup-insert, contains-lookup,
  eq_iff, ℤ, ◌-ℤ◌, abs, leb, eqb, arith, if◌then◌else◌, Bool-cases, inl, inr, All, All-append_parts,
}
use intelligent_trading_syst.Models.{Position}
use intelligent_trading_syst.Recon.Discrepancies.{
  DiscrepancyType, Entry, Discrepancy, severity_score, relative_severity, is_below, critical,
  max_severity_of,
}
use intelligent_trading_syst.Recon.Severities.{IsMild, max_severity-IsMild}
use intelligent_trading_syst.Recon.Daily.{
  position_entry, local_positions, exchange_entries, keys_beyond, all_symbols, mismatch,
  compare_symbol, compare_symbols,
}

-- The amount that the book holds in the symbol.
abbrev pub held_amount : String → Dict Position → Option ℤ
held_amount s [] = none
held_amount s ((symbol, p) ∷ book) = if symbol == s then some p.quantity else held_amount s book

-- The amount of the last position in the symbol that the exchange shows, or else `before`.
abbrev pub last_amount : String → Option ℤ → List Position → Option ℤ
last_amount s before [] = before
last_amount s before (p ∷ ps) = last_amount s (if p.symbol == s then some p.quantity else before) ps

-- What the comparison lets pass: the two books have the symbol or lack it together, and the amounts
-- are within `bound` parts of `unit` of the local one. A local amount of zero is compared with
-- nothing, so that any amount of the exchange passes.
abbrev pub tolerates : ℕ → ℕ → Option ℤ → Option ℤ → Bool
tolerates bound unit none none = true
tolerates bound unit (some l) (some e) = eqb (abs l) 0 || leb (abs (l -ℤ e) * unit) (bound * abs l)
tolerates bound unit _ _ = false

abbrev pub is_position_type : DiscrepancyType → Bool
is_position_type DiscrepancyType.position_mismatch = true
is_position_type DiscrepancyType.orphan_position_local = true
is_position_type DiscrepancyType.orphan_position_exchange = true
is_position_type _ = false

-- One of the discrepancies is about a position in the symbol.
abbrev pub is_reported : String → List Discrepancy → Bool
is_reported s [] = false
is_reported s (d ∷ ds) = is_position_type d.type && d.symbol == s || is_reported s ds

abbrev pub amount_of : Option Entry → Option ℤ
amount_of none = none
amount_of (some entry) = some entry.amount

held-lookup :
    (s : String) (book : Dict Position)
    → amount_of (lookup s (local_positions book)) ≡ held_amount s book
unfolding lookup local_positions position_entry
held-lookup s [] = refl
held-lookup s ((symbol, p) ∷ book) = ground (arith, held-lookup s book)

last-lookup :
    (s : String) (ps : List Position) (entries : Dict Entry)
    → amount_of (lookup s (exchange_entries ps entries))
      ≡ last_amount s (amount_of (lookup s entries)) ps
unfolding exchange_entries position_entry
last-lookup s [] entries = refl
last-lookup s (p ∷ ps) entries = ground (
  arith,
  last-lookup s ps (insert p.symbol (position_entry p) entries),
  lookup-insert p.symbol s (position_entry p) entries,
)

pub is_reported-append :
    (s : String) (xs ys : List Discrepancy)
    → is_reported s (xs ++ ys) ≡ (is_reported s xs || is_reported s ys)
is_reported-append s [] ys = refl
is_reported-append s (x ∷ xs) ys = ground (arith, is_reported-append s xs ys)

-- What the loop's body finds, with a symbol on neither side counted as the exchange's.
abbrev differs : ℕ → Option Entry → Option Entry → Bool
differs t none none = true
differs t l e = not (tolerates t 10000 (amount_of l) (amount_of e))

compare_symbol-is_reported :
    (t : ℕ) (l e : Dict Entry) (k s : String)
    → is_reported s (compare_symbol t l e k) ≡ (k == s && differs t (lookup k l) (lookup k e))
unfolding compare_symbol mismatch
compare_symbol-is_reported t l e k s = ground arith

compare_symbols-is_reported :
    (t : ℕ) (l e : Dict Entry) (s : String) (ks : List String)
    → is_reported s (compare_symbols t l e ks)
      ≡ (member s ks && differs t (lookup s l) (lookup s e))
unfolding compare_symbols member
compare_symbols-is_reported t l e s [] = refl
compare_symbols-is_reported t l e s (k ∷ ks) = ground (
  arith,
  eq_iff k s,
  is_reported-append s (compare_symbol t l e k) (compare_symbols t l e ks),
  compare_symbol-is_reported t l e k s,
  compare_symbols-is_reported t l e s ks,
)

member-append :
    (s : String) (xs ys : List String) → member s (xs ++ ys) ≡ (member s xs || member s ys)
unfolding member
member-append s [] ys = refl
member-append s (x ∷ xs) ys = ground (arith, member-append s xs ys)

member-keys : (s : String) (d : Dict Entry) → member s (keys d) ≡ contains s d
unfolding member contains
member-keys s [] = refl
member-keys s ((k, v) ∷ d) = ground (arith, member-keys s d)

member-keys_beyond :
    (s : String) (l e : Dict Entry)
    → member s (keys_beyond l e) ≡ (contains s e && not (contains s l))
unfolding member contains keys_beyond
member-keys_beyond s l [] = refl
member-keys_beyond s l ((k, v) ∷ e) = ground (arith, eq_iff k s, member-keys_beyond s l e)

member-all_symbols :
    (s : String) (l e : Dict Entry) → member s (all_symbols l e) ≡ (contains s l || contains s e)
unfolding all_symbols
member-all_symbols s l e =
    ground
      (arith, member-append s (keys l) (keys_beyond l e), member-keys s l, member-keys_beyond s l e)

compare-exact :
    (t : ℕ) (l e : Dict Entry) (s : String)
    → is_reported s (compare_symbols t l e (all_symbols l e))
      ≡ not (tolerates t 10000 (amount_of (lookup s l)) (amount_of (lookup s e)))
compare-exact t l e s = ground (
  arith,
  compare_symbols-is_reported t l e s (all_symbols l e),
  member-all_symbols s l e,
  contains-lookup s l,
  contains-lookup s e,
)

-- The two books agree within the drift threshold or within the critical severity, 0.8.
abbrev pub tolerates_either : ℕ → Option ℤ → Option ℤ → Bool
tolerates_either t l e = tolerates t 10000 l e || tolerates 8 10 l e

compare_symbol-tolerates :
    (t : ℕ) (l e : Dict Entry) (s : String)
    → (contains s l || contains s e) ≡ true
    → All IsMild (compare_symbol t l e s)
    → tolerates_either t (amount_of (lookup s l)) (amount_of (lookup s e)) ≡ true
unfolding compare_symbol mismatch severity_score relative_severity
compare_symbol-tolerates t l e s c h = ground (arith, contains-lookup s l, contains-lookup s e)

compare_symbols-agree :
    (t : ℕ) (l e : Dict Entry) (s : String) (ks : List String)
    → (contains s l || contains s e) ≡ true
    → member s ks ≡ true
    → All IsMild (compare_symbols t l e ks)
    → tolerates_either t (amount_of (lookup s l)) (amount_of (lookup s e)) ≡ true
unfolding compare_symbols member
compare_symbols-agree t l e s [] c m h = ground arith
compare_symbols-agree t l e s (k ∷ ks) c m h =
    let parts = All-append_parts IsMild (compare_symbol t l e k) (compare_symbols t l e ks) h in
    elim (Bool-cases (k == s)) [
      | inl q ↦
          compare_symbol-tolerates t l e s c
            (subst (λ i. All IsMild (compare_symbol t l e i)) (ground (arith, eq_iff k s)) parts.0)
      | inr q ↦ compare_symbols-agree t l e s ks c (ground arith) parts.1
    ]

-- The discrepancies of a run, over the two books.
abbrev pub items : ℕ → Dict Position → List Position → List Discrepancy
items t book ps =
    let l = local_positions book in
    let e = exchange_entries ps [] in compare_symbols t l e (all_symbols l e)

pub items-is_reported :
    (t : ℕ) (book : Dict Position) (ps : List Position) (orders : List Discrepancy) (s : String)
    → is_reported s orders ≡ false
    → is_reported s (items t book ps ++ orders)
      ≡ not (tolerates t 10000 (held_amount s book) (last_amount s none ps))
unfolding lookup
items-is_reported t book ps orders s h = ground (
  arith,
  is_reported-append s (items t book ps) orders,
  compare-exact t (local_positions book) (exchange_entries ps []) s,
  held-lookup s book,
  last-lookup s ps [],
)

pub items-agree :
    (t : ℕ) (book : Dict Position) (ps : List Position) (orders : List Discrepancy) (s : String)
    → is_below critical (max_severity_of (items t book ps ++ orders)) ≡ false
    → tolerates_either t (held_amount s book) (last_amount s none ps) ≡ true
unfolding lookup
items-agree t book ps orders s h =
    let l = local_positions book in
    let e = exchange_entries ps [] in
    let mild = (All-append_parts IsMild (items t book ps) orders (max_severity-IsMild _ h)).0 in
    elim (Bool-cases (contains s l || contains s e)) [
      | inl c ↦ ground (
        arith,
        c,
        held-lookup s book,
        last-lookup s ps [],
        member-all_symbols s l e,
        compare_symbols-agree t l e s (all_symbols l e) c (member-all_symbols s l e ∙ c) mild,
      )
      | inr c ↦
          ground (
            arith,
            held-lookup s book,
            last-lookup s ps [],
            contains-lookup s l,
            contains-lookup s e,
          )
    ]
