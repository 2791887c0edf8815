-- ===== src/Recon/Ghosts.antt =====
-- Ghost positions (quantflow/reconciliation/ghost_positions.py): positions of the exchange that no
-- strategy tracks. The order of a Python set is not kept: tracked symbols come in the list's order.
use intelligent_trading_syst.Base.{
  ℕ, Bool, not, ◌&&◌, List, [], ◌∷◌, String, ◌==◌, Dict, contains, insert, member, keys, keep_if, ℤ,
  ◌+ℤ◌, abs, ltb, if◌then◌else◌,
}
use intelligent_trading_syst.Models.{Position}
use intelligent_trading_syst.Portfolio.Pending.{get_or_zero}
use intelligent_trading_syst.Kill.Pauses.{strip_all}

pub record GhostPositionReport : Type 0 where
  pub ghosts : Dict ℤ
  pub tracked_with_position : List String
  pub missing_on_exchange : List String
  pub dust_ignored : List String

-- A position that the loop skips: without a symbol, or dust.
abbrev pub is_dust : ℕ → Position → Bool
is_dust dust p = ltb (abs p.quantity) dust

abbrev pub is_counted : ℕ → Position → Bool
is_counted dust p = not (p.symbol == "") && not (is_dust dust p)

-- The net quantities by symbol.
unfoldable pub exchange_by_sym : ℕ → List Position → Dict ℤ → Dict ℤ
exchange_by_sym dust [] found = found
exchange_by_sym dust (p ∷ ps) found =
    let next =
      if is_counted dust p
      then insert p.symbol (get_or_zero p.symbol found +ℤ p.quantity) found
      else found in
    exchange_by_sym dust ps next

unfoldable pub dust_in : ℕ → List Position → List String
dust_in dust [] = []
dust_in dust (p ∷ ps) =
    let rest = dust_in dust ps in
    if not (p.symbol == "") && is_dust dust p then p.symbol ∷ rest else rest

unfoldable pub untracked : List String → Dict ℤ → Dict ℤ
untracked tracked [] = []
untracked tracked ((s, q) ∷ found) =
    let rest = untracked tracked found in if member s tracked then rest else (s, q) ∷ rest

unfoldable pub missing : List String → Dict ℤ → List String
missing [] found = []
missing (s ∷ tracked) found =
    let rest = missing tracked found in if contains s found then rest else s ∷ rest

unfoldable pub find_ghost_positions : List String → List Position → ℕ → GhostPositionReport
unfolding exchange_by_sym dust_in untracked missing
find_ghost_positions tracked_symbols positions dust =
    let tracked = strip_all tracked_symbols in
    let found = exchange_by_sym dust positions [] in
    record {
      ghosts = untracked tracked found;
      tracked_with_position = keep_if (λ s. member s tracked) (keys found);
      missing_on_exchange = missing tracked found;
      dust_ignored = dust_in dust positions;
    }
