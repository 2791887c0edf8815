-- ===== src/Kill/Pauses.antt =====
-- Pause reasons (quantflow/common/pause_reasons.py): trading is paused while the set has a reason.
use intelligent_trading_syst.Base.{
  strip, Bool, true, false, ◌||◌, List, [], ◌∷◌, String, ◌==◌, add, discard, if◌then◌else◌,
}

pub record PauseReasonSet : Type 0 where
  pub reasons : List String
  pub manual : Bool

abbrev pub empty_reasons : PauseReasonSet
empty_reasons = record { reasons = []; manual = false }

unfoldable pub add_reason : String → PauseReasonSet → PauseReasonSet
add_reason reason p =
    let text = strip reason in if text == "" then p else record p { reasons = add text p.reasons }

unfoldable pub remove_reason : String → PauseReasonSet → PauseReasonSet
remove_reason reason p = record p { reasons = discard (strip reason) p.reasons }

unfoldable pub clear : PauseReasonSet → PauseReasonSet
clear p = record { reasons = []; manual = false }

unfoldable pub set_manual_stop : Bool → PauseReasonSet → PauseReasonSet
set_manual_stop active p = record p { manual = active }

abbrev pub has_any : List String → Bool
has_any [] = false
has_any _ = true

unfoldable pub is_paused : PauseReasonSet → Bool
is_paused p = p.manual || has_any p.reasons

-- `reasons`, with the operator's stop as one of them.
unfoldable pub all_reasons : PauseReasonSet → List String
all_reasons p = if p.manual then add "manual_stop" p.reasons else p.reasons

-- The set comprehension of `replace`.
unfoldable pub strip_all : List String → List String
strip_all [] = []
strip_all (r ∷ rs) = let rest = strip_all rs in if strip r == "" then rest else add (strip r) rest

unfoldable pub replace : List String → PauseReasonSet → PauseReasonSet
replace reasons p = record p { reasons = strip_all reasons }
