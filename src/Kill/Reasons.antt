-- ===== src/Kill/Reasons.antt =====
-- Pause reasons of independent subsystems.
use intelligent_trading_syst.Base.{
  ◌≡◌, refl, Bool, true, false, List, [], ◌∷◌, String, ◌==◌, strip, member, member-add,
  member-discard, eq_refl, arith,
}
use intelligent_trading_syst.Kill.Pauses.{
  PauseReasonSet, add_reason, remove_reason, set_manual_stop, is_paused, has_any,
}

pub data PauseCall : Type 0 where
  add_call : String → PauseCall
  remove_call : String → PauseCall
  manual_call : Bool → PauseCall

abbrev pub apply : PauseCall → PauseReasonSet → PauseReasonSet
apply (add_call reason) p = add_reason reason p
apply (remove_call reason) p = remove_reason reason p
apply (manual_call active) p = set_manual_stop active p

abbrev pub run : List PauseCall → PauseReasonSet → PauseReasonSet
run [] p = p
run (call ∷ calls) p = run calls (apply call p)

-- No call of the list removes the reason.
abbrev pub NeverRemoves : String → List PauseCall → Type 0
NeverRemoves reason [] = Unit
NeverRemoves reason (remove_call other ∷ calls) =
    ((strip other == strip reason) ≡ false) × NeverRemoves reason calls
NeverRemoves reason (call ∷ calls) = NeverRemoves reason calls

member-has_any :
    (k : String) (reasons : List String) → member k reasons ≡ true → has_any reasons ≡ true
unfolding member
member-has_any k [] h = ground (arith, h)
member-has_any k (r ∷ reasons) h = refl

-- The reason is in the set.
abbrev Stands : String → PauseReasonSet → Type 0
Stands reason p = member (strip reason) p.reasons ≡ true

add-Stands :
    (reason : String) (p : PauseReasonSet)
    → (strip reason == "") ≡ false
    → Stands reason (add_reason reason p)
unfolding add_reason
add-Stands reason p named =
    ground
      (arith, named, member-add (strip reason) (strip reason) p.reasons, eq_refl (strip reason))

add-keeps :
    (reason other : String) (p : PauseReasonSet)
    → Stands reason p
    → Stands reason (add_reason other p)
unfolding add_reason
add-keeps reason other p h = ground (arith, h, member-add (strip other) (strip reason) p.reasons)

remove-keeps :
    (reason other : String) (p : PauseReasonSet)
    → (strip other == strip reason) ≡ false
    → Stands reason p
    → Stands reason (remove_reason other p)
unfolding remove_reason
remove-keeps reason other p apart h =
    ground (arith, h, apart, member-discard (strip other) (strip reason) p.reasons)

manual-keeps :
    (reason : String) (active : Bool) (p : PauseReasonSet)
    → Stands reason p
    → Stands reason (set_manual_stop active p)
unfolding set_manual_stop
manual-keeps reason active p h = h

run-Stands :
    (reason : String) (calls : List PauseCall) (p : PauseReasonSet)
    → NeverRemoves reason calls
    → Stands reason p
    → Stands reason (run calls p)
run-Stands reason [] p never h = h
run-Stands reason (add_call other ∷ calls) p never h =
    run-Stands reason calls (add_reason other p) never (add-keeps reason other p h)
run-Stands reason (remove_call other ∷ calls) p never h =
    run-Stands reason calls (remove_reason other p) never.1 (remove-keeps reason other p never.0 h)
run-Stands reason (manual_call active ∷ calls) p never h =
    run-Stands reason calls (set_manual_stop active p) never (manual-keeps reason active p h)

-- A reason that is not blank keeps trading paused, whatever reasons the other subsystems add and
-- remove and however the operator's stop is set, until a call removes that very reason.
pub run-is_paused :
    (reason : String) (calls : List PauseCall) (p : PauseReasonSet)
    → (strip reason == "") ≡ false
    → NeverRemoves reason calls
    → is_paused (run calls (add_reason reason p)) ≡ true
unfolding is_paused
run-is_paused reason calls p named never =
    let last = run calls (add_reason reason p) in
    ground (
      arith,
      member-has_any (strip reason) last.reasons
          (run-Stands reason calls (add_reason reason p) never (add-Stands reason p named)),
    )
