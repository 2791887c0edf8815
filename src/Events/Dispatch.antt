-- ===== src/Events/Dispatch.antt =====
-- Every handler of the snapshot is reached once, in the order of the subscriptions.
use intelligent_trading_syst.Base.{◌≡◌, Bool, false, List, [], ◌∷◌, String, if◌then◌else◌, ◌++◌}
use intelligent_trading_syst.Events.{HandlerRegistration, Contact, Dispatched}

-- The handlers that a dispatch reached.
abbrev pub names_of : List Contact → List String
names_of [] = []
names_of (Contact.called name ∷ cs) = name ∷ names_of cs
names_of (Contact.awaited name ∷ cs) = name ∷ names_of cs
names_of (Contact.scheduled name ∷ cs) = name ∷ names_of cs
names_of (Contact.unscheduled name ∷ cs) = names_of cs

abbrev pub subscribers : List HandlerRegistration → List String
subscribers [] = []
subscribers (h ∷ hs) = h.handler ∷ subscribers hs

-- The handlers that `publish` can reach: all with a running loop, else those that are not async.
abbrev pub reachable : Bool → List HandlerRegistration → List String
reachable has_loop [] = []
reachable has_loop (h ∷ hs) =
    let rest = reachable has_loop hs in
    if h.is_async then (if has_loop then h.handler ∷ rest else rest) else h.handler ∷ rest

-- A prefix of what there is to reach, and all of it unless the dispatch was stopped.
abbrev pub Delivers : Dispatched → List String → Type 0
Delivers d all =
    ((rest : List String) × (names_of d.contacts ++ rest ≡ all))
    × (d.stopped ≡ false → names_of d.contacts ≡ all)
