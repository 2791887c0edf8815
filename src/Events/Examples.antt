-- ===== src/Events/Examples.antt =====
-- A bus with a handler that unsubscribes the next one, and an instance of the theorem.
use intelligent_trading_syst.Base.{
  ◌≡◌, refl, true, false, [], ◌∷◌, ◌==◌, lookup, insert, if◌then◌else◌,
}
use intelligent_trading_syst.Events.{
  EventBus, Contact, Ending, Behaviour, no_handlers, subscribe, unsubscribe, remove_handler,
  publish, publish_to, handler_count,
}

abbrev act : Behaviour
act = λ name event bus.
    (if name == "first" then unsubscribe event "second" bus else bus, Ending.raised)

abbrev bus : EventBus
bus =
    subscribe "bar" (record { handler = "second"; is_async = true })
      (subscribe "bar" (record { handler = "first"; is_async = false }) no_handlers)

-- The second handler is scheduled although the first has unsubscribed it meanwhile.
publish_run :
    ((publish act true "bar" bus).contacts
      ≡ Contact.called "first" ∷ Contact.scheduled "second" ∷ [])
    × (handler_count "bar" (publish act true "bar" bus).bus ≡ 1)
    × ((publish act false "bar" bus).contacts
        ≡ Contact.called "first" ∷ Contact.unscheduled "second" ∷ [])
unfolding publish publish_to subscribe unsubscribe remove_handler lookup insert
publish_run = (refl, refl, refl)
