-- ===== src/Events.antt =====
-- The event bus (quantflow/common/event_bus.py). A handler is known by its name; what it does, to
-- the bus too, is a function of the program around it. Dispatch goes through a snapshot of the
-- handlers, and an `Exception` of a handler is caught.
pub mod Dispatch
pub mod Examples
use intelligent_trading_syst.Base.{
  ℕ, Bool, true, false, Option, none, some, List, [], ◌∷◌, ◌++◌, String, ◌==◌, Dict, lookup, insert,
  length, if◌then◌else◌,
}

pub record HandlerRegistration : Type 0 where
  pub handler : String
  pub is_async : Bool

pub record EventBus : Type 0 where
  pub handlers : Dict (List HandlerRegistration)

-- `self._handlers.get(event_type, [])`
abbrev pub registered_for : String → EventBus → List HandlerRegistration
registered_for event_type bus = elim (lookup event_type bus.handlers) [ none ↦ [] | some hs ↦ hs ]

unfoldable pub subscribe : String → HandlerRegistration → EventBus → EventBus
subscribe event_type h bus = record {
  handlers = insert event_type (registered_for event_type bus ++ (h ∷ [])) bus.handlers;
}

-- The first registration of the handler goes.
unfoldable pub remove_handler : String → List HandlerRegistration → List HandlerRegistration
remove_handler name [] = []
remove_handler name (h ∷ hs) =
    let rest = remove_handler name hs in if h.handler == name then hs else h ∷ rest

unfoldable pub unsubscribe : String → String → EventBus → EventBus
unfolding remove_handler
unsubscribe event_type name bus = elim (lookup event_type bus.handlers) [
  | none ↦ bus
  | some hs ↦ record { handlers = insert event_type (remove_handler name hs) bus.handlers }
]

-- `clear`
abbrev pub no_handlers : EventBus
no_handlers = record { handlers = [] }

abbrev pub handler_count : String → EventBus → ℕ
handler_count event_type bus = length (registered_for event_type bus)

-- How a handler was reached: called, awaited, or scheduled as a task; or it was not, since
-- `create_task` raised for want of a running loop.
pub data Contact : Type 0 where
  called awaited scheduled unscheduled : String → Contact

-- What a handler does: it returns, or raises an `Exception`, which is logged, or raises another
-- `BaseException`, such as a cancellation, which ends the dispatch.
pub data Ending : Type 0 where
  returned raised interrupted : Ending

-- The program: a call of a handler with an event of a type, which changes the bus.
-- A scheduled task does not run before `publish` has returned.
abbrev pub Behaviour : Type 0
Behaviour = String → String → EventBus → EventBus × Ending

abbrev pub is_interrupted : Ending → Bool
is_interrupted interrupted = true
is_interrupted _ = false

-- A dispatch: the bus, the contacts, and whether a `BaseException` goes on to the caller.
pub record Dispatched : Type 0 where
  pub bus : EventBus
  pub contacts : List Contact
  pub stopped : Bool

abbrev pub after : Contact → Dispatched → Dispatched
after contact rest = record rest { contacts = contact ∷ rest.contacts }

-- The loop of `publish`, with or without a running event loop.
unfoldable pub publish_to :
    Behaviour → Bool → String → List HandlerRegistration → EventBus → Dispatched
publish_to act has_loop event [] bus = record { bus = bus; contacts = []; stopped = false }
publish_to act has_loop event (h ∷ hs) bus =
    let skipped = publish_to act has_loop event hs bus in
    let next = (act h.handler event bus).0 in
    let rest = publish_to act has_loop event hs next in
    if h.is_async
    then after (if has_loop then Contact.scheduled h.handler else Contact.unscheduled h.handler)
        skipped
    else if is_interrupted (act h.handler event bus).1
    then record { bus = next; contacts = Contact.called h.handler ∷ []; stopped = true }
    else after (Contact.called h.handler) rest

unfoldable pub publish : Behaviour → Bool → String → EventBus → Dispatched
unfolding publish_to
publish act has_loop event bus = publish_to act has_loop event (registered_for event bus) bus

-- The loop of `publish_async`.
unfoldable pub publish_async_to :
    Behaviour → String → List HandlerRegistration → EventBus → Dispatched
publish_async_to act event [] bus = record { bus = bus; contacts = []; stopped = false }
publish_async_to act event (h ∷ hs) bus =
    let next = (act h.handler event bus).0 in
    let rest = publish_async_to act event hs next in
    let contact = if h.is_async then Contact.awaited h.handler else Contact.called h.handler in
    if is_interrupted (act h.handler event bus).1
    then record { bus = next; contacts = contact ∷ []; stopped = true }
    else after contact rest

unfoldable pub publish_async : Behaviour → String → EventBus → Dispatched
unfolding publish_async_to
publish_async act event bus = publish_async_to act event (registered_for event bus) bus
