-- ===== src/Events.antt =====
-- The event bus, whose handlers are named: src/core/event-bus.ts. A handler does not call the bus that
-- invokes it.
use maids_claw.Common.{Bool, List, [], ◌∷◌, ◌++◌, Option, none, some, String, or_else}
use maids_claw.Common.Maps.{get, set, unset, add, remove}
pub mod Silence

-- the handlers of each event, in the order they were added
pub record EventBus : Type 0 where
  pub listeners : List (String × List String)
  pub once_listeners : List (String × List String)

abbrev pub new_bus : EventBus
new_bus = record { listeners = []; once_listeners = [] }

abbrev pub add_handler : String → String → List (String × List String) → List (String × List String)
add_handler event handler m = set event (add handler (or_else (get event m) [])) m

unfoldable pub on : String → String → EventBus → EventBus
on event handler bus = record bus { listeners = add_handler event handler bus.listeners }

unfoldable pub once : String → String → EventBus → EventBus
once event handler bus = record bus {
  once_listeners = add_handler event handler bus.once_listeners;
}

-- an empty set is removed
abbrev pub store_left :
    String → List String → List (String × List String) → List (String × List String)
store_left event [] m = unset event m
store_left event (h ∷ hs) m = set event (h ∷ hs) m

abbrev pub drop_found :
    String
    → String
    → Option (List String)
    → List (String × List String)
    → List (String × List String)
drop_found event handler none m = m
drop_found event handler (some handlers) m = store_left event (remove handler handlers) m

unfoldable pub drop_handler :
    String → String → List (String × List String) → List (String × List String)
drop_handler event handler m = drop_found event handler (get event m) m

-- also what `on` and `once` return
unfoldable pub off : String → String → EventBus → EventBus
unfolding drop_handler
off event handler bus = record {
  listeners = drop_handler event handler bus.listeners;
  once_listeners = drop_handler event handler bus.once_listeners;
}

-- the handlers that are invoked, in order; what one throws is logged, and stops no other
unfoldable pub emit : String → EventBus → List String × EventBus
emit event bus = (
  or_else (get event bus.listeners) [] ++ or_else (get event bus.once_listeners) [],
  record bus { once_listeners = unset event bus.once_listeners },
)
