-- ===== src/Tests/Buses.antt =====
-- A run of the event bus.
use maids_claw.Common.{◌≡◌, refl, false, List, [], ◌∷◌, All}
use maids_claw.Events.{EventBus, on, emit}
use maids_claw.Events.Silence.{BusOp, adds, emits, run, run-emit, invoked}

abbrev bus : EventBus
bus = record {
  listeners = ("turn:end", "logger" ∷ []) ∷ [];
  once_listeners = ("turn:end", "greeter" ∷ []) ∷ [];
}

abbrev calls : List BusOp
calls = emits "turn:end" ∷ adds "turn:end" "logger" ∷ emits "turn:end" ∷ []

run_once :
    (run calls bus).0 ≡ ("turn:end", "logger" ∷ "greeter" ∷ []) ∷ ("turn:end", "logger" ∷ []) ∷ []
unfolding run on emit
run_once = refl

run-emit_example :
    All (λ call. invoked "turn:end" "greeter" call ≡ false) (run calls (emit "turn:end" bus).1).0
run-emit_example = run-emit calls "turn:end" "greeter" bus (refl, (refl, (refl, tt))) refl
