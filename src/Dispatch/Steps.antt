-- ===== src/Dispatch/Steps.antt =====
-- The calls of the dispatcher, as events on its state and on the runs that are under way, which are the
-- calls of `processNext` that wait for their worker. A worker may end in any order.
use maids_claw.Common.{ℕ, zero, suc, String, Bool, Option, none, some, List, [], ◌∷◌, Result}
use maids_claw.Queue.{Job}
use maids_claw.Dispatch.{
  Dispatcher, Started, idle, no_worker, vanished, works, submit, start_next, end_job,
}

-- the dispatcher, and the selected and the running copy of the job of each run
pub record Work : Type 0 where
  pub dispatcher : Dispatcher
  pub under_way : List (Job × Job)

pub data DispatcherOp : Type 0 where
  submits : (uuid : String) (now : ℕ) (spec : Job) → DispatcherOp
  starts : (id_first : String → String → Bool) (now : ℕ) → DispatcherOp
  ends : (now : ℕ) → Result String (Unit {0}) → (run : ℕ) → DispatcherOp

-- one of a list, and the others
abbrev pub pick {ℓ} : {A : Type ℓ} → ℕ → List A → Option (A × List A)
pick n [] = none
pick zero (x ∷ xs) = some (x, xs)
pick (suc n) (x ∷ xs) = elim (pick n xs) [ none ↦ none | some (y, ys) ↦ some (y, x ∷ ys) ]

unfoldable pub begin : Started → Dispatcher → List (Job × Job) → Work
begin idle d runs = record { dispatcher = d; under_way = runs }
begin (no_worker next) d runs = record { dispatcher = d; under_way = runs }
begin (vanished next) d runs = record { dispatcher = d; under_way = runs }
begin (works next running) d runs = record { dispatcher = d; under_way = (next, running) ∷ runs }

unfoldable pub apply_op : DispatcherOp → Work → Work
unfolding begin
apply_op (submits uuid now spec) w = record w { dispatcher = (submit uuid now spec w.dispatcher).1 }
apply_op (starts id_first now) w =
    let s = start_next id_first now w.dispatcher in begin s.0 s.1 w.under_way
apply_op (ends now outcome n) w = elim (pick n w.under_way) [
  | none ↦ w
  | some ((next, running), others) ↦ record {
    dispatcher = end_job now outcome next running w.dispatcher;
    under_way = others;
  }
]

unfoldable pub run : List DispatcherOp → Work → Work
unfolding apply_op
run [] w = w
run (o ∷ os) w = run os (apply_op o w)
