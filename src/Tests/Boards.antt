-- ===== src/Tests/Boards.antt =====
-- Runs of the blackboard.
use maids_claw.State.Snapshot.{get-to_snapshot}
use maids_claw.State.{to_snapshot, is_reserved_key}
use maids_claw.State.Index.{indexed}
use maids_claw.Tests.Hosts.{less}
use maids_claw.Common.{not, ◌&&◌, if◌then◌else◌, ◌≡◌, refl, inr, ℕ, none, some, List, [], ◌∷◌}
use maids_claw.Common.Maps.{get}
use maids_claw.State.{
  Blackboard, NamespaceDefinition, last_write_wins, resolve_namespace, is_writer,
}
use maids_claw.State.Agreement.{Agrees, empty_board, empty_board-Agrees}
use maids_claw.State.Guards.{BoardOp, sets, deletes, run, run_protects, run-Agrees}
use maids_claw.Common.{false}

abbrev session_space : NamespaceDefinition
session_space = record {
  prefix = "session.";
  owner = "T27a";
  merge_rule = last_write_wins;
  reserved = false;
  single_writer = some "system";
}

abbrev calls : List (BoardOp ℕ)
calls =
    sets "task.one" 1 (some "worker") (some "s1")
    ∷ sets "session.a" 2 (some "maiden") none
    ∷ sets "task.one" 3 none (some "s2")
    ∷ deletes "session.a" none
    ∷ []

in_session : resolve_namespace "session.a" ≡ some session_space
unfolding resolve_namespace
in_session = refl

maiden_bars : is_writer (some "maiden") "system" ≡ false
unfolding is_writer
maiden_bars = refl

worker_bars : is_writer (some "worker") "system" ≡ false
unfolding is_writer
worker_bars = refl

none_bars : is_writer none "system" ≡ false
unfolding is_writer
none_bars = refl

abbrev board : Blackboard ℕ
board = record { store = ("session.a", 7) ∷ []; session_key_index = []; key_session_index = [] }

run_protects_example : get "session.a" (run calls board).store ≡ get "session.a" board.store
run_protects_example = run_protects calls "session.a" session_space board in_session (
  inr ("system", (refl, worker_bars)),
  (
    inr ("system", (refl, maiden_bars)),
    (inr ("system", (refl, none_bars)), (inr ("system", (refl, none_bars)), tt)),
  ),
)

run-Agrees_example : Agrees (run calls empty_board)
run-Agrees_example = run-Agrees calls empty_board empty_board-Agrees

abbrev shared : Blackboard ℕ
shared = record {
  store = ("task.b", 2) ∷ ("task.a", 1) ∷ ("autonomy.plan", 3) ∷ [];
  session_key_index = ("s1", "task.b" ∷ "task.a" ∷ []) ∷ [];
  key_session_index = ("task.b", "s1") ∷ ("task.a", "s1") ∷ [];
}

get-to_snapshot_example :
    (get "task.a" (to_snapshot less (some "s1") shared) ≡ (
      if indexed "task.a" "s1" shared.session_key_index && not (is_reserved_key "task.a")
      then get "task.a" shared.store
      else none))
    × (get "task.a" (to_snapshot less none shared)
        ≡ (if is_reserved_key "task.a" then none else get "task.a" shared.store))
get-to_snapshot_example = get-to_snapshot less shared (refl, (refl, (refl, tt))) "s1" "task.a"

in_order : to_snapshot less (some "s1") shared ≡ ("task.a", 1) ∷ ("task.b", 2) ∷ []
unfolding to_snapshot is_reserved_key
in_order = refl
