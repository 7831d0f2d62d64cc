-- ===== src/Tests/Sessions.antt =====
-- Runs and listings of sessions.
use maids_claw.Common.{
  ◌≡◌, refl, false, none, some, List, [], ◌∷◌, String, ok, throw, arith, All, length, ◌≤◌, ◌⊎◌,
}
use maids_claw.Common.Ints.{pos}
use maids_claw.Sessions.{
  SessionListItem, SessionListParams, status_open, clamp_list_limit, SessionRecord,
  session_not_found,
}
use maids_claw.Sessions.Memory.{Service, new_service, get_session, close_session, is_open}
use maids_claw.Sessions.Refinement.Runs.{SessionOp, creates, closes, marks, clears, apply_op}
use maids_claw.Sessions.Refinement.Answers.{run, run_rows, AnswersAlike, run_rows-AnswersAlike}
use maids_claw.Sessions.Closing.{Closes, close_session-Closes, IsShut, run-IsShut}
use maids_claw.Sessions.Paging.Walk.{Walk, listed, flatten}
use maids_claw.Sessions.Paging.Follow.{follow_pages}
use maids_claw.Common.{ap, sym, str_eq, inl, inr}
use maids_claw.Common.Maps.{some_of}
use maids_claw.Sessions.Table.{SessionRow}
use maids_claw.Sessions.Listing.{list_session_rows, pg_list_sessions, item_of_row}
use maids_claw.Sessions.Paging.Alike.{pg_list_sessions-alike}
use maids_claw.Tests.Hosts.{host, host-ReadsBack, less_orders}

abbrev calls : List SessionOp
calls =
    creates "a" 100 "rin"
    ∷ creates "b" 200 "mei"
    ∷ marks "a"
    ∷ closes "b" 300
    ∷ closes "c" 310
    ∷ clears "a"
    ∷ []

run_rows-AnswersAlike_example :
    ((run_rows calls []).0 ≡ (run calls new_service).0)
    × AnswersAlike (run calls new_service).1 (run_rows calls []).1
unfolding apply_op
run_rows-AnswersAlike_example =
    run_rows-AnswersAlike calls (refl, (refl, (tt, (tt, (tt, (tt, tt))))))

abbrev rin : SessionRecord
rin = record { session_id = "a"; created_at = 100; closed_at = none; agent_id = "rin" }

abbrev one_session : Service
one_session = record { sessions = ("a", rin) ∷ []; recovery_required = "a" ∷ [] }

close_session-Closes_example :
    ((get_session "a" one_session ≡ none)
      × (close_session "a" 150 one_session ≡ throw session_not_found))
    ⊎ ((r : SessionRecord) × (t : Service) × (get_session "a" one_session ≡ some r)
        × (close_session "a" 150 one_session ≡ ok (record r { closed_at = some 150 }, t))
        × Closes "a" 150 r one_session t)
close_session-Closes_example = close_session-Closes "a" 150 one_session

abbrev shut_session : Service
shut_session = record {
  sessions = ("a", record rin { closed_at = some 120 }) ∷ [];
  recovery_required = [];
}

later_calls : List SessionOp
later_calls = creates "b" 200 "mei" ∷ marks "a" ∷ clears "a" ∷ closes "b" 300 ∷ []

run-IsShut_example :
    IsShut "a" (run later_calls shut_session).1
    × (is_open "a" (run later_calls shut_session).1 ≡ false)
unfolding later_calls get_session
run-IsShut_example =
    run-IsShut later_calls "a" shut_session (refl, (tt, (tt, (tt, tt))))
      (record rin { closed_at = some 120 }, refl, refl)

abbrev item_a : SessionListItem
item_a = record {
  session_id = "a";
  agent_id = "rin";
  created_at = 100;
  closed_at = none;
  status = status_open;
}

abbrev items : List SessionListItem
items =
    item_a
    ∷ record item_a { session_id = "b"; created_at = 200 }
    ∷ record item_a { session_id = "c"; created_at = 100 }
    ∷ []

abbrev params : SessionListParams
params = record { agent_id = some "rin"; status = none; limit = some (pos 2); cursor = none }

follow_pages_example :
    (pages : List (List SessionListItem)) × Walk host params items none pages
    × (flatten pages ≡ listed host params items)
    × All (λ (page : List SessionListItem). length page ≤ clamp_list_limit params.limit) pages
follow_pages_example =
    follow_pages host less_orders host-ReadsBack params items
      ((refl, (refl, tt)), ((refl, tt), (tt, tt)))
      ((refl, omega arith), ((refl, omega arith), ((refl, omega arith), tt)))

abbrev rows : List SessionRow
rows =
    record {
      session_id = "a";
      agent_id = "rin";
      created_at = 100;
      closed_at = none;
      recovery_required = 1;
    }
    ∷ record {
      session_id = "b";
      agent_id = "mei";
      created_at = 200;
      closed_at = some 300;
      recovery_required = 0;
    }
    ∷ []

pg_list_sessions-alike_example :
    pg_list_sessions host host.less params rows ≡ list_session_rows host host.less params rows
unfolding item_of_row
pg_list_sessions-alike_example =
    pg_list_sessions-alike host less_orders params rows named (inr refl, (inl refl, tt))
      ((refl, tt), (tt, tt))
  where
    named : (name : String) → params.agent_id ≡ some name → str_eq name "" ≡ false
    named name h = ap (λ n. str_eq n "") (sym (some_of h))
