-- ===== src/Tests/Utilities.antt =====
-- Compacting, retrying, and references to nodes, at concrete inputs.
use maids_claw.Common.{
  ℕ, suc, ◌≡◌, refl, true, none, some, List, [], ◌∷◌, String, Result, ok, throw, arith, map, length,
  select, ◌↔◌, ltb, if◌then◌else◌, ◌+◌,
}
use maids_claw.Common.Ints.{pos}
use maids_claw.Context.{
  ChatMessage, IndexedMessage, system, user, assistant, plain, compact, indexed_from, is_retained,
}
use maids_claw.Context.Eviction.{EvictsOldest}
use maids_claw.Context.Compaction.{compact-EvictsOldest}
use maids_claw.Calls.{
  Thrown, maids_claw_error, MaidsClawError, memory_organize_retry_policy, with_retry,
}
use maids_claw.Calls.Attempts.{Ends, with_retry-Ends}
use maids_claw.NodeRef.{
  GraphNodeRef, fact, parse_graph_node_ref, serialize_graph_node_ref, parse-serialize,
}

abbrev stringify : ℕ → String
stringify n = "{}"

abbrev messages : List (ChatMessage ℕ)
messages =
    record { role = system; content = plain "you are a maid"; tool_call_id = none }
    ∷ record { role = user; content = plain "an old question"; tool_call_id = none }
    ∷ record { role = assistant; content = plain "its answer"; tool_call_id = none }
    ∷ record { role = user; content = plain "a new question"; tool_call_id = none }
    ∷ []

compact-EvictsOldest_example :
    (kept : List (IndexedMessage ℕ)) × (compact stringify
        (pos 2)
        (suc (length messages))
        messages
        (pos (suc 9))
      ≡ some (map (λ e. e.message) kept))
    × EvictsOldest stringify (pos 2) (suc 9) (indexed_from 0 messages) kept
    × (select (is_retained (pos 2)) kept ≡ select (is_retained (pos 2)) (indexed_from 0 messages))
compact-EvictsOldest_example = compact-EvictsOldest stringify (pos 2) 9 messages

abbrev timeout : MaidsClawError
timeout = record { code = "MODEL_TIMEOUT"; retriable = true }

-- fails until it has been called twice
abbrev flaky : ℕ → Result Thrown String × ℕ
flaky n = (if ltb n 2 then throw (maids_claw_error timeout) else ok "answer", n + 1)

-- three calls, and two waits
retries_twice : (with_retry flaky memory_organize_retry_policy 0).world ≡ 3
unfolding with_retry
retries_twice = refl

with_retry-Ends_example :
    Ends flaky memory_organize_retry_policy 1 0 (with_retry flaky memory_organize_retry_policy 0)
with_retry-Ends_example = with_retry-Ends flaky memory_organize_retry_policy 0 (omega arith)

abbrev fact_7 : GraphNodeRef
fact_7 = record { kind = fact; id = "7" }

parse-serialize_example :
    (parse_graph_node_ref "fact:7" ≡ ok fact_7) ↔ (serialize_graph_node_ref fact_7 ≡ "fact:7")
parse-serialize_example = parse-serialize "fact:7" fact_7

-- an empty identifier is let through
empty_id : parse_graph_node_ref "fact:" ≡ ok (record { kind = fact; id = "" })
unfolding parse_graph_node_ref
empty_id = refl
