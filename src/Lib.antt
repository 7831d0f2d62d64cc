-- ===== src/Lib.antt =====
-- MaidsClaw: jobs, sessions, shared memory blocks, the blackboard, and the revision of beliefs.
--
-- MaidsClaw is an engine for role-playing agents. Its background work (migrating and organising
-- memory, rebuilding search indexes, maintenance, the thinkers of agents) runs as jobs that workers
-- take from PostgreSQL tables or from a queue in memory; parts of the program share values on a
-- blackboard; what agents hold to be true is a set of assertions whose stance and basis may only be
-- revised by rules. Users talk to agents in sessions, and agents share blocks of memory that they patch
-- section by section. This library models those parts, and the helpers that they and the calls of language
-- models use: retries, the event bus, the compaction of a context, and references to nodes.
--
-- Common holds Booleans, numbers, lists, options and results, and the lemmas on them.
--
-- Jobs models src/jobs. Two tables, `jobs_current` and `job_attempts`, are lists of rows (Jobs/Rows,
-- from durable-store.ts and pg-schema.ts); a SQL statement is a function on them, a transaction of
-- PgJobStore (pg-store.ts) a function from the tables to a result and the tables after it, and one
-- that violates a unique index throws, and is rolled back.
--   Jobs/Types     job kinds, execution classes and caps of types.ts
--   Jobs/Family    the state that coalesced search-rebuild requests share
--   Jobs/Enqueue   enqueue(). The argument `between` is what other transactions commit between its
--                  statements, so that each branch after a lost insert can be reached
--   Jobs/Claim     claimNext(), with the caps in Jobs/Claim/Room. The record ClaimEnv holds what the
--                  database decides: how it sorts, the rows that others have locked, and the advisory
--                  locks that can be had
--   Jobs/Fence     heartbeat(), complete(), fail() and cancel(), fenced by the claim version, over the
--                  statements of Jobs/Fence/Statements
--   Jobs/Sweep     reclaimExpiredLeases() and cleanupTerminal()
--   Jobs/Machine   the specification: the steps in the life of one job
--   Jobs/Lifecycle sequences of operations on the tables, one transaction after the other
-- The modules below each of these prove what their names say.
--
-- Belief models src/memory/cognition/belief-revision.ts. Belief/Projection adds the guards of
-- upsertAssertion() and retractCognition() of src/memory/cognition/cognition-repo.ts, and the row of
-- `private_cognition_current` that src/storage/domain-repos/pg/cognition-projection-repo.ts keeps for
-- an assertion; a history is a sequence of upserts and retractions of one key.
--
-- Queue models src/jobs/queue.ts and src/jobs/dedup.ts, the queue that a process keeps in memory, as four
-- tables: lists that stand for a Map or a Set (Common/Maps) in insertion order. Dispatch models the
-- dispatcher over it, src/jobs/dispatcher.ts; a worker's call divides processNext() into two steps,
-- between which other calls may come; Dispatch/Steps has sequences of its calls, with the runs that are
-- under way.
--
-- State models src/state/blackboard.ts and src/state/namespaces.ts: the shared store, the checks of set()
-- and delete(), its two indexes by session, and its snapshots. Values are of any type.
--
-- Sessions models src/session/service.ts, with the cursors of src/contracts/cockpit/cursor.ts. The service
-- keeps its sessions in memory (Sessions/Memory) or in a table (Sessions/Table), whose statements are
-- also those of src/storage/domain-repos/pg/session-repo.ts; Sessions/Listing holds the three listings.
-- Sessions/Refinement relates memory and table, Sessions/Paging follows the cursors, and
-- Sessions/Closing is about closed sessions. A fresh identifier and the time are arguments; a record
-- Host holds JSON in base64url, ISO dates and the order of texts.
--
-- SharedBlocks models src/memory/shared-blocks: the tables and their statements (shared-block-repo.ts),
-- SharedBlocks/Roles (shared-block-permissions.ts) and SharedBlocks/Patches
-- (shared-block-patch-service.ts), where a patch is one transaction at one time, and the identifier of a
-- new section is an argument.
--
-- Tools models src/core/tools/tool-access-policy.ts and the permissions that it reads: the tools that a
-- model sees and the gate of their calls.
--
-- Context models src/core/truncate-compactor.ts, Calls src/core/retry.ts, Events src/core/event-bus.ts, and
-- NodeRef src/memory/contracts/graph-node-ref.ts. The loop of the compactor runs on rounds, one more
-- than there are messages; each round evicts one. The loop of a retry has as many rounds as the policy
-- allows attempts, and its backoff is a whole number, as in every policy of the code.
--
-- Tests holds small tables and the theorems at concrete inputs, and a database that sorts by
-- insertion, which meets what the lemmas on claims assume of sorting.
--
-- Numbers are natural numbers: times are epoch milliseconds, and versions and counts stay far below
-- 2 ^ 53, where the numbers of the source are exact. The scan of claimNext() is recursion on fuel, one
-- unit more than there are ready rows; each batch of the scan takes at least one row, so that the fuel
-- is never used up. Each round of the scan asks for the ready rows anew, at its offset; nothing else
-- commits during one claim, so that each round has the same rows to choose from. Identifiers of jobs
-- in the queue are never empty. The random part of a successor's key is an argument.
--
-- Not modelled: the listing queries of the store, which change nothing; the members of a family state
-- that normalizeSearchRebuildFamilyState() drops, since only states that the store wrote are read; the
-- event log and the search documents of the cognition repository, evaluations and commitments; what the
-- queue passes on to a persistence, and the events of the dispatcher; handlers of the event bus that call
-- it while they are invoked; the audit of the shared blocks; and all that only calls language
-- models, HTTP or the file system.
pub mod Common
pub mod Belief
pub mod Jobs
pub mod Queue
pub mod Dispatch
pub mod State
pub mod Sessions
pub mod SharedBlocks
pub mod Context
pub mod Calls
pub mod Events
pub mod NodeRef
pub mod Tools
mod Tests
