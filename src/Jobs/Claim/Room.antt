-- ===== src/Jobs/Claim/Room.antt =====
-- src/jobs/pg-store.ts: the caps on running jobs, and whether they leave room for one more.
use Prim.Native.String
use Prim.Native.String.{slice}
use text.Mathlib.Text.{find?}
use maids_claw.Common.{
  ℕ, String, Bool, true, ◌&&◌, Option, none, some, str_eq, ltb, if◌then◌else◌, or_else, is_some,
  count_of,
}
use maids_claw.Jobs.Types.{
  search_rebuild_global, memory_organize_global, maintenance_replay_global,
  maintenance_rebuild_derived_global, maintenance_full_global, cognition_thinker_global, JobKind,
  same_kind,
}
use maids_claw.Jobs.Rows.{is_running, job_type, PgJobCurrentRow, Db}

-- `CONCURRENCY_KEY_CAPS`
unfoldable pub concurrency_key_cap : String → Option ℕ
concurrency_key_cap key =
    if str_eq key "search.rebuild:global"
    then some search_rebuild_global
    else if str_eq key "memory.organize:global"
    then some memory_organize_global
    else if str_eq key "maintenance.replay_projection:global"
    then some maintenance_replay_global
    else if str_eq key "maintenance.rebuild_derived:global"
    then some maintenance_rebuild_derived_global
    else if str_eq key "maintenance.full:global"
    then some maintenance_full_global
    else if str_eq key "cognition.thinker:session:{sessionId}"
    then some 2
    else if str_eq key "cognition.thinker:global"
    then some cognition_thinker_global
    else none

unfoldable pub concurrency_cap : Option ℕ → String → ℕ
unfolding concurrency_key_cap
concurrency_cap none key = or_else (concurrency_key_cap key) 1
concurrency_cap (some cap) key =
    if str_eq key "cognition.thinker:global" then cap else or_else (concurrency_key_cap key) 1

unfoldable pub global_concurrency_key : String → Option String
unfolding concurrency_key_cap
global_concurrency_key key = elim (find? key ":session:") [
  | none ↦ none
  | some i ↦
      let global = String.◌++◌ (slice key 0 i) ":global" in
      if is_some (concurrency_key_cap global) then some global else none
]

-- `WHERE concurrency_key = k AND status = 'running'`
unfoldable pub runs_under : String → PgJobCurrentRow → Bool
unfolding is_running
runs_under key r = str_eq r.concurrency_key key && is_running r.status

-- `WHERE job_type = t AND status = 'running'`
unfoldable pub runs_as : JobKind → PgJobCurrentRow → Bool
unfolding is_running job_type
runs_as kind r = same_kind (job_type r.payload_json) kind && is_running r.status

-- the two cap checks
unfoldable pub has_room : Option ℕ → PgJobCurrentRow → Db → Bool
unfolding concurrency_cap global_concurrency_key runs_under runs_as
has_room cap r db =
    ltb (count_of (runs_under r.concurrency_key) db.jobs_current)
      (concurrency_cap cap r.concurrency_key)
    && elim (global_concurrency_key r.concurrency_key) [
      | none ↦ true
      | some global ↦
          ltb (count_of (runs_as (job_type r.payload_json)) db.jobs_current)
            (concurrency_cap cap global)
    ]
