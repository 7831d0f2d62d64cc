-- ===== src/Dispatch/Keys.antt =====
-- src/jobs/dispatcher.ts: the concurrency keys that one run at a time may have in flight.
use text.Mathlib.TextPositions.{starts_with-append}
use mathlib.Core.Path.{subst}
use maids_claw.Common.{
  ◌≡◌, refl, sym, ap, ◌∙◌, String, Bool, true, false, some, List, [], ◌∷◌, arith, str_eq, eq_iff,
  Bool-cases, inl, inr, starts_with,
}
use maids_claw.Common.Maps.{has}
use maids_claw.Jobs.Rows.Updates.{found_passes}
use maids_claw.Jobs.Types.{
  JobKind, memory_migrate, memory_organize, task_run, search_rebuild, maintenance_replay_projection,
  maintenance_rebuild_derived, maintenance_full, cognition_thinker,
}
use maids_claw.Queue.{Job}
use maids_claw.Dispatch.{
  Dispatcher, can_run, can_run_as, below, parent_run_id, ◌++◌, concurrency_key, concurrency_key_of,
  select_next_runnable_job,
}

-- the kinds whose cap is one
abbrev is_exclusive : JobKind → Bool
is_exclusive memory_organize = false
is_exclusive cognition_thinker = false
is_exclusive _ = true

none_starts :
    (prefix : String) (keys : List String)
    → starts_with prefix prefix ≡ true
    → below prefix 1 keys ≡ true
    → has prefix keys ≡ false
unfolding below
none_starts prefix [] whole h = refl
none_starts prefix (k ∷ keys) whole h = elim (Bool-cases (str_eq k prefix)) [
  | inl same ↦
      let starts : starts_with k prefix ≡ true =
        ap (λ s. starts_with s prefix) ((eq_iff k prefix).0 same) ∙ whole in
      absurd (ground arith)
  | inr other ↦ rw other (none_starts prefix keys whole (ground arith))
]

key_free :
    (kind : JobKind) (job : Job) (keys : List String)
    → is_exclusive kind ≡ true
    → can_run_as kind job keys ≡ true
    → has (concurrency_key_of kind job) keys ≡ false
unfolding can_run_as
key_free memory_migrate job keys e h = ground arith
key_free memory_organize job keys e h = absurd (cc)
key_free task_run job keys e h = ground arith
key_free search_rebuild job keys e h = none_starts "search.rebuild:global" keys refl h
key_free maintenance_replay_projection job keys e h =
    none_starts "maintenance.replay_projection:global" keys refl h
key_free maintenance_rebuild_derived job keys e h =
    none_starts "maintenance.rebuild_derived:global" keys refl h
key_free maintenance_full job keys e h = none_starts "maintenance.full:global" keys refl h
key_free cognition_thinker job keys e h = absurd (cc)

pub can_run_next :
    (id_first : String → String → Bool) (d : Dispatcher) {n : Job}
    → select_next_runnable_job id_first d ≡ some n
    → can_run n d.in_flight_by_key ≡ true
unfolding select_next_runnable_job
can_run_next id_first d {n} h = found_passes (λ job. can_run job d.in_flight_by_key) _ h

-- a key that no job of the kinds memory.organize and cognition.thinker has
abbrev pub IsExclusiveKey : String → Type 0
IsExclusiveKey key =
    (starts_with key "task.run:" ≡ false) × (str_eq key "memory.organize:global" ≡ false)

exclusive_of :
    (kind : JobKind) (job : Job)
    → IsExclusiveKey (concurrency_key_of kind job)
    → is_exclusive kind ≡ true
unfolding concurrency_key_of
exclusive_of memory_migrate job e = refl
exclusive_of memory_organize job (apart, other) = absurd (cc)
exclusive_of task_run job e = refl
exclusive_of search_rebuild job e = refl
exclusive_of maintenance_replay_projection job e = refl
exclusive_of maintenance_rebuild_derived job e = refl
exclusive_of maintenance_full job e = refl
exclusive_of cognition_thinker job (apart, other) =
    absurd (cc (sym (starts_with-append "task.run:" (parent_run_id job ++ ":1")) ∙ apart))

module _ (key : String) (exclusive : IsExclusiveKey key) where
  -- A job that may run, with the key, finds the key free.
  pub free_of :
      (n : Job) (keys : List String)
      → can_run n keys ≡ true
      → concurrency_key n ≡ key
      → has key keys ≡ false
  unfolding concurrency_key_of can_run_as
  free_of n keys may same =
      ap (λ k. has k keys) (sym same)
      ∙ key_free n.kind n keys (exclusive_of n.kind n (subst IsExclusiveKey (sym same) exclusive))
          may
