-- ===== src/Finalize/Reconcile.antt =====
-- app/services/bulk_finalize_reconcile.py: one pass over the imports that stick between the load and
-- the swap of partitions. The prints are left out.
pub mod Promotion
pub mod Jobs
pub mod Passes
pub mod Candidates
use Prim.Native.String.{◌++◌}
use text.Mathlib.Text.{starts_with}
use geofastmap_api.Prelude.{
  ℕ, ◌+◌, ◌-◌, String, Bool, true, false, not, ◌&&◌, ◌||◌, Option, none, some, List, [], ◌∷◌,
  if◌then◌else◌, str_eq, max, ◌==◌, ltb, leb, truthy, is_some, contains_text, cut,
}
use geofastmap_api.Bulk.Mutex.{holds_collection_bulk_mutex, is_one_of}
use geofastmap_api.JobStore.{JobInfo, Hash}
use geofastmap_api.Finalize.{
  Env, World, Failure, BulkFinalizePayload, get_finalize_state, is_duplicate_text,
}
use geofastmap_api.Finalize.Worker.{give_up_attempts, or_count}

-- The newest error is in front.
pub record ReconcileStats : Type 0 where
  pub orphans_dropped : ℕ
  pub completed_already_swapped : ℕ
  pub promoted : ℕ
  pub enqueued : ℕ
  pub empty_closed : ℕ
  pub abandoned : ℕ
  pub skipped : ℕ
  pub errors : List (String × String)

-- What the code takes from texts: the number after "attempt" in a message, where there is one; a
-- number as `record_finalize_error` writes it; and the name of a job's staging table.
pub record Reading : Type 0 where
  pub attempt_in : String → Option ℕ
  pub int_of : String → ℕ
  pub staging_table_name : String → String

abbrev pub or_text : Option String → String → String
or_text none t = t
or_text (some s) t = if truthy s then s else t

-- `job.message or ""`
abbrev pub message_of : JobInfo → String
message_of job = or_text job.message ""

abbrev pub staging_table_prefix : String
staging_table_prefix = "bulk_staging_"

-- `max(floor, setting or default)`
abbrev pub at_least : (floor default setting : ℕ) → ℕ
at_least floor default setting = max floor (if setting == 0 then default else setting)

abbrev pub last_activity : JobInfo → ℕ
last_activity job = elim job.last_progress_at [ none ↦ job.updated_at | some t ↦ t ]

-- An age that would be negative is 0.
abbrev pub activity_age_seconds : ℕ → JobInfo → ℕ
activity_age_seconds now job = now - last_activity job

-- One of the words that mark a failure after the load.
pub has_word : String → List String → Bool
has_word msg [] = false
has_word msg (word ∷ words) = if contains_text msg word then true else has_word msg words

abbrev pub after_load_words : List String
after_load_words =
    "partition swap" ∷ "overlap" ∷ "deadlock" ∷ "watchdog" ∷ "finalize" ∷ "bulk import stalled"
    ∷ "duplicate key" ∷ "uniqueviolation" ∷ []

module _ (env : Env) where
  abbrev pub holds : World env → JobInfo → Bool
  holds w job =
      holds_collection_bulk_mutex env.redis env.settings.bulk_queue_type w.store job.collection_id
        job.job_id

  infer_from_state : Option String → String
  infer_from_state none = "append"
  infer_from_state (some mode) =
      if is_one_of mode ("replace" ∷ "append" ∷ []) then mode else "append"

  pub infer_import_mode : World env → JobInfo → String
  unfolding get_finalize_state infer_from_state
  infer_import_mode w job =
      if str_eq job.status "replacing" || contains_text (env.lower (message_of job)) "replace"
      then "replace"
      else infer_from_state (get_finalize_state env w job.job_id "mode")

  unfoldable pub load_still_in_progress : World env → ℕ → JobInfo → Bool
  load_still_in_progress w now job =
      let status = env.lower job.status in
      if is_one_of status ("pending" ∷ "running" ∷ "replacing" ∷ [])
      then true
      else if holds w job
      then true
      else str_eq status "finalizing"
        && job.items_created == 0
        && ltb (activity_age_seconds now job)
            (at_least 60 600 env.settings.bulk_running_recover_staging_seconds)

  unfoldable pub is_reconcile_candidate : World env → ℕ → JobInfo → Bool
  unfolding load_still_in_progress has_word
  is_reconcile_candidate w now job =
      let status = env.lower job.status in
      if not (is_one_of status ("finalizing" ∷ "failed" ∷ "running" ∷ "replacing" ∷ []))
      then false
      else if load_still_in_progress w now job
      then false
      else if str_eq status "finalizing"
      then true
      else if not (job.items_created == 0)
      then true
      else has_word (env.lower (message_of job)) after_load_words

  -- `int(state.get("attempt") or 0)`
  attempt_of : Reading → Option String → ℕ
  attempt_of reading none = 0
  attempt_of reading (some s) = if truthy s then reading.int_of s else 0

  mentions_attempt : Reading → ℕ → String → Bool
  mentions_attempt reading limit msg =
      if contains_text (env.lower msg) "attempt "
      then elim (reading.attempt_in msg) [ none ↦ false | some n ↦ leb limit n ]
      else false

  pub should_abandon_duplicate_job : Reading → World env → JobInfo → Bool
  unfolding is_duplicate_text get_finalize_state attempt_of mentions_attempt
  should_abandon_duplicate_job reading w job =
      let limit = give_up_attempts env.settings.bulk_finalize_duplicate_give_up_attempts in
      if not (is_duplicate_text env (env.lower (message_of job)))
      then false
      else if leb limit (attempt_of reading (get_finalize_state env w job.job_id "attempt"))
      then true
      else mentions_attempt reading limit (message_of job)
