-- ===== src/Finalize/Watchdog.antt =====
-- app/services/bulk_watchdog.py: jobs that no longer go on are recovered or failed, and their mutexes
-- given back. The listing of the job store is a list of jobs. An update or a release of which Redis
-- fails is not modelled, nor are the prints.
pub mod Recovery
pub mod Passes
use Prim.Native.String.{◌++◌}
use geofastmap_api.Prelude.{
  ℕ, zero, suc, ◌-◌, String, Bool, true, false, not, ◌&&◌, ◌||◌, Option, none, some, List, [], ◌∷◌,
  if◌then◌else◌, str_eq, ◌==◌, ltb, truthy, contains_text,
}
use geofastmap_api.Bulk.Mutex.{get_collection_bulk_mutex_holder, is_one_of}
use geofastmap_api.JobStore.{JobInfo, JobUpdate}
use geofastmap_api.Finalize.{
  Env, World, Failure, Counted, BulkFinalizePayload, change, update_stored, is_redis,
  is_finalize_pending, enqueue_finalize, give_back,
}
use geofastmap_api.Finalize.Worker.{with_db}
use geofastmap_api.Finalize.Reconcile.{
  at_least, message_of, last_activity, activity_age_seconds, holds,
}

module _ (env : Env) where
  abbrev pub stale_seconds : ℕ
  stale_seconds = at_least 60 14400 env.settings.bulk_job_stale_seconds

  abbrev pub finalize_stale_seconds : ℕ
  finalize_stale_seconds = at_least 300 86400 env.settings.bulk_finalize_stale_seconds

  abbrev pub running_recover_min_age_seconds : ℕ
  running_recover_min_age_seconds =
      at_least 300 600 env.settings.bulk_running_recover_staging_seconds

  unfoldable pub should_fail_stale_running : Bool
  should_fail_stale_running = elim env.settings.bulk_watchdog_fail_stale_running [
    | some explicit ↦ explicit
    | none ↦ not env.settings.bulk_finalize_queue_enabled
  ]

  abbrev pub recovers : Bool
  recovers = is_redis env && env.settings.bulk_finalize_queue_enabled

  -- A job always has the time of its last update.
  pub should_attempt_running_staging_recovery : World env → ℕ → JobInfo → Bool
  should_attempt_running_staging_recovery w now job =
      let age = activity_age_seconds now job in
      if ltb age running_recover_min_age_seconds
      then false
      else not (holds env w job && ltb age stale_seconds)

  abbrev pub rows_of : Counted → ℕ
  rows_of (Counted.counted n) = n
  rows_of (Counted.broken e) = 0

  abbrev pub staged_rows : World env → JobInfo → ℕ
  staged_rows w job = rows_of (env.engine.staging_row_count w.db job.job_id)

  abbrev pub mode_of : JobInfo → String
  mode_of job =
      if contains_text (env.lower (message_of job)) "replace" || str_eq job.status "replacing"
      then "replace"
      else "append"

  abbrev pub recovery_payload : JobInfo → (staged : ℕ) → BulkFinalizePayload
  recovery_payload job staged = record {
    job_id = job.job_id;
    collection_id = job.collection_id;
    mode = mode_of job;
    items_created = staged;
    items_failed = job.items_failed;
    owner_id = job.owner_id;
    queue_compute_tiles = false;
    attempt = 0;
  }

  abbrev pub to_finalizing : JobInfo → (before after : String) → (staged : ℕ) → JobUpdate
  to_finalizing job before after staged =
      change env "finalizing" ((before ++ env.commas staged) ++ after) (some staged) none

  -- The payload is queued, and the mutex given back.
  pub queue_recovered : World env → ℕ → JobInfo → (staged : ℕ) → World env × Bool
  unfolding enqueue_finalize update_stored
  queue_recovered w now job staged =
      let (queued, done) = enqueue_finalize env w (recovery_payload job staged) false in
      let updated = update_stored env queued now job.job_id (
        to_finalizing job "Recovered: " " features in staging; partition swap queued (watchdog)."
          staged) in
      if done
      then (
        record updated { store = give_back env updated.store job.collection_id job.job_id },
        true,
      )
      else (queued, false)

  pub recover_staged : World env → ℕ → JobInfo → (staged : ℕ) → World env × Bool
  unfolding is_finalize_pending update_stored queue_recovered
  recover_staged w now job zero = (w, false)
  recover_staged w now job (suc n) =
      if is_finalize_pending env w job.job_id
      then (
        update_stored env w now job.job_id
            (to_finalizing job "Loaded " " features into staging; partition swap queued…" (suc n)),
        true,
      )
      else queue_recovered w now job (suc n)

  pub recover_running_job_to_finalize : World env → ℕ → JobInfo → World env × Bool
  unfolding recover_staged
  recover_running_job_to_finalize w now job =
      if recovers then recover_staged w now job (staged_rows w job) else (w, false)

  -- `now` is read once before the loop; a job is failed, its mutex given back and its table dropped.
  pub fail_stalled : World env → ℕ → JobInfo → World env
  unfolding update_stored
  fail_stalled w now job =
      let updated = update_stored env w now job.job_id (
        change env "failed"
          (("Bulk import stalled (no progress for " ++ env.show (activity_age_seconds now job))
            ++ "s); job marked failed by watchdog.")
          none none) in
      let freed = give_back env updated.store job.collection_id job.job_id in
      record updated { store = freed; db = (env.engine.drop_staging updated.db job.job_id).0 }

  abbrev pub is_running : JobInfo → Bool
  is_running job = is_one_of job.status ("running" ∷ "replacing" ∷ [])

  -- The world after one job, and whether it was failed.
  pub check_running : World env → ℕ → JobInfo → World env × Bool
  unfolding should_attempt_running_staging_recovery recover_running_job_to_finalize fail_stalled
  check_running w now job =
      let (recovered, queued) = recover_running_job_to_finalize w now job in
      if not (is_running job)
      then (w, false)
      else if ltb (activity_age_seconds now job) stale_seconds
      then (w, false)
      else if should_attempt_running_staging_recovery w now job
      then (if queued then (recovered, false) else (fail_stalled recovered now job, true))
      else (fail_stalled w now job, true)

  pub check_all_running : World env → ℕ → List JobInfo → World env × List String
  unfolding check_running
  check_all_running w now [] = (w, [])
  check_all_running w now (job ∷ jobs) =
      let (w', failed) = check_running w now job in
      let (last, ids) = check_all_running w' now jobs in
      (last, if failed then job.job_id ∷ ids else ids)

  -- The jobs of the listing that are not at an end, by their status before the loop. A recovered job
  -- is running, so it is among them.
  pub active_ids : List JobInfo → List String
  active_ids [] = []
  active_ids (job ∷ jobs) =
      if is_one_of job.status ("pending" ∷ "running" ∷ "replacing" ∷ "finalizing" ∷ [])
      then job.job_id ∷ active_ids jobs
      else active_ids jobs

  -- `cleanup_orphan_staging_tables_sync`, whose exceptions are ignored, is a parameter.
  pub fail_stale_running_jobs :
      (cleanup : env.engine.Db → List String → env.engine.Db)
      → World env
      → ℕ
      → List JobInfo
      → World env × List String
  unfolding should_fail_stale_running check_all_running active_ids
  fail_stale_running_jobs cleanup w now jobs =
      let (checked, failed) = check_all_running w now jobs in
      if is_redis env && should_fail_stale_running
      then (with_db env checked (cleanup checked.db (active_ids jobs)), failed)
      else (w, [])

  recover_one : World env → ℕ → JobInfo → World env × Bool
  unfolding should_attempt_running_staging_recovery recover_running_job_to_finalize
  recover_one w now job =
      if is_running job && should_attempt_running_staging_recovery w now job
      then recover_running_job_to_finalize w now job
      else (w, false)

  recover_all : World env → ℕ → List JobInfo → World env × List String
  unfolding recover_one
  recover_all w now [] = (w, [])
  recover_all w now (job ∷ jobs) =
      let (w', done) = recover_one w now job in
      let (last, ids) = recover_all w' now jobs in (last, if done then job.job_id ∷ ids else ids)

  pub recover_stale_running_jobs_with_staging :
      World env → ℕ → List JobInfo → World env × List String
  unfolding recover_all
  recover_stale_running_jobs_with_staging w now jobs =
      if recovers then recover_all w now jobs else (w, [])

  fail_finalizing : World env → ℕ → JobInfo → World env
  unfolding update_stored
  fail_finalizing w now job = update_stored env w now job.job_id (
      change env "failed"
        (("Partition swap stalled (no progress for " ++ env.show (activity_age_seconds now job))
          ++ "s). Staging data kept; re-run bulk_recover_staging or re-upload.")
        none none)

  pub fail_all_finalizing : World env → ℕ → List JobInfo → World env × List String
  unfolding fail_finalizing
  fail_all_finalizing w now [] = (w, [])
  fail_all_finalizing w now (job ∷ jobs) =
      let stuck =
        str_eq (env.lower job.status) "finalizing"
        && not (ltb (activity_age_seconds now job) finalize_stale_seconds) in
      let (last, ids) =
        fail_all_finalizing (if stuck then fail_finalizing w now job else w) now jobs in
      (last, if stuck then job.job_id ∷ ids else ids)

  pub fail_stale_finalizing_jobs : World env → ℕ → List JobInfo → World env × List String
  unfolding fail_all_finalizing
  fail_stale_finalizing_jobs w now jobs =
      if is_redis env then fail_all_finalizing w now jobs else (w, [])
