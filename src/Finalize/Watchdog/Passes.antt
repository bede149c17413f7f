-- ===== src/Finalize/Watchdog/Passes.antt =====
-- app/services/bulk_watchdog.py: the jobs that hold a mutex and never started, the whole pass, and the
-- imports with staged rows that no queue knows. The keys that Redis lists are a list of collections,
-- the listings of the job store functions of the world.
pub mod Ends
use Prim.Native.String.{◌++◌}
use geofastmap_api.Prelude.{
  ℕ, zero, suc, ◌-◌, String, Bool, true, false, not, ◌&&◌, ◌||◌, ◌≡◌, refl, ap, ◌∙◌, ◌⊎◌, inl, inr,
  Option, none, some, List, [], ◌∷◌, if◌then◌else◌, str_eq, eq_refl, ltb, leb, truthy, is_some,
  contains_text, is_text, Bool-cases, Option-cases, arith,
}
use geofastmap_api.Bulk.Mutex.{
  get_collection_bulk_mutex_holder, is_one_of, is_terminal_job_status,
  reclaim_stale_collection_bulk_mutex, JobView, release_collection_bulk_mutex, mutex_key,
}
use geofastmap_api.JobStore.{JobInfo, Hash}
use geofastmap_api.Finalize.{
  Env, World, BulkFinalizePayload, change, update_stored, is_redis, is_finalize_pending,
  enqueue_finalize, give_back, get_finalize_state,
}
use geofastmap_api.Finalize.Worker.{with_db, or_count}
use geofastmap_api.Finalize.Reconcile.{at_least, message_of, Reading, has_word, or_text}
use geofastmap_api.Finalize.Watchdog.{
  should_fail_stale_running, fail_stale_running_jobs, recover_stale_running_jobs_with_staging,
  recovers, staged_rows,
}

-- `owner_raw.isdigit()`, with the number; and the other numbers, as `mark_finalize_pending` writes them.
pub record StateReading : Type 0 where
  pub digits : String → Option ℕ
  pub int_of : String → ℕ

module _ (env : Env) where
  abbrev pub job_age_seconds : ℕ → JobInfo → ℕ
  job_age_seconds now job = now - job.updated_at

  abbrev pub pending_stale_seconds : ℕ
  pending_stale_seconds = at_least 120 600 env.settings.bulk_job_pending_stale_seconds

  abbrev pub holder_of : World env → String → Option String
  holder_of w collection_id =
      get_collection_bulk_mutex_holder env.redis env.settings.bulk_queue_type w.store collection_id

  -- The job has failed, and its mutex is given back first.
  pub fail_pending :
      World env → ℕ → (collection_id : String) → JobInfo → (holder : String) → World env
  unfolding update_stored
  fail_pending w now collection_id job holder =
      let freed = record w { store = give_back env w.store collection_id holder } in
      update_stored env freed now holder (
        change env "failed"
          (("Bulk import interrupted before start (pending " ++ env.show (job_age_seconds now job))
            ++ "s with collection lock); re-submit the upload.")
          none none)

  unfoldable pub is_stale_pending : ℕ → JobInfo → Bool
  is_stale_pending now job =
      str_eq (env.lower job.status) "pending" && leb pending_stale_seconds (job_age_seconds now job)

  check_holder :
      World env → ℕ → (collection_id : String) → Option String → World env × Option String
  unfolding fail_pending is_stale_pending
  check_holder w now collection_id none = (w, none)
  check_holder w now collection_id (some holder) = elim (w.jobs holder) [
    | none ↦ (w, none)
    | some job ↦
        if truthy holder && is_stale_pending now job
        then (fail_pending w now collection_id job holder, some holder)
        else (w, none)
  ]

  pub check_pending_mutex : World env → ℕ → (collection_id : String) → World env × Option String
  unfolding check_holder
  check_pending_mutex w now collection_id =
      if truthy collection_id
      then check_holder w now collection_id (holder_of w collection_id)
      else (w, none)

  abbrev with_id : Option String → List String → List String
  with_id none ids = ids
  with_id (some id) ids = id ∷ ids

  check_pending_mutexes : World env → ℕ → List String → World env × List String
  unfolding check_pending_mutex
  check_pending_mutexes w now [] = (w, [])
  check_pending_mutexes w now (collection_id ∷ rest) =
      let (w', failed) = check_pending_mutex w now collection_id in
      let (last, ids) = check_pending_mutexes w' now rest in (last, with_id failed ids)

  pub fail_stale_pending_mutex_holders : World env → ℕ → List String → World env × List String
  unfolding check_pending_mutexes
  fail_stale_pending_mutex_holders w now keys =
      if is_redis env then check_pending_mutexes w now keys else (w, [])

  view_of : ℕ → Option JobInfo → Option JobView
  view_of now none = none
  view_of now (some job) = some (record {
    status = job.status;
    is_finished = is_some job.finished_at;
    age_seconds = job_age_seconds now job;
  })

  -- The test before the call of `reclaim_stale_collection_bulk_mutex`, which makes it again.
  has_ended : Option JobInfo → Bool
  has_ended none = true
  has_ended (some job) = is_terminal_job_status env.lower job.status || is_some job.finished_at

  reclaim_holder : World env → ℕ → String → Option String → World env
  unfolding has_ended view_of
  reclaim_holder w now collection_id none = w
  reclaim_holder w now collection_id (some holder) =
      let (freed, reclaimed) =
        reclaim_stale_collection_bulk_mutex env.redis env.lower (λ j. view_of now (w.jobs j))
          env.settings.bulk_job_pending_stale_seconds env.settings.bulk_queue_type w.store
          collection_id in
      if truthy holder && has_ended (w.jobs holder) then record w { store = freed } else w

  pub reclaim_ended : World env → ℕ → List String → World env
  unfolding reclaim_holder
  reclaim_ended w now [] = w
  reclaim_ended w now (collection_id ∷ rest) =
      reclaim_ended (reclaim_holder w now collection_id (holder_of w collection_id)) now rest

  -- What the pass reads: the collections of the mutexes, and the first jobs of the listing; and the
  -- removal of staging tables.
  pub record Listings : Type 0 where
    pub mutex_collections : World env → List String
    pub listed_jobs : World env → List JobInfo
    pub cleanup_orphan_staging_tables : env.engine.Db → List String → env.engine.Db

  abbrev given_or : Option Bool → Bool → Bool
  given_or none other = other
  given_or (some b) other = b

  pub run_bulk_watchdog_pass :
      Listings → World env → ℕ → (fail_stale_running : Option Bool) → World env
  unfolding reclaim_ended fail_stale_pending_mutex_holders
  run_bulk_watchdog_pass listings w now fail_stale_running =
      let reclaimed = reclaim_ended w now (listings.mutex_collections w) in
      let unheld =
        (fail_stale_pending_mutex_holders reclaimed now (listings.mutex_collections reclaimed)).0 in
      let recovered =
        (recover_stale_running_jobs_with_staging env unheld now (listings.listed_jobs unheld)).0 in
      let fails = given_or fail_stale_running (should_fail_stale_running env) in
      if not (is_redis env)
      then w
      else if fails
      then (fail_stale_running_jobs env listings.cleanup_orphan_staging_tables recovered now
          (listings.listed_jobs recovered)).0
      else recovered

  -- A hash that is not empty has the job's id: whoever writes it writes that field.
  keeps_failed : Hash → String → Bool
  keeps_failed state msg =
      is_some (state "job_id")
      || has_word msg ("deadlock" ∷ "partition swap" ∷ "staging" ∷ "watchdog" ∷ [])

  owner_from : StateReading → Option String → Option ℕ → Option ℕ
  owner_from reading raw owner_id = elim (reading.digits (or_text raw "")) [
    | none ↦ owner_id
    | some n ↦ some n
  ]

  number_from : StateReading → Option String → ℕ → ℕ
  number_from reading none other = other
  number_from reading (some s) other = if truthy s then reading.int_of s else other

  pub orphan_payload : StateReading → Hash → JobInfo → (staged : ℕ) → BulkFinalizePayload
  unfolding owner_from number_from
  orphan_payload reading state job staged = record {
    job_id = job.job_id;
    collection_id = or_text (state "collection_id") job.collection_id;
    mode = or_text (state "mode") (
        if contains_text (env.lower (message_of job)) "replace"
          || str_eq (env.lower job.status) "replacing"
        then "replace"
        else "append");
    items_created = number_from reading (state "items_created") (or_count job.items_created staged);
    items_failed = number_from reading (state "items_failed") job.items_failed;
    owner_id = owner_from reading (state "owner_id") job.owner_id;
    queue_compute_tiles = elim (state "queue_compute_tiles") [
      | none ↦ false
      | some flag ↦ is_one_of (env.lower flag) ("1" ∷ "true" ∷ "yes" ∷ [])
    ];
    attempt = 0;
  }

  pub requeue_orphan : StateReading → World env → ℕ → JobInfo → (staged : ℕ) → World env × Bool
  unfolding orphan_payload keeps_failed enqueue_finalize get_finalize_state update_stored
  requeue_orphan reading w now job zero = (w, false)
  requeue_orphan reading w now job (suc n) =
      let state = get_finalize_state env w job.job_id in
      let (queued, done) = enqueue_finalize env w (orphan_payload reading state job (suc n)) true in
      if str_eq (env.lower job.status) "failed"
        && not (keeps_failed state (env.lower (message_of job)))
      then (w, false)
      else if done
      then (
        update_stored env queued now job.job_id (
            change env "finalizing"
              (("Re-queued partition swap for " ++ env.commas (suc n))
                ++ " staged features (self-heal).")
              (some (or_count job.items_created (suc n))) none),
        true,
      )
      else (queued, false)

  pub check_orphan : StateReading → World env → ℕ → JobInfo → World env × Bool
  unfolding requeue_orphan
  check_orphan reading w now job =
      if not
        (is_one_of (env.lower job.status) ("finalizing" ∷ "failed" ∷ "running" ∷ "replacing" ∷ []))
      then (w, false)
      else if is_finalize_pending env w job.job_id
      then (w, false)
      else requeue_orphan reading w now job (staged_rows env w job)

  check_orphans : StateReading → World env → ℕ → List JobInfo → World env × List String
  unfolding check_orphan
  check_orphans reading w now [] = (w, [])
  check_orphans reading w now (job ∷ jobs) =
      let (w', done) = check_orphan reading w now job in
      let (last, ids) = check_orphans reading w' now jobs in
      (last, if done then job.job_id ∷ ids else ids)

  pub reconcile_orphan_finalize_jobs :
      StateReading → World env → ℕ → List JobInfo → World env × List String
  unfolding check_orphans
  reconcile_orphan_finalize_jobs reading w now jobs =
      if recovers env then check_orphans reading w now jobs else (w, [])
