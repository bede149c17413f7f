-- ===== src/Finalize/Reconcile/Jobs/Placed.antt =====
-- app/services/bulk_finalize_reconcile.py: how the promotion leaves a job.
use geofastmap_api.Prelude.{
  ℕ, String, true, false, ◌∷◌, ◌≡◌, refl, ap, ◌⊎◌, inl, inr, none, some, Bool-cases, Option-cases,
}
use geofastmap_api.Bulk.Mutex.{is_terminal_job_status}
use geofastmap_api.JobStore.{JobInfo}
use geofastmap_api.Finalize.{
  Env, World, Failure, Prepared, Promoted, finalize_to_json, update_stored, is_redis,
  is_finalize_pending, enqueue_finalize, is_staging_pk_duplicate_error,
}
use geofastmap_api.Finalize.Worker.{or_count, with_db}
use geofastmap_api.Finalize.RoundTrip.{enqueue_finalize-pending, enqueue_finalize-frame}
use geofastmap_api.Finalize.Worker.Settled.{
  IsSettled, close_import-IsSettled, abandon_lem, update_finalizing,
}
use geofastmap_api.Finalize.Reconcile.{
  ReconcileStats, Reading, infer_import_mode, should_abandon_duplicate_job,
}
use geofastmap_api.Finalize.Reconcile.Promotion.{
  Pass, abandon_duplicate_job, close_completed, try_promotion, recovered, queue_after_error,
  second_promotion, after_dedupe, first_promotion, promote_prepared, prepare_and_promote,
  check_duplicates_first, cancelled_failure, reconcile_payload,
}
use geofastmap_api.Finalize.Reconcile.Jobs.{complete_swapped_job, reconcile_staged_rows}

module _ (env : Env) where
  module _ (in_redis : is_redis env ≡ true) where
    -- The job is marked as pending; and it was before, with its payload in the queue as it was, or a
    -- payload of the job is put into the queue.
    abbrev pub Waits : World env → World env → JobInfo → Type 0
    Waits w w' job =
        (is_finalize_pending env w' job.job_id ≡ true)
        × (((w'.store ≡ w.store) × (w'.queue ≡ w.queue))
            ⊎ ((mode : String) × (staged : ℕ) × (w'.queue
                  ≡ finalize_to_json env (reconcile_payload env job mode staged) ∷ w.queue)))

    -- The call returned, and the job is settled, or waits in the queue; or it raised, and Redis and
    -- the queue are as they were.
    abbrev pub Placed : World env → JobInfo → Pass env → Type 0
    Placed w job (w', stats, some e) = (w'.store ≡ w.store) × (w'.queue ≡ w.queue)
    Placed w job (w', stats, none) = IsSettled env in_redis w' job.job_id ⊎ Waits w w' job

    -- The world is as it was, or the job is placed.
    abbrev pub Handled : World env → JobInfo → Pass env → Type 0
    Handled w job r = (r.0 ≡ w) ⊎ Placed w job r

  module _ (in_redis : is_redis env ≡ true)
      (goes_on : is_terminal_job_status env.lower "finalizing" ≡ false) where
    abandon-Placed :
        (w : World env) (now : ℕ) (job : JobInfo) (stats : ReconcileStats) (staged : ℕ)
        (reason : String)
        → Placed in_redis w job (abandon_duplicate_job env w now job stats staged reason)
    unfolding abandon_duplicate_job
    abandon-Placed w now job stats staged reason =
        elim (abandon_lem env in_redis w now job.job_id job.collection_id reason
          (or_count staged job.items_created) job.items_failed) [
            | inl (fine, settled) ↦ rw (fine, abandon_duplicate_job) (inl settled)
            | inr (e, failed) ↦
                rw (ap (λ q. q.1) failed, abandon_duplicate_job, ap (λ q. q.0) failed) (refl, refl)
          ]

    pub completed-Placed :
        (w : World env) (now : ℕ) (job : JobInfo) (stats : ReconcileStats) (note : String)
        (rows : ℕ)
        → Placed in_redis w job (complete_swapped_job env w now job stats false note rows)
    unfolding complete_swapped_job close_completed
    completed-Placed w now job stats note rows =
        elim (Option-cases (env.engine.finalize_after_promote w.db job.collection_id).1) [
          | inl fine ↦
              rw (fine, complete_swapped_job)
                (inl (close_import-IsSettled env in_redis _ job.job_id))
          | inr (e, failed) ↦ rw (failed, complete_swapped_job) (refl, refl)
        ]

    recovered-Placed :
        (w0 w : World env) (now : ℕ) (job : JobInfo) (stats : ReconcileStats) (how : String)
        (count : ℕ)
        → Placed in_redis w0 job (recovered env w now job stats how count)
    unfolding recovered close_completed
    recovered-Placed w0 w now job stats how count =
        inl (close_import-IsSettled env in_redis _ job.job_id)

    pending_same :
        (w w' : World env) (job_id : String)
        → w'.store ≡ w.store
        → is_finalize_pending env w job_id ≡ true
        → is_finalize_pending env w' job_id ≡ true
    unfolding is_finalize_pending
    pending_same w w' job_id same pending = rw same pending

    queued-Placed :
        (w : World env) (now : ℕ) (job : JobInfo) (stats : ReconcileStats) (mode : String)
        (staged : ℕ) (e : Failure)
        → Placed in_redis w job (queue_after_error env w now job stats mode staged e)
    unfolding queue_after_error
    queued-Placed w now job stats mode staged e =
        let p = reconcile_payload env job mode staged in
        let queued = (enqueue_finalize env w p true).0 in
        let (done, db, jobs, queue) = enqueue_finalize-frame env w p in_redis in
        elim (Bool-cases (is_finalize_pending env w job.job_id)) [
          | inl pending ↦
              let same = update_finalizing env in_redis goes_on w now job.job_id _ _ _ in
              rw (pending, queue_after_error)
                (inr (
                  pending_same w (update_stored env w now job.job_id _) job.job_id same pending,
                  inl (same, refl),
                ))
          | inr free ↦
              rw (free, queue_after_error)
                (inr (
                  pending_same queued (update_stored env queued now job.job_id _) job.job_id
                      (update_finalizing env in_redis goes_on queued now job.job_id _ _ _)
                      (enqueue_finalize-pending env w p in_redis),
                  inr (mode, staged, queue),
                ))
        ]

    second-Placed :
        (w : World env) (now : ℕ) (job : JobInfo) (stats : ReconcileStats) (staged : ℕ)
        (r : Promoted)
        → Placed in_redis w job (second_promotion env w now job stats staged r)
    unfolding second_promotion
    second-Placed w now job stats staged (Promoted.promoted count) =
        recovered-Placed w w now job stats "deduped and promoted " count
    second-Placed w now job stats staged Promoted.import_cancelled = (refl, refl)
    second-Placed w now job stats staged (Promoted.duplicates reason) =
        abandon-Placed w now job stats staged reason
    second-Placed w now job stats staged (Promoted.broken e) = (refl, refl)

    dedupe-Placed :
        (w : World env) (now : ℕ) (job : JobInfo) (stats : ReconcileStats) (mode : String)
        (staged : ℕ) (r : Prepared)
        → Placed in_redis w job (after_dedupe env w now job stats mode staged r)
    unfolding after_dedupe
    dedupe-Placed w now job stats mode staged (Prepared.duplicates reason) =
        abandon-Placed w now job stats staged reason
    dedupe-Placed w now job stats mode staged (Prepared.broken e) = (refl, refl)
    dedupe-Placed w now job stats mode staged Prepared.ready =
        let (db', outcome) = try_promotion env w.db job mode in
        second-Placed (with_db env w db') now job stats staged outcome

    first-Placed :
        (w : World env) (now : ℕ) (job : JobInfo) (stats : ReconcileStats) (mode : String)
        (staged : ℕ) (r : Promoted)
        → Placed in_redis w job (first_promotion env w now job stats mode staged r)
    unfolding first_promotion
    first-Placed w now job stats mode staged (Promoted.promoted count) =
        recovered-Placed w w now job stats "promoted " count
    first-Placed w now job stats mode staged Promoted.import_cancelled =
        queued-Placed w now job stats mode staged (cancelled_failure env)
    first-Placed w now job stats mode staged (Promoted.duplicates reason) =
        abandon-Placed w now job stats staged reason
    first-Placed w now job stats mode staged (Promoted.broken e) =
        let (db', prepared) = env.engine.prepare_staging w.db job.job_id in
        elim (Bool-cases (is_staging_pk_duplicate_error env e)) [
          | inl dup ↦
              rw (dup, first_promotion)
                (dedupe-Placed (with_db env w db') now job stats mode staged prepared)
          | inr other ↦ rw (other, first_promotion) (queued-Placed w now job stats mode staged e)
        ]

    promote-Placed :
        (w : World env) (now : ℕ) (job : JobInfo) (stats : ReconcileStats) (mode : String)
        (staged : ℕ) (r : Prepared)
        → Placed in_redis w job (promote_prepared env w now job stats mode staged r)
    unfolding promote_prepared
    promote-Placed w now job stats mode staged (Prepared.duplicates reason) =
        abandon-Placed w now job stats staged reason
    promote-Placed w now job stats mode staged (Prepared.broken e) = (refl, refl)
    promote-Placed w now job stats mode staged Prepared.ready =
        let (db', outcome) = try_promotion env w.db job mode in
        first-Placed (with_db env w db') now job stats mode staged outcome

    prepare-Placed :
        (w : World env) (now : ℕ) (job : JobInfo) (stats : ReconcileStats) (mode : String)
        (staged : ℕ)
        → Placed in_redis w job (prepare_and_promote env w now job stats mode staged)
    unfolding prepare_and_promote
    prepare-Placed w now job stats mode staged =
        let (db', prepared) = env.engine.prepare_staging w.db job.job_id in
        promote-Placed (with_db env w db') now job stats mode staged prepared

    duplicates-Placed :
        (w : World env) (now : ℕ) (job : JobInfo) (stats : ReconcileStats) (mode : String)
        (staged : ℕ) (r : Prepared)
        → Placed in_redis w job (check_duplicates_first env w now job stats mode staged r)
    unfolding check_duplicates_first
    duplicates-Placed w now job stats mode staged (Prepared.duplicates reason) =
        abandon-Placed w now job stats staged reason
    duplicates-Placed w now job stats mode staged (Prepared.broken e) = (refl, refl)
    duplicates-Placed w now job stats mode staged Prepared.ready =
        prepare-Placed w now job stats mode staged

    -- A job whose staging table holds rows is settled, waits in the queue, or the call raised.
    pub reconcile_staged_rows-Placed :
        (reading : Reading) (w : World env) (now : ℕ) (job : JobInfo) (stats : ReconcileStats)
        (staged : ℕ)
        → Placed in_redis w job (reconcile_staged_rows env reading w now job stats false staged)
    unfolding reconcile_staged_rows
    reconcile_staged_rows-Placed reading w now job stats staged =
        let mode = infer_import_mode env w job in
        let (db', prepared) = env.engine.prepare_staging w.db job.job_id in
        elim (Bool-cases (should_abandon_duplicate_job env reading w job)) [
          | inl often ↦
              rw (often, reconcile_staged_rows)
                (duplicates-Placed (with_db env w db') now job stats mode staged prepared)
          | inr fresh ↦
              rw (fresh, reconcile_staged_rows) (prepare-Placed w now job stats mode staged)
        ]
