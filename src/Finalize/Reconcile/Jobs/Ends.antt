-- ===== src/Finalize/Reconcile/Jobs/Ends.antt =====
-- app/services/bulk_finalize_reconcile.py: how the pass leaves a job.
use geofastmap_api.Prelude.{
  ℕ, String, Bool, true, false, Option, not, ◌&&◌, ◌≡◌, refl, inl, inr, str_eq, ◌==◌, Bool-cases,
}
use geofastmap_api.Bulk.Mutex.{is_terminal_job_status}
use geofastmap_api.JobStore.{JobInfo}
use geofastmap_api.Finalize.{Env, World, Counted, Answer, is_redis}
use geofastmap_api.Finalize.Worker.{or_count}
use geofastmap_api.Finalize.Worker.Settled.{close_import-IsSettled}
use geofastmap_api.Finalize.Reconcile.{ReconcileStats, Reading, load_still_in_progress}
use geofastmap_api.Finalize.Reconcile.Jobs.{
  without_staging, close_or_complete, with_staged, with_table, close_empty, empty_staging,
  counted_staging, reconcile_one_job, is_staging_name, is_other_name, count_or,
}
use geofastmap_api.Finalize.Reconcile.Jobs.Placed.{
  Handled, completed-Placed, reconcile_staged_rows-Placed,
}

module _ (env : Env) where
  module _ (in_redis : is_redis env ≡ true)
      (goes_on : is_terminal_job_status env.lower "finalizing" ≡ false) where
    without-Handled :
        (w : World env) (now : ℕ) (job : JobInfo) (stats : ReconcileStats)
        (live : Answer (Option String))
        → Handled env in_redis w job (without_staging env w now job stats false live)
    unfolding without_staging
    without-Handled w now job stats (Answer.raises e) = inl refl
    without-Handled w now job stats (Answer.gives live) =
        elim (Bool-cases (is_staging_name env live && str_eq (env.lower job.status) "finalizing")) [
          | inl swapped ↦
              rw (swapped, without_staging)
                (inr (
                  completed-Placed env in_redis goes_on w now job stats
                    "live partition already attached"
                    (or_count
                      (count_or env (env.engine.live_count w.db job.collection_id)
                        job.items_created)
                      job.items_created)))
          | inr other ↦ rw (other, without_staging) (inl refl)
        ]

    close-Handled :
        (w : World env) (now : ℕ) (job : JobInfo) (stats : ReconcileStats)
        (live : Answer (Option String))
        → Handled env in_redis w job (close_or_complete env w now job stats live)
    unfolding close_or_complete close_empty
    close-Handled w now job stats (Answer.raises e) = inl refl
    close-Handled w now job stats (Answer.gives live) =
        let count = count_or env (env.engine.live_count w.db job.collection_id) job.items_created in
        elim (Bool-cases (is_other_name env live && not (count == 0 && job.items_created == 0))) [
          | inl has_rows ↦
              rw (has_rows, close_or_complete)
                (inr (
                  completed-Placed env in_redis goes_on w now job stats
                    "live partition already has data (staging dropped)"
                    (or_count count job.items_created)))
          | inr lost ↦
              rw (lost, close_or_complete)
                (inr (inl (close_import-IsSettled env in_redis _ job.job_id)))
        ]

    empty-Handled :
        (w : World env) (now : ℕ) (job : JobInfo) (stats : ReconcileStats)
        → Handled env in_redis w job (empty_staging env w now job stats false)
    unfolding empty_staging
    empty-Handled w now job stats = elim (Bool-cases (load_still_in_progress env w now job)) [
      | inl loads ↦ rw (loads, empty_staging) (inl refl)
      | inr loaded ↦
          rw (loaded, empty_staging)
            (close-Handled w now job stats (env.engine.live_partition w.db job.collection_id))
    ]

    staged-Handled :
        (reading : Reading) (w : World env) (now : ℕ) (job : JobInfo) (stats : ReconcileStats)
        (staged : ℕ) (swapped : Answer Bool)
        → Handled env in_redis w job (with_staged env reading w now job stats false staged swapped)
    unfolding with_staged
    staged-Handled reading w now job stats staged (Answer.raises e) = inl refl
    staged-Handled reading w now job stats staged (Answer.gives true) = inr (
        completed-Placed env in_redis goes_on w now job stats "staging partition already attached"
          (or_count staged job.items_created))
    staged-Handled reading w now job stats staged (Answer.gives false) =
        elim (Bool-cases (staged == 0)) [
          | inl z ↦ rw (z, with_staged) (empty-Handled w now job stats)
          | inr z ↦
              rw (z, with_staged)
                (inr (
                  reconcile_staged_rows-Placed env in_redis goes_on reading w now job stats staged))
        ]

    counted-Handled :
        (reading : Reading) (w : World env) (now : ℕ) (job : JobInfo) (stats : ReconcileStats)
        (c : Counted)
        → Handled env in_redis w job (counted_staging env reading w now job stats false c)
    unfolding counted_staging
    counted-Handled reading w now job stats (Counted.broken e) = inl refl
    counted-Handled reading w now job stats (Counted.counted staged) =
        staged-Handled reading w now job stats staged
          (env.engine.swap_complete w.db job.collection_id job.job_id)

    table-Handled :
        (reading : Reading) (w : World env) (now : ℕ) (job : JobInfo) (stats : ReconcileStats)
        (exists : Answer Bool)
        → Handled env in_redis w job (with_table env reading w now job stats false exists)
    unfolding with_table
    table-Handled reading w now job stats (Answer.raises e) = inl refl
    table-Handled reading w now job stats (Answer.gives true) =
        counted-Handled reading w now job stats (env.engine.staging_row_count w.db job.job_id)
    table-Handled reading w now job stats (Answer.gives false) =
        without-Handled w now job stats (env.engine.live_partition w.db job.collection_id)

    -- What a call that is no dry run leaves, in Redis and where a finalizing job is not at its end,
    -- whatever the database answers: the world as it was; or the call returned with the job settled,
    -- without a mark and a registration; or it returned with the job waiting: marked, and a payload
    -- with its identifiers put into the queue, or marked before and Redis and the queue untouched; or
    -- it raised with Redis and the queue as they were, where the database may be changed in part.
    pub reconcile_one_job_lem :
        (reading : Reading) (w : World env) (now : ℕ) (job : JobInfo) (stats : ReconcileStats)
        → Handled env in_redis w job (reconcile_one_job env reading w now job stats false)
    unfolding reconcile_one_job
    reconcile_one_job_lem reading w now job stats =
        table-Handled reading w now job stats (env.engine.staging_exists w.db job.job_id)
