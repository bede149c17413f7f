-- ===== src/Finalize/Reconcile/Jobs/DryRun.antt =====
-- app/services/bulk_finalize_reconcile.py: a dry run on one job.
use geofastmap_api.Prelude.{
  ℕ, String, Bool, true, false, ◌≡◌, refl, inl, inr, Option, none, some, ◌&&◌, str_eq, ◌==◌,
  Bool-cases,
}
use geofastmap_api.JobStore.{JobInfo}
use geofastmap_api.Finalize.{Env, World, Failure, Counted, Answer}
use geofastmap_api.Finalize.Worker.{or_count}
use geofastmap_api.Finalize.Reconcile.{ReconcileStats, Reading, should_abandon_duplicate_job}
use geofastmap_api.Finalize.Reconcile.Promotion.{Pass}
use geofastmap_api.Finalize.Reconcile.Jobs.{
  complete_swapped_job, without_staging, empty_staging, reconcile_staged_rows, with_staged,
  counted_staging, with_table, reconcile_one_job, is_staging_name,
}

module _ (env : Env) where
  -- An exception of one of the queries on the job's table and partition.
  pub data IsQueryError (w : World env) : Failure → Type 0 where
    table_query :
        {e : Failure} (job_id : String)
        → env.engine.staging_exists w.db job_id ≡ Answer.raises e
        → IsQueryError w e
    partition_query :
        {e : Failure} (collection_id : String)
        → env.engine.live_partition w.db collection_id ≡ Answer.raises e
        → IsQueryError w e
    swap_query :
        {e : Failure} (collection_id job_id : String)
        → env.engine.swap_complete w.db collection_id job_id ≡ Answer.raises e
        → IsQueryError w e

  -- Nothing of the world changed, and what was raised, if anything, is such an exception.
  abbrev pub Untouched : (IsError : Failure → Type 0) → World env → Pass env → Type 0
  Untouched IsError w (w', stats, none) = w' ≡ w
  Untouched IsError w (w', stats, some e) = (w' ≡ w) × IsError e

  module _ (w : World env) (now : ℕ) (job : JobInfo) (stats : ReconcileStats) where
    dry_complete :
        (note : String) (rows : ℕ)
        → Untouched (IsQueryError w) w (complete_swapped_job env w now job stats true note rows)
    unfolding complete_swapped_job
    dry_complete note rows = refl

    dry_without :
        (live : Answer (Option String))
        → env.engine.live_partition w.db job.collection_id ≡ live
        → Untouched (IsQueryError w) w (without_staging env w now job stats true live)
    unfolding without_staging complete_swapped_job
    dry_without (Answer.raises e) asked = (refl, partition_query job.collection_id asked)
    dry_without (Answer.gives live) asked =
        elim (Bool-cases (is_staging_name env live && str_eq (env.lower job.status) "finalizing")) [
          | inl e ↦ rw e refl
          | inr e ↦ rw e refl
        ]

    dry_empty : Untouched (IsQueryError w) w (empty_staging env w now job stats true)
    unfolding empty_staging
    dry_empty = refl

    dry_rows :
        (reading : Reading) (staged : ℕ)
        → Untouched
            (IsQueryError w)
            w
            (reconcile_staged_rows env reading w now job stats true staged)
    unfolding reconcile_staged_rows
    dry_rows reading staged = elim (Bool-cases (should_abandon_duplicate_job env reading w job)) [
      | inl e ↦ rw (e, reconcile_staged_rows) refl
      | inr e ↦ rw (e, reconcile_staged_rows) refl
    ]

    dry_staged :
        (reading : Reading) (staged : ℕ) (swapped : Answer Bool)
        → env.engine.swap_complete w.db job.collection_id job.job_id ≡ swapped
        → Untouched (IsQueryError w) w (with_staged env reading w now job stats true staged swapped)
    unfolding with_staged
    dry_staged reading staged (Answer.raises e) asked =
        (refl, swap_query job.collection_id job.job_id asked)
    dry_staged reading staged (Answer.gives true) asked =
        dry_complete "staging partition already attached" (or_count staged job.items_created)
    dry_staged reading staged (Answer.gives false) asked = elim (Bool-cases (staged == 0)) [
      | inl z ↦ rw (z, with_staged) dry_empty
      | inr z ↦ rw (z, with_staged) (dry_rows reading staged)
    ]

    dry_counted :
        (reading : Reading) (c : Counted)
        → Untouched (IsQueryError w) w (counted_staging env reading w now job stats true c)
    unfolding counted_staging
    dry_counted reading (Counted.broken e) = refl
    dry_counted reading (Counted.counted staged) =
        dry_staged reading staged (env.engine.swap_complete w.db job.collection_id job.job_id) refl

    dry_table :
        (reading : Reading) (exists : Answer Bool)
        → env.engine.staging_exists w.db job.job_id ≡ exists
        → Untouched (IsQueryError w) w (with_table env reading w now job stats true exists)
    unfolding with_table
    dry_table reading (Answer.raises e) asked = (refl, table_query job.job_id asked)
    dry_table reading (Answer.gives true) asked = dry_counted reading _
    dry_table reading (Answer.gives false) asked =
        dry_without (env.engine.live_partition w.db job.collection_id) refl

    -- A dry run on a job changes nothing in the job store, Redis, the queue or the database, whether
    -- it returns or raises; and it raises only what a query on the job's table or partition raises.
    pub dry_run_keeps :
        (reading : Reading)
        → Untouched (IsQueryError w) w (reconcile_one_job env reading w now job stats true)
    unfolding reconcile_one_job
    dry_run_keeps reading = dry_table reading (env.engine.staging_exists w.db job.job_id) refl
