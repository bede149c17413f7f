-- ===== src/Finalize/Reconcile/Jobs.antt =====
-- app/services/bulk_finalize_reconcile.py: what the pass does with one job.
pub mod Placed
pub mod Ends
pub mod DryRun
use Prim.Native.String.{◌++◌}
use text.Mathlib.Text.{starts_with}
use geofastmap_api.Prelude.{
  ℕ, zero, suc, ◌+◌, String, Bool, true, false, not, ◌&&◌, ◌||◌, Option, none, some, List, [], ◌∷◌,
  if◌then◌else◌, str_eq, ◌==◌, truthy, cut,
}
use geofastmap_api.JobStore.{JobInfo}
use geofastmap_api.Finalize.{
  Env, World, Failure, Prepared, Promoted, Counted, Answer, BulkFinalizePayload, change,
  update_stored, is_finalize_pending, enqueue_finalize, abandon_staging_finalize_job,
  is_staging_pk_duplicate_error,
}
use geofastmap_api.Finalize.Worker.{close_import, or_count, with_db}
use geofastmap_api.Finalize.Reconcile.{
  ReconcileStats, Reading, infer_import_mode, load_still_in_progress, should_abandon_duplicate_job,
  staging_table_prefix,
}
use geofastmap_api.Finalize.Reconcile.Promotion.{
  Pass, close_completed, prepare_and_promote, check_duplicates_first,
}

module _ (env : Env) where
  pub complete_swapped_job :
      World env → ℕ → JobInfo → ReconcileStats → (dry_run : Bool) → (note : String) → ℕ → Pass env
  unfolding close_completed
  complete_swapped_job w now job stats dry_run note row_count =
      let counted = record stats {
        completed_already_swapped = stats.completed_already_swapped + 1;
      } in
      if dry_run
      then (w, counted, none)
      else let (db', failure) = env.engine.finalize_after_promote w.db job.collection_id in
        elim failure [
          | none ↦ (
            close_completed env (with_db env w db') now job
                (((("Recovered: " ++ note) ++ " (") ++ env.commas row_count) ++ " features).")
                row_count,
            counted,
            none,
          )
          | some e ↦ (with_db env w db', stats, some e)
        ]

  -- `SELECT COUNT(*)`, or the job's own number where it fails.
  abbrev pub count_or : Option ℕ → ℕ → ℕ
  count_or none created = created
  count_or (some n) created = n

  pub is_staging_name : Option String → Bool
  is_staging_name none = false
  is_staging_name (some live) = truthy live && starts_with live staging_table_prefix

  pub is_other_name : Option String → Bool
  is_other_name none = false
  is_other_name (some live) = truthy live && not (starts_with live staging_table_prefix)

  pub without_staging :
      World env
      → ℕ
      → JobInfo
      → ReconcileStats
      → (dry_run : Bool) → (live : Answer (Option String)) → Pass env
  unfolding complete_swapped_job is_staging_name
  without_staging w now job stats dry_run (Answer.raises e) = (w, stats, some e)
  without_staging w now job stats dry_run (Answer.gives live) =
      if is_staging_name live && str_eq (env.lower job.status) "finalizing"
      then complete_swapped_job w now job stats dry_run "live partition already attached" (
          or_count (count_or (env.engine.live_count w.db job.collection_id) job.items_created)
            job.items_created)
      else (w, record stats { skipped = stats.skipped + 1 }, none)

  empty_message : ℕ → String
  empty_message zero =
      "Bulk import produced no features (empty staging table). Check the source file and re-import."
  empty_message (suc n) =
      "Bulk import lost staged data before partition swap could complete. Please re-import this file."

  -- The empty table is dropped, where that works, and the job has failed.
  pub close_empty : World env → ℕ → JobInfo → ReconcileStats → Pass env
  unfolding update_stored empty_message
  close_empty w now job stats =
      let (db', ignored) = env.engine.drop_staging w.db job.job_id in
      (
        close_import env
            (update_stored env (with_db env w db') now job.job_id (
              change env "failed" (empty_message job.items_created) (some 0)
                (some job.items_failed)))
            job.job_id,
        record stats { empty_closed = stats.empty_closed + 1 },
        none,
      )

  pub close_or_complete :
      World env → ℕ → JobInfo → ReconcileStats → (live : Answer (Option String)) → Pass env
  unfolding complete_swapped_job close_empty is_other_name
  close_or_complete w now job stats (Answer.raises e) = (w, stats, some e)
  close_or_complete w now job stats (Answer.gives live) =
      let count = count_or (env.engine.live_count w.db job.collection_id) job.items_created in
      if is_other_name live && not (count == 0 && job.items_created == 0)
      then complete_swapped_job w now job stats false
          "live partition already has data (staging dropped)" (or_count count job.items_created)
      else close_empty w now job stats

  pub empty_staging : World env → ℕ → JobInfo → ReconcileStats → (dry_run : Bool) → Pass env
  unfolding load_still_in_progress close_or_complete
  empty_staging w now job stats dry_run =
      if dry_run
      then (w, record stats { empty_closed = stats.empty_closed + 1 }, none)
      else if load_still_in_progress env w now job
      then (w, record stats { skipped = stats.skipped + 1 }, none)
      else close_or_complete w now job stats (env.engine.live_partition w.db job.collection_id)

  pub reconcile_staged_rows :
      Reading
      → World env
      → ℕ
      → JobInfo
      → ReconcileStats
      → (dry_run : Bool) → (staged : ℕ) → Pass env
  unfolding infer_import_mode should_abandon_duplicate_job check_duplicates_first
      prepare_and_promote
  reconcile_staged_rows reading w now job stats dry_run staged =
      let mode = infer_import_mode env w job in
      let gives_up = should_abandon_duplicate_job env reading w job in
      if dry_run
      then (if gives_up
          then (w, record stats { abandoned = stats.abandoned + 1 }, none)
          else (w, record stats { enqueued = stats.enqueued + 1 }, none))
      else if gives_up
      then (let (db', prepared) = env.engine.prepare_staging w.db job.job_id in
          check_duplicates_first env (with_db env w db') now job stats mode staged prepared)
      else prepare_and_promote env w now job stats mode staged

  pub with_staged :
      Reading
      → World env
      → ℕ
      → JobInfo
      → ReconcileStats
      → (dry_run : Bool) → (staged : ℕ) → (swapped : Answer Bool) → Pass env
  unfolding complete_swapped_job empty_staging reconcile_staged_rows
  with_staged reading w now job stats dry_run staged (Answer.raises e) = (w, stats, some e)
  with_staged reading w now job stats dry_run staged (Answer.gives swapped) =
      if swapped
      then complete_swapped_job w now job stats dry_run "staging partition already attached"
          (or_count staged job.items_created)
      else if staged == 0
      then empty_staging w now job stats dry_run
      else reconcile_staged_rows reading w now job stats dry_run staged

  pub counted_staging :
      Reading → World env → ℕ → JobInfo → ReconcileStats → (dry_run : Bool) → Counted → Pass env
  unfolding with_staged
  counted_staging reading w now job stats dry_run (Counted.broken e) =
      (w, record stats { errors = (job.job_id, e.text) ∷ stats.errors }, none)
  counted_staging reading w now job stats dry_run (Counted.counted staged) =
      with_staged reading w now job stats dry_run staged
        (env.engine.swap_complete w.db job.collection_id job.job_id)

  pub with_table :
      Reading
      → World env
      → ℕ
      → JobInfo
      → ReconcileStats
      → (dry_run : Bool) → (exists : Answer Bool) → Pass env
  unfolding without_staging counted_staging
  with_table reading w now job stats dry_run (Answer.raises e) = (w, stats, some e)
  with_table reading w now job stats dry_run (Answer.gives exists) =
      if not exists
      then without_staging w now job stats dry_run
          (env.engine.live_partition w.db job.collection_id)
      else counted_staging reading w now job stats dry_run
          (env.engine.staging_row_count w.db job.job_id)

  pub reconcile_one_job :
      Reading → World env → ℕ → JobInfo → ReconcileStats → (dry_run : Bool) → Pass env
  unfolding with_table
  reconcile_one_job reading w now job stats dry_run =
      with_table reading w now job stats dry_run (env.engine.staging_exists w.db job.job_id)
