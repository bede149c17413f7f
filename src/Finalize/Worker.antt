-- ===== src/Finalize/Worker.antt =====
-- app/services/bulk_finalize_worker.py: one import is promoted from its staging table, or given up,
-- or left for another attempt.
pub mod Settled
pub mod Outcomes
use Prim.Native.String.{◌++◌}
use geofastmap_api.Prelude.{
  ℕ, zero, suc, ◌+◌, String, Bool, true, false, Option, none, some, List, [], ◌∷◌, if◌then◌else◌,
  str_eq, max, ◌==◌, leb, cut,
}
use geofastmap_api.JobStore.{JobInfo}
use geofastmap_api.Finalize.{
  Env, World, Failure, Prepared, Promoted, Counted, BulkFinalizePayload, change, update_stored,
  clear_finalize_pending, unregister, record_finalize_error, enqueue_finalize,
  abandon_staging_finalize_job, is_staging_pk_duplicate_error,
}

-- Whether the call returns, or raises for the consumer to try again.
pub data Ended : Type 0 where
  returned : Ended
  raised : String → Ended

-- `max(1, int(setting or 3))`
abbrev pub give_up_attempts : ℕ → ℕ
give_up_attempts setting = max 1 (if setting == 0 then 3 else setting)

-- `a or b`
abbrev pub or_count : ℕ → ℕ → ℕ
or_count zero b = b
or_count (suc a) b = suc a

module _ (env : Env) where
  abbrev pub with_db : World env → env.engine.Db → World env
  with_db w db' = record w { db = db' }

  -- `clear_finalize_pending` and `unregister_bulk_import_job`
  pub close_import : World env → String → World env
  unfolding clear_finalize_pending unregister
  close_import w job_id = unregister env (clear_finalize_pending env w job_id) job_id

  -- The exception as the code prints it.
  abbrev pub error_text : Failure → String
  error_text e = (e.name ++ ": ") ++ e.text

  pub leave_for_retry : World env → ℕ → BulkFinalizePayload → Failure → World env × Ended
  unfolding record_finalize_error update_stored
  leave_for_retry w now p e =
      let recorded = record_finalize_error env w p.job_id (error_text e) p.attempt in
      (
        update_stored env recorded now p.job_id (
            change env "finalizing"
              ((("Partition swap failed (attempt " ++ env.show (p.attempt + 1))
                  ++ "); will retry automatically. ")
                ++ cut 300 (error_text e))
              (some p.items_created) (some p.items_failed)),
        raised e.text,
      )

  abbrev pub ended : Option Failure → Ended
  ended none = returned
  ended (some e) = raised e.text

  pub abandon_import : World env → ℕ → BulkFinalizePayload → String → World env × Ended
  unfolding abandon_staging_finalize_job
  abandon_import w now p reason =
      let (w', failure) =
        abandon_staging_finalize_job env w now p.job_id p.collection_id reason p.items_created
          p.items_failed in
      (w', ended failure)

  pub after_prepare_again :
      World env → ℕ → BulkFinalizePayload → Failure → Prepared → World env × Ended
  unfolding abandon_import leave_for_retry
  after_prepare_again w now p e (Prepared.duplicates reason) = abandon_import w now p reason
  after_prepare_again w now p e (Prepared.broken again) = (w, raised again.text)
  after_prepare_again w now p e Prepared.ready =
      if leb (give_up_attempts env.settings.bulk_finalize_duplicate_give_up_attempts) p.attempt
      then abandon_import w now p (
          (("Duplicate staging primary keys persisted after " ++ env.show (p.attempt + 1))
            ++ " finalize attempts. ")
          ++ cut 200 (error_text e))
      else leave_for_retry w now p e

  -- `except Exception as e`
  pub handle_failure : World env → ℕ → BulkFinalizePayload → Failure → World env × Ended
  unfolding is_staging_pk_duplicate_error after_prepare_again leave_for_retry
  handle_failure w now p e =
      if is_staging_pk_duplicate_error env e
      then (let (db', prepared) = env.engine.prepare_staging w.db p.job_id in
          after_prepare_again (with_db w db') now p e prepared)
      else leave_for_retry w now p e

  failed_part : ℕ → String
  failed_part zero = ""
  failed_part (suc n) = (" " ++ env.show (suc n)) ++ " failed."

  pub complete_import : World env → ℕ → BulkFinalizePayload → (staged count : ℕ) → World env
  unfolding failed_part update_stored
  complete_import w now p staged count = update_stored env w now p.job_id (
      change env "completed"
        ((("Imported " ++ env.commas (or_count count (or_count p.items_created staged)))
            ++ " features.")
          ++ failed_part p.items_failed)
        (some (or_count count (or_count p.items_created staged))) (some p.items_failed))

  pub after_promote : World env → ℕ → BulkFinalizePayload → ℕ → Promoted → World env × Ended
  unfolding close_import abandon_import handle_failure complete_import
  after_promote w now p staged Promoted.import_cancelled =
      let (db', ignored) = env.engine.drop_staging w.db p.job_id in
      (close_import (with_db w db') p.job_id, returned)
  after_promote w now p staged (Promoted.duplicates reason) = abandon_import w now p reason
  after_promote w now p staged (Promoted.broken e) = handle_failure w now p e
  after_promote w now p staged (Promoted.promoted count) =
      let (db', failure) = env.engine.finalize_after_promote w.db p.collection_id in
      let closed = close_import (complete_import (with_db w db') now p staged count) p.job_id in
      elim failure [
        | none ↦ (
          record closed {
            tile_requests =
                (p.collection_id, p.owner_id, p.queue_compute_tiles) ∷ closed.tile_requests;
          },
          returned,
        )
        | some e ↦ handle_failure (with_db w db') now p e
      ]

  pub after_prepare : World env → ℕ → BulkFinalizePayload → ℕ → Prepared → World env × Ended
  unfolding handle_failure after_promote abandon_staging_finalize_job
  after_prepare w now p staged (Prepared.duplicates reason) =
      let (w', failure) =
        abandon_staging_finalize_job env w now p.job_id p.collection_id reason
          (or_count p.items_created staged) p.items_failed in
      elim failure [ none ↦ (w', returned) | some e ↦ handle_failure w' now p e ]
  after_prepare w now p staged (Prepared.broken e) = handle_failure w now p e
  after_prepare w now p staged Prepared.ready =
      let (db', outcome) = env.engine.promote_staging w.db p.collection_id p.job_id p.mode in
      after_promote (with_db w db') now p staged outcome

  pub begin_promotion : World env → ℕ → BulkFinalizePayload → ℕ → World env
  unfolding update_stored
  begin_promotion w now p staged = update_stored env w now p.job_id (
      change env "finalizing"
        (("Swapping " ++ env.commas staged) ++ " staged features into live partition…")
        (some (or_count p.items_created staged)) (some p.items_failed))

  pub promote_staged : World env → ℕ → BulkFinalizePayload → Counted → World env × Ended
  unfolding close_import handle_failure after_prepare begin_promotion update_stored
  promote_staged w now p (Counted.broken e) = handle_failure w now p e
  promote_staged w now p (Counted.counted zero) = (
    close_import
        (update_stored env w now p.job_id (
          change env "completed" "Finalize skipped: staging table empty (already promoted?)."
            (some p.items_created) (some p.items_failed)))
        p.job_id,
    returned,
  )
  promote_staged w now p (Counted.counted (suc rest)) =
      let begun = begin_promotion w now p (suc rest) in
      let (db', prepared) = env.engine.prepare_staging begun.db p.job_id in
      after_prepare (with_db begun db') now p (suc rest) prepared

  is_cancelled : Option JobInfo → Bool
  is_cancelled none = false
  is_cancelled (some job) = str_eq job.status "cancelled"

  pub drop_cancelled : World env → BulkFinalizePayload → World env × Ended
  unfolding close_import
  drop_cancelled w p =
      let (db', failure) = env.engine.drop_staging w.db p.job_id in
      elim failure [
        | none ↦ (close_import (with_db w db') p.job_id, returned)
        | some e ↦ (with_db w db', raised e.text)
      ]

  pub process_bulk_finalize_job : World env → ℕ → BulkFinalizePayload → World env × Ended
  unfolding drop_cancelled promote_staged is_cancelled
  process_bulk_finalize_job w now p =
      if is_cancelled (w.jobs p.job_id)
      then drop_cancelled w p
      else promote_staged w now p (env.engine.staging_row_count w.db p.job_id)

  -- The wait before it is a time, which is left out.
  unfoldable pub requeue_finalize_after_failure : World env → BulkFinalizePayload → World env
  unfolding enqueue_finalize
  requeue_finalize_after_failure w p =
      (enqueue_finalize env w (record p { attempt = p.attempt + 1 }) true).0
