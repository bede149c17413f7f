-- ===== src/Finalize/Worker/Outcomes.antt =====
-- app/services/bulk_finalize_worker.py: an import that the worker is done with leaves nothing in the
-- queue's bookkeeping, and one that it leaves for later loses nothing there.
use geofastmap_api.Prelude.{
  ℕ, zero, suc, String, true, false, ◌≡◌, refl, ap, ◌∙◌, inl, inr, leb, Bool-cases, Option-cases,
}
use geofastmap_api.Bulk.Mutex.{is_terminal_job_status}
use geofastmap_api.Finalize.{
  Env, World, Failure, Prepared, Promoted, Counted, BulkFinalizePayload, update_stored,
  record_finalize_error, is_staging_pk_duplicate_error, dedupe_key, is_redis,
}
use geofastmap_api.Finalize.Worker.{
  Ended, returned, raised, leave_for_retry, abandon_import, after_prepare_again, handle_failure,
  after_promote, after_prepare, promote_staged, drop_cancelled, process_bulk_finalize_job,
  give_up_attempts, begin_promotion, complete_import, is_cancelled, with_db, error_text, or_count,
}
use geofastmap_api.Finalize.Worker.Settled.{
  IsSettled, close_import-IsSettled, abandon_lem, update_finalizing,
}

module _ (env : Env) (in_redis : is_redis env ≡ true) where
  -- The call returned and the import is settled; or it raised, and the mark of the pending promotion
  -- and the queue are as they were.
  abbrev pub Outcome : World env → String → World env × Ended → Type 0
  Outcome w job_id (w', returned) = IsSettled env in_redis w' job_id
  Outcome w job_id (w', raised e) =
      (env.redis.get w'.store (dedupe_key job_id) ≡ env.redis.get w.store (dedupe_key job_id))
      × (w'.queue ≡ w.queue)

  abandon-Outcome :
      (w : World env) (now : ℕ) (p : BulkFinalizePayload) (reason : String)
      → Outcome w p.job_id (abandon_import env w now p reason)
  unfolding abandon_import
  abandon-Outcome w now p reason =
      elim (abandon_lem env in_redis w now p.job_id p.collection_id reason p.items_created
        p.items_failed) [
          | inl (fine, settled) ↦ rw fine settled
          | inr (e, failed) ↦ rw failed (refl, refl)
        ]

  module _ (goes_on : is_terminal_job_status env.lower "finalizing" ≡ false) where
    Outcome-from :
        (w begun : World env) (job_id : String) (r : World env × Ended)
        → begun.store ≡ w.store
        → begun.queue ≡ w.queue
        → Outcome begun job_id r
        → Outcome w job_id r
    Outcome-from w begun job_id (w', returned) same queue settled = settled
    Outcome-from w begun job_id (w', raised e) same queue (mark, left) =
        (mark ∙ ap (λ r. env.redis.get r (dedupe_key job_id)) same, left ∙ queue)

    recorded_keeps :
        (w : World env) (job_id message : String) (attempt : ℕ)
        → ((record_finalize_error env w job_id message attempt).store ≡ w.store)
          × ((record_finalize_error env w job_id message attempt).queue ≡ w.queue)
    unfolding record_finalize_error
    recorded_keeps w job_id message attempt = rw in_redis (refl, refl)

    retry-Outcome :
        (w : World env) (now : ℕ) (p : BulkFinalizePayload) (e : Failure)
        → Outcome w p.job_id (leave_for_retry env w now p e)
    unfolding leave_for_retry update_stored
    retry-Outcome w now p e =
        let recorded = record_finalize_error env w p.job_id (error_text env e) p.attempt in
        let (store, queue) = recorded_keeps w p.job_id (error_text env e) p.attempt in
        (
          ap (λ r. env.redis.get r (dedupe_key p.job_id))
              (update_finalizing env in_redis goes_on recorded now p.job_id _ _ _ ∙ store),
          queue,
        )

    again-Outcome :
        (w : World env) (now : ℕ) (p : BulkFinalizePayload) (e : Failure) (r : Prepared)
        → Outcome w p.job_id (after_prepare_again env w now p e r)
    unfolding after_prepare_again abandon_import
    again-Outcome w now p e (Prepared.duplicates reason) = abandon-Outcome w now p reason
    again-Outcome w now p e (Prepared.broken again) = (refl, refl)
    again-Outcome w now p e Prepared.ready =
        elim (Bool-cases (
          leb (give_up_attempts env.settings.bulk_finalize_duplicate_give_up_attempts) p.attempt)) [
            | inl enough ↦ rw enough (abandon-Outcome w now p _)
            | inr more ↦ rw more (retry-Outcome w now p e)
          ]

    failure-Outcome :
        (w : World env) (now : ℕ) (p : BulkFinalizePayload) (e : Failure)
        → Outcome w p.job_id (handle_failure env w now p e)
    unfolding handle_failure
    failure-Outcome w now p e = elim (Bool-cases (is_staging_pk_duplicate_error env e)) [
      | inl dup ↦
          let (db', prepared) = env.engine.prepare_staging w.db p.job_id in
          rw dup (
            Outcome-from w (with_db env w db') p.job_id
              (after_prepare_again env (with_db env w db') now p e prepared) refl refl
              (again-Outcome (with_db env w db') now p e prepared))
      | inr other ↦ rw other (retry-Outcome w now p e)
    ]

    promoted-Outcome :
        (w : World env) (now : ℕ) (p : BulkFinalizePayload) (staged : ℕ) (r : Promoted)
        → Outcome w p.job_id (after_promote env w now p staged r)
    unfolding after_promote abandon_import
    promoted-Outcome w now p staged Promoted.import_cancelled =
        close_import-IsSettled env in_redis
          (with_db env w (env.engine.drop_staging w.db p.job_id).0) p.job_id
    promoted-Outcome w now p staged (Promoted.duplicates reason) = abandon-Outcome w now p reason
    promoted-Outcome w now p staged (Promoted.broken e) = failure-Outcome w now p e
    promoted-Outcome w now p staged (Promoted.promoted count) =
        let promoted_db = (env.engine.finalize_after_promote w.db p.collection_id).0 in
        elim (Option-cases (env.engine.finalize_after_promote w.db p.collection_id).1) [
          | inl fine ↦
              rw (fine, after_promote)
                (close_import-IsSettled env in_redis
                  (complete_import env (with_db env w promoted_db) now p staged count) p.job_id)
          | inr (e, failed) ↦
              rw (failed, after_promote)
                (Outcome-from w (with_db env w promoted_db) p.job_id
                  (handle_failure env (with_db env w promoted_db) now p e) refl refl
                  (failure-Outcome (with_db env w promoted_db) now p e))
        ]

    prepared-Outcome :
        (w : World env) (now : ℕ) (p : BulkFinalizePayload) (staged : ℕ) (r : Prepared)
        → Outcome w p.job_id (after_prepare env w now p staged r)
    unfolding after_prepare
    prepared-Outcome w now p staged (Prepared.duplicates reason) =
        elim (abandon_lem env in_redis w now p.job_id p.collection_id reason
          (or_count p.items_created staged) p.items_failed) [
            | inl (fine, settled) ↦ rw (fine, after_prepare) settled
            | inr (e, failed) ↦
                let left =
                  with_db env w
                    (env.engine.cleanup_failed_staging_import w.db p.job_id p.collection_id).0 in
                rw (ap (λ q. q.1) failed, after_prepare, ap (λ q. q.0) failed)
                  (Outcome-from w left p.job_id (handle_failure env left now p e) refl refl
                    (failure-Outcome left now p e))
          ]
    prepared-Outcome w now p staged (Prepared.broken e) = failure-Outcome w now p e
    prepared-Outcome w now p staged Prepared.ready =
        let (db', outcome) = env.engine.promote_staging w.db p.collection_id p.job_id p.mode in
        Outcome-from w (with_db env w db') p.job_id
          (after_promote env (with_db env w db') now p staged outcome) refl refl
          (promoted-Outcome (with_db env w db') now p staged outcome)

    begun_keeps :
        (w : World env) (now : ℕ) (p : BulkFinalizePayload) (staged : ℕ)
        → (begin_promotion env w now p staged).store ≡ w.store
    unfolding begin_promotion
    begun_keeps w now p staged = update_finalizing env in_redis goes_on w now p.job_id _ _ _

    staged-Outcome :
        (w : World env) (now : ℕ) (p : BulkFinalizePayload) (r : Counted)
        → Outcome w p.job_id (promote_staged env w now p r)
    unfolding promote_staged
    staged-Outcome w now p (Counted.broken e) = failure-Outcome w now p e
    staged-Outcome w now p (Counted.counted zero) =
        close_import-IsSettled env in_redis (update_stored env w now p.job_id _) p.job_id
    staged-Outcome w now p (Counted.counted (suc rest)) =
        let begun = begin_promotion env w now p (suc rest) in
        let (db', prepared) = env.engine.prepare_staging begun.db p.job_id in
        let ready_world = with_db env begun db' in
        Outcome-from w ready_world p.job_id
          (after_prepare env ready_world now p (suc rest) prepared) (begun_keeps w now p (suc rest))
          refl (prepared-Outcome ready_world now p (suc rest) prepared)

    drop-Outcome :
        (w : World env) (p : BulkFinalizePayload) → Outcome w p.job_id (drop_cancelled env w p)
    unfolding drop_cancelled
    drop-Outcome w p =
        let dropped = with_db env w (env.engine.drop_staging w.db p.job_id).0 in
        elim (Option-cases (env.engine.drop_staging w.db p.job_id).1) [
          | inl fine ↦
              rw (fine, drop_cancelled) (close_import-IsSettled env in_redis dropped p.job_id)
          | inr (e, failed) ↦ rw (failed, drop_cancelled) (refl, refl)
        ]

    -- The worker settles an import or leaves it for another attempt, whatever the database answers and
    -- wherever it raises: where the call returns, the import is neither marked as pending nor
    -- registered any more; where it raises, the mark and the queue are as they were.
    pub process_settles :
        (w : World env) (now : ℕ) (p : BulkFinalizePayload)
        → Outcome w p.job_id (process_bulk_finalize_job env w now p)
    unfolding process_bulk_finalize_job
    process_settles w now p = elim (Bool-cases (is_cancelled env (w.jobs p.job_id))) [
      | inl cancelled ↦ rw cancelled (drop-Outcome w p)
      | inr active ↦ rw active (staged-Outcome w now p (env.engine.staging_row_count w.db p.job_id))
    ]
