-- ===== src/Finalize/Reconcile/Promotion.antt =====
-- app/services/bulk_finalize_reconcile.py: the promotion of a job's staged rows, the second try
-- without duplicates, and what follows an error.
use Prim.Native.String.{◌++◌}
use geofastmap_api.Prelude.{
  ℕ, ◌+◌, String, true, false, Option, none, some, ◌∷◌, if◌then◌else◌, cut,
}
use geofastmap_api.JobStore.{JobInfo}
use geofastmap_api.Finalize.{
  Env, World, Failure, Prepared, Promoted, BulkFinalizePayload, change, update_stored,
  is_finalize_pending, enqueue_finalize, abandon_staging_finalize_job,
  is_staging_pk_duplicate_error,
}
use geofastmap_api.Finalize.Worker.{close_import, or_count, with_db}
use geofastmap_api.Finalize.Reconcile.{ReconcileStats}

module _ (env : Env) where
  -- What a call leaves, and what it raises.
  abbrev pub Pass : Type 0
  Pass = World env × ReconcileStats × Option Failure

  -- What `raise BulkImportCancelled()` is to a handler of all exceptions.
  abbrev pub cancelled_failure : Failure
  cancelled_failure = record {
    name = "BulkImportCancelled";
    text = "";
    cause = none;
    pgcode = none;
  }

  unfoldable pub abandon_duplicate_job :
      World env → ℕ → JobInfo → ReconcileStats → (staged : ℕ) → String → Pass
  unfolding abandon_staging_finalize_job
  abandon_duplicate_job w now job stats staged reason =
      let (w', failure) =
        abandon_staging_finalize_job env w now job.job_id job.collection_id reason
          (or_count staged job.items_created) job.items_failed in
      elim failure [
        | none ↦ (w', record stats { abandoned = stats.abandoned + 1 }, none)
        | some e ↦ (w', stats, some e)
      ]

  -- A job is completed with a message and a number of items, and closed.
  unfoldable pub close_completed : World env → ℕ → JobInfo → String → ℕ → World env
  unfolding update_stored
  close_completed w now job message count =
      close_import env
        (update_stored env w now job.job_id
          (change env "completed" message (some count) (some job.items_failed)))
        job.job_id

  after_promotion : env.engine.Db × Option Failure → ℕ → env.engine.Db × Promoted
  after_promotion (db', none) count = (db', Promoted.promoted count)
  after_promotion (db', some e) count = (db', Promoted.broken e)

  then_finalize : String → env.engine.Db × Promoted → env.engine.Db × Promoted
  unfolding after_promotion
  then_finalize collection_id (db', Promoted.promoted count) =
      after_promotion (env.engine.finalize_after_promote db' collection_id) count
  then_finalize collection_id (db', Promoted.import_cancelled) =
      (db', Promoted.broken cancelled_failure)
  then_finalize collection_id (db', Promoted.duplicates reason) = (db', Promoted.duplicates reason)
  then_finalize collection_id (db', Promoted.broken e) = (db', Promoted.broken e)

  -- `promote_staging_sync` and `_finalize_after_promote`
  unfoldable pub try_promotion :
      env.engine.Db → JobInfo → (mode : String) → env.engine.Db × Promoted
  unfolding then_finalize
  try_promotion db job mode =
      then_finalize job.collection_id
        (env.engine.promote_staging db job.collection_id job.job_id mode)

  unfoldable pub recovered : World env → ℕ → JobInfo → ReconcileStats → (how : String) → ℕ → Pass
  unfolding close_completed
  recovered w now job stats how count = (
    close_completed w now job
        ((("Recovered: " ++ how) ++ env.commas count) ++ " staged features (bulk reconcile).")
        count,
    record stats { promoted = stats.promoted + 1 },
    none,
  )

  abbrev pub reconcile_payload : JobInfo → (mode : String) → (staged : ℕ) → BulkFinalizePayload
  reconcile_payload job mode staged = record {
    job_id = job.job_id;
    collection_id = job.collection_id;
    mode = mode;
    items_created = staged;
    items_failed = job.items_failed;
    owner_id = job.owner_id;
    queue_compute_tiles = false;
    attempt = 0;
  }

  unfoldable pub queue_after_error :
      World env → ℕ → JobInfo → ReconcileStats → (mode : String) → (staged : ℕ) → Failure → Pass
  unfolding is_finalize_pending enqueue_finalize update_stored
  queue_after_error w now job stats mode staged e =
      let noted = record stats { errors = (job.job_id, e.text) ∷ stats.errors } in
      let message =
        change env "finalizing"
          ((("Reconcile: queued partition swap for " ++ env.commas staged)
              ++ " features after error: ")
            ++ cut 200 e.text)
          (some staged) none in
      if is_finalize_pending env w job.job_id
      then (update_stored env w now job.job_id message, noted, none)
      else (
        update_stored env (enqueue_finalize env w (reconcile_payload job mode staged) true).0 now
            job.job_id message,
        record noted { enqueued = noted.enqueued + 1 },
        none,
      )

  unfoldable pub second_promotion :
      World env → ℕ → JobInfo → ReconcileStats → (staged : ℕ) → Promoted → Pass
  unfolding recovered abandon_duplicate_job
  second_promotion w now job stats staged (Promoted.promoted count) =
      recovered w now job stats "deduped and promoted " count
  second_promotion w now job stats staged Promoted.import_cancelled =
      (w, stats, some cancelled_failure)
  second_promotion w now job stats staged (Promoted.duplicates reason) =
      abandon_duplicate_job w now job stats staged reason
  second_promotion w now job stats staged (Promoted.broken e) = (w, stats, some e)

  unfoldable pub after_dedupe :
      World env → ℕ → JobInfo → ReconcileStats → (mode : String) → (staged : ℕ) → Prepared → Pass
  unfolding try_promotion second_promotion abandon_duplicate_job
  after_dedupe w now job stats mode staged (Prepared.duplicates reason) =
      abandon_duplicate_job w now job stats staged reason
  after_dedupe w now job stats mode staged (Prepared.broken e) = (w, stats, some e)
  after_dedupe w now job stats mode staged Prepared.ready =
      let (db', outcome) = try_promotion w.db job mode in
      second_promotion (with_db env w db') now job stats staged outcome

  unfoldable pub first_promotion :
      World env → ℕ → JobInfo → ReconcileStats → (mode : String) → (staged : ℕ) → Promoted → Pass
  unfolding recovered abandon_duplicate_job is_staging_pk_duplicate_error after_dedupe
      queue_after_error
  first_promotion w now job stats mode staged (Promoted.promoted count) =
      recovered w now job stats "promoted " count
  first_promotion w now job stats mode staged Promoted.import_cancelled =
      queue_after_error w now job stats mode staged cancelled_failure
  first_promotion w now job stats mode staged (Promoted.duplicates reason) =
      abandon_duplicate_job w now job stats staged reason
  first_promotion w now job stats mode staged (Promoted.broken e) =
      if is_staging_pk_duplicate_error env e
      then (let (db', prepared) = env.engine.prepare_staging w.db job.job_id in
          after_dedupe (with_db env w db') now job stats mode staged prepared)
      else queue_after_error w now job stats mode staged e

  unfoldable pub promote_prepared :
      World env → ℕ → JobInfo → ReconcileStats → (mode : String) → (staged : ℕ) → Prepared → Pass
  unfolding try_promotion first_promotion abandon_duplicate_job
  promote_prepared w now job stats mode staged (Prepared.duplicates reason) =
      abandon_duplicate_job w now job stats staged reason
  promote_prepared w now job stats mode staged (Prepared.broken e) = (w, stats, some e)
  promote_prepared w now job stats mode staged Prepared.ready =
      let (db', outcome) = try_promotion w.db job mode in
      first_promotion (with_db env w db') now job stats mode staged outcome

  unfoldable pub prepare_and_promote :
      World env → ℕ → JobInfo → ReconcileStats → (mode : String) → (staged : ℕ) → Pass
  unfolding promote_prepared
  prepare_and_promote w now job stats mode staged =
      let (db', prepared) = env.engine.prepare_staging w.db job.job_id in
      promote_prepared (with_db env w db') now job stats mode staged prepared

  -- The duplicates are looked at before, for a job that failed on them often.
  unfoldable pub check_duplicates_first :
      World env → ℕ → JobInfo → ReconcileStats → (mode : String) → (staged : ℕ) → Prepared → Pass
  unfolding prepare_and_promote abandon_duplicate_job
  check_duplicates_first w now job stats mode staged (Prepared.duplicates reason) =
      abandon_duplicate_job w now job stats staged reason
  check_duplicates_first w now job stats mode staged (Prepared.broken e) = (w, stats, some e)
  check_duplicates_first w now job stats mode staged Prepared.ready =
      prepare_and_promote w now job stats mode staged
