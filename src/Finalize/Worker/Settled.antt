-- ===== src/Finalize/Worker/Settled.antt =====
-- app/services/bulk_finalize_worker.py: the calls that close or abandon an import leave nothing in
-- the queue's bookkeeping, and the job's update keeps it so.
use geofastmap_api.Prelude.{
  ℕ, String, true, false, ◌≡◌, refl, ◌⊎◌, inl, inr, Option, none, some, str_eq, eq_refl, is_text,
  truthy, ◌&&◌, Bool-cases, Option-cases, arith,
}
use geofastmap_api.Bulk.Mutex.{is_terminal_job_status, release_collection_bulk_mutex, mutex_key}
use geofastmap_api.JobStore.{JobUpdate, update_job_memory, release_bulk_mutex_on_terminal}
use geofastmap_api.Queue.BulkJobs.{unregister_bulk_import_job, reg_key}
use geofastmap_api.Finalize.{
  Env, World, Failure, change, update_stored, clear_finalize_pending, unregister,
  abandon_staging_finalize_job, dedupe_key, is_redis, give_back, remove_finalize_from_queue,
}
use geofastmap_api.Finalize.Worker.{close_import, with_db}

module _ (env : Env) (in_redis : is_redis env ≡ true) where
  -- Neither a mark of a pending promotion nor an entry in the registry of imports.
  abbrev pub IsSettled : World env → String → Type 0
  IsSettled w job_id =
      (env.redis.get w.store (dedupe_key job_id) ≡ none)
      × (env.redis.get w.store (reg_key job_id) ≡ none)

  delete_none :
      (r : env.redis.State) (k j : String)
      → env.redis.get r j ≡ none
      → env.redis.get (env.redis.delete r k) j ≡ none
  delete_none r k j gone = elim (Bool-cases (str_eq k j)) [
    | inl same ↦ rw (env.redis.get-delete r k j, same) refl
    | inr other ↦ rw (env.redis.get-delete r k j, other) gone
  ]

  deleted : (r : env.redis.State) (k : String) → env.redis.get (env.redis.delete r k) k ≡ none
  deleted r k = rw (env.redis.get-delete r k k, eq_refl k) refl

  pub close_import-IsSettled :
      (w : World env) (job_id : String) → IsSettled (close_import env w job_id) job_id
  unfolding close_import clear_finalize_pending unregister unregister_bulk_import_job
  close_import-IsSettled w job_id = rw in_redis (
    delete_none _ (reg_key job_id) (dedupe_key job_id) (deleted w.store (dedupe_key job_id)),
    deleted (env.redis.delete w.store (dedupe_key job_id)) (reg_key job_id),
  )

  release_none :
      (r : env.redis.State) (collection_id job_id j : String)
      → env.redis.get r j ≡ none
      → env.redis.get (give_back env r collection_id job_id) j ≡ none
  unfolding release_collection_bulk_mutex
  release_none r collection_id job_id j gone =
      elim (Bool-cases (is_text (env.redis.get r (mutex_key collection_id)) job_id)) [
        | inl held ↦ rw (in_redis, held) (delete_none r (mutex_key collection_id) j gone)
        | inr other ↦ rw (in_redis, other) gone
      ]

  ending_none :
      (r : env.redis.State) (job_id : String) (collection_id status : Option String) (j : String)
      → env.redis.get r j ≡ none
      → env.redis.get
          (release_bulk_mutex_on_terminal (give_back env) env.lower r job_id collection_id status)
          j
        ≡ none
  unfolding release_bulk_mutex_on_terminal
  ending_none r job_id none status j gone = gone
  ending_none r job_id (some collection_id) none j gone = gone
  ending_none r job_id (some collection_id) (some status) j gone =
      elim (Bool-cases
        (truthy collection_id && truthy status && is_terminal_job_status env.lower status)) [
          | inl ends ↦ rw ends (release_none r collection_id job_id j gone)
          | inr goes_on ↦ rw goes_on gone
        ]

  -- An update deletes at most a mutex.
  pub update_none :
      (w : World env) (now : ℕ) (job_id : String) (u : JobUpdate) (j : String)
      → env.redis.get w.store j ≡ none
      → env.redis.get (update_stored env w now job_id u).store j ≡ none
  unfolding update_stored update_job_memory
  update_none w now job_id u j gone = elim (Option-cases (w.jobs job_id)) [
    | inl e ↦ rw (e, update_job_memory) gone
    | inr (job, e) ↦
        rw (e, update_job_memory)
          (ending_none w.store job_id (some job.collection_id) u.status j gone)
  ]

  update-IsSettled :
      (w : World env) (now : ℕ) (id : String) (u : JobUpdate) (job_id : String)
      → IsSettled w job_id
      → IsSettled (update_stored env w now id u) job_id
  update-IsSettled w now id u job_id (pending, registered) =
      (update_none w now id u _ pending, update_none w now id u _ registered)

  -- A given-up import is settled, or the removal of its table raised and nothing else happened.
  pub abandon_lem :
      (w : World env) (now : ℕ) (job_id collection_id reason : String) (created failed : ℕ)
      → let after =
          abandon_staging_finalize_job env w now job_id collection_id reason created failed in
        let db' = (env.engine.cleanup_failed_staging_import w.db job_id collection_id).0 in
        ((after.1 ≡ none) × IsSettled after.0 job_id)
        ⊎ ((e : Failure) × (after ≡ (with_db env w db', some e)))
  unfolding abandon_staging_finalize_job close_import
  abandon_lem w now job_id collection_id reason created failed =
      let (db', failure) = env.engine.cleanup_failed_staging_import w.db job_id collection_id in
      let emptied = remove_finalize_from_queue env (with_db env w db') job_id in
      elim (Option-cases failure) [
        | inl fine ↦
            rw (fine, abandon_staging_finalize_job)
              (inl (
                refl,
                update-IsSettled (close_import env emptied job_id) now job_id _ job_id
                    (close_import-IsSettled emptied job_id),
              ))
        | inr (e, raises) ↦ rw (raises, abandon_staging_finalize_job) (inr (e, refl))
      ]

  module _ (goes_on : is_terminal_job_status env.lower "finalizing" ≡ false) where
    pub update_finalizing :
        (w : World env) (now : ℕ) (job_id message : String) (created failed : Option ℕ)
        → (update_stored env w now job_id (change env "finalizing" message created failed)).store
          ≡ w.store
    unfolding update_stored update_job_memory release_bulk_mutex_on_terminal
    update_finalizing w now job_id message created failed = elim (Option-cases (w.jobs job_id)) [
      | inl e ↦ rw (e, update_job_memory) refl
      | inr (job, e) ↦ rw (e, update_job_memory, goes_on) (ground arith)
    ]
