-- ===== src/Finalize/Watchdog/Passes/Ends.antt =====
-- app/services/bulk_watchdog.py: what a pass does to a job that never started, and what its argument
-- can change.
use Prim.Native.String.{◌++◌}
use geofastmap_api.Prelude.{
  ℕ, String, true, false, ◌≡◌, refl, inl, inr, none, some, List, eq_refl, truthy, Bool-cases,
}
use geofastmap_api.Bulk.Mutex.{
  get_collection_bulk_mutex_holder, nonempty, release_collection_bulk_mutex, mutex_key,
}
use geofastmap_api.JobStore.{JobInfo}
use geofastmap_api.Finalize.{Env, World, change, update_stored, is_redis, give_back}
use geofastmap_api.Finalize.Worker.Settled.{update_none}
use geofastmap_api.Finalize.Watchdog.{should_fail_stale_running, fail_stale_running_jobs}
use geofastmap_api.Finalize.Watchdog.Recovery.{status_of, update-status}
use geofastmap_api.Finalize.Watchdog.Passes.{
  check_pending_mutex, check_holder, fail_pending, is_stale_pending, holder_of, job_age_seconds,
  Listings, run_bulk_watchdog_pass,
}

module _ (env : Env) (in_redis : is_redis env ≡ true) where
  held_lem :
      (w : World env) (collection_id holder : String)
      → env.redis.get w.store (mutex_key collection_id) ≡ some holder
      → truthy holder ≡ true
      → holder_of env w collection_id ≡ some holder
  unfolding get_collection_bulk_mutex_holder nonempty
  held_lem w collection_id holder held named = rw (in_redis, held, nonempty, named) refl

  release_frees :
      (r : env.redis.State) (collection_id holder : String)
      → env.redis.get r (mutex_key collection_id) ≡ some holder
      → env.redis.get (give_back env r collection_id holder) (mutex_key collection_id) ≡ none
  unfolding release_collection_bulk_mutex
  release_frees r collection_id holder held =
      rw
        (
          in_redis,
          held,
          eq_refl holder,
          env.redis.get-delete r (mutex_key collection_id) (mutex_key collection_id),
          eq_refl (mutex_key collection_id),
        )
        refl

  free_lem :
      (w : World env) (collection_id : String)
      → env.redis.get w.store (mutex_key collection_id) ≡ none
      → holder_of env w collection_id ≡ none
  unfolding get_collection_bulk_mutex_holder nonempty
  free_lem w collection_id free = rw (in_redis, free, nonempty) refl

  -- A job that holds the mutex of a collection and still waits to start after the limit is failed,
  -- and the collection is free: nobody holds its mutex any more.
  pub stale_pending_frees :
      (w : World env) (now : ℕ) (collection_id holder : String) (job : JobInfo)
      → truthy collection_id ≡ true
      → truthy holder ≡ true
      → env.redis.get w.store (mutex_key collection_id) ≡ some holder
      → w.jobs holder ≡ some job
      → is_stale_pending env now job ≡ true
      → let (w', failed) = check_pending_mutex env w now collection_id in
        (failed ≡ some holder)
        × (holder_of env w' collection_id ≡ none)
        × (status_of (w'.jobs holder) ≡ some "failed")
  unfolding check_pending_mutex check_holder fail_pending
  stale_pending_frees w now collection_id holder job named known held stored stale =
      let freed : World env = record w { store = give_back env w.store collection_id holder } in
      let update =
        change env "failed"
          (("Bulk import interrupted before start (pending "
              ++ env.show (job_age_seconds env now job))
            ++ "s with collection lock); re-submit the upload.")
          none none in
      rw (named, held_lem w collection_id holder held known, check_holder, stored, known, stale)
        (
          refl,
          free_lem (update_stored env freed now holder update) collection_id (
              update_none env in_redis freed now holder update (mutex_key collection_id)
                (release_frees w.store collection_id holder held)),
          update-status env in_redis freed now holder "failed" _ none job stored,
        )

module _ (env : Env) where
  stale_running_off :
      (cleanup : env.engine.Db → List String → env.engine.Db) (w : World env) (now : ℕ)
      (jobs : List JobInfo)
      → should_fail_stale_running env ≡ false
      → (fail_stale_running_jobs env cleanup w now jobs).0 ≡ w
  unfolding fail_stale_running_jobs
  stale_running_off cleanup w now jobs off = elim (Bool-cases (is_redis env)) [
    | inl e ↦ rw (e, off, fail_stale_running_jobs) refl
    | inr e ↦ rw (e, fail_stale_running_jobs) refl
  ]

  -- The argument of the pass cannot switch the failing of stale jobs on: where the settings have it
  -- off, the pass with True leaves the same world as the pass with False.
  pub argument_ignored :
      (listings : Listings env) (w : World env) (now : ℕ)
      → should_fail_stale_running env ≡ false
      → run_bulk_watchdog_pass env listings w now (some true)
        ≡ run_bulk_watchdog_pass env listings w now (some false)
  unfolding run_bulk_watchdog_pass
  argument_ignored listings w now off = elim (Bool-cases (is_redis env)) [
    | inl e ↦ rw (e, run_bulk_watchdog_pass) (stale_running_off _ _ now _ off)
    | inr e ↦ rw (e, run_bulk_watchdog_pass) refl
  ]
