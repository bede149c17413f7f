-- ===== src/Finalize/Watchdog/Recovery.antt =====
-- app/services/bulk_watchdog.py: staged rows are kept, and queued for their promotion.
use text.Mathlib.TextLemmas.{append_inj}
use geofastmap_api.Prelude.{
  ℕ, suc, String, Bool, true, false, ◌≡◌, refl, ap, ◌∙◌, inl, inr, Option, none, some, List, ◌∷◌,
  if◌then◌else◌, str_eq, ltb, Bool-cases, arith, is_text, eq_iff, eq_refl,
}
use geofastmap_api.Bulk.Mutex.{
  is_terminal_job_status, release_collection_bulk_mutex, mutex_key, mutex_prefix,
}
use geofastmap_api.JobStore.{JobInfo, update_job_memory, updated_job}
use geofastmap_api.Finalize.{
  Env, World, change, update_stored, is_redis, is_finalize_pending, enqueue_finalize, give_back,
  dedupe_key, dedupe_prefix, finalize_to_json,
}
use geofastmap_api.Finalize.RoundTrip.{
  enqueue_finalize-frame, enqueue_finalize-once, enqueue_finalize-pending,
}
use geofastmap_api.Finalize.Worker.Settled.{update_finalizing}
use geofastmap_api.Finalize.Reconcile.{activity_age_seconds}
use geofastmap_api.Finalize.Watchdog.{
  stale_seconds, running_recover_min_age_seconds, recovers, should_attempt_running_staging_recovery,
  staged_rows, queue_recovered, recover_staged, recover_running_job_to_finalize, check_running,
  fail_stalled, is_running, recovery_payload, to_finalizing,
}

-- A mark of a pending promotion is no mutex.
keys_differ :
    (collection_id job_id : String) → str_eq (mutex_key collection_id) (dedupe_key job_id) ≡ false
keys_differ collection_id job_id =
    elim (Bool-cases (str_eq (mutex_key collection_id) (dedupe_key job_id))) [
      | inl e ↦
          let same = (eq_iff (mutex_key collection_id) (dedupe_key job_id)).0 e in
          let prefixes = (append_inj {s₁ = mutex_prefix} {s₂ = dedupe_prefix} same refl).0 in
          absurd (ground (arith, (eq_iff mutex_prefix dedupe_prefix).1 prefixes))
      | inr e ↦ e
    ]

pub status_of : Option JobInfo → Option String
status_of none = none
status_of (some job) = some job.status

module _ (env : Env) (in_redis : is_redis env ≡ true) where
  release_keeps :
      (r : env.redis.State) (collection_id owner job_id : String)
      → env.redis.get (give_back env r collection_id owner) (dedupe_key job_id)
        ≡ env.redis.get r (dedupe_key job_id)
  unfolding release_collection_bulk_mutex
  release_keeps r collection_id owner job_id =
      elim (Bool-cases (is_text (env.redis.get r (mutex_key collection_id)) owner)) [
        | inl held ↦
            rw
              (
                in_redis,
                held,
                env.redis.get-delete r (mutex_key collection_id) (dedupe_key job_id),
                keys_differ collection_id job_id,
              )
              refl
        | inr other ↦ rw (in_redis, other) refl
      ]

  same_mark :
      (w w' : World env) (job_id : String)
      → env.redis.get w'.store (dedupe_key job_id) ≡ env.redis.get w.store (dedupe_key job_id)
      → is_finalize_pending env w job_id ≡ true
      → is_finalize_pending env w' job_id ≡ true
  unfolding is_finalize_pending
  same_mark w w' job_id same pending = rw same pending

  pub update-status :
      (w : World env) (now : ℕ) (job_id status message : String) (created : Option ℕ)
      (job : JobInfo)
      → w.jobs job_id ≡ some job
      → status_of
          ((update_stored env w now job_id (change env status message created none)).jobs job_id)
        ≡ some status
  unfolding update_stored update_job_memory status_of updated_job
  update-status w now job_id status message created job stored =
      rw (stored, update_job_memory, eq_refl job_id) refl

  -- The payload of the job is at the end of the queue, or the job was marked before and the queue is
  -- as it was.
  abbrev pub put_in_queue : World env → JobInfo → (staged : ℕ) → List (env.codec.Wire)
  put_in_queue w job staged =
      if is_finalize_pending env w job.job_id
      then w.queue
      else finalize_to_json env (recovery_payload env job staged) ∷ w.queue

  -- The job waits for its promotion: it is in the queue, finalizing and marked, and the database is
  -- as it was.
  abbrev Queued : World env → JobInfo → List (env.codec.Wire) → World env × Bool → Type 0
  Queued w job queue (w', done) =
      (done ≡ true)
      × (w'.queue ≡ queue)
      × (is_finalize_pending env w' job.job_id ≡ true)
      × (status_of (w'.jobs job.job_id) ≡ some "finalizing")
      × (w'.db ≡ w.db)

  module _ (enabled : env.settings.bulk_finalize_queue_enabled ≡ true)
      (goes_on : is_terminal_job_status env.lower "finalizing" ≡ false) where
    queue_lem :
        (w : World env) (now : ℕ) (job stored : JobInfo) (staged : ℕ)
        → w.jobs job.job_id ≡ some stored
        → is_finalize_pending env w job.job_id ≡ false
        → Queued w job
            (finalize_to_json env (recovery_payload env job staged) ∷ w.queue)
            (queue_recovered env w now job staged)
    unfolding queue_recovered update_stored
    queue_lem w now job stored staged known free =
        let p = recovery_payload env job staged in
        let queued = (enqueue_finalize env w p true).0 in
        let updated = update_stored env queued now job.job_id (
          to_finalizing env job "Recovered: "
            " features in staging; partition swap queued (watchdog)." staged) in
        let (done, db, jobs, queue) = enqueue_finalize-frame env w p in_redis in
        rw (enqueue_finalize-once env w p in_redis free, done, queue_recovered)
          (
            refl,
            queue,
            same_mark queued
                (record updated {
                  store = give_back env updated.store job.collection_id job.job_id;
                })
                job.job_id
                (release_keeps updated.store job.collection_id job.job_id job.job_id
                  ∙ ap (λ r. env.redis.get r (dedupe_key job.job_id))
                      (update_finalizing env in_redis goes_on queued now job.job_id _ _ _))
                (enqueue_finalize-pending env w p in_redis),
            update-status queued now job.job_id "finalizing" _ _ stored
                (ap (λ js. js job.job_id) jobs ∙ known),
            db,
          )

    staged-Queued :
        (w : World env) (now : ℕ) (job stored : JobInfo) (n : ℕ)
        → w.jobs job.job_id ≡ some stored
        → Queued w job (put_in_queue w job (suc n)) (recover_staged env w now job (suc n))
    unfolding recover_staged
    staged-Queued w now job stored n known =
        elim (Bool-cases (is_finalize_pending env w job.job_id)) [
          | inl pending ↦
              let update =
                to_finalizing env job "Loaded " " features into staging; partition swap queued…"
                  (suc n) in
              rw (pending, recover_staged)
                (
                  refl,
                  refl,
                  same_mark w (update_stored env w now job.job_id update) job.job_id
                      (ap (λ r. env.redis.get r (dedupe_key job.job_id))
                        (update_finalizing env in_redis goes_on w now job.job_id _ _ _))
                      pending,
                  update-status w now job.job_id "finalizing" _ _ stored known,
                  refl,
                )
          | inr free ↦ rw (free, recover_staged) (queue_lem w now job stored (suc n) known free)
        ]

    recover_lem :
        (w : World env) (now : ℕ) (job : JobInfo)
        → recover_running_job_to_finalize env w now job
          ≡ recover_staged env w now job (staged_rows env w job)
    unfolding recover_running_job_to_finalize
    recover_lem w now job =
        let on : recovers env ≡ true = rw (in_redis, enabled) refl in
        ap (λ b. if b then recover_staged env w now job (staged_rows env w job) else (w, false)) on

    -- A job of the store with staged rows is queued for its promotion, where Redis and the finalize
    -- queue are in use and a finalizing job is not at its end: the call answers True, the payload with
    -- the job's identifiers, mode and numbers is put in front of the list that the worker takes from
    -- the other end of (once: not where the job was marked as pending before), and the job is
    -- finalizing and marked. Nothing of the database is touched.
    pub recover_queues :
        (w : World env) (now : ℕ) (job stored : JobInfo) (n : ℕ)
        → w.jobs job.job_id ≡ some stored
        → staged_rows env w job ≡ suc n
        → let (w', done) = recover_running_job_to_finalize env w now job in
          (done ≡ true)
          × (w'.queue ≡ put_in_queue w job (suc n))
          × (is_finalize_pending env w' job.job_id ≡ true)
          × (status_of (w'.jobs job.job_id) ≡ some "finalizing")
          × (w'.db ≡ w.db)
    recover_queues w now job stored n known staged =
        let same = recover_lem w now job ∙ ap (recover_staged env w now job) staged in
        rw same (staged-Queued w now job stored n known)

    -- Otherwise rows can be lost: where staleness comes first, the job that holds its mutex is failed,
    -- its staged rows are dropped, and the mutex is given back.
    pub stale_first_drops :
        (w : World env) (now : ℕ) (job : JobInfo)
        → is_running env job ≡ true
        → ltb (activity_age_seconds now job) (stale_seconds env) ≡ false
        → ltb (activity_age_seconds now job) (running_recover_min_age_seconds env) ≡ true
        → check_running env w now job ≡ (fail_stalled env w now job, true)
    unfolding check_running should_attempt_running_staging_recovery
    stale_first_drops w now job running stale young = rw (running, stale, young, check_running) refl
