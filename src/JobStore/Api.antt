-- ===== src/JobStore/Api.antt =====
-- app/services/job_store.py: the functions that choose the backend by the settings.
use geofastmap_api.Prelude.{
  ℕ, String, false, ◌≡◌, refl, inl, inr, Option, if◌then◌else◌, str_eq, eq_refl, Bool-cases,
  Option-cases,
}
use geofastmap_api.JobStore.{JobInfo, JobUpdate, create_job_memory, update_job_memory, Texts}
use geofastmap_api.JobStore.Backends.{Jobs, create_job_redis, get_job_redis, update_job_redis}

module _ (texts : Texts) {S : Type 0} (release : S → String → String → S) (lower : String → String)
    (bulk_queue_type : String) where
  -- The jobs in memory, those in Redis, and where the mutexes are.
  abbrev pub World : Type 0
  World = (String → Option JobInfo) × Jobs × S

  pub create_job :
      World → (job_id collection_id : String) → Option ℕ → Option String → ℕ → World × JobInfo
  create_job (jobs, r, s) job_id collection_id owner_id job_label now =
      let (r', in_redis) = create_job_redis texts r job_id collection_id owner_id job_label now in
      let (jobs', in_memory) = create_job_memory jobs job_id collection_id owner_id job_label now in
      if str_eq bulk_queue_type "redis"
      then ((jobs, r', s), in_redis)
      else ((jobs', r, s), in_memory)

  pub get_job : World → String → Option JobInfo
  get_job (jobs, r, s) job_id =
      if str_eq bulk_queue_type "redis" then get_job_redis texts r job_id else jobs job_id

  pub update_job : World → String → JobUpdate → ℕ → World × Option JobInfo
  update_job (jobs, r, s) job_id u now =
      let (r', s', in_redis) = update_job_redis texts release lower r s job_id u now in
      let (jobs', s'', in_memory) = update_job_memory release lower jobs s job_id u now in
      if str_eq bulk_queue_type "redis"
      then ((jobs, r', s'), in_redis)
      else ((jobs', r, s''), in_memory)

  redis_frame :
      (r : Jobs) (s : S) (job_id j : String) (u : JobUpdate) (now : ℕ)
      → str_eq job_id j ≡ false
      → get_job_redis texts (update_job_redis texts release lower r s job_id u now).0 j
        ≡ get_job_redis texts r j
  unfolding update_job_redis get_job_redis
  redis_frame r s job_id j u now other = elim (Option-cases (r.hashes job_id)) [
    | inl gone ↦ rw (gone, update_job_redis) refl
    | inr (raw, there) ↦ rw (there, update_job_redis, get_job_redis, other) refl
  ]

  memory_frame :
      (jobs : String → Option JobInfo) (s : S) (job_id j : String) (u : JobUpdate) (now : ℕ)
      → str_eq job_id j ≡ false
      → (update_job_memory release lower jobs s job_id u now).0 j ≡ jobs j
  unfolding update_job_memory
  memory_frame jobs s job_id j u now other = elim (Option-cases (jobs job_id)) [
    | inl gone ↦ rw (gone, update_job_memory) refl
    | inr (job, there) ↦ rw (there, update_job_memory, other) refl
  ]

  redis_answer :
      (r : Jobs) (s : S) (job_id : String) (u : JobUpdate) (now : ℕ)
      → get_job_redis texts (update_job_redis texts release lower r s job_id u now).0 job_id
        ≡ (update_job_redis texts release lower r s job_id u now).2
  unfolding update_job_redis get_job_redis
  redis_answer r s job_id u now = elim (Option-cases (r.hashes job_id)) [
    | inl gone ↦ rw (gone, update_job_redis, get_job_redis, gone) refl
    | inr (raw, there) ↦ rw (there, update_job_redis, get_job_redis, eq_refl job_id) refl
  ]

  memory_answer :
      (jobs : String → Option JobInfo) (s : S) (job_id : String) (u : JobUpdate) (now : ℕ)
      → (update_job_memory release lower jobs s job_id u now).0 job_id
        ≡ (update_job_memory release lower jobs s job_id u now).2
  unfolding update_job_memory
  memory_answer jobs s job_id u now = elim (Option-cases (jobs job_id)) [
    | inl gone ↦ rw (gone, update_job_memory, gone) refl
    | inr (job, there) ↦ rw (there, update_job_memory, eq_refl job_id) refl
  ]

  -- With either backend, the answer of an update is what `get_job` then gives of the job, none for a
  -- job that is not there, and every other job stays as it was.
  pub update_job-get_job :
      (w : World) (job_id j : String) (u : JobUpdate) (now : ℕ)
      → str_eq job_id j ≡ false
      → (get_job (update_job w job_id u now).0 job_id ≡ (update_job w job_id u now).1)
        × (get_job (update_job w job_id u now).0 j ≡ get_job w j)
  unfolding get_job update_job
  update_job-get_job (jobs, r, s) job_id j u now other =
      elim (Bool-cases (str_eq bulk_queue_type "redis")) [
        | inl in_redis ↦ (
          rw in_redis (redis_answer r s job_id u now),
          rw in_redis (redis_frame r s job_id j u now other),
        )
        | inr in_memory ↦ (
          rw in_memory (memory_answer jobs s job_id u now),
          rw in_memory (memory_frame jobs s job_id j u now other),
        )
      ]
