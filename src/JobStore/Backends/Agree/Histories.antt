-- ===== src/JobStore/Backends/Agree/Histories.antt =====
-- app/services/job_store.py: the two backends through the same creations and updates of jobs.
use geofastmap_api.Prelude.{
  ℕ, String, ◌≡◌, refl, inl, inr, Option, none, some, List, [], ◌∷◌, if◌then◌else◌, str_eq,
  Bool-cases, Option-cases,
}
use geofastmap_api.JobStore.{
  JobInfo, JobUpdate, create_job_memory, update_job_memory, updated_job, Texts, Hash,
}
use geofastmap_api.JobStore.Backends.{
  Jobs, create_job_redis, update_job_redis, get_job_redis, updated_hash,
}
use geofastmap_api.JobStore.Backends.Agree.{
  Holds, as_read, read_job-Holds, new_job-Holds, updated-Holds,
}

-- A creation under a new UUID, or an update, at a time.
pub data Event : Type 0 where
  creates : (job_id collection_id : String) → Option ℕ → Option String → ℕ → Event
  updates : (job_id : String) → JobUpdate → ℕ → Event

-- What `get_job` gives of the two backends: no job from both, or the same job but for an empty
-- message or label, which Redis gives as none, and for the times of its last update and progress.
abbrev pub SameJob : Texts → Option JobInfo → Option JobInfo → Type 0
SameJob texts none job = job ≡ none
SameJob texts (some job) read = (t : ℕ) × (p : Option ℕ) × (read ≡ some (as_read texts job t p))

module _ (texts : Texts) {S : Type 0} (release : S → String → String → S)
    (lower : String → String) where
  pub step_memory : (String → Option JobInfo) × S → Event → (String → Option JobInfo) × S
  step_memory (jobs, s) (creates job_id collection_id owner_id job_label now) =
      ((create_job_memory jobs job_id collection_id owner_id job_label now).0, s)
  step_memory (jobs, s) (updates job_id u now) =
      let (jobs', s', job) = update_job_memory release lower jobs s job_id u now in (jobs', s')

  pub step_redis : Jobs × S → Event → Jobs × S
  step_redis (r, s) (creates job_id collection_id owner_id job_label now) =
      ((create_job_redis texts r job_id collection_id owner_id job_label now).0, s)
  step_redis (r, s) (updates job_id u now) =
      let (r', s', job) = update_job_redis texts release lower r s job_id u now in (r', s')

  -- A job in memory and its hash.
  abbrev Tracks : Option JobInfo → Option Hash → Type 0
  Tracks none raw = raw ≡ none
  Tracks (some job) raw = (h : Hash) × (raw ≡ some h) × Holds texts h job

  abbrev Same : (String → Option JobInfo) × S → Jobs × S → Type 0
  Same (jobs, s) (r, s') = (s ≡ s') × ((j : String) → Tracks (jobs j) (r.hashes j))

  put-Tracks :
      (job_id : String) (job : JobInfo) (raw : Hash) (jobs : String → Option JobInfo)
      (hashes : String → Option Hash)
      → Holds texts raw job
      → ((j : String) → Tracks (jobs j) (hashes j))
      → (j : String)
      → Tracks
          (if str_eq job_id j then some job else jobs j)
          (if str_eq job_id j then some raw else hashes j)
  put-Tracks job_id job raw jobs hashes held tracks j = elim (Bool-cases (str_eq job_id j)) [
    | inl same ↦ rw same (raw, refl, held)
    | inr other ↦ rw other (tracks j)
  ]

  update-Same :
      (jobs : String → Option JobInfo) (r : Jobs) (s s' : S) (job_id : String) (u : JobUpdate)
      (now : ℕ)
      → Same (jobs, s) (r, s')
      → Same
          (step_memory (jobs, s) (updates job_id u now))
          (step_redis (r, s') (updates job_id u now))
  unfolding step_memory step_redis update_job_memory update_job_redis
  update-Same jobs r s s' job_id u now (same, tracks) = elim (Option-cases (jobs job_id)) [
    | inl e ↦
        let gone : r.hashes job_id ≡ none = rw e at (tracks job_id) in
        rw (e, update_job_memory, gone, update_job_redis) (same, tracks)
    | inr (job, e) ↦
        let (raw, there, held) = rw e at (tracks job_id) in
        let ((id, coll, status, message), counts, times, rest) = held in
        rw (e, update_job_memory, there, update_job_redis)
          (
            rw (same, coll) refl,
            put-Tracks job_id (updated_job release lower job u now)
                (updated_hash texts lower raw u now) jobs r.hashes
                (updated-Holds texts release lower raw job u now held) tracks,
          )
  ]

  step-Same :
      (m : (String → Option JobInfo) × S) (d : Jobs × S) (event : Event)
      → Same m d
      → Same (step_memory m event) (step_redis d event)
  unfolding step_memory step_redis create_job_memory create_job_redis
  step-Same (jobs, s) (r, s') (creates job_id collection_id owner_id job_label now) (same, tracks) =
      (
        same,
        put-Tracks job_id _ _ jobs r.hashes
            (new_job-Holds texts job_id collection_id owner_id job_label now) tracks,
      )
  step-Same (jobs, s) (r, s') (updates job_id u now) same =
      update-Same jobs r s s' job_id u now same

  pub run_memory : (String → Option JobInfo) × S → List Event → (String → Option JobInfo) × S
  run_memory m [] = m
  run_memory m (event ∷ events) = run_memory (step_memory m event) events

  pub run_redis : Jobs × S → List Event → Jobs × S
  run_redis d [] = d
  run_redis d (event ∷ events) = run_redis (step_redis d event) events

  run-Same :
      (events : List Event) (m : (String → Option JobInfo) × S) (d : Jobs × S)
      → Same m d
      → Same (run_memory m events) (run_redis d events)
  unfolding run_memory run_redis
  run-Same [] m d same = same
  run-Same (event ∷ events) m d same =
      run-Same events (step_memory m event) (step_redis d event) (step-Same m d event same)

  Tracks-SameJob :
      (job : Option JobInfo) (r : Jobs) (job_id : String)
      → Tracks job (r.hashes job_id)
      → SameJob texts job (get_job_redis texts r job_id)
  unfolding get_job_redis
  Tracks-SameJob none r job_id gone = rw (gone, get_job_redis)
  Tracks-SameJob (some job) r job_id (raw, there, held) =
      let (t, p, read) = read_job-Holds texts raw job held in (t, p, rw (there, get_job_redis) read)

  -- The backend in memory is what the one in Redis promises: from empty stores, after any creations
  -- and updates of jobs, each job is the same in both but for an empty message or label and for the
  -- times of its last update and progress, and both have released the same bulk mutexes.
  pub backends_agree :
      (empty : Jobs) (s : S) (events : List Event)
      → ((j : String) → empty.hashes j ≡ none)
      → ((run_memory ((λ j. none), s) events).1 ≡ (run_redis (empty, s) events).1)
        × ((j : String)
            → SameJob texts
                ((run_memory ((λ j. none), s) events).0 j)
                (get_job_redis texts (run_redis (empty, s) events).0 j))
  backends_agree empty s events fresh =
      let (same, tracks) = run-Same events ((λ j. none), s) (empty, s) (refl, fresh) in
      (same, λ j. Tracks-SameJob _ _ j (tracks j))
