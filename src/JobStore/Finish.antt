-- ===== src/JobStore/Finish.antt =====
-- app/services/job_store.py: what a status that ends a job does, with
-- app/services/bulk_collection_activity.py: the mutex that it frees.
use geofastmap_api.Prelude.{
  ℕ, String, Bool, true, false, not, ◌&&◌, ◌≡◌, refl, Option, none, some, List, [], ◌∷◌,
  if◌then◌else◌, truthy, is_some, arith,
}
use geofastmap_api.Redis.{Redis}
use geofastmap_api.Bulk.Mutex.{
  is_terminal_job_status, release_collection_bulk_mutex, holds_collection_bulk_mutex,
}
use geofastmap_api.JobStore.{Texts, JobInfo, JobUpdate, updated_job, is_ending, given, or_old}

module _ {S : Type 0} (release : S → String → String → S) (lower : String → String) where
  -- A job whose status ends it has the time at which it finished.
  abbrev pub IsStamped : JobInfo → Type 0
  IsStamped job = is_terminal_job_status lower job.status ≡ true → is_some job.finished_at ≡ true

  -- The updates of one job, each at its time.
  unfoldable pub run_updates : JobInfo → List (JobUpdate × ℕ) → JobInfo
  run_updates job [] = job
  run_updates job ((u, now) ∷ rest) = run_updates (updated_job release lower job u now) rest

  stamp_lem :
      (status : Option String) (old : String) (given_at finished_at : Option ℕ) (now : ℕ)
      → (is_terminal_job_status lower old ≡ true → is_some finished_at ≡ true)
      → is_terminal_job_status lower (given status old) ≡ true
      → is_some (
          or_old given_at
            (if is_ending lower status && not (is_some finished_at) then some now else finished_at))
        ≡ true
  stamp_lem status old (some t) finished_at now before ends = refl
  stamp_lem none old none finished_at now before ends = before ends
  stamp_lem (some status) old none (some t) now before ends = rw ends refl
  stamp_lem (some status) old none none now before ends = rw ends refl

  updated-IsStamped :
      (job : JobInfo) (u : JobUpdate) (now : ℕ)
      → IsStamped job
      → IsStamped (updated_job release lower job u now)
  unfolding updated_job
  updated-IsStamped job u now before ends =
      stamp_lem u.status job.status u.finished_at job.finished_at now before ends

  -- Through any updates, a job whose status ends it has a finishing time, where it had one at first
  -- or its status did not end it.
  pub run_updates-IsStamped :
      (job : JobInfo) (updates : List (JobUpdate × ℕ))
      → (is_terminal_job_status lower job.status ≡ true → is_some job.finished_at ≡ true)
      → is_terminal_job_status lower (run_updates job updates).status ≡ true
      → is_some (run_updates job updates).finished_at ≡ true
  unfolding run_updates
  run_updates-IsStamped job [] before = before
  run_updates-IsStamped job ((u, now) ∷ rest) before =
      run_updates-IsStamped (updated_job release lower job u now) rest
        (updated-IsStamped job u now before)

  -- No update asks for a finishing time.
  abbrev pub keeps_time : List (JobUpdate × ℕ) → Bool
  keeps_time [] = true
  keeps_time ((u, now) ∷ rest) = not (is_some u.finished_at) && keeps_time rest

  stays_finished :
      (o : Option ℕ) (ends : Bool) (now t : ℕ)
      → not (is_some o) ≡ true
      → or_old o (if ends && not true then some now else some t) ≡ some t
  stays_finished none true now t h = refl
  stays_finished none false now t h = refl
  stays_finished (some x) ends now t h = absurd cc

  -- The finishing time is written once: updates that do not name one leave it as it is, whatever
  -- statuses they set.
  pub finished_once :
      (job : JobInfo) (updates : List (JobUpdate × ℕ)) (t : ℕ)
      → keeps_time updates ≡ true
      → job.finished_at ≡ some t
      → (run_updates job updates).finished_at ≡ some t
  unfolding run_updates updated_job
  finished_once job [] t keeps done = done
  finished_once job ((u, now) ∷ rest) t keeps done =
      finished_once (updated_job release lower job u now) rest t (ground arith)
        (rw done (stays_finished u.finished_at (is_ending lower u.status) now t (ground arith)))

module _ {W : Type 0} (redis : Redis W) (texts : Texts) (lower : String → String) where
  open redis use {State, get, get-delete}

  abbrev pub release_for_job : State → String → String → State
  release_for_job s collection_id job_id =
      release_collection_bulk_mutex redis "redis" s collection_id job_id

  -- A status that ends a job.
  abbrev pub is_end : Option String → Bool
  is_end none = false
  is_end (some status) = truthy status && is_terminal_job_status lower status

  abbrev pub holds : State → String → String → Bool
  holds s collection_id job_id = holds_collection_bulk_mutex redis "redis" s collection_id job_id
