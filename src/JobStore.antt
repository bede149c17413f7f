-- ===== src/JobStore.antt =====
-- app/services/job_store.py: the jobs and their backends, in memory and in Redis. Times are numbers
-- of a unit that does not matter. Python's `str` and `int` on counts, and `isoformat` and
-- `fromisoformat` on times with the mark of the time zone that the code adds, are parameters with
-- their round trips, as are `str.lower` and the release of the bulk mutex.
pub mod Backends
pub mod Lists
pub mod Finish
pub mod Api
use geofastmap_api.Prelude.{
  ℕ, String, Bool, true, false, not, ◌&&◌, ◌||◌, ◌≡◌, Option, none, some, List, [], ◌∷◌,
  if◌then◌else◌, str_eq, truthy, is_some,
}
use geofastmap_api.Bulk.Mutex.{is_terminal_job_status}
use geofastmap_api.Json.{◌>>=◌}

pub record JobInfo : Type 0 where
  pub job_id : String
  pub collection_id : String
  pub status : String
  pub message : Option String
  pub items_in : ℕ
  pub items_created : ℕ
  pub items_failed : ℕ
  pub created_at : ℕ
  pub updated_at : ℕ
  pub finished_at : Option ℕ
  pub last_progress_at : Option ℕ
  pub owner_id : Option ℕ
  pub job_label : Option String

-- The keyword arguments of `update_job`.
pub record JobUpdate : Type 0 where
  pub status : Option String
  pub message : Option String
  pub items_in : Option ℕ
  pub items_created : Option ℕ
  pub items_failed : Option ℕ
  pub finished_at : Option ℕ

-- A job as its backend makes it, at the time `now`.
pub new_job :
    (job_id collection_id : String) (owner_id : Option ℕ) (job_label : Option String) (now : ℕ)
    → JobInfo
new_job job_id collection_id owner_id job_label now = record {
  job_id = job_id;
  collection_id = collection_id;
  status = "pending";
  message = none;
  items_in = 0;
  items_created = 0;
  items_failed = 0;
  created_at = now;
  updated_at = now;
  finished_at = none;
  last_progress_at = none;
  owner_id = owner_id;
  job_label = job_label;
}

pub create_job_memory :
    (String → Option JobInfo)
    → (job_id collection_id : String) → Option ℕ
    → Option String
    → ℕ
    → (String → Option JobInfo) × JobInfo
unfolding new_job
create_job_memory jobs job_id collection_id owner_id job_label now =
    let job = new_job job_id collection_id owner_id job_label now in
    ((λ j. if str_eq job_id j then some job else jobs j), job)

abbrev pub given {ℓ} : {A : Type ℓ} → Option A → A → A
given none old = old
given (some new) old = new

abbrev pub or_old {ℓ} : {A : Type ℓ} → Option A → Option A → Option A
or_old none old = old
or_old (some new) old = some new

-- `v or None`
abbrev pub or_none : Option String → Option String
or_none none = none
or_none (some s) = if truthy s then some s else none

-- A status that ends the job, where one is given.
abbrev pub is_ending : (String → String) → Option String → Bool
is_ending lower none = false
is_ending lower (some status) = is_terminal_job_status lower status

module _ {S : Type 0} (release : S → String → String → S) (lower : String → String) where
  -- `if not collection_id or not status: return`, and the release for a terminal status.
  unfoldable pub release_bulk_mutex_on_terminal : S → String → Option String → Option String → S
  release_bulk_mutex_on_terminal s job_id (some collection_id) (some status) =
      if truthy collection_id && truthy status && is_terminal_job_status lower status
      then release s collection_id job_id
      else s
  release_bulk_mutex_on_terminal s job_id _ _ = s

  unfoldable pub updated_job : JobInfo → JobUpdate → ℕ → JobInfo
  updated_job job u now = record job {
    status = given u.status job.status;
    message = or_old u.message job.message;
    items_in = given u.items_in job.items_in;
    items_created = given u.items_created job.items_created;
    items_failed = given u.items_failed job.items_failed;
    finished_at = or_old u.finished_at (
        if is_ending lower u.status && not (is_some job.finished_at)
        then some now
        else job.finished_at);
    updated_at = now;
    last_progress_at =
        if is_some u.status || is_some u.items_created || is_some u.message
        then some now
        else job.last_progress_at;
  }

  unfoldable pub update_job_memory :
      (String → Option JobInfo)
      → S
      → String
      → JobUpdate
      → ℕ
      → (String → Option JobInfo) × S × Option JobInfo
  unfolding updated_job release_bulk_mutex_on_terminal
  update_job_memory jobs s job_id u now = elim (jobs job_id) [
    | none ↦ (jobs, s, none)
    | some job ↦
        let job' = updated_job job u now in
        (
          (λ j. if str_eq job_id j then some job' else jobs j),
          release_bulk_mutex_on_terminal s job_id (some job.collection_id) u.status,
          some job',
        )
  ]

pub record Texts : Type 0 where
  pub show : ℕ → String
  pub read_int : String → Option ℕ
  pub isoformat : ℕ → String
  pub fromisoformat : String → Option ℕ
  pub read_int-show : (n : ℕ) → read_int (show n) ≡ some n
  pub fromisoformat-isoformat : (t : ℕ) → fromisoformat (isoformat t) ≡ some t
  pub truthy-show : (n : ℕ) → truthy (show n) ≡ true
  pub truthy-isoformat : (t : ℕ) → truthy (isoformat t) ≡ true

-- A hash of Redis, by its fields.
abbrev pub Hash : Type 0
Hash = String → Option String

-- `if v is not None: mapping[k] = v`
abbrev pub put_given : Option String → String → Hash → Hash
put_given v k h j = if str_eq k j then or_old v (h j) else h j

abbrev pub hset : Hash → Hash → Hash
hset h mapping j = or_old (mapping j) (h j)

abbrev pub no_fields : Hash
no_fields j = none

-- `not raw.get(k)`
abbrev pub is_unset : Option String → Bool
is_unset none = true
is_unset (some s) = not (truthy s)

abbrev pub map_text : (ℕ → String) → Option ℕ → Option String
map_text f none = none
map_text f (some n) = some (f n)
