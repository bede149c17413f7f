-- ===== src/Bulk/Mutex.antt =====
-- app/services/bulk_collection_activity.py: the mutex of a collection, held by one bulk job.
-- Python's `str.lower` is a parameter, and so is the job store, by what it answers.
pub mod Exclusion
pub mod Reclaim
use Prim.Native.String.{◌++◌}
use geofastmap_api.Prelude.{
  ℕ, ◌*◌, String, Bool, true, false, Option, none, some, List, [], ◌∷◌, max, if◌then◌else◌, str_eq,
  ◌==◌, leb, truthy, is_text,
}
use geofastmap_api.Redis.{Redis}

abbrev pub mutex_prefix : String
mutex_prefix = "geofastmap:bulk_collection_mutex:"

abbrev pub mutex_key : String → String
mutex_key collection_id = mutex_prefix ++ collection_id

abbrev pub terminal_job_statuses : List String
terminal_job_statuses =
    "completed" ∷ "failed" ∷ "cancelled" ∷ "error" ∷ "success" ∷ "done" ∷ "succeeded" ∷ []

-- `s in (…)`
abbrev pub is_one_of : String → List String → Bool
is_one_of s [] = false
is_one_of s (t ∷ ts) = if str_eq s t then true else is_one_of s ts

-- `max(300, int(setting or default))`
abbrev pub mutex_ttl : ℕ → ℕ
mutex_ttl setting = max 300 (if setting == 0 then 86400 * 2 else setting)

-- What the job store says of a job: its status, whether it has a `finished_at`, and the seconds
-- since it was updated.
pub record JobView : Type 0 where
  pub status : String
  pub is_finished : Bool
  pub age_seconds : ℕ

module _ (lower : String → String) where
  unfoldable pub is_terminal_job_status : String → Bool
  is_terminal_job_status status = is_one_of (lower status) terminal_job_statuses

  -- A job that still waits to start, for `stale_seconds` (two minutes at least) or longer.
  pub pending_mutex_holder_is_stale : ℕ → JobView → Bool
  pending_mutex_holder_is_stale stale_seconds job =
      if str_eq (lower job.status) "pending"
      then leb (max 120 stale_seconds) job.age_seconds
      else false

  -- A holder that will not release the mutex any more.
  unfoldable pub is_gone : ℕ → Option JobView → Bool
  unfolding is_terminal_job_status pending_mutex_holder_is_stale
  is_gone stale_seconds none = true
  is_gone stale_seconds (some job) =
      if is_terminal_job_status job.status
      then true
      else if job.is_finished
      then true
      else pending_mutex_holder_is_stale stale_seconds job

module _ {W : Type 0} (redis : Redis W) where
  open redis use {State, get, set_nx, expire, delete}

  -- `str(v) if v else None`
  unfoldable pub nonempty : Option String → Option String
  nonempty none = none
  nonempty (some v) = if truthy v then some v else none

  unfoldable pub get_collection_bulk_mutex_holder : String → State → String → Option String
  unfolding nonempty
  get_collection_bulk_mutex_holder bulk_queue_type r collection_id =
      if str_eq bulk_queue_type "redis" then nonempty (get r (mutex_key collection_id)) else none

  unfoldable pub holds_collection_bulk_mutex : String → State → String → String → Bool
  holds_collection_bulk_mutex bulk_queue_type r collection_id owner_job_id =
      is_text (get_collection_bulk_mutex_holder bulk_queue_type r collection_id) owner_job_id

  -- `(r.get(key) or "") == owner_job_id`
  abbrev text_or_empty : Option String → String
  text_or_empty none = ""
  text_or_empty (some v) = v

  pub try_acquire_collection_bulk_mutex : String → ℕ → State → String → String → State × Bool
  try_acquire_collection_bulk_mutex bulk_queue_type ttl_setting r collection_id owner_job_id =
      if str_eq bulk_queue_type "redis"
      then (let (r', was_set) =
            set_nx r (mutex_key collection_id) owner_job_id (mutex_ttl ttl_setting) in
          (
            r',
            if was_set
                then true
                else str_eq (text_or_empty (get r' (mutex_key collection_id))) owner_job_id,
          ))
      else (r, true)

  unfoldable pub release_collection_bulk_mutex : String → State → String → String → State
  release_collection_bulk_mutex bulk_queue_type r collection_id owner_job_id =
      if str_eq bulk_queue_type "redis"
      then (if is_text (get r (mutex_key collection_id)) owner_job_id
          then delete r (mutex_key collection_id)
          else r)
      else r

  pub refresh_collection_bulk_mutex : String → ℕ → State → String → String → State
  refresh_collection_bulk_mutex bulk_queue_type ttl_setting r collection_id owner_job_id =
      if str_eq bulk_queue_type "redis"
      then (if is_text (get r (mutex_key collection_id)) owner_job_id
          then expire r (mutex_key collection_id) (mutex_ttl ttl_setting)
          else r)
      else r

  reclaim_from :
      (lower : String → String)
      → (String → Option JobView)
      → ℕ
      → String
      → State
      → String
      → Option String
      → State × Option String
  reclaim_from lower get_job stale_seconds bulk_queue_type r collection_id none = (r, none)
  reclaim_from lower get_job stale_seconds bulk_queue_type r collection_id (some holder) =
      if is_gone lower stale_seconds (get_job holder)
      then (release_collection_bulk_mutex bulk_queue_type r collection_id holder, some holder)
      else (r, none)

  pub reclaim_stale_collection_bulk_mutex :
      (lower : String → String)
      → (String → Option JobView)
      → ℕ
      → String
      → State
      → String
      → State × Option String
  unfolding reclaim_from
  reclaim_stale_collection_bulk_mutex lower get_job stale_seconds bulk_queue_type r collection_id =
      reclaim_from lower get_job stale_seconds bulk_queue_type r collection_id
        (get_collection_bulk_mutex_holder bulk_queue_type r collection_id)
