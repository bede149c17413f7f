-- ===== src/JobStore/Backends.antt =====
-- app/services/job_store.py: the Redis backend, and its agreement with the one in memory.
pub mod Agree
use geofastmap_api.Prelude.{
  ℕ, String, Bool, true, false, not, ◌&&◌, ◌||◌, Option, none, some, List, [], ◌∷◌, if◌then◌else◌,
  str_eq, take, truthy, is_some,
}
use geofastmap_api.Json.{◌>>=◌}
use geofastmap_api.JobStore.{
  JobInfo, JobUpdate, new_job, or_old, or_none, is_ending, release_bulk_mutex_on_terminal, Texts,
  Hash, put_given, hset, no_fields, is_unset, map_text, given,
}

-- The hashes by job id, and the list of recent jobs of each collection. Keys do not run out.
pub record Jobs : Type 0 where
  pub hashes : String → Option Hash
  pub by_collection : String → List String

module _ (texts : Texts) where
  open texts use {show, read_int, isoformat, fromisoformat}

  -- `int(raw.get(k, 0))`
  pub read_count : Option String → Option ℕ
  read_count none = some 0
  read_count (some s) = read_int s

  read_set_time : Bool → String → Option (Option ℕ)
  read_set_time false s = some none
  read_set_time true s = elim (fromisoformat s) [ none ↦ none | some t ↦ some (some t) ]

  -- A time that is not set stays `None`; one that is no time raises.
  pub read_time : Option String → Option (Option ℕ)
  unfolding read_set_time
  read_time none = some none
  read_time (some s) = read_set_time (truthy s) s

  -- An owner that is no number is dropped.
  pub read_owner : Option String → Option ℕ
  read_owner none = none
  read_owner (some s) = if truthy s then read_int s else none

  -- The second half of `_get_job_redis`. A field that must be there raises where it is missing.
  pub read_job : Hash → Option JobInfo
  unfolding read_count read_time read_owner
  read_job raw = do
    finished_at ← read_time (raw "finished_at")
    last_progress_at ← read_time (raw "last_progress_at")
    job_id ← raw "job_id"
    collection_id ← raw "collection_id"
    status ← raw "status"
    items_in ← read_count (raw "items_in")
    items_created ← read_count (raw "items_created")
    items_failed ← read_count (raw "items_failed")
    created ← raw "created_at"
    created_at ← fromisoformat created
    updated ← raw "updated_at"
    updated_at ← fromisoformat updated
    some (record {
      job_id = job_id;
      collection_id = collection_id;
      status = status;
      message = or_none (raw "message");
      items_in = items_in;
      items_created = items_created;
      items_failed = items_failed;
      created_at = created_at;
      updated_at = updated_at;
      finished_at = finished_at;
      last_progress_at = last_progress_at;
      owner_id = read_owner (raw "owner_id");
      job_label = or_none (raw "job_label");
    })

  unfoldable pub get_job_redis : Jobs → String → Option JobInfo
  unfolding read_job
  get_job_redis r job_id = elim (r.hashes job_id) [ none ↦ none | some raw ↦ read_job raw ]

  -- The mapping that a new job is written with; `job.message or ""`.
  pub job_mapping : JobInfo → Hash
  job_mapping job = put_given (or_none job.job_label) "job_label" (
      put_given (map_text show job.owner_id) "owner_id" (
        put_given (map_text isoformat job.last_progress_at) "last_progress_at" (
          put_given (map_text isoformat job.finished_at) "finished_at" (
            put_given (some (isoformat job.updated_at)) "updated_at" (
              put_given (some (isoformat job.created_at)) "created_at" (
                put_given (some (show job.items_failed)) "items_failed" (
                  put_given (some (show job.items_created)) "items_created" (
                    put_given (some (show job.items_in)) "items_in" (
                      put_given (some (given job.message "")) "message" (
                        put_given (some job.status) "status" (
                          put_given (some job.collection_id) "collection_id"
                            (put_given (some job.job_id) "job_id" no_fields))))))))))))

  -- The job id is the new UUID.
  pub create_job_redis :
      Jobs → (job_id collection_id : String) → Option ℕ → Option String → ℕ → Jobs × JobInfo
  unfolding new_job job_mapping
  create_job_redis r job_id collection_id owner_id job_label now =
      let job = new_job job_id collection_id owner_id job_label now in
      (
        record {
          hashes = λ j. if str_eq job_id j then some (job_mapping job) else r.hashes j;
          by_collection = λ c.
              if str_eq collection_id c
              then take 50 (job_id ∷ r.by_collection c)
              else r.by_collection c;
        },
        job,
      )

  pub has_updates : JobUpdate → Bool
  has_updates u =
      is_some u.status
      || is_some u.message
      || is_some u.items_in
      || is_some u.items_created
      || is_some u.items_failed
      || is_some u.finished_at

  pub updates_of : (String → String) → Hash → JobUpdate → ℕ → Hash
  updates_of lower raw u now = put_given (map_text isoformat u.finished_at) "finished_at" (
      put_given (map_text show u.items_failed) "items_failed" (
        put_given (map_text show u.items_created) "items_created" (
          put_given (map_text show u.items_in) "items_in" (
            put_given u.message "message" (
              put_given
                (if is_ending lower u.status && is_unset (raw "finished_at")
                  then some (isoformat now)
                  else none)
                "finished_at" (put_given u.status "status" no_fields))))))

  pub updated_hash : (String → String) → Hash → JobUpdate → ℕ → Hash
  unfolding has_updates updates_of
  updated_hash lower raw u now =
      if has_updates u
      then hset raw (
          put_given (some (isoformat now)) "last_progress_at"
            (put_given (some (isoformat now)) "updated_at" (updates_of lower raw u now)))
      else raw

  module _ {S : Type 0} (release : S → String → String → S) (lower : String → String) where
    unfoldable pub update_job_redis : Jobs → S → String → JobUpdate → ℕ → Jobs × S × Option JobInfo
    unfolding updated_hash release_bulk_mutex_on_terminal read_job
    update_job_redis r s job_id u now = elim (r.hashes job_id) [
      | none ↦ (r, s, none)
      | some raw ↦
          let raw' = updated_hash lower raw u now in
          (
            record r { hashes = λ j. if str_eq job_id j then some raw' else r.hashes j },
            release_bulk_mutex_on_terminal release lower s job_id (raw "collection_id") u.status,
            read_job raw',
          )
    ]
