-- ===== src/Finalize.antt =====
-- app/services/bulk_finalize_queue.py: the queue of imports whose staged rows wait to be promoted to
-- the live partition, and the state that its worker, the watchdog and the reconciliation share.
-- The job store is taken by its abstract view, the backend in memory, which the one in Redis agrees
-- with (JobStore.Backends.Agree.Histories).
pub mod Payload
pub mod Worker
pub mod RoundTrip
pub mod Reconcile
pub mod Watchdog
use Prim.Native.String.{◌++◌}
use geofastmap_api.Prelude.{
  ℕ, ◌*◌, ℤ, pos, negsuc, String, Bool, true, false, not, ◌&&◌, ◌||◌, Option, none, some, List, [],
  ◌∷◌, if◌then◌else◌, str_eq, truthy, is_some, cut, contains_text,
}
use geofastmap_api.Json.{
  Json, null, bool, num, str, Fields, end, field, obj, to_bool, or_else, fields, lookup, get, Codec,
  ◌>>=◌,
}
use geofastmap_api.Redis.{Redis, lrem_one}
use geofastmap_api.Bulk.Mutex.{release_collection_bulk_mutex}
use geofastmap_api.JobStore.{
  JobInfo, JobUpdate, Hash, put_given, hset, no_fields, update_job_memory,
}
use geofastmap_api.Queue.BulkJobs.{unregister_bulk_import_job}
pub use Payload.{
  Failure, Prepared, Promoted, Counted, Answer, Engine, Settings, Env, BulkFinalizePayload,
  number_or_null, text_of, count_of, owner_of,
}
unfoldable pub use Payload.{finalize_fields, finalize_payload_of}

abbrev pub finalize_queue_key : String
finalize_queue_key = "geofastmap:bulk_finalize_queue"

abbrev pub dedupe_prefix : String
dedupe_prefix = "geofastmap:bulk_finalize_pending:"

abbrev pub dedupe_key : String → String
dedupe_key job_id = dedupe_prefix ++ job_id

abbrev pub flag_text : Bool → String
flag_text true = "1"
flag_text false = "0"

module _ (env : Env) where
  -- The jobs, Redis, the registry of imports in memory, the hashes of finalize states, the list
  -- under the queue's key, the newest in front, and the database. `tile_requests` are the calls of
  -- `_queue_tile_build_if_requested`: collection, owner, and whether tiles were asked for.
  pub record World : Type 0 where
    pub jobs : String → Option JobInfo
    pub store : env.redis.State
    pub registry : String → Option String
    pub states : String → Hash
    pub queue : List (env.codec.Wire)
    pub db : env.engine.Db
    pub tile_requests : List (String × Option ℕ × Bool)

  abbrev pub is_redis : Bool
  is_redis = str_eq env.settings.bulk_queue_type "redis"

  unfoldable pub is_finalize_pending : World → String → Bool
  is_finalize_pending w job_id =
      if is_redis then is_some (env.redis.get w.store (dedupe_key job_id)) else false

  -- HSET keeps the fields that the mapping does not name. The time of the update is left out.
  pub state_mapping : BulkFinalizePayload → Hash
  state_mapping p = put_given (some (flag_text p.queue_compute_tiles)) "queue_compute_tiles" (
      put_given (some (elim p.owner_id [ none ↦ "" | some n ↦ env.show n ])) "owner_id" (
        put_given (some (env.show p.items_failed)) "items_failed" (
          put_given (some (env.show p.items_created)) "items_created" (
            put_given (some p.mode) "mode" (
              put_given (some p.collection_id) "collection_id"
                (put_given (some p.job_id) "job_id" no_fields))))))

  pub mark_finalize_pending : World → BulkFinalizePayload → World
  unfolding state_mapping
  mark_finalize_pending w p =
      if is_redis
      then record w {
        store = env.redis.set w.store (dedupe_key p.job_id) "1" (86400 * 7);
        states = λ j. if str_eq p.job_id j then hset (w.states j) (state_mapping p) else w.states j;
      }
      else w

  pub get_finalize_state : World → String → Hash
  get_finalize_state w job_id = if is_redis then w.states job_id else no_fields

  unfoldable pub clear_finalize_pending : World → String → World
  clear_finalize_pending w job_id =
      if is_redis
      then record w {
        store = env.redis.delete w.store (dedupe_key job_id);
        states = λ j. if str_eq job_id j then no_fields else w.states j;
      }
      else w

  pub record_finalize_error : World → String → String → ℕ → World
  record_finalize_error w job_id message attempt =
      if is_redis
      then record w {
        states = λ j.
            if str_eq job_id j
            then hset (w.states j) (
                put_given (some (cut 2000 message)) "error" (
                  put_given (some (env.show attempt)) "attempt"
                    (put_given (some job_id) "job_id" no_fields)))
            else w.states j;
      }
      else w

  pub finalize_to_json : BulkFinalizePayload → env.codec.Wire
  unfolding finalize_fields
  finalize_to_json p = env.codec.dumps (obj (finalize_fields p))

  pub finalize_from_json : env.codec.Wire → Option BulkFinalizePayload
  unfolding finalize_payload_of
  finalize_from_json raw = do j ← env.codec.loads raw; d ← fields j; finalize_payload_of d

  pub enqueue_finalize : World → BulkFinalizePayload → (force : Bool) → World × Bool
  unfolding mark_finalize_pending finalize_to_json
  enqueue_finalize w p force =
      if is_redis
      then (if not force && is_some (env.redis.get w.store (dedupe_key p.job_id))
          then (w, true)
          else let w' = mark_finalize_pending w p in
            (record w' { queue = finalize_to_json p ∷ w'.queue }, true))
      else (w, false)

  is_for : String → env.codec.Wire → Bool
  unfolding finalize_from_json
  is_for job_id raw = elim (finalize_from_json raw) [
    | none ↦ false
    | some p ↦ str_eq p.job_id job_id
  ]

  -- The payloads that the queue had at first, each removed once where it is the job's.
  pub remove_each : String → List (env.codec.Wire) → List (env.codec.Wire) → List (env.codec.Wire)
  unfolding is_for
  remove_each job_id [] left = left
  remove_each job_id (raw ∷ raws) left =
      remove_each job_id raws
        (if is_for job_id raw then (lrem_one env.same_text left raw).0 else left)

  pub remove_finalize_from_queue : World → String → World
  unfolding remove_each
  remove_finalize_from_queue w job_id =
      if is_redis then record w { queue = remove_each job_id w.queue w.queue } else w

  pub unregister : World → String → World
  unregister w job_id =
      let (r, mem) =
        unregister_bulk_import_job env.redis env.settings.bulk_queue_type (w.store, w.registry)
          job_id in
      record w { store = r; registry = mem }

  abbrev pub give_back : env.redis.State → String → String → env.redis.State
  give_back r collection_id job_id =
      release_collection_bulk_mutex env.redis env.settings.bulk_queue_type r collection_id job_id

  -- `update_job` with a status, a message and the numbers of items, at the time `now`.
  abbrev pub change : String → String → Option ℕ → Option ℕ → JobUpdate
  change status message created failed = record {
    status = some status;
    message = some message;
    items_in = none;
    items_created = created;
    items_failed = failed;
    finished_at = none;
  }

  pub update_stored : World → ℕ → String → JobUpdate → World
  update_stored w now job_id u =
      let (jobs', r, job) = update_job_memory give_back env.lower w.jobs w.store job_id u now in
      record w { jobs = jobs'; store = r }

  -- `is_staging_pk_duplicate_error` on a lowercase text.
  pub is_duplicate_text : String → Bool
  is_duplicate_text msg =
      if contains_text msg "uniqueviolation" || contains_text msg "duplicate key value"
      then contains_text msg "bulk_staging"
        || contains_text msg "_pkey"
        || contains_text msg "staging"
      else false

  pub failure_text : Failure → String
  failure_text e = env.lower e.text ++ elim e.cause [
    | none ↦ ""
    | some cause ↦ (" " ++ env.lower cause) ++ elim e.pgcode [
      | none ↦ ""
      | some code ↦ if str_eq code "23505" then " uniqueviolation" else ""
    ]
  ]

  pub is_staging_pk_duplicate_error : Failure → Bool
  unfolding is_duplicate_text failure_text
  is_staging_pk_duplicate_error e = is_duplicate_text (failure_text e)

  -- `reason` is the text of the error. What the removal of the table raises ends the call.
  pub abandon_staging_finalize_job :
      World
      → ℕ
      → (job_id collection_id reason : String) (items_created items_failed : ℕ)
      → World × Option Failure
  unfolding remove_finalize_from_queue clear_finalize_pending unregister update_stored
  abandon_staging_finalize_job w now job_id collection_id reason items_created items_failed =
      let (db', failure) = env.engine.cleanup_failed_staging_import w.db job_id collection_id in
      let dropped = record w { db = db' } in
      let cleared = clear_finalize_pending (remove_finalize_from_queue dropped job_id) job_id in
      let failed = update_stored (unregister cleared job_id) now job_id (
        change "failed"
          (cut 2000 (
            ("Bulk import abandoned: " ++ reason)
            ++ " Staging was removed — please re-import this file."))
          (some items_created) (some items_failed)) in
      elim failure [ none ↦ (failed, none) | some e ↦ (dropped, some e) ]
