-- ===== src/Finalize/Payload.antt =====
-- app/services/bulk_finalize_queue.py: the payload of a queued import, and what surrounds the queue: the
-- database by what its SQL answers and does, the codec, Redis and the settings.
use geofastmap_api.Prelude.{ℕ, pos, String, Bool, Option, none, some}
use geofastmap_api.Json.{
  Json, null, bool, num, str, Fields, end, field, to_bool, or_else, lookup, get, Codec, ◌>>=◌,
}
use geofastmap_api.Redis.{Redis}

-- An exception that the database raises: its type's name, its text, its cause's text, and the cause's SQL state.
pub record Failure : Type 0 where
  pub name : String
  pub text : String
  pub cause : Option String
  pub pgcode : Option String

pub data Prepared : Type 0 where
  ready : Prepared
  -- `StagingDuplicateUnrecoverableError`, with its message
  duplicates : String → Prepared
  broken : Failure → Prepared

pub data Promoted : Type 0 where
  promoted : ℕ → Promoted
  import_cancelled : Promoted
  duplicates : String → Promoted
  broken : Failure → Promoted

pub data Counted : Type 0 where
  counted : ℕ → Counted
  broken : Failure → Counted

-- What a query answers, or raises.
pub data Answer (A : Type 0) : Type 0 where
  gives : A → Answer A
  raises : Failure → Answer A

-- What the SQL of bulk_staging.py, bulk_staging_recovery.py and features_partitions.py answers and
-- does. Staging tables go by their job.
pub record Engine : Type 1 where
  pub Db : Type 0
  pub staging_exists : Db → String → Answer Bool
  pub staging_row_count : Db → String → Counted
  pub drop_staging : Db → String → Db × Option Failure
  pub prepare_staging : Db → String → Db × Prepared
  pub promote_staging : Db → (collection_id job_id mode : String) → Db × Promoted
  pub finalize_after_promote : Db → String → Db × Option Failure
  pub cleanup_failed_staging_import : Db → (job_id collection_id : String) → Db × Option Failure
  -- The name of the partition of a collection, and its number of rows, none where it raises.
  pub live_partition : Db → String → Answer (Option String)
  pub live_count : Db → String → Option ℕ
  pub swap_complete : Db → (collection_id job_id : String) → Answer Bool

-- The settings, in seconds.
pub record Settings : Type 0 where
  pub bulk_queue_type : String
  pub bulk_finalize_queue_enabled : Bool
  pub bulk_watchdog_fail_stale_running : Option Bool
  pub bulk_job_stale_seconds : ℕ
  pub bulk_finalize_stale_seconds : ℕ
  pub bulk_job_pending_stale_seconds : ℕ
  pub bulk_running_recover_staging_seconds : ℕ
  pub bulk_finalize_duplicate_give_up_attempts : ℕ

-- What surrounds the code: the codec, Redis, the database, `str.lower`, numbers written plainly and
-- with commas, and the settings.
pub record Env : Type 1 where
  pub codec : Codec
  pub redis : Redis (codec.Wire)
  -- Equality of the texts in a queue.
  pub same_text : codec.Wire → codec.Wire → Bool
  pub engine : Engine
  pub lower : String → String
  pub show : ℕ → String
  pub commas : ℕ → String
  pub settings : Settings

pub record BulkFinalizePayload : Type 0 where
  pub job_id : String
  pub collection_id : String
  pub mode : String
  pub items_created : ℕ
  pub items_failed : ℕ
  pub owner_id : Option ℕ
  pub queue_compute_tiles : Bool
  pub attempt : ℕ

abbrev pub number_or_null : Option ℕ → Json
number_or_null none = null
number_or_null (some n) = num (pos n)

unfoldable pub finalize_fields : BulkFinalizePayload → Fields
finalize_fields p = field "job_id" (str p.job_id) (
    field "collection_id" (str p.collection_id) (
      field "mode" (str p.mode) (
        field "items_created" (num (pos p.items_created)) (
          field "items_failed" (num (pos p.items_failed)) (
            field "owner_id" (number_or_null p.owner_id) (
              field "queue_compute_tiles" (bool p.queue_compute_tiles)
                (field "attempt" (num (pos p.attempt)) end)))))))

-- The values as the class is annotated: what another writer could put there counts as an error.
abbrev pub text_of : Json → Option String
text_of (str s) = some s
text_of v = none

-- `int(v or 0)`
abbrev pub count_of : Json → Option ℕ
count_of v = elim (or_else v (num (pos 0))) [ num (pos n) ↦ some n | other ↦ none ]

abbrev pub owner_of : Json → Option (Option ℕ)
owner_of null = some none
owner_of (num (pos n)) = some (some n)
owner_of v = none

unfoldable pub finalize_payload_of : Fields → Option BulkFinalizePayload
finalize_payload_of d = do
  id ← lookup "job_id" d
  job_id ← text_of id
  coll ← lookup "collection_id" d
  collection_id ← text_of coll
  mode ← text_of (or_else (get d "mode") (str "append"))
  items_created ← count_of (get d "items_created")
  items_failed ← count_of (get d "items_failed")
  owner_id ← owner_of (get d "owner_id")
  attempt ← count_of (get d "attempt")
  some (record {
    job_id = job_id;
    collection_id = collection_id;
    mode = mode;
    items_created = items_created;
    items_failed = items_failed;
    owner_id = owner_id;
    queue_compute_tiles = to_bool (get d "queue_compute_tiles");
    attempt = attempt;
  })
