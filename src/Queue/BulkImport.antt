-- ===== src/Queue/BulkImport.antt =====
-- app/services/bulk_queue.py: the payload of a bulk import job, as JSON. Python's `str` of what is
-- no text, `str.lower`, `int` of a text and of a float are parameters.
use geofastmap_api.Prelude.{
  ℤ, pos, String, Bool, true, false, not, ◌≡◌, refl, ◌∙◌, ap, Option, none, some, [], ◌∷◌, arith,
  if◌then◌else◌, str_eq, truthy, is_some, eq_iff,
}
use geofastmap_api.Json.{
  Json, null, bool, num, real, str, obj, Fields, end, field, to_bool, is_arr, or_else, fields,
  lookup, put_if, get, get_or, value_or, lookups, Codec, ◌>>=◌,
}
use geofastmap_api.Bulk.Mutex.{is_one_of}

-- What the source does not check when it reads is a `Json` value.
pub record BulkJobPayload : Type 0 where
  pub job_id : Json
  pub collection_id : Json
  pub storage_key : Json
  pub mode : Json
  pub batch_size : ℤ
  pub owner_id : Json
  pub queue_compute_tiles : Bool
  pub zip_inner_shp_paths : Json
  pub job_kind : String
  pub parent_job_id : Json
  pub shard_index : Option ℤ
  pub shard_total : Option ℤ
  pub finalize_collection : Bool
  pub replace_filters : Json

-- The built-in functions that `from_json` calls.
pub record Builtins : Type 0 where
  pub repr : Json → String
  pub lower : String → String
  pub parse_int : String → Option ℤ
  pub truncate : ℤ → ℤ → ℤ

abbrev num_or_null : Option ℤ → Json
num_or_null none = null
num_or_null (some n) = num n

payload_fields : BulkJobPayload → Fields
payload_fields p = field "job_id" p.job_id (
    field "collection_id" p.collection_id (
      field "owner_id" p.owner_id (
        field "storage_key" p.storage_key (
          field "mode" p.mode (
            field "batch_size" (num p.batch_size) (
              field "queue_compute_tiles" (bool p.queue_compute_tiles) (
                put_if (to_bool p.zip_inner_shp_paths) "zip_inner_shp_paths" p.zip_inner_shp_paths (
                  put_if (not (str_eq p.job_kind "single")) "job_kind" (str p.job_kind) (
                    put_if (to_bool p.parent_job_id) "parent_job_id" p.parent_job_id (
                      put_if (is_some p.shard_index) "shard_index" (num_or_null p.shard_index) (
                        put_if (is_some p.shard_total) "shard_total" (num_or_null p.shard_total) (
                          put_if (not p.finalize_collection) "finalize_collection" (bool false) (
                            put_if (to_bool p.replace_filters) "replace_filters" p.replace_filters
                              end)))))))))))))

module _ (python : Builtins) where
  open python use {repr, lower, parse_int, truncate}

  -- `str(v)` and `int(v)`; `int` raises on null, lists and dictionaries.
  abbrev str_of : Json → String
  str_of (str s) = s
  str_of v = repr v

  abbrev int_of : Json → Option ℤ
  int_of (num n) = some n
  int_of (bool b) = some (if b then pos 1 else pos 0)
  int_of (real m e) = some (truncate m e)
  int_of (str s) = parse_int s
  int_of _ = none

  -- `int(v) if v is not None else None`
  abbrev optional_int : Json → Option (Option ℤ)
  optional_int null = some none
  optional_int v = elim (int_of v) [ none ↦ none | some n ↦ some (some n) ]

  abbrev read_flag : Json → Bool
  read_flag (bool b) = b
  read_flag v = not (is_one_of (lower (str_of v)) ("false" ∷ "0" ∷ "no" ∷ "" ∷ []))

  payload_of : Fields → Option BulkJobPayload
  payload_of d = do
    job_id ← lookup "job_id" d
    collection_id ← lookup "collection_id" d
    storage_key ← lookup "storage_key" d
    mode ← lookup "mode" d
    batch ← lookup "batch_size" d
    batch_size ← int_of batch
    shard_index ← optional_int (get d "shard_index")
    shard_total ← optional_int (get d "shard_total")
    some (record {
      job_id = job_id;
      collection_id = collection_id;
      storage_key = storage_key;
      mode = mode;
      batch_size = batch_size;
      owner_id = get d "owner_id";
      queue_compute_tiles = read_flag (get_or d "queue_compute_tiles" (bool false));
      zip_inner_shp_paths =
          if is_arr (get d "zip_inner_shp_paths") then get d "zip_inner_shp_paths" else null;
      job_kind = str_of (or_else (get d "job_kind") (str "single"));
      parent_job_id = get d "parent_job_id";
      shard_index = shard_index;
      shard_total = shard_total;
      finalize_collection = to_bool (get_or d "finalize_collection" (bool true));
      replace_filters = get d "replace_filters";
    })

  -- A payload with its defaults written out: an empty or misshapen list of paths, an empty parent or
  -- list of filters is none, and an empty kind is that of a single job.
  pub normal : BulkJobPayload → BulkJobPayload
  normal p = record p {
    zip_inner_shp_paths =
        if is_arr p.zip_inner_shp_paths then or_else p.zip_inner_shp_paths null else null;
    job_kind = if truthy p.job_kind then p.job_kind else "single";
    parent_job_id = or_else p.parent_job_id null;
    replace_filters = or_else p.replace_filters null;
  }

  get_true : (v : Json) → value_or (if to_bool v then some v else none) null ≡ or_else v null
  get_true v = ground arith

  get_list :
      (v : Json)
      → (if is_arr (or_else v null) then or_else v null else null)
        ≡ (if is_arr v then or_else v null else null)
  get_list v = ground arith

  get_kind :
      (s : String)
      → str_of (
          or_else
            (value_or (if not (str_eq s "single") then some (str s) else none) null)
            (str "single"))
        ≡ (if truthy s then s else "single")
  get_kind s = ground (arith, eq_iff s "single")

  get_number :
      (o : Option ℤ)
      → optional_int (value_or (if is_some o then some (num_or_null o) else none) null) ≡ some o
  get_number o = ground arith

  get_final :
      (b : Bool) → to_bool (value_or (if not b then some (bool false) else none) (bool true)) ≡ b
  get_final b = ground arith

  payload_of-payload_fields : (p : BulkJobPayload) → payload_of (payload_fields p) ≡ some (normal p)
  unfolding payload_of payload_fields normal
  payload_of-payload_fields p = simp (lookups, get_number, get_true, get_list, get_kind, get_final)

  idem_null : (v : Json) → or_else (or_else v null) null ≡ or_else v null
  idem_null v = ground arith

  idem_kind :
      (s : String)
      → (if truthy (if truthy s then s else "single")
          then (if truthy s then s else "single")
          else "single")
        ≡ (if truthy s then s else "single")
  idem_kind s = ground arith

  idem_list :
      (v : Json)
      → (if is_arr (if is_arr v then or_else v null else null)
          then or_else (if is_arr v then or_else v null else null) null
          else null)
        ≡ (if is_arr v then or_else v null else null)
  idem_list v = ground arith

  normal_idem : (p : BulkJobPayload) → normal (normal p) ≡ normal p
  unfolding normal
  normal_idem p = simp (idem_null, idem_kind, idem_list)

  pub storage_key-normal : (p : BulkJobPayload) → (normal p).storage_key ≡ p.storage_key
  unfolding normal
  storage_key-normal p = refl

  module _ (codec : Codec) where
    open codec use {Wire, dumps, loads, loads-dumps}

    pub to_json : BulkJobPayload → Wire
    unfolding payload_fields
    to_json p = dumps (obj (payload_fields p))

    pub from_json : Wire → Option BulkJobPayload
    unfolding payload_of
    from_json w = do j ← loads w; d ← fields j; payload_of d

    -- A bulk job that is written to the queue is read back as its normal form: its shard numbers,
    -- flags and identifiers as they were, and an empty kind, parent, list of paths or of filters as
    -- the default; what was read survives being queued again unchanged.
    pub bulk_from_json-eq-normal :
        (p : BulkJobPayload)
        → (from_json (to_json p) ≡ some (normal p))
          × (from_json (to_json (normal p)) ≡ some (normal p))
    unfolding from_json to_json
    bulk_from_json-eq-normal p = (
      rw loads-dumps (payload_of-payload_fields p),
      rw loads-dumps (payload_of-payload_fields (normal p) ∙ ap some (normal_idem p)),
    )
