-- ===== src/Queue/Process.antt =====
-- app/services/process_queue.py: the payload of an OGC process job, as JSON.
use geofastmap_api.Prelude.{
  String, Bool, true, false, not, ◌&&◌, ◌||◌, ◌≡◌, ◌∙◌, ap, Option, none, some, arith,
  if◌then◌else◌,
}
use geofastmap_api.Json.{
  Json, null, bool, str, arr, obj, nil, Fields, end, field, to_bool, is_null, is_false, or_else,
  fields, lookup, put_if, get, get_or, value_or, lookups, Codec, ◌>>=◌,
}

-- As in the source, nothing checks the type of a value that was read.
pub record ProcessJobPayload : Type 0 where
  pub job_id : Json
  pub process_id : Json
  pub collection_id_a : Json
  pub collection_id_b : Json
  pub feature_ref : Json
  pub feature_geojson : Json
  pub collection_ids : Json
  pub feature_ids : Json
  pub buffer_distance_degrees : Json
  pub group_by_property : Json
  pub measure_op : Json
  pub measure_unit : Json
  pub measure_field : Json
  pub queue_compute_tiles : Json
  pub tile_build_options : Json
  pub result_collection_id : Json
  pub update_existing : Json

-- `if v is not None: out[k] = v`, and `if v: out[k] = v`
abbrev put_some : String → Json → Fields → Fields
put_some k v rest = put_if (not (is_null v)) k v rest

abbrev put_true : String → Json → Fields → Fields
put_true k v rest = put_if (to_bool v) k v rest

payload_fields : ProcessJobPayload → Fields
payload_fields p = field "job_id" p.job_id (
    field "process_id" p.process_id (
      field "collection_id_a" p.collection_id_a (
        field "collection_id_b" p.collection_id_b (
          put_true "collection_ids" p.collection_ids (
            put_if (to_bool p.collection_ids && to_bool p.feature_ref) "feature_ref" p.feature_ref (
              put_if (to_bool p.collection_ids && to_bool p.feature_geojson) "feature_geojson"
                p.feature_geojson
                (put_true "feature_ids" p.feature_ids (
                  put_some "buffer_distance_degrees" p.buffer_distance_degrees (
                    put_some "group_by_property" p.group_by_property (
                      put_some "measure_op" p.measure_op (
                        put_some "measure_unit" p.measure_unit (
                          put_some "measure_field" p.measure_field (
                            put_if (is_false p.queue_compute_tiles) "queue_compute_tiles"
                              (bool false)
                              (put_true "tile_build_options" p.tile_build_options (
                                put_true "result_collection_id" p.result_collection_id (
                                  put_if (to_bool p.update_existing) "update_existing" (bool true)
                                    end))))))))))))))))

payload_of : Fields → Option ProcessJobPayload
payload_of d = do
  job_id ← lookup "job_id" d
  process_id ← lookup "process_id" d
  some (record {
    job_id = job_id;
    process_id = process_id;
    collection_id_a = get_or d "collection_id_a" (str "");
    collection_id_b = get_or d "collection_id_b" (str "");
    feature_ref = get d "feature_ref";
    feature_geojson = get d "feature_geojson";
    collection_ids = or_else (get d "collection_ids") (arr nil);
    feature_ids = or_else (get d "feature_ids") (arr nil);
    buffer_distance_degrees = get d "buffer_distance_degrees";
    group_by_property = get d "group_by_property";
    measure_op = get d "measure_op";
    measure_unit = get d "measure_unit";
    measure_field = get d "measure_field";
    queue_compute_tiles = get_or d "queue_compute_tiles" (bool true);
    tile_build_options = get d "tile_build_options";
    result_collection_id = get d "result_collection_id";
    update_existing = get_or d "update_existing" (bool false);
  })

pub is_feature_vs_layers : ProcessJobPayload → Bool
is_feature_vs_layers p =
    to_bool p.collection_ids && (to_bool p.feature_ref || to_bool p.feature_geojson)

-- What a payload says once its defaults are written out: an empty value is the default, a feature
-- counts only beside layers, and the two flags are truth values.
pub normal : ProcessJobPayload → ProcessJobPayload
normal p = record p {
  feature_ref = if to_bool p.collection_ids then or_else p.feature_ref null else null;
  feature_geojson = if to_bool p.collection_ids then or_else p.feature_geojson null else null;
  collection_ids = or_else p.collection_ids (arr nil);
  feature_ids = or_else p.feature_ids (arr nil);
  queue_compute_tiles = bool (not (is_false p.queue_compute_tiles));
  tile_build_options = or_else p.tile_build_options null;
  result_collection_id = or_else p.result_collection_id null;
  update_existing = bool (to_bool p.update_existing);
}

get_some : (v : Json) → value_or (if not (is_null v) then some v else none) null ≡ v
get_some v = ground arith

get_true : (v w : Json) → value_or (if to_bool v then some v else none) w ≡ or_else v w
get_true v w = ground arith

get_list : (v : Json) → or_else (or_else v null) (arr nil) ≡ or_else v (arr nil)
get_list v = ground arith

get_both :
    (b : Bool) (v : Json)
    → value_or (if b && to_bool v then some v else none) null ≡ (if b then or_else v null else null)
get_both b v = ground arith

get_tiles : (b : Bool) → value_or (if b then some (bool false) else none) (bool true) ≡ bool (not b)
get_tiles b = ground arith

get_update : (b : Bool) → value_or (if b then some (bool true) else none) (bool false) ≡ bool b
get_update b = ground arith

payload_of-payload_fields :
    (p : ProcessJobPayload) → payload_of (payload_fields p) ≡ some (normal p)
unfolding payload_of payload_fields normal
payload_of-payload_fields p =
    simp (lookups, get_some, get_true, get_list, get_both, get_tiles, get_update)

truth_list : (v : Json) → to_bool (or_else v (arr nil)) ≡ to_bool v
truth_list v = ground arith

idem_null : (v : Json) → or_else (or_else v null) null ≡ or_else v null
idem_null v = ground arith

idem_list : (v : Json) → (if to_bool v then or_else v (arr nil) else arr nil) ≡ or_else v (arr nil)
idem_list v = ground arith

idem_beside :
    (b : Bool) (v : Json)
    → (if b then or_else (if b then or_else v null else null) null else null)
      ≡ (if b then or_else v null else null)
idem_beside b v = ground arith

idem_flag : (b : Bool) → not (not (not b)) ≡ not b
idem_flag b = ground arith

truth_beside : (b : Bool) (v : Json) → to_bool (if b then or_else v null else null) ≡ b && to_bool v
truth_beside b v = ground arith

mode_beside : (b x y : Bool) → b && (b && x || b && y) ≡ b && (x || y)
mode_beside b x y = ground arith

normal_idem : (p : ProcessJobPayload) → normal (normal p) ≡ normal p
unfolding normal
normal_idem p = simp (truth_list, idem_null, idem_list, idem_beside, idem_flag)

mode-normal : (p : ProcessJobPayload) → is_feature_vs_layers (normal p) ≡ is_feature_vs_layers p
unfolding normal is_feature_vs_layers
mode-normal p = simp (truth_list, truth_beside, mode_beside)

module _ (codec : Codec) where
  open codec use {Wire, dumps, loads, loads-dumps}

  pub to_json : ProcessJobPayload → Wire
  unfolding payload_fields
  to_json p = dumps (obj (payload_fields p))

  pub from_json : Wire → Option ProcessJobPayload
  unfolding payload_of
  from_json w = do j ← loads w; d ← fields j; payload_of d

  -- A process job that is written to the queue is read back as its normal form: every field as it
  -- was, but for empty values, which are read as their defaults, and for a single feature without
  -- layers, which is not sent.
  pub from_json-eq-normal : (p : ProcessJobPayload) → from_json (to_json p) ≡ some (normal p)
  unfolding from_json to_json
  from_json-eq-normal p = rw loads-dumps (payload_of-payload_fields p)

  -- A payload that was read from the queue survives being queued again, by a retry, unchanged, and
  -- the worker runs it in the mode, feature against layers or not, that the sender meant.
  pub requeue_lem :
      (p q : ProcessJobPayload)
      → from_json (to_json p) ≡ some q
      → (from_json (to_json q) ≡ some q) × (is_feature_vs_layers q ≡ is_feature_vs_layers p)
  requeue_lem p q h =
      let read : normal p ≡ q = cc (from_json-eq-normal p) in
      (from_json-eq-normal q ∙ ap some (rw (← read) (normal_idem p)), rw (← read) (mode-normal p))
