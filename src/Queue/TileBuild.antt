-- ===== src/Queue/TileBuild.antt =====
-- app/services/tile_build_queue.py: the options and the payload of a tile build job, as JSON.
pub mod Leases
use geofastmap_api.Prelude.{
  String, Bool, not, ◌≡◌, refl, sym, ap, ◌∙◌, Option, none, some, arith, if◌then◌else◌,
}
use geofastmap_api.Json.{
  Json, null, bool, obj, Fields, end, field, to_bool, is_null, fields, lookup, put_if, get,
  value_or, lookups, Codec, ◌>>=◌,
}

-- `None` is `null`. A value that was read from the wire has whatever type it was written with, as
-- in the source, where nothing checks it.
pub record TileBuildOptions : Type 0 where
  pub min_zoom : Json
  pub max_zoom : Json
  pub include_attributes : Json
  pub exclude_attributes : Json
  pub densest : Json
  pub smallest : Json
  pub no_line_simplification : Json
  pub simplify_only_low_zooms : Json
  pub no_shared_node_simplification : Json
  pub no_tiny_polygon_reduction : Json
  pub no_point_dropping : Json

-- `TileBuildOptions()`
abbrev pub default_options : TileBuildOptions
default_options = record {
  min_zoom = null;
  max_zoom = null;
  include_attributes = null;
  exclude_attributes = null;
  densest = null;
  smallest = null;
  no_line_simplification = null;
  simplify_only_low_zooms = null;
  no_shared_node_simplification = null;
  no_tiny_polygon_reduction = null;
  no_point_dropping = null;
}

-- `if v is not None: out[k] = v`
abbrev put_some : String → Json → Fields → Fields
put_some k v rest = put_if (not (is_null v)) k v rest

pub to_dict : TileBuildOptions → Fields
to_dict o = put_some "min_zoom" o.min_zoom (
    put_some "max_zoom" o.max_zoom (
      put_some "include_attributes" o.include_attributes (
        put_some "exclude_attributes" o.exclude_attributes (
          put_some "densest" o.densest (
            put_some "smallest" o.smallest (
              put_some "no_line_simplification" o.no_line_simplification (
                put_some "simplify_only_low_zooms" o.simplify_only_low_zooms (
                  put_some "no_shared_node_simplification" o.no_shared_node_simplification (
                    put_some "no_tiny_polygon_reduction" o.no_tiny_polygon_reduction
                      (put_some "no_point_dropping" o.no_point_dropping end))))))))))

options_of : Fields → TileBuildOptions
options_of d = record {
  min_zoom = get d "min_zoom";
  max_zoom = get d "max_zoom";
  include_attributes = get d "include_attributes";
  exclude_attributes = get d "exclude_attributes";
  densest = get d "densest";
  smallest = get d "smallest";
  no_line_simplification = get d "no_line_simplification";
  simplify_only_low_zooms = get d "simplify_only_low_zooms";
  no_shared_node_simplification = get d "no_shared_node_simplification";
  no_tiny_polygon_reduction = get d "no_tiny_polygon_reduction";
  no_point_dropping = get d "no_point_dropping";
}

-- `if not d: return cls()`; `d.get` on what is no dictionary raises.
pub from_dict : Json → Option TileBuildOptions
from_dict (obj end) = some default_options
from_dict (obj d) = some (options_of d)
from_dict j = if to_bool j then none else some default_options

get_some : (v : Json) → value_or (if not (is_null v) then some v else none) null ≡ v
get_some v = ground arith

options_of-to_dict : (o : TileBuildOptions) → options_of (to_dict o) ≡ o
unfolding options_of to_dict
options_of-to_dict o = simp (lookups, get_some)

options_of-end : options_of end ≡ default_options
unfolding options_of lookup
options_of-end = refl

from_dict-to_dict : (o : TileBuildOptions) → from_dict (obj (to_dict o)) ≡ some o
unfolding from_dict
from_dict-to_dict o = from_entries (to_dict o) refl
  where
    from_entries : (d : Fields) → to_dict o ≡ d → from_dict (obj d) ≡ some o
    from_entries end e = ap some (sym options_of-end ∙ ap options_of (sym e) ∙ options_of-to_dict o)
    from_entries (field k v rest) e = ap some (ap options_of (sym e) ∙ options_of-to_dict o)

-- Empty options are left out, and read as the options that they are.
from_dict-left_out :
    (d : Fields)
    → from_dict (value_or (if to_bool (obj d) then some (obj d) else none) null) ≡ from_dict (obj d)
unfolding from_dict
from_dict-left_out end = refl
from_dict-left_out (field k v rest) = refl

pub record TileBuildPayload : Type 0 where
  pub collection_id : Json
  pub job_id : Json
  pub options : TileBuildOptions
  pub is_composite : Bool

-- `if opts: out["options"] = opts`
abbrev payload_fields : TileBuildPayload → Fields
payload_fields p = field "collection_id" p.collection_id (
    field "job_id" p.job_id (
      field "is_composite" (bool p.is_composite)
        (put_if (to_bool (obj (to_dict p.options))) "options" (obj (to_dict p.options)) end)))

abbrev payload_of : Fields → Option TileBuildPayload
payload_of d = do
  options ← from_dict (get d "options")
  collection_id ← lookup "collection_id" d
  job_id ← lookup "job_id" d
  some (record {
    collection_id = collection_id;
    job_id = job_id;
    options = options;
    is_composite = to_bool (get d "is_composite");
  })

module _ (codec : Codec) where
  open codec use {Wire, dumps, loads, loads-dumps}

  pub to_json : TileBuildPayload → Wire
  to_json p = dumps (obj (payload_fields p))

  pub from_json : Wire → Option TileBuildPayload
  from_json w = do j ← loads w; d ← fields j; payload_of d

  -- A tile build payload that is written to the queue is read back as it was, options included.
  pub from_json-to_json : (p : TileBuildPayload) → from_json (to_json p) ≡ some p
  unfolding from_json to_json
  from_json-to_json p = rw loads-dumps (simp (lookups, from_dict-left_out, from_dict-to_dict))
