-- ===== src/Stac/Merge.antt =====
-- app/services/stac_federation.py: the answers of the catalogs are merged into one collection, and
-- the errors are listed.
pub mod Keys
use Prim.Native.String.{◌++◌ as str_append}
use geofastmap_api.Prelude.{
  ℕ, zero, suc, pos, String, Bool, true, false, not, ◌&&◌, Option, none, some, List, [], ◌∷◌, ◌++◌,
  if◌then◌else◌, str_eq, truthy, is_some,
}
use geofastmap_api.Json.{
  Json, null, num, str, arr, obj, Items, nil, cons, Fields, end, field, to_bool, or_else, lookup,
  get,
}
use geofastmap_api.Stac.{
  Builtins, Upstream, str_of, features_of, set_field, remove_field, count_items,
  post_search_with_retries,
}

abbrev pub contains_key : String → List String → Bool
contains_key k [] = false
contains_key k (j ∷ js) = if str_eq j k then true else contains_key k js

abbrev pub part_features : Option Fields → Items
part_features none = nil
part_features (some part) = features_of part

module _ (python : Builtins) where
  -- `f"{cat_id}:{fid}"` with `fid = f.get("id") or ""`
  pub dedupe_key : String → Fields → String
  dedupe_key cat_id f =
      str_append cat_id (str_append ":" (str_of python (or_else (get f "id") (str ""))))

  abbrev pub dict_or_empty : Json → Fields
  dict_or_empty (obj d) = d
  dict_or_empty v = end

  with_collection : Fields → Fields → Fields
  with_collection f props =
      if to_bool (get f "collection") && not (is_some (lookup "collection" props))
      then set_field "collection" (get f "collection") props
      else props

  -- The feature with its catalog's id, and its collection, among the properties.
  pub labelled : String → Fields → Fields
  unfolding with_collection set_field
  labelled cat_id f =
      set_field "properties"
        (obj (
          set_field "geofast:sourceCatalog" (str cat_id)
            (with_collection f (dict_or_empty (get f "properties")))))
        f

  -- The features of one catalog, after the keys that were seen: what is added, and the keys then.
  pub merge_features : String → Items → List String → List Fields × List String
  unfolding dedupe_key labelled
  merge_features cat_id nil seen = ([], seen)
  merge_features cat_id (cons (obj f) fs) seen =
      let is_new = not (contains_key (dedupe_key cat_id f) seen) in
      let (features, seen') =
        merge_features cat_id fs (if is_new then dedupe_key cat_id f ∷ seen else seen) in
      (if is_new then labelled cat_id f ∷ features else features, seen')
  merge_features cat_id (cons v fs) seen = merge_features cat_id fs seen

  pub merge_parts : List (String × Option Fields) → List String → List Fields
  unfolding merge_features
  merge_parts [] seen = []
  merge_parts ((cat_id, part) ∷ parts) seen =
      let (features, seen') = merge_features cat_id (part_features part) seen in
      features ++ merge_parts parts seen'

  to_items : List Fields → Items
  to_items [] = nil
  to_items (f ∷ fs) = cons (obj f) (to_items fs)

  -- The merged collection of features that are there.
  pub merge_item_collections : List (String × Option Fields) → Fields
  unfolding merge_parts to_items count_items
  merge_item_collections parts =
      let features = to_items (merge_parts parts []) in
      field "type" (str "FeatureCollection") (
        field "features" (arr features) (
          field "numberMatched" (num (pos (count_items features)))
            (field "numberReturned" (num (pos (count_items features))) end)))

pub record StacCatalog : Type 0 where
  pub id : String
  pub search_url : String
  pub default_collections : Json
  -- What it replies to.
  pub upstream : Upstream

module _ (python : Builtins) (max_retries page_max : ℕ) where
  -- The keys for this server are taken out of the body.
  stac_body : Fields → Fields
  stac_body body = remove_field "geofast_catalog_ids" (remove_field "catalog_ids" body)

  pub search_catalog : Fields → StacCatalog → Option Fields × Option String × ℕ
  unfolding post_search_with_retries
  search_catalog body c =
      post_search_with_retries python c.upstream max_retries page_max c.search_url
        c.default_collections body

  add_error : String → Option String → List (String × String) → List (String × String)
  add_error id none errors = errors
  add_error id (some e) errors = if truthy e then (id, e) ∷ errors else errors

  -- The answers and the errors, by the ids of the catalogs, in their order.
  pub gather : Fields → List StacCatalog → List (String × Option Fields) × List (String × String)
  unfolding search_catalog add_error
  gather body [] = ([], [])
  gather body (c ∷ cs) =
      let (part, error, sent) = search_catalog body c in
      let (parts, errors) = gather body cs in ((c.id, part) ∷ parts, add_error c.id error errors)

  pub federated_search : List StacCatalog → Fields → Fields × List (String × String)
  unfolding stac_body gather merge_item_collections
  federated_search catalogs body =
      let (parts, errors) = gather (stac_body body) catalogs in
      (merge_item_collections python parts, errors)
