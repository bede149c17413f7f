-- ===== src/Stac/Merge/Keys.antt =====
-- app/services/stac_federation.py: which features and errors a search over the catalogs gives.
use geofastmap_api.Prelude.{
  ℕ, ◌≡◌, refl, ap, sym, ◌∙◌, inl, inr, String, Bool, true, false, not, ◌&&◌, Option, none, some,
  List, [], ◌∷◌, ◌++◌, map, if◌then◌else◌, str_eq, eq_iff, eq_refl, is_some, arith, Bool-cases,
}
use mathlib.Core.List.{map-append}
use geofastmap_api.Json.{null, bool, num, real, str, arr, obj, Items, nil, cons, Fields}
use geofastmap_api.Stac.{Builtins, is_text_set}
use geofastmap_api.Stac.Requests.{search_bounds}
use geofastmap_api.Stac.Merge.{
  contains_key, dedupe_key, labelled, merge_features, part_features, merge_parts, StacCatalog,
  search_catalog, add_error, gather,
}

-- The entries of a list that are dictionaries, with the catalog's id.
abbrev pub entries_of : String → Items → List (String × Fields)
entries_of cat_id nil = []
entries_of cat_id (cons (obj f) fs) = (cat_id, f) ∷ entries_of cat_id fs
entries_of cat_id (cons v fs) = entries_of cat_id fs

abbrev pub entries : List (String × Option Fields) → List (String × Fields)
entries [] = []
entries ((cat_id, part) ∷ parts) = entries_of cat_id (part_features part) ++ entries parts

same_key :
    (j k : String) (ks : List String) → str_eq j k ≡ true → contains_key j ks ≡ contains_key k ks
same_key j k ks h = ap (λ i. contains_key i ks) ((eq_iff j k).0 h)

module _ (python : Builtins) where
  abbrev pub key_of : String × Fields → String
  key_of (cat_id, f) = dedupe_key python cat_id f

  -- The first entry of each key that was not seen, and the keys that are seen then.
  pub first_of_each : List (String × Fields) → List String → List (String × Fields)
  first_of_each [] seen = []
  first_of_each (e ∷ es) seen =
      let is_seen = contains_key (key_of e) seen in
      let rest = first_of_each es (if is_seen then seen else key_of e ∷ seen) in
      if is_seen then rest else e ∷ rest

  seen_after : List (String × Fields) → List String → List String
  seen_after [] seen = seen
  seen_after (e ∷ es) seen =
      seen_after es (if contains_key (key_of e) seen then seen else key_of e ∷ seen)

  seen_after-cons :
      (e : String × Fields) (es : List (String × Fields)) (seen : List String) (b : Bool)
      → contains_key (key_of e) seen ≡ b
      → seen_after (e ∷ es) seen ≡ seen_after es (if b then seen else key_of e ∷ seen)
  unfolding seen_after
  seen_after-cons e es seen b h = rw h refl

  abbrev pub with_label : String × Fields → Fields
  with_label (cat_id, f) = labelled python cat_id f

  merge_features_lem :
      (cat_id : String) (fs : Items) (seen : List String)
      → merge_features python cat_id fs seen ≡ (
        map with_label (first_of_each (entries_of cat_id fs) seen),
        seen_after (entries_of cat_id fs) seen,
      )
  unfolding merge_features first_of_each
  merge_features_lem cat_id nil seen = unfold seen_after in refl
  merge_features_lem cat_id (cons (obj f) fs) seen =
      elim (Bool-cases (contains_key (dedupe_key python cat_id f) seen)) [
        | inl old ↦
            rw
              (
                old,
                merge_features_lem cat_id fs seen,
                seen_after-cons (cat_id, f) (entries_of cat_id fs) seen true old,
              )
              refl
        | inr new ↦
            rw
              (
                new,
                merge_features_lem cat_id fs (dedupe_key python cat_id f ∷ seen),
                seen_after-cons (cat_id, f) (entries_of cat_id fs) seen false new,
              )
              refl
      ]
  merge_features_lem cat_id (cons null fs) seen = merge_features_lem cat_id fs seen
  merge_features_lem cat_id (cons (bool b) fs) seen = merge_features_lem cat_id fs seen
  merge_features_lem cat_id (cons (num n) fs) seen = merge_features_lem cat_id fs seen
  merge_features_lem cat_id (cons (real m e) fs) seen = merge_features_lem cat_id fs seen
  merge_features_lem cat_id (cons (str s) fs) seen = merge_features_lem cat_id fs seen
  merge_features_lem cat_id (cons (arr xs) fs) seen = merge_features_lem cat_id fs seen

  first_of_each-append :
      (es fs : List (String × Fields)) (seen : List String)
      → first_of_each (es ++ fs) seen
        ≡ first_of_each es seen ++ first_of_each fs (seen_after es seen)
  unfolding first_of_each seen_after
  first_of_each-append [] fs seen = refl
  first_of_each-append (e ∷ es) fs seen = elim (Bool-cases (contains_key (key_of e) seen)) [
    | inl old ↦ rw old (first_of_each-append es fs seen)
    | inr new ↦ rw new (ap (λ es'. e ∷ es') (first_of_each-append es fs (key_of e ∷ seen)))
  ]

  merge_parts_lem :
      (parts : List (String × Option Fields)) (seen : List String)
      → merge_parts python parts seen ≡ map with_label (first_of_each (entries parts) seen)
  unfolding merge_parts first_of_each
  merge_parts_lem [] seen = refl
  merge_parts_lem ((cat_id, part) ∷ parts) seen =
      let es = entries_of cat_id (part_features part) in
      rw
        (
          merge_features_lem cat_id (part_features part) seen,
          merge_parts_lem parts (seen_after es seen),
          first_of_each-append es (entries parts) seen,
        )
        (sym (
          map-append with_label (first_of_each es seen)
            (first_of_each (entries parts) (seen_after es seen))))

  abbrev pub keys_of : List (String × Fields) → List String
  keys_of [] = []
  keys_of (e ∷ es) = key_of e ∷ keys_of es

  abbrev pub AreDistinct : List String → Type 0
  AreDistinct [] = Unit {0}
  AreDistinct (k ∷ ks) = (contains_key k ks ≡ false) × AreDistinct ks

  first_of_each-keys :
      (k : String) (es : List (String × Fields)) (seen : List String)
      → contains_key k (keys_of (first_of_each es seen))
        ≡ contains_key k (keys_of es) && not (contains_key k seen)
  unfolding first_of_each
  first_of_each-keys k [] seen = refl
  first_of_each-keys k (e ∷ es) seen = elim (Bool-cases (contains_key (key_of e) seen)) [
    | inl old ↦ rw old (ground (arith, first_of_each-keys k es seen, same_key (key_of e) k seen))
    | inr new ↦
        rw new
          (ground (arith, first_of_each-keys k es (key_of e ∷ seen), same_key (key_of e) k seen))
  ]

  first_of_each-AreDistinct :
      (es : List (String × Fields)) (seen : List String)
      → AreDistinct (keys_of (first_of_each es seen))
  unfolding first_of_each
  first_of_each-AreDistinct [] seen = tt
  first_of_each-AreDistinct (e ∷ es) seen = elim (Bool-cases (contains_key (key_of e) seen)) [
    | inl old ↦ rw old (first_of_each-AreDistinct es seen)
    | inr new ↦ rw new (
      first_of_each-keys (key_of e) es (key_of e ∷ seen) ∙ rw (eq_refl (key_of e)) (ground arith),
      first_of_each-AreDistinct es (key_of e ∷ seen),
    )
  ]

  -- The merged features are, in their order and each with its catalog's label, the first entry of
  -- each key among the dictionaries in the lists of the catalogs that answered: no two have one key,
  -- and no key is missing.
  pub merge_parts-first :
      (parts : List (String × Option Fields))
      → let kept = first_of_each (entries parts) [] in
        (merge_parts python parts [] ≡ map with_label kept)
        × AreDistinct (keys_of kept)
        × ((k : String) → contains_key k (keys_of kept) ≡ contains_key k (keys_of (entries parts)))
  merge_parts-first parts = (
    merge_parts_lem parts [],
    first_of_each-AreDistinct (entries parts) [],
    λ k. ground (arith, first_of_each-keys k (entries parts) []),
  )

module _ (python : Builtins) (max_retries page_max : ℕ) where
  -- The ids of the catalogs with no answer.
  abbrev pub unanswered : List (String × Option Fields) → List String
  unanswered [] = []
  unanswered ((id, none) ∷ parts) = id ∷ unanswered parts
  unanswered ((id, some part) ∷ parts) = unanswered parts

  abbrev pub ids : List StacCatalog → List String
  ids [] = []
  ids (c ∷ cs) = c.id ∷ ids cs

  one_error :
      (id : String) (part : Option Fields) (error : Option String) (errors : List (String × String))
      (parts : List (String × Option Fields))
      → is_text_set error ≡ not (is_some part)
      → map (λ e. e.0) errors ≡ unanswered parts
      → map (λ e. e.0) (add_error python max_retries page_max id error errors)
        ≡ unanswered ((id, part) ∷ parts)
  unfolding add_error
  one_error id none none errors parts h ih = cc
  one_error id none (some e) errors parts h ih = rw h (ap (λ is. id ∷ is) ih)
  one_error id (some part) none errors parts h ih = ih
  one_error id (some part) (some e) errors parts h ih = rw h ih

  -- A search over the catalogs has one answer or none for each catalog, in their order, and lists an
  -- error for exactly those with none.
  pub gather-errors :
      (body : Fields) (catalogs : List StacCatalog)
      → let (parts, errors) = gather python max_retries page_max body catalogs in
        (map (λ p. p.0) parts ≡ ids catalogs) × (map (λ e. e.0) errors ≡ unanswered parts)
  unfolding gather search_catalog
  gather-errors body [] = (refl, refl)
  gather-errors body (c ∷ cs) =
      let (same, told) = gather-errors body cs in
      let (_, error_set) =
        search_bounds python c.upstream max_retries page_max c.search_url c.default_collections
          body in
      (ap (λ is. c.id ∷ is) same, one_error c.id _ _ _ _ error_set told)
