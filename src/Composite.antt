-- ===== src/Composite.antt =====
-- app/services/composite_items.py: items of a composite collection, gathered from its members.
-- An id is the list of its code points. The members' features are what app/crud/features.py reads
-- from the database: parameters.
pub mod Ids
pub mod Members
pub mod Paging
use geofastmap_api.Prelude.{
  ℕ, ◌-◌, Bool, true, false, ◌&&◌, Option, none, some, List, [], ◌∷◌, ◌++◌, map, length, take,
  if◌then◌else◌, ◌==◌, leb,
}

abbrev pub Text : Type 0
Text = List ℕ

abbrev pub text_eq : Text → Text → Bool
text_eq [] [] = true
text_eq (c ∷ cs) (d ∷ ds) = c == d && text_eq cs ds
text_eq _ _ = false

abbrev pub composite_item_sep : ℕ
composite_item_sep = b':'

pub format_composite_item_id : Text → Text → Text
format_composite_item_id member_collection_id feature_id =
    member_collection_id ++ composite_item_sep ∷ feature_id

-- `item_id.partition(":")`, and none where there is no ":".
pub partition : Text → Option (Text × Text)
partition [] = none
partition (c ∷ cs) =
    let rest = partition cs in
    if c == composite_item_sep
    then some ([], cs)
    else elim rest [ none ↦ none | some (before, after) ↦ some (c ∷ before, after) ]

both_nonempty : Text → Text → Option (Text × Text)
both_nonempty [] feature_id = none
both_nonempty (c ∷ cs) [] = none
both_nonempty (c ∷ cs) (d ∷ ds) = some (c ∷ cs, d ∷ ds)

pub parse_composite_item_id : Text → Option (Text × Text)
unfolding partition both_nonempty
parse_composite_item_id item_id = elim (partition item_id) [
  | none ↦ none
  | some (member_id, feature_id) ↦ both_nonempty member_id feature_id
]

-- `mid in member_ids`
abbrev pub is_member : Text → List Text → Bool
is_member mid [] = false
is_member mid (m ∷ ms) = if text_eq m mid then true else is_member mid ms

-- The ids of the request, each with the members to look in.
parse_requested : List Text → Text → List (Text × Text)
parse_requested member_ids fid = elim (parse_composite_item_id fid) [
  | none ↦ map (λ mid. (mid, fid)) member_ids
  | some parsed ↦ parsed ∷ []
]

parsed_ids : List Text → List Text → List (Text × Text)
unfolding parse_requested
parsed_ids member_ids [] = []
parsed_ids member_ids (fid ∷ fids) = parse_requested member_ids fid ++ parsed_ids member_ids fids

module _ {Feature : Type 0} where
  tagged : Text → Option Feature → Option (Text × Feature)
  tagged mid none = none
  tagged mid (some f) = some (mid, f)

  -- The members in their order, the first that has the item.
  first_member : (Text → Text → Option Feature) → Text → List Text → Option (Text × Feature)
  first_member get_feature item_id [] = none
  first_member get_feature item_id (mid ∷ ms) =
      let rest = first_member get_feature item_id ms in
      elim (get_feature mid item_id) [ none ↦ rest | some f ↦ some (mid, f) ]

  -- `get_feature` is `features_crud.get_feature`: the feature of a collection with an id.
  pub get_composite_feature :
      (get_feature : Text → Text → Option Feature) → List Text → Text → Option (Text × Feature)
  unfolding tagged first_member
  get_composite_feature get_feature member_ids item_id = elim (parse_composite_item_id item_id) [
    | none ↦ first_member get_feature item_id member_ids
    | some (mid, fid) ↦ if is_member mid member_ids then tagged mid (get_feature mid fid) else none
  ]

  collect : (Text → Text → Option Feature) → List Text → List (Text × Text) → List (Text × Feature)
  collect get_feature member_ids [] = []
  collect get_feature member_ids ((mid, fid) ∷ rest) =
      let found = collect get_feature member_ids rest in
      if is_member mid member_ids
      then elim (get_feature mid fid) [ none ↦ found | some feat ↦ (mid, feat) ∷ found ]
      else found

  -- The branch of `list_composite_features_paginated` for a request with feature ids.
  pub list_by_ids :
      (get_feature : Text → Text → Option Feature)
      → List Text
      → List Text
      → ℕ
      → List (Text × Feature) × ℕ
  unfolding parsed_ids collect
  list_by_ids get_feature member_ids feature_ids limit =
      let out = collect get_feature member_ids (parsed_ids member_ids feature_ids) in
      (take limit out, length out)

  -- The branch for the order of ids with no filters: the loop over the members. `page` is
  -- `features_crud.list_features_paginated` of a member (its limit, then its offset), and
  -- `member_total` what the loop takes for the member's number of features.
  pub pages :
      (page : Text → ℕ → ℕ → List Feature)
      → (member_total : Text → ℕ) → List Text
      → ℕ
      → ℕ
      → List (Text × Feature)
  pages page member_total [] remaining_limit remaining_offset = []
  pages page member_total (mid ∷ ms) remaining_limit remaining_offset =
      let skipped =
        pages page member_total ms remaining_limit (remaining_offset - member_total mid) in
      let here = page mid remaining_limit remaining_offset in
      let rest = pages page member_total ms (remaining_limit - length here) 0 in
      if leb remaining_limit 0
      then []
      else if leb (member_total mid) remaining_offset
      then skipped
      else map (λ f. (mid, f)) here ++ rest
