-- ===== src/Composite/Ids.antt =====
-- app/services/composite_items.py: composite ids, and the items that they lead to.
use mathlib.Core.Option
use geofastmap_api.Prelude.{
  Bool, true, false, ◌≡◌, ◌≢◌, refl, inl, inr, Option, none, some, List, [], ◌∷◌, ◌++◌,
  if◌then◌else◌, ◌==◌, arith, Option-cases,
}
use geofastmap_api.Composite.{
  Text, text_eq, composite_item_sep, format_composite_item_id, partition, parse_composite_item_id,
  is_member, tagged, first_member, get_composite_feature,
}

-- No ":" in a text.
abbrev pub has_sep : Text → Bool
has_sep [] = false
has_sep (c ∷ cs) = if c == composite_item_sep then true else has_sep cs

partition-append :
    (m f : Text) → has_sep m ≡ false → partition (m ++ composite_item_sep ∷ f) ≡ some (m, f)
unfolding partition
partition-append [] f h = refl
partition-append (c ∷ cs) f h = ground (arith, partition-append cs f)

-- A composite id is parsed into the member and the feature that it was made of, where the member's
-- id has no ":" and neither is empty; the feature's id may hold any character.
pub parse-format :
    (member_id feature_id : Text)
    → has_sep member_id ≡ false
    → member_id ≢ []
    → feature_id ≢ []
    → parse_composite_item_id (format_composite_item_id member_id feature_id)
      ≡ some (member_id, feature_id)
unfolding parse_composite_item_id format_composite_item_id
parse-format [] f h m e = absurd (m refl)
parse-format (c ∷ cs) [] h m e = absurd (e refl)
parse-format (c ∷ cs) (d ∷ ds) h m e =
    rw (partition-append (c ∷ cs) (d ∷ ds) h, parse_composite_item_id)

text_eq_refl : (t : Text) → text_eq t t ≡ true
text_eq_refl [] = refl
text_eq_refl (c ∷ cs) = ground (arith, text_eq_refl cs)

tagged-eq-map :
    {Feature : Type 0} (mid : Text) (o : Option Feature)
    → tagged mid o ≡ Option.map (λ f. (mid, f)) o
unfolding tagged
tagged-eq-map mid none = refl
tagged-eq-map mid (some f) = refl

-- The composite id of a member's feature leads to that feature, where the member is one of the
-- composite's and has it; an id of a collection that is no member leads to nothing.
pub get-format :
    {Feature : Type 0} (get_feature : Text → Text → Option Feature) (member_ids : List Text)
    (member_id feature_id : Text)
    → has_sep member_id ≡ false
    → member_id ≢ []
    → feature_id ≢ []
    → get_composite_feature get_feature member_ids (format_composite_item_id member_id feature_id)
      ≡ (if is_member member_id member_ids
          then Option.map (λ f. (member_id, f)) (get_feature member_id feature_id)
          else none)
unfolding get_composite_feature
get-format get_feature member_ids member_id feature_id h m e =
    rw (parse-format member_id feature_id h m e, get_composite_feature)
      (ground (arith, tagged-eq-map member_id (get_feature member_id feature_id)))

abbrev Found :
    {Feature : Type 0} → (Text → Text → Option Feature) → List Text → Text → Feature → Type 0
Found get_feature member_ids mid f =
    (is_member mid member_ids ≡ true) × ((fid : Text) × (get_feature mid fid ≡ some f))

tagged-Found :
    {Feature : Type 0} (get_feature : Text → Text → Option Feature) (member_ids : List Text)
    (m fid mid : Text) (f : Feature)
    → (if is_member m member_ids then tagged m (get_feature m fid) else none) ≡ some (mid, f)
    → Found get_feature member_ids mid f
unfolding tagged
tagged-Found get_feature member_ids m fid mid f h =
    let same : m ≡ mid = ground arith in
    (rw (← same) (ground arith), (fid, rw (← same) (ground arith)))

first_member-Found :
    {Feature : Type 0} (get_feature : Text → Text → Option Feature) (item_id : Text)
    (member_ids : List Text) (mid : Text) (f : Feature)
    → first_member get_feature item_id member_ids ≡ some (mid, f)
    → Found get_feature member_ids mid f
unfolding first_member
first_member-Found get_feature item_id [] mid f h = cc
first_member-Found get_feature item_id (m ∷ ms) mid f h =
    elim (Option-cases (get_feature m item_id)) [
      | inl e ↦
          let (member, found) =
            first_member-Found get_feature item_id ms mid f (rw (e, first_member) at h) in
          (ground arith, found)
      | inr (g, e) ↦
          let same : m ≡ mid = ground arith in
          (rw (← same, text_eq_refl m), (item_id, rw (← same) (ground arith)))
    ]

-- What is found for any id belongs to one of the members, and is what that member holds under some
-- id: nothing outside the composite is ever shown.
pub get-is_member :
    {Feature : Type 0} (get_feature : Text → Text → Option Feature) (member_ids : List Text)
    (item_id mid : Text) (f : Feature)
    → get_composite_feature get_feature member_ids item_id ≡ some (mid, f)
    → (is_member mid member_ids ≡ true) × ((fid : Text) × (get_feature mid fid ≡ some f))
unfolding get_composite_feature
get-is_member get_feature member_ids item_id mid f h =
    elim (Option-cases (parse_composite_item_id item_id)) [
      | inl e ↦
          first_member-Found get_feature item_id member_ids mid f
            (rw (e, get_composite_feature) at h)
      | inr ((m, fid), e) ↦
          tagged-Found get_feature member_ids m fid mid f (rw (e, get_composite_feature) at h)
    ]
