-- ===== src/Examples/Composite.antt =====
-- app/services/composite_items.py and composite_collections.py: a composite of two members, "a" with two items and "b" with one.
use geofastmap_api.Prelude.{
  ℕ, String, str_eq, eq_iff, ◌≡◌, refl, Option, false, ◌≢◌, none, some, List, [], ◌∷◌, length, take,
  drop, if◌then◌else◌, arith,
}
use geofastmap_api.Composite.{Text, text_eq, pages}
use geofastmap_api.Composite.Members.{
  nested_composite, duplicate_member, validate_composite_members,
}
use geofastmap_api.Composite.Members.Valid.{validate_composite_members_iff}
use geofastmap_api.Composite.Paging.{pages-eq-take-drop}

abbrev a : Text
a = b'a' ∷ []

abbrev b : Text
b = b'b' ∷ []

abbrev x : Text
x = b'x' ∷ []

abbrev members : List Text
members = a ∷ b ∷ []

abbrev rows : Text → List ℕ
rows mid = if text_eq mid a then 1 ∷ 2 ∷ [] else 3 ∷ []

abbrev page : Text → ℕ → ℕ → List ℕ
page mid limit offset = take limit (drop offset (rows mid))

abbrev get_feature : Text → Text → Option ℕ
get_feature mid fid = if text_eq mid b then some 3 else none

pages-eq-take-drop_example :
    pages page (λ mid. length (rows mid)) members 2 1 ≡ (a, 2) ∷ (b, 3) ∷ []
pages-eq-take-drop_example =
    pages-eq-take-drop rows page (λ mid. length (rows mid)) (λ mid limit offset. refl) (λ mid. refl)
      members 2 1

-- "roads" and "rivers" are vector collections, "all" is the composite.
abbrev collection_type : String → Option String
collection_type cid =
    if str_eq cid "roads"
    then some "vector"
    else if str_eq cid "rivers"
    then some "vector"
    else if str_eq cid "all"
    then some "composite"
    else none

differs : (s t : String) → str_eq s t ≡ false → s ≢ t
differs s t h = ground (arith, eq_iff s t)

validate_composite_members_example :
    validate_composite_members collection_type "all" ("roads" ∷ "rivers" ∷ []) ≡ none
validate_composite_members_example =
    (validate_composite_members_iff collection_type "all" ("roads" ∷ "rivers" ∷ [])).1 (
      λ e. cc,
      ((differs "roads" "all" refl, refl), ((differs "rivers" "all" refl, refl), tt)),
      ((differs "roads" "rivers" refl, tt), (tt, tt)),
    )

repeated_member :
    validate_composite_members collection_type "all" ("roads" ∷ "roads" ∷ [])
    ≡ some (duplicate_member "roads")
unfolding validate_composite_members
repeated_member = refl

nested_member :
    validate_composite_members collection_type "world" ("roads" ∷ "all" ∷ [])
    ≡ some (nested_composite "all")
unfolding validate_composite_members
nested_member = refl
