-- ===== src/Composite/Members.antt =====
-- app/services/composite_collections.py: the check of a composite collection's members when it is
-- written. A member is its collection id. `db.get(Collection, cid)` is a parameter, read as the
-- row's collection type; the column is never null.
pub mod Valid
use geofastmap_api.Prelude.{
  String, Bool, true, false, not, Option, none, some, List, [], ◌∷◌, if◌then◌else◌, str_eq,
}

abbrev pub collection_type_vector : String
collection_type_vector = "vector"

abbrev pub collection_type_composite : String
collection_type_composite = "composite"

-- The details of the refusals; each is a 400.
pub data MembersError : Type 0 where
  requires_member : MembersError
  includes_itself : MembersError
  duplicate_member : String → MembersError
  not_found : String → MembersError
  nested_composite : String → MembersError
  not_vector : String → MembersError

-- `cid in seen`
pub is_seen : String → List String → Bool
is_seen cid [] = false
is_seen cid (s ∷ seen) = if str_eq s cid then true else is_seen cid seen

pub check_type : String → String → Option MembersError
check_type cid collection_type =
    if str_eq collection_type collection_type_composite
    then some (nested_composite cid)
    else if not (str_eq collection_type collection_type_vector)
    then some (not_vector cid)
    else none

pub check_row : String → Option String → Option MembersError
unfolding check_type
check_row cid none = some (not_found cid)
check_row cid (some collection_type) = check_type cid collection_type

-- The loop over the members; none where it ends without an error.
pub check_members :
    (String → Option String) → String → List String → List String → Option MembersError
unfolding is_seen check_row
check_members get composite_id seen [] = none
check_members get composite_id seen (cid ∷ members) =
    let rest = check_members get composite_id (cid ∷ seen) members in
    if str_eq cid composite_id
    then some includes_itself
    else if is_seen cid seen
    then some (duplicate_member cid)
    else elim (check_row cid (get cid)) [ some e ↦ some e | none ↦ rest ]

unfoldable pub validate_composite_members :
    (String → Option String) → String → List String → Option MembersError
unfolding check_members
validate_composite_members get composite_id [] = some requires_member
validate_composite_members get composite_id (cid ∷ members) =
    check_members get composite_id [] (cid ∷ members)
