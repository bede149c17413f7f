-- ===== src/Composite/Members/Valid.antt =====
-- app/services/composite_collections.py: which member lists the check of the members accepts.
use geofastmap_api.Prelude.{
  String, true, false, ◌≡◌, ◌≢◌, ◌↔◌, refl, Option, none, some, List, [], ◌∷◌, str_eq, eq_iff,
  arith,
}
use geofastmap_api.Composite.Members.{
  collection_type_vector, collection_type_composite, is_seen, check_type, check_row, check_members,
  validate_composite_members,
}

-- A member is another collection than the composite, exists, and is a vector collection.
abbrev pub IsMember : (String → Option String) → String → String → Type 0
IsMember get composite_id cid = (cid ≢ composite_id) × (get cid ≡ some collection_type_vector)

abbrev pub AllMembers : (String → Option String) → String → List String → Type 0
AllMembers get composite_id [] = Unit {0}
AllMembers get composite_id (cid ∷ members) =
    IsMember get composite_id cid × AllMembers get composite_id members

abbrev pub Absent : String → List String → Type 0
Absent cid [] = Unit {0}
Absent cid (m ∷ members) = (cid ≢ m) × Absent cid members

abbrev pub IsDistinct : List String → Type 0
IsDistinct [] = Unit {0}
IsDistinct (cid ∷ members) = Absent cid members × IsDistinct members

abbrev Unseen : List String → List String → Type 0
Unseen seen [] = Unit {0}
Unseen seen (cid ∷ members) = (is_seen cid seen ≡ false) × Unseen seen members

is_seen-cons_iff :
    (cid s : String) (seen : List String)
    → (is_seen cid (s ∷ seen) ≡ false) ↔ ((s ≢ cid) × (is_seen cid seen ≡ false))
unfolding is_seen
is_seen-cons_iff cid s seen = ground (arith, eq_iff s cid)

Unseen-cons_iff :
    (cid : String) (seen members : List String)
    → Unseen (cid ∷ seen) members ↔ (Absent cid members × Unseen seen members)
Unseen-cons_iff cid seen [] = ground arith
Unseen-cons_iff cid seen (m ∷ members) =
    ground (arith, is_seen-cons_iff m cid seen, Unseen-cons_iff cid seen members)

Unseen-nil : (members : List String) → Unseen [] members
unfolding is_seen
Unseen-nil [] = tt
Unseen-nil (m ∷ members) = (refl, Unseen-nil members)

composite-is_no_vector :
    (t : String)
    → str_eq t collection_type_composite ≡ true
    → str_eq t collection_type_vector ≡ false
composite-is_no_vector t h = rw ((eq_iff t collection_type_composite).0 h) refl

check_row_iff :
    (cid : String) (row : Option String)
    → (check_row cid row ≡ none) ↔ (row ≡ some collection_type_vector)
unfolding check_row check_type
check_row_iff cid none = (λ h. cc, λ h. cc)
check_row_iff cid (some t) =
    ground (arith, eq_iff t collection_type_vector, composite-is_no_vector t)

check_members_iff :
    (get : String → Option String) (composite_id : String) (seen members : List String)
    → (check_members get composite_id seen members ≡ none)
      ↔ (AllMembers get composite_id members × IsDistinct members × Unseen seen members)
unfolding check_members
check_members_iff get composite_id seen [] = ground arith
check_members_iff get composite_id seen (cid ∷ members) = ground (
  arith,
  eq_iff cid composite_id,
  check_row_iff cid (get cid),
  Unseen-cons_iff cid seen members,
  check_members_iff get composite_id (cid ∷ seen) members,
)

-- The members of a composite are accepted exactly where there is one at least, no two of them are
-- the same, and each is another collection than the composite, exists, and is a vector collection.
pub validate_composite_members_iff :
    (get : String → Option String) (composite_id : String) (members : List String)
    → (validate_composite_members get composite_id members ≡ none)
      ↔ ((members ≢ []) × AllMembers get composite_id members × IsDistinct members)
unfolding validate_composite_members
validate_composite_members_iff get composite_id [] = (λ h. cc, λ h. absurd (h.0 refl))
validate_composite_members_iff get composite_id (cid ∷ members) =
    let loop = check_members_iff get composite_id [] (cid ∷ members) in
    (λ h. (λ e. cc, (loop.0 h).0, (loop.0 h).1), λ h. loop.1 (h.1, h.2, Unseen-nil (cid ∷ members)))
