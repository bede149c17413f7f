-- ===== src/Access/Edits.antt =====
-- app/core/permissions.py: who may edit, against the grounds for it.
use geofastmap_api.Prelude.{
  ℕ, String, ◌≡◌, refl, ◌≢◌, ◌↔◌, ◌⊎◌, inl, inr, Bool, true, false, ◌&&◌, Option, none, some, arith,
  subst, truthy, if◌then◌else◌, and-eq_left,
}
use geofastmap_api.Access.{
  User, Collection, Db, role_editor, resource_type_collection, resource_type_map,
  resource_type_style, resource_type_raster_view, style_resource_id, can_edit_shared,
  can_see_collection, can_edit_collection, can_see_map, can_edit_map, can_see_style, can_edit_style,
  can_see_raster_view, can_edit_raster_view, map_by_viewers, map_lookup, map_editable_by_viewers,
}
use geofastmap_api.Access.Rules.{HasRole, Sees, is_some_of_iff, HasRole-iff, can_see_iff}

-- The grounds for editing that need no visibility.
abbrev pub Edits : Db → String → String → Option ℕ → Option User → Type 0
Edits db resource_type resource_id owner_id none = ⊥
Edits db resource_type resource_id owner_id (some user) =
    (user.is_admin ≡ true)
    ⊎ (owner_id ≡ some user.id)
    ⊎ HasRole db resource_type resource_id user role_editor

-- The visibility and the flag that `can_edit_map` judges by: those that it is given, and where one
-- is missing those of the map's row.
abbrev pub MapIsOpen : Db → String → Option String → Option Bool → String → Type 0
MapIsOpen db map_id map_visibility viewer_can_edit visibility =
    ((map_visibility ≡ some visibility) × (viewer_can_edit ≡ some true))
    ⊎ (((map_visibility ≡ none) ⊎ (viewer_can_edit ≡ none))
        × ((uid : ℕ) × (db.uuid map_id ≡ some uid) × (db.map_row uid ≡ some (visibility, true))))

-- The visibility that is judged by is not empty, and shows the map to the user.
abbrev pub IsOpenTo : Db → Option ℕ → String → Option String → Option Bool → Option User → Type 0
IsOpenTo db owner_id map_id map_visibility viewer_can_edit none = ⊥
IsOpenTo db owner_id map_id map_visibility viewer_can_edit (some user) =
    (visibility : String) × MapIsOpen db map_id map_visibility viewer_can_edit visibility
    × (truthy visibility ≡ true)
    × Sees db resource_type_map map_id owner_id visibility (some user)

Edits-iff :
    (db : Db) (resource_type resource_id : String) (owner_id : Option ℕ) (user : Option User)
    → (can_edit_shared db resource_type resource_id owner_id user ≡ true)
      ↔ Edits db resource_type resource_id owner_id user
unfolding can_edit_shared
Edits-iff db rt ri owner_id none = (λ h. cc, λ h. absurd h)
Edits-iff db rt ri owner_id (some user) =
    ground (arith, is_some_of_iff owner_id user.id, HasRole-iff db rt ri user role_editor)

can_edit_collection_iff :
    (db : Db) (c : Collection) (user : Option User)
    → (can_edit_collection db c user ≡ true) ↔ (
        Edits db resource_type_collection c.id c.owner_id user
        ⊎ ((c.viewer_can_edit ≡ true) × (can_see_collection db c user ≡ true) × (user ≢ none)))
unfolding can_edit_collection
can_edit_collection_iff db c none = (λ h. cc, λ h. ground arith)
can_edit_collection_iff db c (some user) = ground (
  arith,
  is_some_of_iff c.owner_id user.id,
  HasRole-iff db resource_type_collection c.id user role_editor,
)

module _ (db : Db) (owner_id : Option ℕ) (map_id : String) (user : User) where
  Sees-map :
      (v : String)
      → (can_see_map db owner_id v map_id (some user) ≡ true)
        ↔ Sees db resource_type_map map_id owner_id v (some user)
  Sees-map v =
      (can_see_iff db
        (record { id = ""; owner_id = none; visibility = ""; viewer_can_edit = false }) owner_id v
        map_id "" (some user)).1

  open_given :
      (vis : Option String) (vce : Option Bool)
      → map_editable_by_viewers db owner_id map_id (some user) vis vce ≡ true
      → (v : String) × (vis ≡ some v)
        × (vce ≡ some true)
        × (truthy v ≡ true)
        × Sees db resource_type_map map_id owner_id v (some user)
  unfolding map_editable_by_viewers
  open_given (some v) (some true) h = (v, refl, refl, ground arith, (Sees-map v).0 (ground arith))
  open_given (some v) (some false) h = cc
  open_given (some v) none h = cc
  open_given none vce h = cc

  row_open :
      (vis : Option String) (vce : Option Bool) (uid : ℕ)
      → (vis ≡ none) ⊎ (vce ≡ none)
      → db.uuid map_id ≡ some uid
      → (row : Option (String × Bool)) → db.map_row uid ≡ row
      → map_lookup db owner_id map_id (some user) vis vce (some uid) ≡ true
      → IsOpenTo db owner_id map_id vis vce (some user)
  unfolding map_lookup
  row_open vis vce uid missing known none e h =
      let (v, p, q, t, s) = open_given vis vce (rw (e, map_lookup) at h) in absurd (ground arith)
  row_open vis vce uid missing known (some (v, b)) e h =
      let (v', p, q, t, s) = open_given (some v) (some b) (rw (e, map_lookup) at h) in
      (v', inr (missing, (uid, known, ground arith)), t, s)

  lookup_open :
      (vis : Option String) (vce : Option Bool)
      → (vis ≡ none) ⊎ (vce ≡ none)
      → (found : Option ℕ) → db.uuid map_id ≡ found
      → map_lookup db owner_id map_id (some user) vis vce found ≡ true
      → IsOpenTo db owner_id map_id vis vce (some user)
  lookup_open vis vce missing none e h = unfold map_lookup in cc
  lookup_open vis vce missing (some uid) e h = row_open vis vce uid missing e _ refl h

  open_to :
      (vis : Option String) (vce : Option Bool)
      → map_by_viewers db owner_id map_id (some user) vis vce ≡ true
      → IsOpenTo db owner_id map_id vis vce (some user)
  unfolding map_by_viewers
  open_to (some v) (some b) h =
      let (v', p, q, t, s) = open_given (some v) (some b) h in (v', inl (p, q), t, s)
  open_to (some v) none h = lookup_open (some v) none (inr refl) _ refl h
  open_to none vce h = lookup_open none vce (inl refl) _ refl h

  opened :
      (vis : Option String) (vce : Option Bool)
      → IsOpenTo db owner_id map_id vis vce (some user)
      → map_by_viewers db owner_id map_id (some user) vis vce ≡ true
  unfolding map_by_viewers map_lookup map_editable_by_viewers
  opened (some w) (some b) (v, o, t, s) = ground (arith, Sees-map v)
  opened (some w) none (v, o, t, s) = ground (arith, Sees-map v)
  opened none vce (v, o, t, s) = ground (arith, Sees-map v)

grounds_iff :
    {a b c d : Bool} {B C D : Type 0}
    → (b ≡ true) ↔ B
    → (c ≡ true) ↔ C
    → (d ≡ true) ↔ D
    → ((if a then true else if b then true else if c then true else d) ≡ true)
      ↔ (((a ≡ true) ⊎ B ⊎ C) ⊎ D)
grounds_iff {a = true} p q r = (λ h. inl (inl refl), λ h. refl)
grounds_iff {a = false} {b = true} p q r = (λ h. inl (inr (inl (p.0 refl))), λ h. refl)
grounds_iff {a = false} {b = false} {c = true} p q r = (λ h. inl (inr (inr (q.0 refl))), λ h. refl)
grounds_iff {a = false} {b = false} {c = false} p q r = (
  λ h. inr (r.0 h),
  λ h. elim h [
    | inl (inl e) ↦ cc
    | inl (inr (inl x)) ↦ let e = p.1 x in cc
    | inl (inr (inr x)) ↦ let e = q.1 x in cc
    | inr x ↦ r.1 x
  ],
)

can_edit_map_iff :
    (db : Db) (owner_id : Option ℕ) (id : String) (user : Option User) (vis : Option String)
    (vce : Option Bool)
    → (can_edit_map db owner_id id user vis vce ≡ true)
      ↔ (Edits db resource_type_map id owner_id user ⊎ IsOpenTo db owner_id id vis vce user)
unfolding can_edit_map
can_edit_map_iff db owner_id id none vis vce = (λ h. cc, λ h. ground arith)
can_edit_map_iff db owner_id id (some user) vis vce =
    grounds_iff (is_some_of_iff owner_id user.id)
      (HasRole-iff db resource_type_map id user role_editor refl)
      (open_to db owner_id id user vis vce, opened db owner_id id user vis vce)

-- A collection is edited exactly on a ground of `Edits` (an admin, its owner, or a user whose name
-- is not empty and has an editor's share), or where viewers may edit it, by a logged-in user who
-- sees it. A map is edited exactly on a ground of `Edits`, or by a logged-in user where the
-- visibility and flag that are given, or where one is missing those of the map's row, open it to
-- viewers and the visibility is not empty and shows the map to that user. A style and a raster
-- view are edited exactly on a ground of `Edits`. Without a user nothing is edited.
pub can_edit_iff :
    (db : Db) (c : Collection) (owner_id : Option ℕ) (id style_id : String) (vis : Option String)
    (vce : Option Bool) (user : Option User)
    → ((can_edit_collection db c user ≡ true) ↔ (
        Edits db resource_type_collection c.id c.owner_id user
        ⊎ ((c.viewer_can_edit ≡ true) × (can_see_collection db c user ≡ true) × (user ≢ none))))
      × ((can_edit_map db owner_id id user vis vce ≡ true)
          ↔ (Edits db resource_type_map id owner_id user ⊎ IsOpenTo db owner_id id vis vce user))
      × ((can_edit_style db owner_id id style_id user ≡ true)
          ↔ Edits db resource_type_style (style_resource_id id style_id) owner_id user)
      × ((can_edit_raster_view db owner_id id user ≡ true)
          ↔ Edits db resource_type_raster_view id owner_id user)
unfolding can_edit_style can_edit_raster_view
can_edit_iff db c owner_id id style_id vis vce user = (
  can_edit_collection_iff db c user,
  can_edit_map_iff db owner_id id user vis vce,
  Edits-iff db resource_type_style (style_resource_id id style_id) owner_id user,
  Edits-iff db resource_type_raster_view id owner_id user,
)

Edits-Sees :
    (db : Db) (rt ri : String) (owner_id : Option ℕ) (visibility : String) (user : Option User)
    → Edits db rt ri owner_id user
    → Sees db rt ri owner_id visibility user
Edits-Sees db rt ri owner_id visibility (some user) h = ground arith
Edits-Sees db rt ri owner_id visibility none h = absurd h

open_visibility :
    (db : Db) (owner_id : Option ℕ) (visibility id : String) (vis : Option String)
    (vce : Option Bool) (user : Option User)
    → (vis ≡ none) ⊎ (vis ≡ some visibility)
    → ((uid : ℕ) → db.uuid id ≡ some uid → (b : Bool) × (db.map_row uid ≡ some (visibility, b)))
    → IsOpenTo db owner_id id vis vce user
    → Sees db resource_type_map id owner_id visibility user
open_visibility db owner_id visibility id vis vce none given row h = absurd h
open_visibility db owner_id visibility id vis vce (some user) given row (v, inl o, t, s) =
    let same : v ≡ visibility = ground arith in
    subst (λ w. Sees db resource_type_map id owner_id w (some user)) same s
open_visibility db owner_id visibility id vis vce (some user) given row
      (v, inr (m, (uid, e, r)), t, s) =
    let (b, r') = row uid e in
    let same : v ≡ visibility = ground arith in
    subst (λ w. Sees db resource_type_map id owner_id w (some user)) same s

-- Who edits a resource also sees it: a collection; a style, a raster view, at any visibility; and
-- a map at the visibility that its row has, where `can_edit_map` is given that one or none.
pub can_edit-can_see :
    (db : Db) (c : Collection) (owner_id : Option ℕ) (visibility id style_id : String)
    (vis : Option String) (vce : Option Bool) (user : Option User)
    → (vis ≡ none) ⊎ (vis ≡ some visibility)
    → ((uid : ℕ) → db.uuid id ≡ some uid → (b : Bool) × (db.map_row uid ≡ some (visibility, b)))
    → (can_edit_collection db c user && can_see_collection db c user
        ≡ can_edit_collection db c user)
      × (can_edit_map db owner_id id user vis vce && can_see_map db owner_id visibility id user
          ≡ can_edit_map db owner_id id user vis vce)
      × (can_edit_style db owner_id id style_id user
            && can_see_style db owner_id visibility id style_id user
          ≡ can_edit_style db owner_id id style_id user)
      × (can_edit_raster_view db owner_id id user
            && can_see_raster_view db owner_id visibility id user
          ≡ can_edit_raster_view db owner_id id user)
can_edit-can_see db c owner_id visibility id style_id vis vce user given row =
    let (edits_c, edits_m, edits_s, edits_v) =
      can_edit_iff db c owner_id id style_id vis vce user in
    let (sees_c, sees_m, sees_s, _, sees_v) =
      can_see_iff db c owner_id visibility id style_id user in
    (
      and-eq_left _ _ (λ h. elim (edits_c.0 h) [
        | inl e ↦ sees_c.1 (Edits-Sees db _ _ _ _ user e)
        | inr (_, e, _) ↦ e
      ]),
      and-eq_left _ _ (λ h. elim (edits_m.0 h) [
        | inl e ↦ sees_m.1 (Edits-Sees db _ _ _ _ user e)
        | inr o ↦ sees_m.1 (open_visibility db owner_id visibility id vis vce user given row o)
      ]),
      and-eq_left _ _ (λ h. sees_s.1 (Edits-Sees db _ _ _ _ user (edits_s.0 h))),
      and-eq_left _ _ (λ h. sees_v.1 (Edits-Sees db _ _ _ _ user (edits_v.0 h))),
    )
