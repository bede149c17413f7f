-- ===== src/Access/Rules.antt =====
-- app/core/permissions.py: the checks against a list of the grounds for access.
use geofastmap_api.Prelude.{
  ℕ, String, ◌≡◌, ◌↔◌, ◌⊎◌, true, Option, none, some, arith, is_some_of, is_text, eq_iff, truthy,
}
use geofastmap_api.Access.{
  User, Collection, Db, visibility_public, visibility_logged, role_viewer, role_editor,
  resource_type_collection, resource_type_map, resource_type_style, resource_type_raster_view,
  style_resource_id, raster_style_resource_id, get_share_role, can_see_shared, row_or_none,
  can_see_collection, can_see_map, can_see_style, can_see_raster_style, can_see_raster_view,
}

-- A share row gives the user the role. A user with an empty name has no shares.
abbrev pub HasRole : Db → String → String → User → String → Type 0
HasRole db resource_type resource_id user role =
    (truthy user.username ≡ true)
    × (db.share_row resource_type resource_id user.username ≡ some role)

-- The grounds for seeing a resource.
abbrev pub Sees : Db → String → String → Option ℕ → String → Option User → Type 0
Sees db resource_type resource_id owner_id visibility none = visibility ≡ visibility_public
Sees db resource_type resource_id owner_id visibility (some user) =
    (user.is_admin ≡ true)
    ⊎ (visibility ≡ visibility_public)
    ⊎ (visibility ≡ visibility_logged)
    ⊎ (owner_id ≡ some user.id)
    ⊎ HasRole db resource_type resource_id user role_viewer
    ⊎ HasRole db resource_type resource_id user role_editor

pub is_text_iff : (o : Option String) (t : String) → (is_text o t ≡ true) ↔ (o ≡ some t)
is_text_iff none t = (λ h. cc, λ h. cc)
is_text_iff (some s) t = ground (arith, eq_iff s t)

pub is_some_of_iff : (o : Option ℕ) (n : ℕ) → (is_some_of o n ≡ true) ↔ (o ≡ some n)
is_some_of_iff none n = (λ h. cc, λ h. cc)
is_some_of_iff (some s) n = ground arith

row_or_none_iff :
    (o : Option String) (role : String)
    → truthy role ≡ true
    → (row_or_none o ≡ some role) ↔ (o ≡ some role)
row_or_none_iff none role t = (λ h. cc, λ h. cc)
row_or_none_iff (some s) role t = ground arith

pub HasRole-iff :
    (db : Db) (resource_type resource_id : String) (user : User) (role : String)
    → truthy role ≡ true
    → (is_text (get_share_role db resource_type resource_id user.username) role ≡ true)
      ↔ HasRole db resource_type resource_id user role
unfolding get_share_role
HasRole-iff db rt ri user role t =
    let row = db.share_row rt ri user.username in
    ground (arith, is_text_iff (row_or_none row) role, row_or_none_iff row role t)

Sees-iff :
    (db : Db) (resource_type resource_id : String) (owner_id : Option ℕ) (visibility : String)
    (user : Option User)
    → (can_see_shared db resource_type resource_id owner_id visibility user ≡ true)
      ↔ Sees db resource_type resource_id owner_id visibility user
unfolding can_see_shared
Sees-iff db rt ri owner_id visibility none = eq_iff visibility visibility_public
Sees-iff db rt ri owner_id visibility (some user) = ground (
  arith,
  eq_iff visibility visibility_public,
  eq_iff visibility visibility_logged,
  is_some_of_iff owner_id user.id,
  HasRole-iff db rt ri user role_viewer,
  HasRole-iff db rt ri user role_editor,
)

pub can_see_collection_iff :
    (db : Db) (c : Collection) (user : Option User)
    → (can_see_collection db c user ≡ true)
      ↔ Sees db resource_type_collection c.id c.owner_id c.visibility user
unfolding can_see_collection
can_see_collection_iff db c none = eq_iff c.visibility visibility_public
can_see_collection_iff db c (some user) = ground (
  arith,
  eq_iff c.visibility visibility_public,
  eq_iff c.visibility visibility_logged,
  is_some_of_iff c.owner_id user.id,
  HasRole-iff db resource_type_collection c.id user role_viewer,
  HasRole-iff db resource_type_collection c.id user role_editor,
)

-- A collection, map, style, raster style or raster view is seen exactly on one of the grounds of
-- `Sees`: by everybody where it is public; by a user who is an admin, where it is for logged-in
-- users, who owns it, or whose name is not empty and has a viewer's or editor's share of it, under
-- the resource type and id that the source gives that kind.
pub can_see_iff :
    (db : Db) (c : Collection) (owner_id : Option ℕ) (visibility id style_id : String)
    (user : Option User)
    → ((can_see_collection db c user ≡ true)
        ↔ Sees db resource_type_collection c.id c.owner_id c.visibility user)
      × ((can_see_map db owner_id visibility id user ≡ true)
          ↔ Sees db resource_type_map id owner_id visibility user)
      × ((can_see_style db owner_id visibility id style_id user ≡ true)
          ↔ Sees db resource_type_style (style_resource_id id style_id) owner_id visibility user)
      × ((can_see_raster_style db owner_id visibility id style_id user ≡ true)
          ↔ Sees db resource_type_style
              (raster_style_resource_id id style_id)
              owner_id
              visibility
              user)
      × ((can_see_raster_view db owner_id visibility id user ≡ true)
          ↔ Sees db resource_type_raster_view id owner_id visibility user)
unfolding can_see_map can_see_style can_see_raster_style can_see_raster_view
can_see_iff db c owner_id visibility id style_id user = (
  can_see_collection_iff db c user,
  Sees-iff db resource_type_map id owner_id visibility user,
  Sees-iff db resource_type_style (style_resource_id id style_id) owner_id visibility user,
  Sees-iff db resource_type_style (raster_style_resource_id id style_id) owner_id visibility user,
  Sees-iff db resource_type_raster_view id owner_id visibility user,
)
