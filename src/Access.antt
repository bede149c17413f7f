-- ===== src/Access.antt =====
-- app/core/permissions.py: who may see and who may edit a collection, map, style or raster view.
-- The database is what the queries answer: an argument `Db` of every check.
pub mod Rules
pub mod Edits
pub mod Shares
use geofastmap_api.Prelude.{
  ℕ, String, Bool, true, false, ◌&&◌, ◌||◌, Option, none, some, if◌then◌else◌, is_some_of, is_text,
  str_eq, truthy,
}
use Prim.Native.String.{◌++◌}

abbrev pub visibility_public : String
visibility_public = "public"

abbrev pub visibility_logged : String
visibility_logged = "logged"

abbrev pub resource_type_collection : String
resource_type_collection = "collection"

abbrev pub resource_type_map : String
resource_type_map = "map"

abbrev pub resource_type_style : String
resource_type_style = "style"

abbrev pub resource_type_raster_view : String
resource_type_raster_view = "raster_view"

abbrev pub role_viewer : String
role_viewer = "viewer"

abbrev pub role_editor : String
role_editor = "editor"

pub record User : Type 0 where
  pub id : ℕ
  pub username : String
  pub is_admin : Bool

pub record Collection : Type 0 where
  pub id : String
  pub owner_id : Option ℕ
  pub visibility : String
  pub viewer_can_edit : Bool

-- What the database answers: the role of a share row, the number that `UUID(map_id)` reads (none
-- where it raises ValueError), and a map's visibility and viewer_can_edit by that number.
pub record Db : Type 0 where
  pub share_row : (resource_type resource_id username : String) → Option String
  pub uuid : String → Option ℕ
  pub map_row : ℕ → Option (String × Bool)

unfoldable pub style_resource_id : String → String → String
style_resource_id collection_id style_id = collection_id ++ (":" ++ style_id)

unfoldable pub raster_style_resource_id : String → String → String
raster_style_resource_id collection_id style_id = "raster:" ++ (collection_id ++ (":" ++ style_id))

-- `row if row else None`
abbrev row_or_none : Option String → Option String
row_or_none none = none
row_or_none (some role) = if truthy role then some role else none

unfoldable pub get_share_role : Db → String → String → String → Option String
get_share_role db resource_type resource_id username =
    if truthy username then row_or_none (db.share_row resource_type resource_id username) else none

-- `role in (ROLE_VIEWER, ROLE_EDITOR)`
abbrev pub is_viewer_or_editor : Option String → Bool
is_viewer_or_editor role = is_text role role_viewer || is_text role role_editor

visible_to_anon : String → Bool
visible_to_anon visibility = str_eq visibility visibility_public

visible_to_logged : String → Bool
visible_to_logged visibility =
    str_eq visibility visibility_public || str_eq visibility visibility_logged

pub can_see_collection : Db → Collection → Option User → Bool
unfolding visible_to_anon visible_to_logged
can_see_collection db c none = visible_to_anon c.visibility
can_see_collection db c (some user) =
    if user.is_admin
    then true
    else if visible_to_anon c.visibility
    then true
    else if visible_to_logged c.visibility
    then true
    else if is_some_of c.owner_id user.id
    then true
    else is_viewer_or_editor (get_share_role db resource_type_collection c.id user.username)

pub can_edit_collection : Db → Collection → Option User → Bool
can_edit_collection db c none = false
can_edit_collection db c (some user) =
    if user.is_admin
    then true
    else if is_some_of c.owner_id user.id
    then true
    else if is_text (get_share_role db resource_type_collection c.id user.username) role_editor
    then true
    else c.viewer_can_edit && can_see_collection db c (some user)

-- The rule that maps, styles, raster styles and raster views share, with the share's key as
-- parameters: the four checks of the source are the same text over it.
can_see_shared : Db → String → String → Option ℕ → String → Option User → Bool
can_see_shared db resource_type resource_id owner_id visibility none =
    str_eq visibility visibility_public
can_see_shared db resource_type resource_id owner_id visibility (some user) =
    if user.is_admin
    then true
    else if str_eq visibility visibility_public
    then true
    else if str_eq visibility visibility_logged
    then true
    else if is_some_of owner_id user.id
    then true
    else is_viewer_or_editor (get_share_role db resource_type resource_id user.username)

pub can_see_map : Db → Option ℕ → String → String → Option User → Bool
unfolding can_see_shared
can_see_map db map_owner_id map_visibility map_id user =
    can_see_shared db resource_type_map map_id map_owner_id map_visibility user

pub can_see_style : Db → Option ℕ → String → String → String → Option User → Bool
unfolding can_see_shared
can_see_style db style_owner_id style_visibility collection_id style_id user =
    can_see_shared db resource_type_style (style_resource_id collection_id style_id) style_owner_id
      style_visibility user

pub can_see_raster_style : Db → Option ℕ → String → String → String → Option User → Bool
unfolding can_see_shared
can_see_raster_style db style_owner_id style_visibility collection_id style_id user =
    can_see_shared db resource_type_style (raster_style_resource_id collection_id style_id)
      style_owner_id style_visibility user

pub can_see_raster_view : Db → Option ℕ → String → String → Option User → Bool
unfolding can_see_shared
can_see_raster_view db owner_id visibility view_id user =
    can_see_shared db resource_type_raster_view view_id owner_id visibility user

-- `if viewer_can_edit and map_visibility and can_see_map(…)`, on what is known by then.
map_editable_by_viewers : Db → Option ℕ → String → Option User → Option String → Option Bool → Bool
map_editable_by_viewers db map_owner_id map_id user (some visibility) (some true) =
    truthy visibility && can_see_map db map_owner_id visibility map_id user
map_editable_by_viewers db map_owner_id map_id user _ _ = false

-- The lookup of a missing visibility or viewer_can_edit. A row overrides both, no row neither.
map_lookup : Db → Option ℕ → String → Option User → Option String → Option Bool → Option ℕ → Bool
unfolding map_editable_by_viewers
map_lookup db map_owner_id map_id user map_visibility viewer_can_edit none = false
map_lookup db map_owner_id map_id user map_visibility viewer_can_edit (some uid) =
    elim (db.map_row uid) [
      | none ↦ map_editable_by_viewers db map_owner_id map_id user map_visibility viewer_can_edit
      | some (visibility, editable) ↦
          map_editable_by_viewers db map_owner_id map_id user (some visibility) (some editable)
    ]

map_by_viewers : Db → Option ℕ → String → Option User → Option String → Option Bool → Bool
unfolding map_lookup
map_by_viewers db map_owner_id map_id user (some visibility) (some editable) =
    map_editable_by_viewers db map_owner_id map_id user (some visibility) (some editable)
map_by_viewers db map_owner_id map_id user map_visibility viewer_can_edit =
    map_lookup db map_owner_id map_id user map_visibility viewer_can_edit (db.uuid map_id)

pub can_edit_map : Db → Option ℕ → String → Option User → Option String → Option Bool → Bool
unfolding map_by_viewers
can_edit_map db map_owner_id map_id none map_visibility viewer_can_edit = false
can_edit_map db map_owner_id map_id (some user) map_visibility viewer_can_edit =
    if user.is_admin
    then true
    else if is_some_of map_owner_id user.id
    then true
    else if is_text (get_share_role db resource_type_map map_id user.username) role_editor
    then true
    else map_by_viewers db map_owner_id map_id (some user) map_visibility viewer_can_edit

-- The rule that styles and raster views share.
can_edit_shared : Db → String → String → Option ℕ → Option User → Bool
can_edit_shared db resource_type resource_id owner_id none = false
can_edit_shared db resource_type resource_id owner_id (some user) =
    if user.is_admin
    then true
    else if is_some_of owner_id user.id
    then true
    else is_text (get_share_role db resource_type resource_id user.username) role_editor

pub can_edit_raster_view : Db → Option ℕ → String → Option User → Bool
unfolding can_edit_shared
can_edit_raster_view db owner_id view_id user =
    can_edit_shared db resource_type_raster_view view_id owner_id user

pub can_edit_style : Db → Option ℕ → String → String → Option User → Bool
unfolding can_edit_shared
can_edit_style db style_owner_id collection_id style_id user =
    can_edit_shared db resource_type_style (style_resource_id collection_id style_id) style_owner_id
      user

pub can_access_raster_view_tiles_anonymous : String → Bool → Bool
can_access_raster_view_tiles_anonymous visibility allow_public_maps =
    if str_eq visibility visibility_public then true else if allow_public_maps then true else false
