-- ===== src/Access/Shares.antt =====
-- app/crud/resource_share.py: adding, changing and removing a share. The table has one row at most
-- for a resource and a user name (uq_resource_share_resource_username), so it is the role by these.
-- `user_row` is the lookup of a user by the exact name.
pub mod Effects
use geofastmap_api.Prelude.{
  String, Bool, true, false, ◌&&◌, Option, none, some, if◌then◌else◌, str_eq, truthy, is_some,
  strip,
}
use geofastmap_api.Access.{User, Db, role_viewer, role_editor, is_viewer_or_editor}

get_user_by_username : (String → Option User) → String → Option User
get_user_by_username user_row username =
    if truthy username && truthy (strip username) then user_row (strip username) else none

abbrev pub is_row : String → String → String → String → String → String → Bool
is_row resource_type resource_id username t i u =
    str_eq resource_type t && str_eq resource_id i && str_eq username u

-- The row is written, with a role or none for a row that is deleted.
pub put_row : Db → String → String → String → Option String → Db
put_row db resource_type resource_id username role = record db {
  share_row =
      λ t i u. if is_row resource_type resource_id username t i u then role else db.share_row t i u;
}

-- `role if role in (ROLE_VIEWER, ROLE_EDITOR) else ROLE_VIEWER`
pub valid_role : String → String
valid_role role = if is_viewer_or_editor (some role) then role else role_viewer

-- The role of the share that is returned, for a row that was there as for a new one.
share_with : Db → String → String → String → Option User → Db × Option String
unfolding put_row valid_role
share_with db resource_type resource_id role none = (db, none)
share_with db resource_type resource_id role (some user) = (
  put_row db resource_type resource_id user.username (some (valid_role role)),
  some (valid_role role),
)

pub add_share : (String → Option User) → Db → String → String → String → String → Db × Option String
unfolding get_user_by_username share_with
add_share user_row db resource_type resource_id username role =
    share_with db resource_type resource_id role (get_user_by_username user_row (strip username))

pub remove_share : Db → String → String → String → Db × Bool
unfolding put_row
remove_share db resource_type resource_id username =
    if is_some (db.share_row resource_type resource_id (strip username))
    then (put_row db resource_type resource_id (strip username) none, true)
    else (db, false)
