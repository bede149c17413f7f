-- ===== src/Examples/Access.antt =====
-- app/core/permissions.py on a small database: a collection that only its editors may change, and
-- a map that is open to logged-in viewers.
use geofastmap_api.Prelude.{
  String, Option, strip, ◌≡◌, refl, ◌↔◌, inl, ◌⊎◌, true, false, ◌&&◌, none, some, str_eq,
  if◌then◌else◌,
}
use geofastmap_api.Access.{
  User, Collection, Db, can_see_map, can_see_raster_view, can_edit_map, resource_type_map,
  resource_type_raster_view, resource_type_collection, can_see_collection, role_editor,
  visibility_public, visibility_logged,
}
use geofastmap_api.Access.Rules.{Sees, can_see_iff}
use geofastmap_api.Access.Shares.{add_share, remove_share, is_row}
use geofastmap_api.Access.Shares.Effects.{share_grants, share_removed}
use geofastmap_api.Access.Edits.{IsOpenTo, Edits, can_edit_iff, can_edit-can_see}

abbrev ana : User
ana = record { id = 7; username = "ana"; is_admin = false }

abbrev roads : Collection
roads = record { id = "roads"; owner_id = some 3; visibility = "private"; viewer_can_edit = false }

-- Ana has a viewer's share of everything; the map "m" has number 5.
abbrev small_db : Db
small_db = record {
  share_row = λ t i u. if str_eq u "ana" then some "viewer" else none;
  uuid = λ i. if str_eq i "m" then some 5 else none;
  map_row = λ n. some ("logged", true);
}

can_see_iff_example :
    (can_see_raster_view small_db (some 3) "private" "v" (some ana) ≡ true)
    ↔ Sees small_db resource_type_raster_view "v" (some 3) "private" (some ana)
can_see_iff_example = (can_see_iff small_db roads (some 3) "private" "v" "s" (some ana)).4

can_edit_iff_example : (can_edit_map small_db (some 3) "m" (some ana) none none ≡ true) ↔ (
    Edits small_db resource_type_map "m" (some 3) (some ana)
    ⊎ IsOpenTo small_db (some 3) "m" none none (some ana))
can_edit_iff_example = (can_edit_iff small_db roads (some 3) "m" "s" none none (some ana)).1

can_edit-can_see_example :
    can_edit_map small_db (some 3) "m" (some ana) none none
      && can_see_map small_db (some 3) "logged" "m" (some ana)
    ≡ can_edit_map small_db (some 3) "m" (some ana) none none
can_edit-can_see_example =
    (can_edit-can_see small_db roads (some 3) "logged" "m" "s" none none (some ana) (inl refl)
      (λ uid e. (true, refl))).1

abbrev ben : User
ben = record { id = 8; username = "ben"; is_admin = false }

abbrev users : String → Option User
users name = if str_eq name "ben" then some ben else none

share_grants_example :
    let (after, added) = add_share users small_db "map" "m" " ben " "editor" in
    Sees after "map" "m" (some 3) "private" (some ben)
    × ("editor" ≡ role_editor → Edits after "map" "m" (some 3) (some ben))
    × (added ≡ some "editor")
    × ((t' i' u' : String)
        → is_row "map" "m" "ben" t' i' u' ≡ false
        → after.share_row t' i' u' ≡ small_db.share_row t' i' u')
unfolding strip
share_grants_example =
    share_grants users small_db "map" "m" " ben " "editor" ben (some 3) "private"
      (refl, refl, refl, refl)

share_removed_example :
    let (after, removed) = remove_share small_db resource_type_collection "roads" " ana" in
    ((can_see_collection after roads (some ana) ≡ true) ↔ (
      (ana.is_admin ≡ true)
      ⊎ (roads.visibility ≡ visibility_public)
      ⊎ (roads.visibility ≡ visibility_logged)
      ⊎ (roads.owner_id ≡ some ana.id)))
    × ((removed ≡ true) ↔ (
        (role : String) × (small_db.share_row resource_type_collection "roads" (strip " ana")
          ≡ some role)))
unfolding strip
share_removed_example = share_removed small_db roads " ana" ana refl
