-- ===== src/Access/Shares/Effects.antt =====
-- app/crud/resource_share.py and app/core/permissions.py: what a share that was added or removed
-- lets its user do.
use geofastmap_api.Prelude.{
  ℕ, String, ◌≡◌, refl, ap, ◌∙◌, ◌↔◌, ◌⊎◌, inl, inr, true, false, Option, none, some, arith,
  if◌then◌else◌, str_eq, eq_iff, eq_refl, truthy, strip, Bool-cases, Option-cases,
}
use geofastmap_api.Access.{
  User, Collection, Db, role_viewer, role_editor, resource_type_collection, visibility_public,
  visibility_logged, can_see_collection,
}
use geofastmap_api.Access.Rules.{Sees, can_see_collection_iff}
use geofastmap_api.Access.Edits.{Edits}
use geofastmap_api.Access.Shares.{is_row, put_row, valid_role, add_share, remove_share}

-- A user who was found by a name has that name, and it is not empty.
abbrev pub IsNamed : (String → Option User) → String → User → Type 0
IsNamed user_row username user =
    (user_row (strip (strip username)) ≡ some user)
    × (user.username ≡ strip (strip username))
    × (truthy (strip username) ≡ true)
    × (truthy (strip (strip username)) ≡ true)

added_row :
    (user_row : String → Option User) (db : Db) (t i username role : String) (user : User)
    → IsNamed user_row username user
    → add_share user_row db t i username role
      ≡ (put_row db t i user.username (some (valid_role role)), some (valid_role role))
unfolding add_share
added_row user_row db t i username role user (found, named, some_name, stripped) =
    rw (some_name, stripped, found) refl

valid_role_lem :
    (role : String)
    → valid_role role ≡ (if str_eq role role_editor then role_editor else role_viewer)
unfolding valid_role
valid_role_lem role = ground (arith, eq_iff role role_viewer, eq_iff role role_editor)

put_row_self :
    (db : Db) (t i u : String) (role : Option String)
    → (put_row db t i u role).share_row t i u ≡ role
unfolding put_row
put_row_self db t i u role = rw (eq_refl t, eq_refl i, eq_refl u) refl

-- After a resource of any kind was shared with a user who was found, the user has a ground to see
-- it, and to edit it where the role is the editor's; a role that is neither of the two is taken for
-- the viewer's. No other row changed.
pub share_grants :
    (user_row : String → Option User) (db : Db) (t i username role : String) (user : User)
    (owner_id : Option ℕ) (visibility : String)
    → IsNamed user_row username user
    → let (after, added) = add_share user_row db t i username role in
      Sees after t i owner_id visibility (some user)
      × (role ≡ role_editor → Edits after t i owner_id (some user))
      × (added ≡ some (if str_eq role role_editor then role_editor else role_viewer))
      × ((t' i' u' : String)
          → is_row t i user.username t' i' u' ≡ false
          → after.share_row t' i' u' ≡ db.share_row t' i' u')
unfolding put_row
share_grants user_row db t i username role user owner_id visibility n =
    let (found, named, some_name, stripped) = n in
    let has_name : truthy user.username ≡ true = rw named stripped in
    let row = put_row_self db t i user.username (some (valid_role role)) in
    rw (added_row user_row db t i username role user n) (
      elim (Bool-cases (str_eq role role_editor)) [
        | inl editor ↦
            inr (inr (inr (inr (inr (has_name, row ∙ rw (valid_role_lem role, editor))))))
        | inr other ↦ inr (inr (inr (inr (inl (has_name, row ∙ rw (valid_role_lem role, other))))))
      ],
      λ e. inr (inr (has_name, row ∙ rw (valid_role_lem role, e))),
      ap some (valid_role_lem role),
      λ t' i' u' h. rw h refl,
    )

removed_row :
    (db : Db) (t i username : String)
    → (remove_share db t i username).0.share_row t i (strip username) ≡ none
unfolding remove_share
removed_row db t i username = elim (Option-cases (db.share_row t i (strip username))) [
  | inl e ↦ rw (e, remove_share) e
  | inr (role, e) ↦ rw (e, remove_share) (put_row_self db t i (strip username) none)
]

removed_iff :
    (db : Db) (t i username : String)
    → ((remove_share db t i username).1 ≡ true)
      ↔ ((role : String) × (db.share_row t i (strip username) ≡ some role))
unfolding remove_share
removed_iff db t i username = elim (Option-cases (db.share_row t i (strip username))) [
  | inl e ↦ rw (e, remove_share) (λ h. cc, λ h. cc (h.1))
  | inr (role, e) ↦ rw (e, remove_share) (λ h. (role, refl), λ h. refl)
]

Sees-without :
    (db : Db) (t i : String) (owner_id : Option ℕ) (visibility : String) (user : User)
    → db.share_row t i user.username ≡ none
    → Sees db t i owner_id visibility (some user) ↔ (
        (user.is_admin ≡ true)
        ⊎ (visibility ≡ visibility_public)
        ⊎ (visibility ≡ visibility_logged)
        ⊎ (owner_id ≡ some user.id))
Sees-without db t i owner_id visibility user gone = ground arith

-- After a share was removed, its user sees the collection only as one without a share does: as an
-- admin, as its owner, or by its visibility; whether there was a share says the answer.
pub share_removed :
    (db : Db) (c : Collection) (username : String) (user : User)
    → user.username ≡ strip username
    → let (after, removed) = remove_share db resource_type_collection c.id username in
      ((can_see_collection after c (some user) ≡ true) ↔ (
        (user.is_admin ≡ true)
        ⊎ (c.visibility ≡ visibility_public)
        ⊎ (c.visibility ≡ visibility_logged)
        ⊎ (c.owner_id ≡ some user.id)))
      × ((removed ≡ true) ↔ (
          (role : String) × (db.share_row resource_type_collection c.id (strip username)
            ≡ some role)))
unfolding remove_share
share_removed db c username user named =
    let after = (remove_share db resource_type_collection c.id username).0 in
    let gone : after.share_row resource_type_collection c.id user.username ≡ none =
      ap (after.share_row resource_type_collection c.id) named
      ∙ removed_row db resource_type_collection c.id username in
    (
      ground (
        arith,
        can_see_collection_iff after c (some user),
        Sees-without after resource_type_collection c.id c.owner_id c.visibility user gone,
      ),
      removed_iff db resource_type_collection c.id username,
    )
