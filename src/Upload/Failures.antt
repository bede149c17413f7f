-- ===== src/Upload/Failures.antt =====
-- app/services/bulk_upload_sessions.py and app/api/routes/items.py: parts that are recorded at the same
-- time, and a part that is missing at the end.
use geofastmap_api.Prelude.{
  ℕ, ◌≡◌, refl, ◌∙◌, inl, inr, String, true, false, Option, none, some, List, [], ◌∷◌,
  if◌then◌else◌, ◌==◌, str_eq, eq_refl, arith, Option-cases,
}
use geofastmap_api.Upload.{
  Session, World, failed_assembling, update_upload_session, sorted_set, with_part, write_part,
  copy_parts, assemble_chunk_parts, delete_upload_parts, assembled, complete_upload,
}
use geofastmap_api.Upload.Parts.{has, has-add_number, has-sorted_set}

has-with_part :
    (k n : ℕ) (s : Session) → has k (with_part n s).parts ≡ (if n == k then true else has k s.parts)
unfolding with_part sorted_set
has-with_part k n s = rw (has-add_number k n (sorted_set s.parts), has-sorted_set k s.parts) refl

write_part-session :
    (w : World) (now n : ℕ) (upload_id : String) (read there : Session)
    → w.session upload_id ≡ some there
    → (write_part w now upload_id n read).0.session upload_id
      ≡ some (record (with_part n read) { updated_at = now })
unfolding write_part update_upload_session
write_part-session w now n upload_id read there e =
    rw (e, update_upload_session, eq_refl upload_id) refl

-- Of two parts with different numbers that are recorded at the same time, each call having read the
-- session before either wrote it, the one that is written first is not in the session afterwards,
-- unless it was before.
pub concurrent_part_lost :
    (w : World) (upload_id : String) (s : Session) (m n t u : ℕ)
    → w.session upload_id ≡ some s
    → (m == n) ≡ false
    → has m s.parts ≡ false
    → let first = (write_part w t upload_id m s).0 in
      (after : Session) × ((write_part first u upload_id n s).0.session upload_id ≡ some after)
      × (has m after.parts ≡ false)
      × (has n after.parts ≡ true)
concurrent_part_lost w upload_id s m n t u e differ absent = (
  record (with_part n s) { updated_at = u },
  write_part-session (write_part w t upload_id m s).0 u n upload_id s _
      (write_part-session w t m upload_id s s e),
  ground (arith, has-with_part m n s),
  ground (arith, has-with_part n n s),
)

copy_missing :
    (chunk : ℕ → Option (List ℕ)) (n : ℕ) (ns : List ℕ)
    → has n ns ≡ true
    → chunk n ≡ none
    → (copy_parts chunk ns).1 ≡ false
unfolding copy_parts
copy_missing chunk n [] h e = cc
copy_missing chunk n (m ∷ ms) h e = elim (Option-cases (chunk m)) [
  | inl gone ↦ rw (gone, copy_parts) refl
  | inr (c, there) ↦ rw (there, copy_parts) (copy_missing chunk n ms (ground arith) e)
]

-- A completion that names a part which was not uploaded fails, and ends the upload: the session and
-- all the parts that were uploaded are gone, and what was copied before the missing part is left
-- under the key.
pub missing_part_ends :
    (w : World) (s : Session) (collection_id upload_id storage_key : String) (n b : ℕ) (bs : List ℕ)
    → w.session upload_id ≡ some s
    → str_eq s.collection_id collection_id ≡ true
    → has n (b ∷ bs) ≡ true
    → w.chunk upload_id n ≡ none
    → let (done, reply) = complete_upload w collection_id upload_id (b ∷ bs) storage_key in
      (reply ≡ failed_assembling)
      × (done.session upload_id ≡ none)
      × ((k : ℕ) → done.chunk upload_id k ≡ none)
      × (done.file storage_key ≡ some (copy_parts (w.chunk upload_id) (sorted_set (b ∷ bs))).0)
unfolding complete_upload assembled assemble_chunk_parts delete_upload_parts
missing_part_ends w s collection_id upload_id storage_key n b bs e same named gone =
    let failed =
      copy_missing (w.chunk upload_id) n (sorted_set (b ∷ bs)) (has-sorted_set n (b ∷ bs) ∙ named)
        gone in
    rw (e, complete_upload, same, failed, eq_refl upload_id, eq_refl storage_key)
      (refl, refl, λ k. refl, refl)
