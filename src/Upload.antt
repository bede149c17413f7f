-- ===== src/Upload.antt =====
-- app/services/bulk_upload_sessions.py, the parts of app/services/bulk_storage.py and the handlers of
-- app/api/routes/items.py for an upload in parts, from the lookup of the session on. Sessions are
-- written by this code alone, so one that is read is the record that was written; the fields that no
-- operation here reads are left out, and time is an argument. The bodies of requests are bytes.
pub mod Parts
pub mod Assembly
pub mod Failures
use geofastmap_api.Prelude.{
  ℕ, zero, suc, String, Bool, true, false, not, Option, none, some, List, [], ◌∷◌, ◌++◌,
  if◌then◌else◌, ◌==◌, ltb, str_eq,
}

abbrev pub Bytes : Type 0
Bytes = List ℕ

pub record Session : Type 0 where
  pub collection_id : String
  pub owner_id : Option ℕ
  pub parts : List ℕ
  pub status : String
  pub updated_at : ℕ

-- Redis by upload id, the parts' files by upload id and number, and the finished files by key.
pub record World : Type 0 where
  pub session : String → Option Session
  pub chunk : String → ℕ → Option Bytes
  pub file : String → Option Bytes

pub data Reply (A : Type 0) : Type 0 where
  ok : A → Reply A
  not_found : Reply A
  owner_mismatch : Reply A
  no_uploaded_parts : Reply A
  failed_assembling : Reply A

abbrev pub get_upload_session : World → String → Option Session
get_upload_session w upload_id = w.session upload_id

abbrev pub put_session : World → String → Option Session → World
put_session w upload_id s = record w {
  session = λ i. if str_eq upload_id i then s else w.session i;
}

pub update_upload_session :
    World → (now : ℕ) → String → (Session → Session) → World × Option Session
update_upload_session w now upload_id patch = elim (get_upload_session w upload_id) [
  | none ↦ (w, none)
  | some s ↦
      let patched = record (patch s) { updated_at = now } in
      (put_session w upload_id (some patched), some patched)
]

-- A set of numbers, sorted.
pub add_number : ℕ → List ℕ → List ℕ
add_number n [] = n ∷ []
add_number n (m ∷ ms) =
    let rest = add_number n ms in
    if n == m then m ∷ ms else if ltb n m then n ∷ m ∷ ms else m ∷ rest

pub sorted_set : List ℕ → List ℕ
unfolding add_number
sorted_set [] = []
sorted_set (n ∷ ns) = add_number n (sorted_set ns)

-- What `add_uploaded_part` makes of the session that it read.
pub with_part : ℕ → Session → Session
unfolding sorted_set
with_part part_no s = record s { parts = sorted_set (part_no ∷ s.parts); status = "pending_parts" }

-- The session that was read is the patch: all its keys overwrite those that are there by then.
pub write_part : World → (now : ℕ) → String → ℕ → (read : Session) → World × Option Session
unfolding update_upload_session with_part
write_part w now upload_id part_no read =
    update_upload_session w now upload_id (λ t. with_part part_no read)

pub add_uploaded_part : World → (now : ℕ) → String → ℕ → World × Option Session
unfolding write_part
add_uploaded_part w now upload_id part_no = elim (get_upload_session w upload_id) [
  | none ↦ (w, none)
  | some s ↦ write_part w now upload_id part_no s
]

pub write_chunk : World → String → ℕ → Bytes → World
write_chunk w upload_id part_no content = record w {
  chunk = λ i n.
      if str_eq upload_id i
      then (if part_no == n then some content else w.chunk i n)
      else w.chunk i n;
}

abbrev pub is_other : Option ℕ → Option ℕ → Bool
is_other none user = false
is_other (some owner) none = false
is_other (some owner) (some user) = not (owner == user)

parts_of : ℕ → Option Session → List ℕ
parts_of part_no none = part_no ∷ []
parts_of part_no (some s) = sorted_set s.parts

pub upload_part :
    World → (now : ℕ) → (user : Option ℕ) → String → String → ℕ → Bytes → World × Reply (List ℕ)
unfolding write_chunk add_uploaded_part parts_of
upload_part w now user collection_id upload_id part_no content =
    elim (get_upload_session w upload_id) [
      | none ↦ (w, not_found)
      | some s ↦
          if not (str_eq s.collection_id collection_id)
          then (w, not_found)
          else if is_other s.owner_id user
          then (w, owner_mismatch)
          else (let (w', s2) =
                add_uploaded_part (write_chunk w upload_id part_no content) now upload_id part_no in
              (w', ok (parts_of part_no s2)))
    ]

-- The loop of `assemble_chunk_parts`: what is written, and whether no part was missing.
pub copy_parts : (ℕ → Option Bytes) → List ℕ → Bytes × Bool
copy_parts chunk [] = ([], true)
copy_parts chunk (n ∷ ns) =
    let rest = copy_parts chunk ns in
    elim (chunk n) [ none ↦ ([], false) | some content ↦ (content ++ rest.0, rest.1) ]

-- The file holds what was copied, also where a part was missing.
pub assemble_chunk_parts : World → String → List ℕ → String → World × Bool
unfolding copy_parts sorted_set
assemble_chunk_parts w upload_id part_numbers final_key =
    let (content, whole) = copy_parts (w.chunk upload_id) (sorted_set part_numbers) in
    (record w { file = λ k. if str_eq final_key k then some content else w.file k }, whole)

pub delete_upload_parts : World → String → World
delete_upload_parts w upload_id = record w {
  chunk = λ i n. if str_eq upload_id i then none else w.chunk i n;
}

-- `body.get("parts") or s.get("parts") or []`
abbrev pub requested : List ℕ → List ℕ → List ℕ
requested [] parts = parts
requested (n ∷ ns) parts = n ∷ ns

-- The `finally` block ends each of its branches; the key is of a new job.
assembled : World → String → List ℕ → String → World × Reply String
unfolding assemble_chunk_parts delete_upload_parts
assembled w upload_id [] storage_key = (w, no_uploaded_parts)
assembled w upload_id (n ∷ ns) storage_key =
    let (w', whole) = assemble_chunk_parts w upload_id (n ∷ ns) storage_key in
    let closed = put_session (delete_upload_parts w' upload_id) upload_id none in
    if whole then (closed, ok storage_key) else (closed, failed_assembling)

-- `complete_bulk_upload_session`, up to the file that is imported.
pub complete_upload :
    World → String → String → (body_parts : List ℕ) → (storage_key : String) → World × Reply String
unfolding assembled
complete_upload w collection_id upload_id body_parts storage_key =
    elim (get_upload_session w upload_id) [
      | none ↦ (w, not_found)
      | some s ↦
          if not (str_eq s.collection_id collection_id)
          then (w, not_found)
          else assembled w upload_id (requested body_parts s.parts) storage_key
    ]
