-- ===== src/Upload/Assembly.antt =====
-- app/api/routes/items.py: a file that is sent in parts is assembled as it was.
use geofastmap_api.Prelude.{
  ℕ, zero, suc, ◌+◌, ◌-◌, ◌≤◌, ◌<◌, ◌≡◌, ◌≢◌, refl, ap, ◌∙◌, ◌↔◌, String, Bool, true, false, Option,
  none, some, List, [], ◌∷◌, ◌++◌, length, if◌then◌else◌, ◌==◌, str_eq, eq_refl, arith,
}
use geofastmap_api.Upload.{
  Bytes, Session, World, ok, update_upload_session, sorted_set, with_part, write_part,
  add_uploaded_part, write_chunk, is_other, upload_part, copy_parts, assemble_chunk_parts,
  delete_upload_parts, assembled, complete_upload,
}
use geofastmap_api.Upload.Parts.{
  has, AscendsFrom, has-add_number, sorted_set-AscendsFrom, has-sorted_set, range, range_unique,
}

abbrev pub get_elem? : List Bytes → ℕ → Option Bytes
get_elem? [] i = none
get_elem? (c ∷ cs) zero = some c
get_elem? (c ∷ cs) (suc i) = get_elem? cs i

abbrev pub concat : List Bytes → Bytes
concat [] = []
concat (c ∷ cs) = c ++ concat cs

-- A part that is sent: the time, its number from 1 on, and its bytes.
abbrev pub Sent : Type 0
Sent = ℕ × ℕ × Bytes

-- Each part that is sent is that part of the file.
abbrev pub AreParts : List Bytes → List Sent → Type 0
AreParts cs [] = Unit {0}
AreParts cs ((now, n, c) ∷ sent) = (1 ≤ n) × (get_elem? cs (n - 1) ≡ some c) × AreParts cs sent

abbrev pub was_sent : ℕ → List Sent → Bool
was_sent k [] = false
was_sent k ((now, n, c) ∷ sent) = if n == k then true else was_sent k sent

copy_range :
    (chunk : ℕ → Option Bytes) (a : ℕ) (cs : List Bytes)
    → ((i : ℕ) → i < length cs → chunk (a + i) ≡ get_elem? cs i)
    → copy_parts chunk (range a (length cs)) ≡ (concat cs, true)
unfolding copy_parts
copy_range chunk a [] h = refl
copy_range chunk a (c ∷ cs) h =
    let first : chunk a ≡ some c = rw (← add_nothing a) (h 0 (omega arith)) in
    let rest = copy_range chunk (suc a) cs (λ i p. rw (shifted a i) (h (suc i) (omega arith))) in
    rw (first, copy_parts, rest) refl
  where
    add_nothing : (n : ℕ) → n + 0 ≡ n
    add_nothing n = omega arith

    shifted : (n i : ℕ) → suc n + i ≡ n + suc i
    shifted n i = omega arith

module _ (cs : List Bytes) (user : Option ℕ) (collection_id upload_id : String) where
  pub uploads : World → List Sent → World
  uploads w [] = w
  uploads w ((now, n, c) ∷ sent) =
      uploads (upload_part w now user collection_id upload_id n c).0 sent

  -- The session is open to the user, and each part it names is on disk as it is in the file.
  record Holds (w : World) (s : Session) : Type 0 where
    there : w.session upload_id ≡ some s
    same_collection : str_eq s.collection_id collection_id ≡ true
    same_owner : is_other s.owner_id user ≡ false
    stored :
        (k : ℕ)
        → has k s.parts ≡ true
        → (1 ≤ k) × (k ≤ length cs) × (w.chunk upload_id k ≡ get_elem? cs (k - 1))

  after : (now n : ℕ) → Session → Session
  unfolding with_part
  after now n s = record (with_part n s) { updated_at = now }

  get_elem?-lt : (ds : List Bytes) (i : ℕ) (c : Bytes) → get_elem? ds i ≡ some c → i < length ds
  get_elem?-lt [] i c h = cc
  get_elem?-lt (d ∷ ds) zero c h = omega arith
  get_elem?-lt (d ∷ ds) (suc i) c h = omega (arith, get_elem?-lt ds i c h)

  has-after :
      (k now n : ℕ) (s : Session)
      → has k (after now n s).parts ≡ (if n == k then true else has k s.parts)
  unfolding after with_part sorted_set
  has-after k now n s = rw (has-add_number k n (sorted_set s.parts), has-sorted_set k s.parts) refl

  upload_part-Holds :
      (w : World) (s : Session) (now n : ℕ) (c : Bytes)
      → 1 ≤ n
      → get_elem? cs (n - 1) ≡ some c
      → Holds w s
      → Holds (upload_part w now user collection_id upload_id n c).0 (after now n s)
  unfolding upload_part add_uploaded_part write_part update_upload_session write_chunk after
      with_part sorted_set
  upload_part-Holds w s now n c pos is_part h =
      rw
        (
          h.there, upload_part, h.same_collection, h.same_owner, h.there, add_uploaded_part,
          write_part, h.there, update_upload_session,
        )
        (record {
          there = rw (eq_refl upload_id) refl;
          same_collection = h.same_collection;
          same_owner = h.same_owner;
          stored = λ k p. ground (
            arith,
            eq_refl upload_id,
            has-after k now n s,
            h.stored k,
            get_elem?-lt cs (n - 1) c,
          );
        })

  uploads-Holds :
      (w : World) (s : Session) (sent : List Sent)
      → AreParts cs sent
      → Holds w s
      → (t : Session) × Holds (uploads w sent) t
        × ((k : ℕ) → has k t.parts ≡ (if was_sent k sent then true else has k s.parts))
  unfolding uploads
  uploads-Holds w s [] p h = (s, h, λ k. refl)
  uploads-Holds w s ((now, n, c) ∷ sent) p h =
      let w' = (upload_part w now user collection_id upload_id n c).0 in
      let (t, holds, known) =
        uploads-Holds w' (after now n s) sent p.2 (upload_part-Holds w s now n c (p.0) (p.1) h) in
      (t, holds, λ k. ground (arith, known k, has-after k now n s))

  assembled_lem :
      (w : World) (parts : List ℕ) (storage_key : String)
      → copy_parts (w.chunk upload_id) (sorted_set parts) ≡ (concat cs, true)
      → has 1 parts ≡ true
      → let (done, reply) = assembled w upload_id parts storage_key in
        (reply ≡ ok storage_key)
        × (done.file storage_key ≡ some (concat cs))
        × (done.session upload_id ≡ none)
  unfolding assembled assemble_chunk_parts delete_upload_parts
  assembled_lem w [] storage_key e first = cc
  assembled_lem w (n ∷ ns) storage_key e first =
      rw (e, assembled, eq_refl storage_key, eq_refl upload_id) (refl, refl, refl)

  one_part : (ds : List Bytes) → ds ≢ [] → 1 ≤ length ds
  one_part [] e = absurd (e refl)
  one_part (d ∷ ds) e = omega arith

  stored_at :
      (w : World) (t : Session)
      → Holds w t
      → (i : ℕ) → has (1 + i) t.parts ≡ true
      → w.chunk upload_id (1 + i) ≡ get_elem? cs i
  stored_at w t h i p =
      let back : (1 + i) - 1 ≡ i = omega arith in (h.stored (1 + i) p).2 ∙ ap (get_elem? cs) back

  from_one :
      (ns : List ℕ) → AscendsFrom 0 ns → ((k : ℕ) → has k ns ≡ true → 1 ≤ k) → AscendsFrom 1 ns
  from_one [] up pos = tt
  from_one (n ∷ ns) up pos = ground (arith, pos n)

  all_copied :
      (w : World) (t : Session)
      → Holds w t
      → ((k : ℕ) → 1 ≤ k → k ≤ length cs → has k t.parts ≡ true)
      → copy_parts (w.chunk upload_id) (sorted_set t.parts) ≡ (concat cs, true)
  all_copied w t h all =
      let members : (k : ℕ)
          → (has k (sorted_set t.parts) ≡ true) ↔ ((1 ≤ k) × (k < 1 + length cs)) =
        λ k. ground (arith, has-sorted_set k t.parts, h.stored k, all k) in
      let up =
        from_one (sorted_set t.parts) (sorted_set-AscendsFrom t.parts)
          (λ k p. ((members k).0 p).0) in
      let on_disk : (i : ℕ) → i < length cs → w.chunk upload_id (1 + i) ≡ get_elem? cs i =
        λ i lt. stored_at w t h i (all (1 + i) (omega arith) (omega arith)) in
      rw (range_unique 1 (length cs) (sorted_set t.parts) up members)
        (copy_range (w.chunk upload_id) 1 cs on_disk)

  -- Where a session has no parts yet, the parts of a file are sent in any order and however often,
  -- each as it is in the file, and each of them was sent at least once: the upload is completed
  -- without an error, and the finished file is the file.
  pub upload_assembles :
      (w : World) (s : Session) (sent : List Sent) (storage_key : String)
      → w.session upload_id ≡ some s
      → str_eq s.collection_id collection_id ≡ true
      → is_other s.owner_id user ≡ false
      → s.parts ≡ []
      → cs ≢ []
      → AreParts cs sent
      → ((i : ℕ) → i < length cs → was_sent (suc i) sent ≡ true)
      → let (done, reply) =
          complete_upload (uploads w sent) collection_id upload_id [] storage_key in
        (reply ≡ ok storage_key)
        × (done.file storage_key ≡ some (concat cs))
        × (done.session upload_id ≡ none)
  unfolding complete_upload assembled
  upload_assembles w s sent storage_key there same open_to empty some_part p all =
      let start : Holds w s = record {
        there = there;
        same_collection = same;
        same_owner = open_to;
        stored = λ k has_k. ground (arith, empty);
      } in
      let (t, holds, known) = uploads-Holds w s sent p start in
      let is_there : (k : ℕ) → 1 ≤ k → k ≤ length cs → has k t.parts ≡ true =
        λ k pos le. ground (arith, known k, all (k - 1)) in
      rw (holds.there, complete_upload, holds.same_collection)
        (assembled_lem (uploads w sent) t.parts storage_key
          (all_copied (uploads w sent) t holds is_there)
          (is_there 1 (omega arith) (one_part cs some_part)))
