-- ===== src/Storage/Passes/InUse.antt =====
-- app/services/storage_self_heal.py: what is in use, for each of the passes.
use Prim.Native.String.{◌++◌ as text_append}
use mathlib.Core.Option
use mathlib.Core.Option.{some-injective}
use geofastmap_api.Prelude.{
  ℕ, ◌≡◌, refl, sym, subst, ◌∙◌, String, Bool, true, false, Option, none, some, List, ◌∷◌, ◌++◌,
  truthy, arith,
}
use geofastmap_api.Json.{str, Codec}
use geofastmap_api.Queue.TileBuild.Leases.{tile_build_pending_prefix}
use geofastmap_api.Queue.BulkImport.{
  Builtins, BulkJobPayload, from_json, to_json, normal, storage_key-normal,
  bulk_from_json-eq-normal,
}
use geofastmap_api.Storage.{
  Entry, file, directory, RedisAnswers, contains_name, queue_keys, meta_keys,
  protected_bulk_storage_keys, upload_session_prefix, active_upload_session_ids,
  collections_with_pending_tile_build,
}
use geofastmap_api.Storage.Passes.{
  is_orphan_file, is_orphan_upload, is_stale_tile_tmp, unprotected, Settings, Place, Part,
  bulk_files, uploads, tiles, cleanup_orphan_bulk_files, cleanup_orphan_upload_parts,
  cleanup_stale_tile_tmp_files, grace,
}
use geofastmap_api.Storage.Passes.Sweep.{pass_keeps}
use geofastmap_api.Storage.Lookups.{
  contains_name-append, or-true, contains_id, contains_queued, contains_registered,
}

file_kept :
    (protected : List String) (now grace_seconds : ℕ) (name : String) (entry : Option Entry)
    → contains_name name protected ≡ true
    → is_orphan_file protected now grace_seconds name entry ≡ false
unfolding is_orphan_file
file_kept protected now grace_seconds name none kept = refl
file_kept protected now grace_seconds name (some (directory mtime)) kept = refl
file_kept protected now grace_seconds name (some (file mtime)) kept = rw kept (ground arith)

upload_kept :
    (live : List String) (now grace_seconds : ℕ) (id : String) (entry : Option Entry)
    → contains_name id live ≡ true
    → is_orphan_upload live now grace_seconds id entry ≡ false
unfolding is_orphan_upload
upload_kept live now grace_seconds id none kept = refl
upload_kept live now grace_seconds id (some (file mtime)) kept = refl
upload_kept live now grace_seconds id (some (directory mtime)) kept = rw kept (ground arith)

tile_kept :
    (match : String → Option String) (pending : List String) (now grace_seconds : ℕ)
    (name cid : String) (entry : Option Entry)
    → match name ≡ some cid
    → contains_name cid pending ≡ true
    → is_stale_tile_tmp match pending now grace_seconds name entry ≡ false
unfolding is_stale_tile_tmp unprotected
tile_kept match pending now grace_seconds name cid none matched kept = refl
tile_kept match pending now grace_seconds name cid (some (directory mtime)) matched kept = refl
tile_kept match pending now grace_seconds name cid (some (file mtime)) matched kept =
    rw (matched, kept) refl

pub no_file :
    (protected : List String) (now grace_seconds : ℕ) (name : String)
    → is_orphan_file protected now grace_seconds name none ≡ false
unfolding is_orphan_file
no_file protected now grace_seconds name = refl

pub no_upload :
    (live : List String) (now grace_seconds : ℕ) (id : String)
    → is_orphan_upload live now grace_seconds id none ≡ false
unfolding is_orphan_upload
no_upload live now grace_seconds id = refl

pub no_tile :
    (match : String → Option String) (pending : List String) (now grace_seconds : ℕ) (name : String)
    → is_stale_tile_tmp match pending now grace_seconds name none ≡ false
unfolding is_stale_tile_tmp
no_tile match pending now grace_seconds name = refl

module _ (python : Builtins) (codec : Codec) where
  -- What Redis refers to: the file of a job in the queue or of a registered import, the directory of
  -- the parts of an upload with a session, the temporary file of a collection with a pending build.
  pub data IsReferenced (match : String → Option String) (r : RedisAnswers (codec.Wire))
      : Part → String → Type 0 where
    queued :
        {name : String} (before after : List (codec.Wire)) (s : codec.Wire) (p : BulkJobPayload)
        → r.queue ≡ some (before ++ (s ∷ after))
        → from_json python codec s ≡ some p
        → p.storage_key ≡ str name
        → IsReferenced match r bulk_files name
    registered :
        {name : String} (before after : List String) (k : String)
        → r.import_keys ≡ some (before ++ (k ∷ after))
        → r.get k ≡ some (some name)
        → truthy name ≡ true
        → IsReferenced match r bulk_files name
    session :
        {id : String} (before after : List String)
        → r.session_keys ≡ some (before ++ (text_append upload_session_prefix id ∷ after))
        → IsReferenced match r uploads id
    building :
        {name cid : String} (before after : List String)
        → r.pending_keys ≡ some (before ++ (text_append tile_build_pending_prefix cid ∷ after))
        → match name ≡ some cid
        → IsReferenced match r tiles name

  -- The file of a job as it is put into the queue.
  pub enqueued :
      (match : String → Option String) (r : RedisAnswers (codec.Wire)) (name : String)
      (before after : List (codec.Wire)) (p : BulkJobPayload)
      → r.queue ≡ some (before ++ (to_json python codec p ∷ after))
      → p.storage_key ≡ str name
      → IsReferenced match r bulk_files name
  enqueued match r name before after p e key =
      queued before after (to_json python codec p) (normal python p) e
        (bulk_from_json-eq-normal python codec p).0 (storage_key-normal python p ∙ key)

  keys_of : RedisAnswers (codec.Wire) → List String → List String
  keys_of r metas = queue_keys python codec r.queue ++ meta_keys python codec r.get metas

  contains_referenced :
      (match : String → Option String) (r : RedisAnswers (codec.Wire)) (name : String)
      (metas : List String)
      → r.import_keys ≡ some metas
      → IsReferenced match r bulk_files name
      → contains_name name (keys_of r metas) ≡ true
  unfolding keys_of queue_keys
  contains_referenced match r name metas scanned (queued before after s p e parsed key) =
      contains_name-append name (queue_keys python codec r.queue)
        (meta_keys python codec r.get metas)
      ∙ rw (e, contains_queued python codec name before after s p parsed key) refl
  contains_referenced match r name metas scanned (registered before after k e got true_name) =
      contains_name-append name (queue_keys python codec r.queue)
        (meta_keys python codec r.get metas)
      ∙ rw
          (
            some-injective metas _ (sym scanned ∙ e),
            contains_registered python codec r.get name before after k got true_name,
          )
          (or-true _)

  protected_in_use :
      (match : String → Option String) (r : RedisAnswers (codec.Wire)) (name : String)
      (scanned : Option (List String)) (keys : List String)
      → r.import_keys ≡ scanned
      → IsReferenced match r bulk_files name
      → Option.map (keys_of r) scanned ≡ some keys
      → contains_name name keys ≡ true
  protected_in_use match r name none keys e ref same = ground (arith, same)
  protected_in_use match r name (some metas) keys e ref same =
      subst (λ ks. contains_name name ks ≡ true) (some-injective _ keys same)
        (contains_referenced match r name metas e ref)

  module _ (settings : Settings) (refuses : String → Bool) (now : ℕ)
      (match : String → Option String) (dry_run : Bool) (r : RedisAnswers (codec.Wire))
      (place : Place) where
    pub file_in_use :
        (name : String)
        → IsReferenced match r bulk_files name
        → (cleanup_orphan_bulk_files settings refuses now python codec r dry_run place).0 name
          ≡ place.entries name
    unfolding cleanup_orphan_bulk_files protected_bulk_storage_keys keys_of
    file_in_use name ref =
        pass_keeps
          (λ keys. is_orphan_file keys now (grace settings.storage_self_heal_bulk_grace_seconds))
          (λ names. no_file names now (grace settings.storage_self_heal_bulk_grace_seconds))
          "redis_bulk_keys" "listdir_bulk" refuses _ dry_run _ place.listed place.entries name
          (λ keys e.
            file_kept keys now _ name (place.entries name)
              (protected_in_use match r name r.import_keys keys refl ref e))

    pub upload_in_use :
        (id : String)
        → IsReferenced match r uploads id
        → (cleanup_orphan_upload_parts settings refuses now r dry_run place).0 id ≡ place.entries id
    unfolding cleanup_orphan_upload_parts active_upload_session_ids
    upload_in_use id (session before after e) = rw e (
        pass_keeps
          (λ live. is_orphan_upload live now (grace settings.storage_self_heal_bulk_grace_seconds))
          (λ names. no_upload names now (grace settings.storage_self_heal_bulk_grace_seconds))
          "redis_upload_sessions" "listdir_uploads" refuses _ dry_run _ place.listed place.entries
          id
          (λ live same. upload_kept live now _ id (place.entries id) (
            subst (λ ids. contains_name id ids ≡ true) (some-injective _ live same)
              (contains_id upload_session_prefix id before after))))

    pub tile_in_use :
        (name : String)
        → IsReferenced match r tiles name
        → (cleanup_stale_tile_tmp_files settings refuses now match r dry_run place).0 name
          ≡ place.entries name
    unfolding cleanup_stale_tile_tmp_files collections_with_pending_tile_build
    tile_in_use name (building {cid = cid} before after e matched) = rw e (
        pass_keeps
          (λ pending.
            is_stale_tile_tmp match pending now
              (grace settings.storage_self_heal_tile_tmp_grace_seconds))
          (λ names.
            no_tile match names now (grace settings.storage_self_heal_tile_tmp_grace_seconds))
          "redis_tile_pending" "listdir_tiles" refuses _ dry_run _ place.listed place.entries name
          (λ pending same. tile_kept match pending now _ name cid (place.entries name) matched (
            subst (λ ids. contains_name cid ids ≡ true) (some-injective _ pending same)
              (contains_id tile_build_pending_prefix cid before after))))
