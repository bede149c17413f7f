-- ===== src/Storage/Passes.antt =====
-- app/services/storage_self_heal.py: the three passes and their composition.
pub mod Sweep
pub mod InUse
pub mod Kept
pub mod DryRun
pub mod Unread
use geofastmap_api.Storage.{
  Entry, file, directory, Directory, Swept, SelfHealStats, RedisAnswers, contains_name,
  protected_bulk_storage_keys, active_upload_session_ids, collections_with_pending_tile_build,
}
use text.Mathlib.Text.{starts_with}
use geofastmap_api.Prelude.{
  ℕ, ◌+◌, String, Bool, true, false, not, ◌&&◌, ◌||◌, Option, none, some, List, [], ◌∷◌, ◌++◌,
  if◌then◌else◌, ltb, ◌==◌, str_eq, contains_text,
}
use geofastmap_api.Json.{Codec}
use geofastmap_api.Queue.BulkImport.{Builtins}

-- The conditions of the three loops: neither of a protected name nor younger than the grace.
unfoldable is_old : (now grace_seconds : ℕ) → Option ℕ → Bool
is_old now grace_seconds none = false
is_old now grace_seconds (some mtime) = not (ltb now (mtime + grace_seconds))

unfoldable pub is_orphan_file :
    (protected : List String) → (now grace_seconds : ℕ) → String → Option Entry → Bool
unfolding is_old
is_orphan_file protected now grace_seconds name (some (file mtime)) =
    not (
      starts_with name "."
      || str_eq name "_uploads"
      || contains_text name ".."
      || contains_text name "/")
    && not (contains_name name protected)
    && is_old now grace_seconds mtime
is_orphan_file protected now grace_seconds name _ = false

pub is_orphan_upload : (live : List String) → (now grace_seconds : ℕ) → String → Option Entry → Bool
unfolding is_old
is_orphan_upload live now grace_seconds upload_id (some (directory mtime)) =
    not (contains_text upload_id ".." || contains_text upload_id "/" || starts_with upload_id ".")
    && not (contains_name upload_id live)
    && is_old now grace_seconds mtime
is_orphan_upload live now grace_seconds upload_id _ = false

unprotected : (pending : List String) → Option String → Bool
unprotected pending none = false
unprotected pending (some collection_id) = not (contains_name collection_id pending)

pub is_stale_tile_tmp :
    (match : String → Option String)
    → (pending : List String) → (now grace_seconds : ℕ) → String
    → Option Entry
    → Bool
unfolding is_old unprotected
is_stale_tile_tmp match pending now grace_seconds name (some (file mtime)) =
    unprotected pending (match name) && is_old now grace_seconds mtime
is_stale_tile_tmp match pending now grace_seconds name _ = false

abbrev pub without : Directory → String → Directory
without d name n = if str_eq name n then none else d n

abbrev pub note_deleted : String → Swept → Swept
note_deleted name stats = record stats { deleted = name ∷ stats.deleted }

abbrev pub note_error : String → Swept → Swept
note_error name stats = record stats { errors = name ∷ stats.errors }

abbrev pub none_swept : List String → Swept
none_swept errors = record { deleted = []; errors = errors }

-- The loop over the names that were listed; `refuses` says which removals the system refuses.
pub sweep :
    (is_orphan : String → Option Entry → Bool)
    → (refuses : String → Bool) → (dry_run : Bool) → List String
    → Directory
    → Directory × Swept
sweep is_orphan refuses dry_run [] d = (d, none_swept [])
sweep is_orphan refuses dry_run (name ∷ names) d =
    let doomed = is_orphan name (d name) in
    let (d', stats) =
      sweep is_orphan refuses dry_run names
        (if doomed && not dry_run && not (refuses name) then without d name else d) in
    (
      d',
      if not doomed
          then stats
          else if dry_run
          then note_deleted name stats
          else if refuses name
          then note_error name stats
          else note_deleted name stats,
    )

-- A pass over a directory: `enabled` where the settings ask for it and the directory is there,
-- `referenced` the names that Redis refers to, none where that raises, and `listed` the names in the
-- directory, none where the listing raises.
pub pass :
    (is_orphan : List String → String → Option Entry → Bool)
    → (refuses : String → Bool) → (redis_error listing_error : String) → (enabled dry_run : Bool)
    → (referenced listed : Option (List String)) → Directory
    → Directory × Swept
unfolding sweep
pass is_orphan refuses redis_error listing_error false dry_run referenced listed d =
    (d, none_swept [])
pass is_orphan refuses redis_error listing_error true dry_run none listed d =
    (d, none_swept (redis_error ∷ []))
pass is_orphan refuses redis_error listing_error true dry_run (some names) none d =
    (d, none_swept (listing_error ∷ []))
pass is_orphan refuses redis_error listing_error true dry_run (some names) (some listed) d =
    sweep (is_orphan names) refuses dry_run listed d

-- A grace of None or 0 is a day.
pub record Settings : Type 0 where
  pub storage_self_heal_enabled : Bool
  pub bulk_queue_type : String
  pub bulk_storage_type : String
  pub storage_self_heal_bulk_grace_seconds : ℕ
  pub storage_self_heal_tile_tmp_grace_seconds : ℕ

abbrev grace : ℕ → ℕ
grace seconds = if seconds == 0 then 86400 else seconds

abbrev pub bulk_enabled : Settings → Bool
bulk_enabled s = str_eq s.bulk_queue_type "redis" && str_eq s.bulk_storage_type "filesystem"

-- A directory with whether it is there and what its listing gives.
pub record Place : Type 0 where
  pub is_there : Bool
  pub listed : Option (List String)
  pub entries : Directory

module _ (settings : Settings) (refuses : String → Bool) (now : ℕ) where
  module _ (python : Builtins) (codec : Codec) where
    pub cleanup_orphan_bulk_files :
        RedisAnswers (codec.Wire) → (dry_run : Bool) → Place → Directory × Swept
    unfolding protected_bulk_storage_keys is_orphan_file pass
    cleanup_orphan_bulk_files r dry_run place =
        pass
          (λ protected.
            is_orphan_file protected now (grace settings.storage_self_heal_bulk_grace_seconds))
          refuses "redis_bulk_keys" "listdir_bulk" (bulk_enabled settings && place.is_there) dry_run
          (protected_bulk_storage_keys python codec r) place.listed place.entries

  pub cleanup_orphan_upload_parts :
      {Wire : Type 0} → RedisAnswers Wire → (dry_run : Bool) → Place → Directory × Swept
  unfolding active_upload_session_ids is_orphan_upload pass
  cleanup_orphan_upload_parts r dry_run place =
      pass (λ live. is_orphan_upload live now (grace settings.storage_self_heal_bulk_grace_seconds))
        refuses "redis_upload_sessions" "listdir_uploads" (bulk_enabled settings && place.is_there)
        dry_run (active_upload_session_ids r) place.listed place.entries

  pub cleanup_stale_tile_tmp_files :
      {Wire : Type 0}
      → (match : String → Option String) → RedisAnswers Wire
      → (dry_run : Bool) → Place
      → Directory × Swept
  unfolding collections_with_pending_tile_build is_stale_tile_tmp pass
  cleanup_stale_tile_tmp_files match r dry_run place =
      pass
        (λ pending.
          is_stale_tile_tmp match pending now
            (grace settings.storage_self_heal_tile_tmp_grace_seconds))
        refuses "redis_tile_pending" "listdir_tiles"
        (str_eq settings.bulk_queue_type "redis" && place.is_there) dry_run
        (collections_with_pending_tile_build r) place.listed place.entries

abbrev pub no_stats : List String → SelfHealStats
no_stats errors = record {
  bulk_files_deleted = [];
  upload_dirs_deleted = [];
  tile_tmp_deleted = [];
  errors = errors;
}

-- The directory of bulk files, that of the uploads' parts and that of the tiles.
pub data Part : Type 0 where
  bulk_files uploads tiles : Part

pub record Volume : Type 0 where
  pub place : Part → Place

abbrev pub entries_of : Volume → Part → Directory
entries_of v part = (v.place part).entries

abbrev pub deleted_of : SelfHealStats → Part → List String
deleted_of stats bulk_files = stats.bulk_files_deleted
deleted_of stats uploads = stats.upload_dirs_deleted
deleted_of stats tiles = stats.tile_tmp_deleted

-- `_merge_stats`
abbrev pub merge_stats : (Part → Directory × Swept) → (Part → Directory) × SelfHealStats
merge_stats passes = (
  λ part. (passes part).0,
  record {
    bulk_files_deleted = (passes bulk_files).1.deleted;
    upload_dirs_deleted = (passes uploads).1.deleted;
    tile_tmp_deleted = (passes tiles).1.deleted;
    errors = (passes bulk_files).1.errors ++ (passes uploads).1.errors ++ (passes tiles).1.errors;
  },
)

-- `if bulk:` and `if tiles:`
wanted : Bool → Directory → Directory × Swept → Directory × Swept
wanted true d swept = swept
wanted false d swept = (d, none_swept [])

-- Without the self-heal, and where no client of Redis is made, nothing is done.
guarded :
    (off lost : Bool)
    → (Part → Directory)
    → (Part → Directory) × SelfHealStats
    → (Part → Directory) × SelfHealStats
guarded true lost entries healed = (entries, no_stats [])
guarded false true entries healed = (entries, no_stats ("redis_connect" ∷ []))
guarded false false entries healed = healed

module _ (settings : Settings) (refuses : String → Bool) (now : ℕ) (python : Builtins)
    (codec : Codec) (match : String → Option String) (connects bulk with_tiles dry_run : Bool)
    (r : RedisAnswers (codec.Wire)) (v : Volume) where
  part_pass : Part → Directory × Swept
  unfolding cleanup_orphan_bulk_files cleanup_orphan_upload_parts cleanup_stale_tile_tmp_files
      wanted
  part_pass bulk_files =
      wanted bulk (entries_of v bulk_files)
        (cleanup_orphan_bulk_files settings refuses now python codec r dry_run (v.place bulk_files))
  part_pass uploads =
      wanted bulk (entries_of v uploads)
        (cleanup_orphan_upload_parts settings refuses now r dry_run (v.place uploads))
  part_pass tiles =
      wanted with_tiles (entries_of v tiles)
        (cleanup_stale_tile_tmp_files settings refuses now match r dry_run (v.place tiles))

  -- `connects` says whether a client of Redis is made.
  pub run_storage_self_heal : (Part → Directory) × SelfHealStats
  unfolding part_pass guarded
  run_storage_self_heal =
      guarded (not settings.storage_self_heal_enabled)
        (str_eq settings.bulk_queue_type "redis" && not connects) (entries_of v)
        (merge_stats part_pass)
