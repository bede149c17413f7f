-- ===== src/Storage/Passes/DryRun.antt =====
-- app/services/storage_self_heal.py: what a dry run foretells.
use geofastmap_api.Prelude.{
  ℕ, ◌≡◌, refl, String, Bool, true, false, not, ◌&&◌, Option, none, str_eq, if◌then◌else◌,
}
use geofastmap_api.Json.{Codec}
use geofastmap_api.Queue.BulkImport.{Builtins}
use geofastmap_api.Storage.{
  Directory, RedisAnswers, Swept, SelfHealStats, contains_name, protected_bulk_storage_keys,
  active_upload_session_ids, collections_with_pending_tile_build,
}
use geofastmap_api.Storage.Passes.{
  is_orphan_file, is_orphan_upload, is_stale_tile_tmp, Settings, Volume, Part, bulk_files, uploads,
  tiles, entries_of, cleanup_orphan_bulk_files, cleanup_orphan_upload_parts,
  cleanup_stale_tile_tmp_files, run_storage_self_heal, part_pass, merge_stats, wanted, guarded,
  bulk_enabled, grace, deleted_of,
}
use geofastmap_api.Storage.Passes.Sweep.{pass-IsForetold, IsForetold, allows}
use geofastmap_api.Storage.Passes.InUse.{no_file, no_upload, no_tile}

wanted-IsForetold :
    (is_wanted : Bool) (d : Directory) (dry real : Directory × Swept) (n : String)
    → IsForetold dry real d n
    → IsForetold (wanted is_wanted d dry) (wanted is_wanted d real) d n
unfolding wanted
wanted-IsForetold true d dry real n told = told
wanted-IsForetold false d dry real n told = (refl, refl)

-- `IsForetold` for a whole run.
abbrev pub IsRunForetold :
    (dry real : (Part → Directory) × SelfHealStats) → (Part → Directory) → Part → String → Type 0
IsRunForetold dry real entries part n =
    (dry.0 part n ≡ entries part n)
    × (real.0 part n ≡ (if contains_name n (deleted_of dry.1 part) then none else entries part n))

guarded-IsRunForetold :
    (off lost : Bool) (entries : Part → Directory) (dry real : (Part → Directory) × SelfHealStats)
    (part : Part) (n : String)
    → IsRunForetold dry real entries part n
    → IsRunForetold (guarded off lost entries dry) (guarded off lost entries real) entries part n
unfolding guarded
guarded-IsRunForetold true lost entries dry real bulk_files n told = (refl, refl)
guarded-IsRunForetold true lost entries dry real uploads n told = (refl, refl)
guarded-IsRunForetold true lost entries dry real tiles n told = (refl, refl)
guarded-IsRunForetold false true entries dry real bulk_files n told = (refl, refl)
guarded-IsRunForetold false true entries dry real uploads n told = (refl, refl)
guarded-IsRunForetold false true entries dry real tiles n told = (refl, refl)
guarded-IsRunForetold false false entries dry real part n told = told

module _ (settings : Settings) (refuses : String → Bool) (now : ℕ) (python : Builtins)
    (codec : Codec) (match : String → Option String) (connects bulk with_tiles : Bool)
    (r : RedisAnswers (codec.Wire)) (v : Volume) where
  abbrev dry_pass : Part → Directory × Swept
  dry_pass = part_pass settings refuses now python codec match connects bulk with_tiles true r v

  abbrev real_pass : Part → Directory × Swept
  real_pass = part_pass settings allows now python codec match connects bulk with_tiles false r v

  merge_stats-IsRunForetold :
      (part : Part) (n : String)
      → IsRunForetold (merge_stats dry_pass) (merge_stats real_pass) (entries_of v) part n
  unfolding part_pass cleanup_orphan_bulk_files cleanup_orphan_upload_parts
      cleanup_stale_tile_tmp_files
  merge_stats-IsRunForetold bulk_files n = wanted-IsForetold bulk (entries_of v bulk_files) _ _ n (
      pass-IsForetold
        (λ keys. is_orphan_file keys now (grace settings.storage_self_heal_bulk_grace_seconds))
        (λ names. no_file names now (grace settings.storage_self_heal_bulk_grace_seconds))
        "redis_bulk_keys" "listdir_bulk" refuses
        (bulk_enabled settings && (v.place bulk_files).is_there)
        (protected_bulk_storage_keys python codec r) (v.place bulk_files).listed
        (entries_of v bulk_files) n)
  merge_stats-IsRunForetold uploads n = wanted-IsForetold bulk (entries_of v uploads) _ _ n (
      pass-IsForetold
        (λ live. is_orphan_upload live now (grace settings.storage_self_heal_bulk_grace_seconds))
        (λ names. no_upload names now (grace settings.storage_self_heal_bulk_grace_seconds))
        "redis_upload_sessions" "listdir_uploads" refuses
        (bulk_enabled settings && (v.place uploads).is_there) (active_upload_session_ids r)
        (v.place uploads).listed (entries_of v uploads) n)
  merge_stats-IsRunForetold tiles n = wanted-IsForetold with_tiles (entries_of v tiles) _ _ n (
      pass-IsForetold
        (λ pending.
          is_stale_tile_tmp match pending now
            (grace settings.storage_self_heal_tile_tmp_grace_seconds))
        (λ names. no_tile match names now (grace settings.storage_self_heal_tile_tmp_grace_seconds))
        "redis_tile_pending" "listdir_tiles" refuses
        (str_eq settings.bulk_queue_type "redis" && (v.place tiles).is_there)
        (collections_with_pending_tile_build r) (v.place tiles).listed (entries_of v tiles) n)

  -- A dry run removes nothing. With the same answers of Redis, at the same time and with no removal
  -- refused, a real run removes from each directory just what the dry run reports for it.
  pub dry_run_foretells :
      (part : Part) (n : String)
      → IsRunForetold
          (run_storage_self_heal settings refuses now python codec match connects bulk with_tiles
            true r v)
          (run_storage_self_heal settings allows now python codec match connects bulk with_tiles
            false r v)
          (entries_of v)
          part
          n
  unfolding run_storage_self_heal
  dry_run_foretells part n =
      guarded-IsRunForetold (not settings.storage_self_heal_enabled)
        (str_eq settings.bulk_queue_type "redis" && not connects) (entries_of v)
        (merge_stats dry_pass) (merge_stats real_pass) part n (merge_stats-IsRunForetold part n)
