-- ===== src/Storage/Passes/Kept.antt =====
-- app/services/storage_self_heal.py: what a run keeps because Redis refers to it.
use geofastmap_api.Prelude.{ℕ, ◌≡◌, refl, String, Bool, true, false, not, ◌&&◌, Option, str_eq}
use geofastmap_api.Json.{Codec}
use geofastmap_api.Queue.BulkImport.{Builtins}
use geofastmap_api.Storage.{Directory, RedisAnswers, Swept, SelfHealStats}
use geofastmap_api.Storage.Passes.{
  Settings, Volume, Part, bulk_files, uploads, tiles, entries_of, run_storage_self_heal, part_pass,
  merge_stats, wanted, guarded,
}
use geofastmap_api.Storage.Passes.InUse.{IsReferenced, file_in_use, upload_in_use, tile_in_use}

wanted_keeps :
    (is_wanted : Bool) (d : Directory) (swept : Directory × Swept) (n : String)
    → swept.0 n ≡ d n
    → (wanted is_wanted d swept).0 n ≡ d n
unfolding wanted
wanted_keeps true d swept n kept = kept
wanted_keeps false d swept n kept = refl

guarded_keeps :
    (off lost : Bool) (entries : Part → Directory) (healed : (Part → Directory) × SelfHealStats)
    (part : Part) (n : String)
    → healed.0 part n ≡ entries part n
    → (guarded off lost entries healed).0 part n ≡ entries part n
unfolding guarded
guarded_keeps true lost entries healed part n kept = refl
guarded_keeps false true entries healed part n kept = refl
guarded_keeps false false entries healed part n kept = kept

module _ (settings : Settings) (refuses : String → Bool) (now : ℕ) (python : Builtins)
    (codec : Codec) (match : String → Option String) (connects bulk with_tiles dry_run : Bool)
    (r : RedisAnswers (codec.Wire)) (v : Volume) where
  part_kept :
      (part : Part) (name : String)
      → IsReferenced python codec match r part name
      → (part_pass settings refuses now python codec match connects bulk with_tiles dry_run r v
            part).0
          name
        ≡ entries_of v part name
  unfolding part_pass
  part_kept bulk_files name ref =
      wanted_keeps bulk (entries_of v bulk_files) _ name (
        file_in_use python codec settings refuses now match dry_run r (v.place bulk_files) name ref)
  part_kept uploads name ref =
      wanted_keeps bulk (entries_of v uploads) _ name
        (upload_in_use python codec settings refuses now match dry_run r (v.place uploads) name ref)
  part_kept tiles name ref =
      wanted_keeps with_tiles (entries_of v tiles) _ name
        (tile_in_use python codec settings refuses now match dry_run r (v.place tiles) name ref)

  -- Whatever Redis refers to keeps its entry in its directory: the file of a job in the queue or of
  -- a registered import, the parts of an upload with a session, the temporary file of a collection
  -- with a pending tile build; however old it is, for all settings and kinds of runs.
  pub referenced_kept :
      (part : Part) (name : String)
      → IsReferenced python codec match r part name
      → (run_storage_self_heal settings refuses now python codec match connects bulk with_tiles
            dry_run r v).0
          part name
        ≡ entries_of v part name
  unfolding run_storage_self_heal
  referenced_kept part name ref =
      guarded_keeps (not settings.storage_self_heal_enabled)
        (str_eq settings.bulk_queue_type "redis" && not connects) (entries_of v)
        (merge_stats
          (part_pass settings refuses now python codec match connects bulk with_tiles dry_run r v))
        part name (part_kept part name ref)
