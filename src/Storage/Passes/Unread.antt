-- ===== src/Storage/Passes/Unread.antt =====
-- app/services/storage_self_heal.py: a queue that cannot be read.
use geofastmap_api.Prelude.{ℕ, ◌≡◌, String, Bool, true, false, ◌&&◌, Option, none, some, List, []}
use geofastmap_api.Json.{Codec}
use geofastmap_api.Queue.BulkImport.{Builtins}
use geofastmap_api.Storage.{
  Entry, file, directory, RedisAnswers, contains_name, queue_keys, meta_keys,
  protected_bulk_storage_keys,
}
use geofastmap_api.Storage.Passes.{
  is_orphan_file, Settings, Place, bulk_files, cleanup_orphan_bulk_files, bulk_enabled, grace,
}
use geofastmap_api.Storage.Passes.Sweep.{pass_removes}
use geofastmap_api.Storage.Passes.InUse.{no_file, IsReferenced, file_in_use}

old_unprotected :
    (protected : List String) (now grace_seconds : ℕ) (name : String) (entry : Option Entry)
    → is_orphan_file [] now grace_seconds name entry ≡ true
    → contains_name name protected ≡ false
    → is_orphan_file protected now grace_seconds name entry ≡ true
unfolding is_orphan_file
old_unprotected protected now grace_seconds name none old free = old
old_unprotected protected now grace_seconds name (some (directory mtime)) old free = old
old_unprotected protected now grace_seconds name (some (file mtime)) old free = rw free old

module _ (settings : Settings) (refuses : String → Bool) (now : ℕ) (python : Builtins)
    (codec : Codec) where
  -- The answers of Redis when LRANGE raises.
  abbrev pub unread : RedisAnswers (codec.Wire) → RedisAnswers (codec.Wire)
  unread r = record r { queue = none }

  -- An old file that a job in the queue names is kept where LRANGE answers. Where it raises and SCAN
  -- answers, the file is removed: in a directory that is there, where the file was listed, no
  -- registered import names it and its removal is not refused.
  pub unread_queue_removes :
      (match : String → Option String) (r : RedisAnswers (codec.Wire)) (place : Place)
      (name : String) (metas names : List String)
      → IsReferenced python codec match r bulk_files name
      → r.import_keys ≡ some metas
      → contains_name name (meta_keys python codec r.get metas) ≡ false
      → (bulk_enabled settings && place.is_there) ≡ true
      → place.listed ≡ some names
      → contains_name name names ≡ true
      → is_orphan_file [] now
          (grace settings.storage_self_heal_bulk_grace_seconds)
          name
          (place.entries name)
        ≡ true
      → refuses name ≡ false
      → ((cleanup_orphan_bulk_files settings refuses now python codec r false place).0 name
          ≡ place.entries name)
        × ((cleanup_orphan_bulk_files settings refuses now python codec (unread r) false place).0
              name
            ≡ none)
  unfolding cleanup_orphan_bulk_files protected_bulk_storage_keys queue_keys
  unread_queue_removes match r place name metas names ref scanned free on listing here old allowed =
      (
        file_in_use python codec settings refuses now match false r place name ref,
        rw (scanned, listing)
            (pass_removes
              (λ keys.
                is_orphan_file keys now (grace settings.storage_self_heal_bulk_grace_seconds))
              (λ keys. no_file keys now (grace settings.storage_self_heal_bulk_grace_seconds))
              "redis_bulk_keys" "listdir_bulk" refuses (bulk_enabled settings && place.is_there)
              (meta_keys python codec r.get metas) names place.entries name on here
              (old_unprotected (meta_keys python codec r.get metas) now
                (grace settings.storage_self_heal_bulk_grace_seconds) name (place.entries name) old
                free)
              allowed),
      )
