-- ===== src/Examples/Storage.antt =====
-- app/services/storage_self_heal.py: a volume two days after its last change, with one job in the
-- queue, one upload and one tile build.
use geofastmap_api.Prelude.{
  pos, ◌≡◌, refl, String, true, false, Option, none, some, [], ◌∷◌, str_eq, contains_text,
  if◌then◌else◌,
}
use geofastmap_api.Json.{Json, null, str}
use geofastmap_api.Queue.BulkImport.{Builtins, BulkJobPayload, to_json}
use geofastmap_api.Storage.{
  Entry, file, directory, Directory, RedisAnswers, meta_keys, contains_name,
}
use geofastmap_api.Storage.Passes.{
  Settings, Volume, bulk_files, uploads, tiles, entries_of, is_orphan_file, run_storage_self_heal,
  cleanup_orphan_bulk_files,
}
use geofastmap_api.Storage.Passes.Sweep.{allows}
use geofastmap_api.Storage.Passes.InUse.{IsReferenced, enqueued}
use geofastmap_api.Storage.Passes.Kept.{referenced_kept}
use geofastmap_api.Storage.Passes.DryRun.{IsRunForetold, dry_run_foretells}
use geofastmap_api.Storage.Passes.Unread.{unread, unread_queue_removes}
use geofastmap_api.Examples.Store.{plain_codec}

abbrev python : Builtins
python = record { repr = λ j. ""; lower = λ s. s; parse_int = λ s. none; truncate = λ m e. m }

abbrev job : BulkJobPayload
job = record {
  job_id = str "j";
  collection_id = str "roads";
  storage_key = str "a.zip";
  mode = str "append";
  batch_size = pos 100;
  owner_id = null;
  queue_compute_tiles = true;
  zip_inner_shp_paths = null;
  job_kind = "single";
  parent_job_id = null;
  shard_index = none;
  shard_total = none;
  finalize_collection = true;
  replace_filters = null;
}

abbrev redis : RedisAnswers Json
redis = record {
  queue = some (to_json python plain_codec job ∷ []);
  import_keys = some [];
  session_keys = some ("geofastmap:bulk_upload_session:u1" ∷ []);
  pending_keys = some ("geofastmap:tile_build_pending:roads" ∷ []);
  get = λ k. some none;
}

abbrev settings : Settings
settings = record {
  storage_self_heal_enabled = true;
  bulk_queue_type = "redis";
  bulk_storage_type = "filesystem";
  storage_self_heal_bulk_grace_seconds = 0;
  storage_self_heal_tile_tmp_grace_seconds = 0;
}

abbrev one_entry : String → Entry → Directory
one_entry name entry n = if str_eq n name then some entry else none

abbrev volume : Volume
volume = record {
  place = λ part. elim part [
    | bulk_files ↦ record {
      is_there = true;
      listed = some ("a.zip" ∷ []);
      entries = one_entry "a.zip" (file (some 0));
    }
    | uploads ↦ record {
      is_there = true;
      listed = some ("u1" ∷ "u2" ∷ []);
      entries = λ id. some (directory (some 0));
    }
    | tiles ↦ record {
      is_there = true;
      listed = some ("roads.mbtiles.0.tmp" ∷ []);
      entries = one_entry "roads.mbtiles.0.tmp" (file (some 0));
    }
  ];
}

abbrev match : String → Option String
match name = if str_eq name "roads.mbtiles.0.tmp" then some "roads" else none

queued_file : IsReferenced python plain_codec match redis bulk_files "a.zip"
queued_file = enqueued python plain_codec match redis "a.zip" [] [] job refl refl

referenced_kept_example :
    (run_storage_self_heal settings allows 172800 python plain_codec match true true true false
        redis volume).0
      bulk_files "a.zip"
    ≡ some (file (some 0))
referenced_kept_example =
    referenced_kept settings allows 172800 python plain_codec match true true true false redis
      volume bulk_files "a.zip" queued_file

dry_run_foretells_example :
    IsRunForetold
      (run_storage_self_heal settings allows 172800 python plain_codec match true true true true
        redis volume)
      (run_storage_self_heal settings allows 172800 python plain_codec match true true true false
        redis volume)
      (entries_of volume)
      uploads
      "u2"
dry_run_foretells_example =
    dry_run_foretells settings allows 172800 python plain_codec match true true true redis volume
      uploads "u2"

none_registered : contains_name "a.zip" (meta_keys python plain_codec redis.get []) ≡ false
unfolding meta_keys
none_registered = refl

file_is_old : is_orphan_file [] 172800 86400 "a.zip" (some (file (some 0))) ≡ true
unfolding is_orphan_file contains_text
file_is_old = refl

unread_queue_removes_example :
    ((cleanup_orphan_bulk_files settings allows 172800 python plain_codec redis false
          (volume.place bulk_files)).0
        "a.zip"
      ≡ some (file (some 0)))
    × ((cleanup_orphan_bulk_files settings allows 172800 python plain_codec
            (unread settings allows 172800 python plain_codec redis)
            false
            (volume.place bulk_files)).0
          "a.zip"
        ≡ none)
unread_queue_removes_example =
    unread_queue_removes settings allows 172800 python plain_codec match redis
      (volume.place bulk_files) "a.zip" [] ("a.zip" ∷ []) queued_file refl none_registered refl refl
      refl file_is_old refl
