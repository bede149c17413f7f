-- ===== src/Examples/Finalize.antt =====
-- app/services/bulk_finalize_worker.py, bulk_finalize_reconcile.py and bulk_watchdog.py: an import whose
-- rows are promoted, and one that is stuck.
use geofastmap_api.Prelude.{ℕ, true, false, ◌≡◌, refl, none, some, [], ◌∷◌, str_eq, if◌then◌else◌}
use geofastmap_api.Json.{Json}
use geofastmap_api.Bulk.Mutex.{is_terminal_job_status, mutex_key}
use geofastmap_api.JobStore.{JobInfo, no_fields}
use geofastmap_api.Finalize.{
  Env, World, Engine, Settings, Prepared, Promoted, Counted, BulkFinalizePayload, dedupe_key,
  is_finalize_pending, Answer,
}
use geofastmap_api.Finalize.Worker.{process_bulk_finalize_job}
use geofastmap_api.Finalize.Worker.Outcomes.{process_settles, Outcome}
use geofastmap_api.Finalize.Reconcile.{Reading, ReconcileStats}
use geofastmap_api.Finalize.Reconcile.Jobs.{reconcile_one_job}
use geofastmap_api.Finalize.Reconcile.Jobs.Placed.{Handled}
use geofastmap_api.Finalize.Reconcile.Jobs.Ends.{reconcile_one_job_lem}
use geofastmap_api.Finalize.Reconcile.Passes.{
  Fleet, PassUntouched, reconcile_all_stuck_finalize_jobs, dry_pass_keeps,
}
use geofastmap_api.Finalize.Watchdog.{recover_running_job_to_finalize}
use geofastmap_api.Finalize.Watchdog.Recovery.{recover_queues, status_of, put_in_queue}
use geofastmap_api.Finalize.Watchdog.Passes.{Listings}
use geofastmap_api.Examples.Store.{plain_codec, store, empty_store}
use geofastmap_api.Examples.JsonEq.{json_eq}

-- Three staged rows, which are promoted without an error. A number of rows is all there is.
abbrev engine : Engine
engine = record {
  Db = ℕ;
  staging_exists = λ db job_id. Answer.gives true;
  staging_row_count = λ db job_id. Counted.counted db;
  drop_staging = λ db job_id. (0, none);
  prepare_staging = λ db job_id. (db, Prepared.ready);
  promote_staging = λ db collection_id job_id mode. (0, Promoted.promoted db);
  finalize_after_promote = λ db collection_id. (db, none);
  cleanup_failed_staging_import = λ db job_id collection_id. (0, none);
  live_partition = λ db collection_id. Answer.gives (some "features_roads");
  live_count = λ db collection_id. some 0;
  swap_complete = λ db collection_id job_id. Answer.gives false;
}

abbrev settings : Settings
settings = record {
  bulk_queue_type = "redis";
  bulk_finalize_queue_enabled = true;
  bulk_watchdog_fail_stale_running = some true;
  bulk_job_stale_seconds = 7200;
  bulk_finalize_stale_seconds = 3600;
  bulk_job_pending_stale_seconds = 600;
  bulk_running_recover_staging_seconds = 600;
  bulk_finalize_duplicate_give_up_attempts = 3;
}

abbrev env : Env
env = record {
  codec = plain_codec;
  redis = store Json;
  same_text = json_eq;
  engine = engine;
  lower = λ s. s;
  show = λ n. "n";
  commas = λ n. "n";
  settings = settings;
}

abbrev import_job : JobInfo
import_job = record {
  job_id = "j1";
  collection_id = "roads";
  status = "finalizing";
  message = none;
  items_in = 3;
  items_created = 3;
  items_failed = 0;
  created_at = 10;
  updated_at = 10;
  finished_at = none;
  last_progress_at = none;
  owner_id = some 4;
  job_label = none;
}

abbrev payload : BulkFinalizePayload
payload = record {
  job_id = "j1";
  collection_id = "roads";
  mode = "append";
  items_created = 3;
  items_failed = 0;
  owner_id = some 4;
  queue_compute_tiles = true;
  attempt = 0;
}

abbrev world : World env
world = record {
  jobs = λ j. if str_eq "j1" j then some import_job else none;
  store = (store Json).set (empty_store Json) (dedupe_key "j1") "1" 60;
  registry = λ j. none;
  states = λ j. no_fields;
  queue = [];
  db = 3;
  tile_requests = [];
}

process_settles_example :
    Outcome env refl world "j1" (process_bulk_finalize_job env world 20 payload)
unfolding is_terminal_job_status
process_settles_example = process_settles env refl refl world 20 payload

abbrev reading : Reading
reading = record {
  attempt_in = λ s. none;
  int_of = λ s. 1;
  staging_table_name = λ j. "bulk_staging_j1";
}

abbrev stats : ReconcileStats
stats = record {
  orphans_dropped = 0;
  completed_already_swapped = 0;
  promoted = 0;
  enqueued = 0;
  empty_closed = 0;
  abandoned = 0;
  skipped = 0;
  errors = [];
}

reconcile_one_job_example :
    Handled env refl world import_job
      (reconcile_one_job env reading world 20 import_job stats false)
unfolding is_terminal_job_status
reconcile_one_job_example = reconcile_one_job_lem env refl refl reading world 20 import_job stats

abbrev fleet : Fleet env
fleet = record {
  listed_jobs = λ w limit. import_job ∷ [];
  attached = λ db. Answer.gives (("bulk_staging_j1", "roads") ∷ []);
  would_drop = λ db. Answer.gives [];
  cleanup_orphans = λ db. (db, Answer.gives []);
}

dry_pass_keeps_example :
    PassUntouched env fleet world
      (reconcile_all_stuck_finalize_jobs env reading 20 true fleet 5000 world)
dry_pass_keeps_example = dry_pass_keeps env fleet world reading 20 5000

-- No progress for more than two hours.
abbrev stuck_job : JobInfo
stuck_job = record import_job { status = "running" }

recover_queues_example :
    let (w', done) = recover_running_job_to_finalize env world 9000 stuck_job in
    (done ≡ true)
    × (w'.queue ≡ put_in_queue env refl world stuck_job 3)
    × (is_finalize_pending env w' "j1" ≡ true)
    × (status_of (w'.jobs "j1") ≡ some "finalizing")
    × (w'.db ≡ 3)
unfolding is_terminal_job_status
recover_queues_example =
    recover_queues env refl refl refl world 9000 stuck_job import_job 2 refl refl

abbrev held_world : World env
held_world = record world {
  jobs = λ j. if str_eq "j2" j then some (record import_job { status = "pending" }) else none;
  store = (store Json).set (empty_store Json) (mutex_key "roads") "j2" 60;
}

-- The settings of a deployment with the finalize queue, which does not fail running jobs.
abbrev quiet_env : Env
quiet_env = record env { settings = record settings { bulk_watchdog_fail_stale_running = none } }

abbrev quiet_world : World quiet_env
quiet_world = record {
  jobs = λ j. if str_eq "j1" j then some stuck_job else none;
  store = empty_store Json;
  registry = λ j. none;
  states = λ j. no_fields;
  queue = [];
  db = 3;
  tile_requests = [];
}

abbrev listings : Listings quiet_env
listings = record {
  mutex_collections = λ w. [];
  listed_jobs = λ w. stuck_job ∷ [];
  cleanup_orphan_staging_tables = λ db ids. db;
}
