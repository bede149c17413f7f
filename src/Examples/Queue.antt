-- ===== src/Examples/Queue.antt =====
-- app/services/tile_build_queue.py on a small store.
use geofastmap_api.Prelude.{String, true, false, ◌≡◌, ◌≢◌, refl, none, some, arith, eq_iff, pos}
use geofastmap_api.Json.{Json, num, str}
use geofastmap_api.Queue.TileBuild
use geofastmap_api.Queue.TileBuild.{TileBuildPayload, default_options}
use geofastmap_api.Queue.TileBuild.Leases.{
  get_pending_job_id, refresh_pending, clear_pending, enqueue_tile_build, enqueue_once,
  pending_frame, refresh_owner,
}
use geofastmap_api.Examples.Store.{plain_codec, Store, store, empty_store}

abbrev zoomed : TileBuildPayload
zoomed = record {
  collection_id = str "roads";
  job_id = str "j1";
  options = record default_options { max_zoom = num (pos 14) };
  is_composite = true;
}

abbrev redis_store : geofastmap_api.Redis.Redis Json
redis_store = store Json

abbrev start_state : Store Json
start_state = empty_store Json

abbrev roads_pending : Store Json
roads_pending =
    (enqueue_tile_build plain_codec redis_store "redis" start_state "roads" "j1" none false).0

idle :
    TileBuild.Leases.is_set (get_pending_job_id plain_codec redis_store start_state "roads") ≡ false
unfolding get_pending_job_id
idle = refl

enqueue_once_example :
    enqueue_tile_build plain_codec redis_store "redis" roads_pending "roads" "j2" none true
    ≡ (roads_pending, false)
enqueue_once_example =
    (enqueue_once plain_codec redis_store start_state "roads" "j1" "j2" none none false true idle
      refl).4

roads_owned : get_pending_job_id plain_codec redis_store roads_pending "roads" ≡ some "j1"
roads_owned =
    (enqueue_once plain_codec redis_store start_state "roads" "j1" "j2" none none false true idle
      refl).1

roads_ne_rivers : ◌≢◌ {A = String} "roads" "rivers"
roads_ne_rivers = ground (arith, eq_iff "roads" "rivers")

j1_ne_j2 : ◌≢◌ {A = String} "j1" "j2"
j1_ne_j2 = ground (arith, eq_iff "j1" "j2")
