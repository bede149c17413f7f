-- ===== src/Queue/TileBuild/Leases.antt =====
-- app/services/tile_build_queue.py: the pending lease of a collection, which keeps a second build
-- of it out of the queue, and the queue.
use Prim.Native.String.{◌++◌}
use geofastmap_api.Prelude.{
  ℕ, ◌*◌, ◌≤◌, String, Bool, true, false, ◌≡◌, ◌≢◌, refl, Option, none, some, ◌∷◌, arith, max,
  if◌then◌else◌, str_eq, eq_iff, eq_of_iff, sym, ◌∙◌, eq_refl, truthy, is_text,
}
use geofastmap_api.Json.{Codec, str}
use geofastmap_api.Redis.{Redis}
use geofastmap_api.Queue.Keys.{prefix_ne, prefix_eq}
use geofastmap_api.Queue.TileBuild.{TileBuildOptions, TileBuildPayload, default_options, to_json}

abbrev pub tile_build_queue_key : String
tile_build_queue_key = "geofastmap:tile_build_queue"

abbrev pub tile_build_pending_prefix : String
tile_build_pending_prefix = "geofastmap:tile_build_pending:"

abbrev tile_build_latest_prefix : String
tile_build_latest_prefix = "geofastmap:tile_build_latest:"

abbrev pub tile_build_pending_ttl : ℕ
tile_build_pending_ttl = 12 * 3600

abbrev pub pending_key : String → String
pending_key collection_id = tile_build_pending_prefix ++ collection_id

abbrev latest_key : String → String
latest_key collection_id = tile_build_latest_prefix ++ collection_id

-- `int(ttl_seconds if ttl_seconds is not None else TILE_BUILD_PENDING_TTL)`
abbrev ttl_or_default : Option ℕ → ℕ
ttl_or_default none = tile_build_pending_ttl
ttl_or_default (some ttl_seconds) = ttl_seconds

-- The truth of what GET answers.
abbrev pub is_set : Option String → Bool
is_set none = false
is_set (some v) = truthy v

-- `options or TileBuildOptions()`
abbrev options_or_default : Option TileBuildOptions → TileBuildOptions
options_or_default none = default_options
options_or_default (some options) = options

abbrev pub build_payload : String → String → Option TileBuildOptions → Bool → TileBuildPayload
build_payload collection_id job_id options is_composite = record {
  collection_id = str collection_id;
  job_id = str job_id;
  options = options_or_default options;
  is_composite = is_composite;
}

-- What `update_tile_build_job` hands to the job store.
pub store_status : String → String
store_status status =
    if str_eq status "building"
    then "running"
    else if str_eq status "queued"
    then "pending"
    else status

module _ (codec : Codec) (redis : Redis codec.Wire) where
  open redis use {
    State, get, set, ttl, delete, lrange, lpush, get-set, ttl-set, get-delete, get-lpush, ttl-lpush,
    lrange-lpush, lrange-set,
  }

  unfoldable pub get_pending_job_id : State → String → Option String
  get_pending_job_id r collection_id = get r (pending_key collection_id)

  pub set_pending : State → String → String → Option ℕ → State
  set_pending r collection_id job_id ttl_seconds =
      set r (pending_key collection_id) job_id (max 60 (ttl_or_default ttl_seconds))

  pub refresh_pending : State → String → String → Option ℕ → State × Bool
  refresh_pending r collection_id job_id ttl_seconds =
      if is_text (get r (pending_key collection_id)) job_id
      then (set r (pending_key collection_id) job_id (max 60 (ttl_or_default ttl_seconds)), true)
      else (r, false)

  pub clear_pending : State → String → State
  clear_pending r collection_id = delete r (pending_key collection_id)

  -- A whole call, with no other caller between its commands: of two callers that both read no pending
  -- job before either writes, each queues a build.
  pub enqueue_tile_build :
      (bulk_queue_type : String)
      → State
      → String
      → String
      → Option TileBuildOptions
      → Bool
      → State × Bool
  enqueue_tile_build bulk_queue_type r collection_id job_id options is_composite =
      if str_eq bulk_queue_type "redis"
      then (if is_set (get r (pending_key collection_id)) then (r, false) else (
        lpush (set r (pending_key collection_id) job_id tile_build_pending_ttl) tile_build_queue_key
            (to_json codec (build_payload collection_id job_id options is_composite)),
        true,
      ))
      else (r, false)

  pending_ne_queue :
      (collection_id : String) → str_eq (pending_key collection_id) tile_build_queue_key ≡ false
  pending_ne_queue collection_id =
      prefix_ne tile_build_pending_prefix collection_id tile_build_queue_key refl

  queue_ne_pending :
      (collection_id : String) → str_eq tile_build_queue_key (pending_key collection_id) ≡ false
  queue_ne_pending collection_id =
      eq_of_iff _ _ (λ h. (eq_iff _ _).1 (sym ((eq_iff _ _).0 h)))
        (λ h. (eq_iff _ _).1 (sym ((eq_iff _ _).0 h)))
      ∙ pending_ne_queue collection_id

  -- Where a collection has no pending job, a job with an id is queued: the collection is pending
  -- for this job for twelve hours, the payload stands in front of what was queued before, and every
  -- further build of the collection is then refused and changes nothing.
  pub enqueue_once :
      (r : State) (collection_id job_id job_id' : String)
      (options options' : Option TileBuildOptions) (is_composite is_composite' : Bool)
      → is_set (get_pending_job_id r collection_id) ≡ false
      → truthy job_id ≡ true
      → let after = enqueue_tile_build "redis" r collection_id job_id options is_composite in
        (after.1 ≡ true)
        × (get_pending_job_id after.0 collection_id ≡ some job_id)
        × (ttl after.0 (pending_key collection_id) ≡ some (12 * 3600))
        × (lrange after.0 tile_build_queue_key
            ≡ to_json codec (build_payload collection_id job_id options is_composite)
              ∷ lrange r tile_build_queue_key)
        × (enqueue_tile_build "redis" after.0 collection_id job_id' options' is_composite'
            ≡ (after.0, false))
  unfolding enqueue_tile_build get_pending_job_id
  enqueue_once r collection_id job_id job_id' options options' b b' free has_id =
      simp
        (
          free, has_id, get-lpush, ttl-lpush, get-set, ttl-set, eq_refl, lrange-lpush, lrange-set,
          pending_ne_queue, queue_ne_pending,
        )
        (refl, refl, refl, refl, refl)

  -- Queueing, refreshing, setting or clearing the lease of one collection leaves the pending job of
  -- every other collection as it was, whatever the queue type and whether or not it succeeds.
  pub pending_frame :
      (r : State) (bulk_queue_type collection_id other job_id : String)
      (options : Option TileBuildOptions) (is_composite : Bool) (ttl_seconds : Option ℕ)
      → collection_id ≢ other
      → (get_pending_job_id
            (enqueue_tile_build bulk_queue_type r collection_id job_id options is_composite).0
            other
          ≡ get_pending_job_id r other)
        × (get_pending_job_id (refresh_pending r collection_id job_id ttl_seconds).0 other
            ≡ get_pending_job_id r other)
        × (get_pending_job_id (set_pending r collection_id job_id ttl_seconds) other
            ≡ get_pending_job_id r other)
        × (get_pending_job_id (clear_pending r collection_id) other ≡ get_pending_job_id r other)
  unfolding enqueue_tile_build get_pending_job_id refresh_pending set_pending clear_pending
  pending_frame r q collection_id other job_id options b t ne =
      let k : String = pending_key collection_id in
      let j : String = pending_key other in
      let apart : str_eq k j ≡ false =
        prefix_eq tile_build_pending_prefix collection_id other
        ∙ ground (arith, eq_iff collection_id other) in
      let pushed =
        get-lpush (set r k job_id tile_build_pending_ttl) tile_build_queue_key j
          (to_json codec (build_payload collection_id job_id options b)) (queue_ne_pending other) in
      (
        ground (arith, pushed, get-set r k j job_id tile_build_pending_ttl),
        ground (arith, get-set r k j job_id (max 60 (ttl_or_default t))),
        simp (get-set, apart),
        simp (get-delete, apart),
      )

  -- A lease belongs to the job whose id the pending key holds. That job renews it, for at least a
  -- minute, and stays its owner; to any other job the refresh answers False and changes nothing.
  -- A cleared lease has no owner.
  pub refresh_owner :
      (r : State) (collection_id job_id other : String) (ttl_seconds : Option ℕ)
      → get_pending_job_id r collection_id ≡ some job_id
      → job_id ≢ other
      → let renewed = refresh_pending r collection_id job_id ttl_seconds in
        (renewed.1 ≡ true)
        × (get_pending_job_id renewed.0 collection_id ≡ some job_id)
        × ((seconds : ℕ) × (ttl renewed.0 (pending_key collection_id) ≡ some seconds)
            × (60 ≤ seconds))
        × (refresh_pending r collection_id other ttl_seconds ≡ (r, false))
        × (refresh_pending (clear_pending r collection_id) collection_id job_id ttl_seconds
            ≡ (clear_pending r collection_id, false))
  unfolding get_pending_job_id refresh_pending clear_pending
  refresh_owner r collection_id job_id other ttl_seconds owned ne =
      let differs : str_eq job_id other ≡ false = ground (arith, eq_iff job_id other) in
      simp (owned, differs, get-set, ttl-set, get-delete, eq_refl)
        (refl, refl, (max 60 (ttl_or_default ttl_seconds), refl, omega arith), refl, refl)
