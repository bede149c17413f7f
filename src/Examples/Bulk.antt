-- ===== src/Examples/Bulk.antt =====
-- app/services/bulk_collection_activity.py: two jobs want one collection.
use Prim.Native.String.{◌++◌}
use geofastmap_api.Prelude.{◌≡◌, ltb, refl, inl, none, some, List, [], ◌∷◌, ◌⊎◌}
use geofastmap_api.Json.{Json}
use geofastmap_api.Bulk.Mutex.{
  get_collection_bulk_mutex_holder, reclaim_stale_collection_bulk_mutex, mutex_key,
}
use geofastmap_api.Bulk.Mutex.Exclusion.{
  Event, acquires, releases, refreshes, Member, run, run_exclusive,
}
use geofastmap_api.Bulk.Mutex.Reclaim.{IsOver, reclaim_lem}
use geofastmap_api.Redis.{Redis}
use geofastmap_api.Bulk.Activity.{inflight_prefix, has_activity}
use geofastmap_api.Bulk.Activity.Counts.{
  Work, starts, ends, running, run_work, shown, activity_counts,
}
use geofastmap_api.Examples.Store.{store, empty_store}

abbrev contest : List Event
contest = acquires "a" ∷ acquires "b" ∷ refreshes "a" ∷ releases "a" ∷ acquires "b" ∷ []

b_holds : Member "b" (run (store Json) 600 "roads" (empty_store Json, []) contest).1
unfolding run
b_holds = inl refl

run_exclusive_example :
    (store Json).get
      (run (store Json) 600 "roads" (empty_store Json, []) contest).0
      (mutex_key "roads")
    ≡ some "b"
run_exclusive_example =
    (run_exclusive (store Json) 600 "roads" contest (empty_store Json) "b" "b" b_holds b_holds).1

-- The job store does not know the holder.
b_named :
    get_collection_bulk_mutex_holder
      (store Json)
      "redis"
      (run (store Json) 600 "roads" (empty_store Json, []) contest).0
      "roads"
    ≡ some "b"
unfolding run get_collection_bulk_mutex_holder
b_named = refl

abbrev b_state : Redis.State (store Json)
b_state = (run (store Json) 600 "roads" (empty_store Json, []) contest).0

reclaim_lem_example :
    let after =
      reclaim_stale_collection_bulk_mutex
        (store Json)
        (λ s. s)
        (λ j. none)
        600
        "redis"
        b_state
        "roads" in
    (IsOver (λ s. s) 600 none
      × (after.1 ≡ some "b")
      × ((store Json).get after.0 (mutex_key "roads") ≡ none))
    ⊎ ((¬ IsOver (λ s. s) 600 none) × (after ≡ (b_state, none)))
reclaim_lem_example =
    reclaim_lem (store Json) "roads" (λ s. s) (λ j. none) 600 b_state "b" (mutex_key "roads")
      b_named

abbrev works : List Work
works = starts "roads" ∷ starts "roads" ∷ ends "roads" ∷ starts "rivers" ∷ []

activity_counts_example :
    (run_work inflight_prefix (λ k. none) works (inflight_prefix ++ "roads") ≡ shown 1)
    × (has_activity "redis" inflight_prefix (run_work inflight_prefix (λ k. none) works) "roads"
        ≡ ltb 0 1)
unfolding running
activity_counts_example = activity_counts inflight_prefix works "roads" 1 refl
