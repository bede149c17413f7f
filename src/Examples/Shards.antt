-- ===== src/Examples/Shards.antt =====
-- app/services/bulk_queue.py: two parents whose shards report in turn.
use geofastmap_api.Prelude.{pos, String, true, false, ◌≡◌, none, some, List, [], ◌∷◌}
use geofastmap_api.Shards.{ShardResult, get_parent_shard_state}
use geofastmap_api.Shards.Totals.{after, shard_totals}

abbrev imported : ShardResult
imported = record {
  created = 5;
  failed = 1;
  shard_failed = false;
  shard_index = some (pos 0);
  error_message = none;
}

abbrev broken : ShardResult
broken = record {
  created = 0;
  failed = 2;
  shard_failed = true;
  shard_index = some (pos 1);
  error_message = some (b'x' ∷ []);
}

abbrev reports : List (String × ShardResult)
reports = ("p", imported) ∷ ("q", imported) ∷ ("p", broken) ∷ []

shard_totals_example :
    get_parent_shard_state "redis"
      (after (λ j. none) "p" "roads" (pos 2) "append" false [] reports)
      "p"
    ≡ some (2, 2, 1, 5, 3)
shard_totals_example = (shard_totals (λ j. none) "p" "roads" (pos 2) "append" false [] reports).0
