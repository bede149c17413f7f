-- ===== src/Shards.antt =====
-- app/services/bulk_queue.py: the state of a parent job whose shards report their results. The hash
-- of a parent is a record of its fields; a text that is cut is the list of its code points.
pub mod Totals
use geofastmap_api.Prelude.{
  ℕ, ◌+◌, ℤ, pos, negsuc, String, Bool, true, false, ◌&&◌, Option, none, some, List, [], ◌∷◌, ◌++◌,
  if◌then◌else◌, str_eq, ltb, length, take,
}

-- A sample of an error: `{"shard_index": …, "error": …}`
abbrev pub Sample : Type 0
Sample = Option ℤ × List ℕ

pub record ParentState : Type 0 where
  pub collection_id : String
  pub mode : String
  pub expected_shards : ℕ
  pub completed_shards : ℕ
  pub failed_shards : ℕ
  pub items_created : ℕ
  pub items_failed : ℕ
  pub status : String
  pub error_samples : List Sample
  pub queue_compute_tiles : Bool
  pub replace_filters : List String

-- The keyword arguments of `record_parent_shard_result`.
pub record ShardResult : Type 0 where
  pub created : ℕ
  pub failed : ℕ
  pub shard_failed : Bool
  pub shard_index : Option ℤ
  pub error_message : Option (List ℕ)

abbrev pub Parents : Type 0
Parents = String → Option ParentState

abbrev put : Parents → String → Option ParentState → Parents
put s k v j = if str_eq k j then v else s j

-- `max(0, int(expected_shards))`
abbrev pub at_least_zero : ℤ → ℕ
at_least_zero (pos n) = n
at_least_zero (negsuc n) = 0

-- The filters are written only where there are some: else those of an earlier state stay.
abbrev pub kept_filters : Option ParentState → List String → List String
kept_filters none replace_filters = replace_filters
kept_filters (some old) [] = old.replace_filters
kept_filters (some old) (f ∷ fs) = f ∷ fs

pub initial_state :
    Option ParentState
    → (collection_id : String) (expected_shards : ℤ) (mode : String) (queue_compute_tiles : Bool)
      (replace_filters : List String)
    → ParentState
initial_state old collection_id expected_shards mode queue_compute_tiles replace_filters = record {
  collection_id = collection_id;
  mode = mode;
  expected_shards = at_least_zero expected_shards;
  completed_shards = 0;
  failed_shards = 0;
  items_created = 0;
  items_failed = 0;
  status = "running";
  error_samples = [];
  queue_compute_tiles = queue_compute_tiles;
  replace_filters = kept_filters old replace_filters;
}

pub init_parent_state :
    (bulk_queue_type : String)
    → Parents
    → (parent_job_id collection_id : String) (expected_shards : ℤ) (mode : String)
      (queue_compute_tiles : Bool) (replace_filters : List String)
    → Parents
unfolding initial_state
init_parent_state bulk_queue_type s parent_job_id collection_id expected_shards mode
      queue_compute_tiles replace_filters =
    if str_eq bulk_queue_type "redis"
    then put s parent_job_id (
        some (
          initial_state (s parent_job_id) collection_id expected_shards mode queue_compute_tiles
            replace_filters))
    else s

-- `if len(samples) < 12: samples.append(…)`
abbrev pub add_sample : List Sample → Sample → List Sample
add_sample samples sample = if ltb (length samples) 12 then samples ++ sample ∷ [] else samples

-- The error of a failed shard that names one: the first 500 characters.
abbrev pub sample_text : Bool → Option ℤ → Option (List ℕ) → Option Sample
sample_text true shard_index (some (c ∷ cs)) = some (shard_index, take 500 (c ∷ cs))
sample_text shard_failed shard_index error_message = none

abbrev pub sample_of : ShardResult → Option Sample
sample_of result = sample_text result.shard_failed result.shard_index result.error_message

abbrev pub add_optional : List Sample → Option Sample → List Sample
add_optional samples none = samples
add_optional samples (some sample) = add_sample samples sample

-- `_mutate` on a parent that is there.
pub recorded : ParentState → ShardResult → ParentState
recorded st result = record st {
  completed_shards = st.completed_shards + 1;
  items_created = st.items_created + result.created;
  items_failed = st.items_failed + result.failed;
  failed_shards = if result.shard_failed then st.failed_shards + 1 else st.failed_shards;
  error_samples = add_optional st.error_samples (sample_of result);
}

-- The state that is read back is the answer; none where the parent is gone.
pub record_parent_shard_result :
    (bulk_queue_type : String) → Parents → String → ShardResult → Parents × Option ParentState
unfolding recorded
record_parent_shard_result bulk_queue_type s parent_job_id result =
    if str_eq bulk_queue_type "redis"
    then (elim (s parent_job_id) [
      | none ↦ (s, none)
      | some st ↦ let st' = recorded st result in (put s parent_job_id (some st'), some st')
    ])
    else (s, none)

-- expected, completed and failed shards, items created and failed
pub get_parent_shard_state :
    (bulk_queue_type : String) → Parents → String → Option (ℕ × ℕ × ℕ × ℕ × ℕ)
get_parent_shard_state bulk_queue_type s parent_job_id =
    if str_eq bulk_queue_type "redis"
    then (elim (s parent_job_id) [
      | none ↦ none
      | some st ↦ some (
        st.expected_shards, st.completed_shards, st.failed_shards, st.items_created,
        st.items_failed,
      )
    ])
    else none

pub clear_parent_state : (bulk_queue_type : String) → Parents → String → Parents
clear_parent_state bulk_queue_type s parent_job_id =
    if str_eq bulk_queue_type "redis" then put s parent_job_id none else s
