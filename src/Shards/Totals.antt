-- ===== src/Shards/Totals.antt =====
-- app/services/bulk_queue.py: the counters of a parent, after any results of the shards of several
-- parents in any order.
use geofastmap_api.Prelude.{
  ℕ, suc, ◌+◌, ◌≤◌, ℤ, String, Bool, ◌≡◌, refl, ap, ◌∙◌, sym, inl, inr, Option, none, some, List,
  [], ◌∷◌, ◌++◌, if◌then◌else◌, str_eq, ltb, length, length-append, take, zero, eq_iff, eq_refl,
  arith, Bool-cases, Option-cases,
}
use geofastmap_api.Shards.{
  Sample, ParentState, ShardResult, Parents, add_sample, add_optional, sample_of, recorded,
  record_parent_shard_result, init_parent_state, at_least_zero, initial_state,
  get_parent_shard_state,
}

-- The results that the shards report, each for its parent.
pub run_results : Parents → List (String × ShardResult) → Parents
run_results s [] = s
run_results s ((parent, result) ∷ rest) =
    run_results (record_parent_shard_result "redis" s parent result).0 rest

abbrev pub results_of : String → List (String × ShardResult) → List ShardResult
results_of p [] = []
results_of p ((parent, result) ∷ rest) =
    let own = results_of p rest in if str_eq parent p then result ∷ own else own

abbrev pub total : (ShardResult → ℕ) → List ShardResult → ℕ
total f [] = 0
total f (result ∷ rest) = f result + total f rest

abbrev pub failures : ShardResult → ℕ
failures result = if result.shard_failed then 1 else 0

abbrev pub prepend : Option Sample → List Sample → List Sample
prepend none samples = samples
prepend (some sample) samples = sample ∷ samples

abbrev pub samples_of : List ShardResult → List Sample
samples_of [] = []
samples_of (result ∷ rest) = prepend (sample_of result) (samples_of rest)

pub recorded_all : ParentState → List ShardResult → ParentState
recorded_all st [] = st
recorded_all st (result ∷ rest) = recorded_all (recorded st result) rest

step_own :
    (s : Parents) (parent p : String) (result : ShardResult) (st : ParentState)
    → s p ≡ some st
    → (record_parent_shard_result "redis" s parent result).0 p
      ≡ some (if str_eq parent p then recorded st result else st)
unfolding record_parent_shard_result
step_own s parent p result st h = elim (Bool-cases (str_eq parent p)) [
  | inl same ↦
      let there : s parent ≡ some st = ap s ((eq_iff parent p).0 same) ∙ h in
      rw (there, record_parent_shard_result, same)
  | inr other ↦ elim (Option-cases (s parent)) [
    | inl gone ↦ rw (gone, record_parent_shard_result, other) h
    | inr (old, there) ↦ rw (there, record_parent_shard_result, other) h
  ]
]

-- Only the results of a parent reach its state.
run_results_own :
    (events : List (String × ShardResult)) (s : Parents) (p : String) (st : ParentState)
    → s p ≡ some st
    → run_results s events p ≡ some (recorded_all st (results_of p events))
unfolding run_results recorded_all
run_results_own [] s p st h = h
run_results_own ((parent, result) ∷ rest) s p st h = elim (Bool-cases (str_eq parent p)) [
  | inl same ↦
      rw same (
        run_results_own rest _ p (recorded st result)
          (rw same at (step_own s parent p result st h)))
  | inr other ↦
      rw other (run_results_own rest _ p st (rw other at (step_own s parent p result st h)))
]

module _ {A : Type 0} where
  take_all : (n : ℕ) (xs : List A) → length xs ≤ n → take n (xs ++ []) ≡ xs
  take_all zero [] h = refl
  take_all zero (x ∷ xs) h = absurd (omega arith)
  take_all (suc n) [] h = refl
  take_all (suc n) (x ∷ xs) h = ap (λ t. x ∷ t) (take_all n xs (omega arith))

  take_full : (n : ℕ) (xs ys zs : List A) → n ≤ length xs → take n (xs ++ ys) ≡ take n (xs ++ zs)
  take_full zero xs ys zs h = refl
  take_full (suc n) [] ys zs h = absurd (omega arith)
  take_full (suc n) (x ∷ xs) ys zs h = ap (λ t. x ∷ t) (take_full n xs ys zs (omega arith))

  append_one : (xs ys : List A) (x : A) → (xs ++ x ∷ []) ++ ys ≡ xs ++ x ∷ ys
  append_one [] ys x = refl
  append_one (w ∷ xs) ys x = ap (λ t. w ∷ t) (append_one xs ys x)

  length_one : (xs : List A) (x : A) → length (xs ++ x ∷ []) ≡ suc (length xs)
  length_one xs x = omega (arith, length-append xs (x ∷ []))

add_sample_lem :
    (samples rest : List Sample) (x : Sample)
    → length samples ≤ 12
    → (length (add_sample samples x) ≤ 12)
      × (take 12 (add_sample samples x ++ rest) ≡ take 12 (samples ++ x ∷ rest))
add_sample_lem samples rest x few = elim (Bool-cases (ltb (length samples) 12)) [
  | inl room ↦ rw (room, append_one samples rest x, length_one samples x) (ground arith, refl)
  | inr full ↦ rw full (few, take_full 12 samples rest (x ∷ rest) (ground arith))
]

add_optional_lem :
    (o : Option Sample) (samples rest : List Sample)
    → length samples ≤ 12
    → (length (add_optional samples o) ≤ 12)
      × (take 12 (add_optional samples o ++ rest) ≡ take 12 (samples ++ prepend o rest))
add_optional_lem none samples rest few = (few, refl)
add_optional_lem (some x) samples rest few = add_sample_lem samples rest x few

samples_lem :
    (results : List ShardResult) (st : ParentState)
    → length st.error_samples ≤ 12
    → (recorded_all st results).error_samples ≡ take 12 (st.error_samples ++ samples_of results)
unfolding recorded_all recorded
samples_lem [] st few = sym (take_all 12 st.error_samples few)
samples_lem (result ∷ rest) st few =
    let (bound, same) =
      add_optional_lem (sample_of result) st.error_samples (samples_of rest) few in
    samples_lem rest (recorded st result) bound ∙ same

count_lem :
    (st : ParentState) (results : List ShardResult)
    → ((recorded_all st results).completed_shards ≡ st.completed_shards + length results)
      × ((recorded_all st results).failed_shards ≡ st.failed_shards + total failures results)
      × ((recorded_all st results).items_created
          ≡ st.items_created + total (λ r. r.created) results)
      × ((recorded_all st results).items_failed ≡ st.items_failed + total (λ r. r.failed) results)
      × ((recorded_all st results).expected_shards ≡ st.expected_shards)
unfolding recorded_all recorded
count_lem st [] = (omega arith, omega arith, omega arith, omega arith, refl)
count_lem st (result ∷ rest) =
    let (completed, failed, created, items, expected) = count_lem (recorded st result) rest in
    (
      omega (arith, completed),
      ground (arith, failed),
      omega (arith, created),
      omega (arith, items),
      expected,
    )

zero_plus : (n : ℕ) → 0 + n ≡ n
zero_plus n = omega arith

failures_le : (results : List ShardResult) → total failures results ≤ length results
failures_le [] = omega arith
failures_le (result ∷ rest) = ground (arith, failures_le rest)

module _ (s : Parents) (parent_job_id collection_id : String) (expected_shards : ℤ) (mode : String)
    (queue_compute_tiles : Bool) (replace_filters : List String)
    (events : List (String × ShardResult)) where
  abbrev start : ParentState
  start =
      initial_state (s parent_job_id) collection_id expected_shards mode queue_compute_tiles
        replace_filters

  abbrev pub after : Parents
  after =
      run_results
        (init_parent_state "redis" s parent_job_id collection_id expected_shards mode
          queue_compute_tiles replace_filters)
        events

  after_lem : after parent_job_id ≡ some (recorded_all start (results_of parent_job_id events))
  unfolding init_parent_state initial_state
  after_lem = run_results_own events _ parent_job_id start (rw (eq_refl parent_job_id) refl)

  -- After the start of a parent job and any results of its shards, in any order and between those of
  -- other parents: the number of completed shards is the number of results of its own, the failed
  -- shards are those of them that failed, so never more, and the items created and failed are sums.
  pub shard_totals :
      let own = results_of parent_job_id events in
      (get_parent_shard_state "redis" after parent_job_id
        ≡ some (
          at_least_zero expected_shards,
          length own,
          total failures own,
          total (λ r. r.created) own,
          total (λ r. r.failed) own,
        ))
      × (total failures own ≤ length own)
  unfolding get_parent_shard_state initial_state
  shard_totals =
      let own = results_of parent_job_id events in
      let (completed, failed, created, items, expected) = count_lem start own in
      (
        rw (
          after_lem,
          get_parent_shard_state,
          completed,
          failed,
          created,
          items,
          expected,
          zero_plus (length own),
          zero_plus (total failures own),
          zero_plus (total (λ r. r.created) own),
          zero_plus (total (λ r. r.failed) own),
        ),
        failures_le own,
      )

  -- The error samples of a parent are the first twelve errors of its own failed shards that name
  -- one, each cut to 500 characters.
  pub shard_samples :
      (st : ParentState) × (after parent_job_id ≡ some st)
      × (st.error_samples ≡ take 12 (samples_of (results_of parent_job_id events)))
  unfolding initial_state
  shard_samples = (
    recorded_all start (results_of parent_job_id events),
    after_lem,
    samples_lem (results_of parent_job_id events) start (omega arith),
  )
