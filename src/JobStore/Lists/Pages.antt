-- ===== src/JobStore/Lists/Pages.antt =====
-- app/services/job_store.py: what a listing of jobs holds, and in which order.
use geofastmap_api.Prelude.{
  ℕ, zero, suc, ◌+◌, ◌*◌, ◌≤◌, min, max, String, Bool, true, ◌≡◌, refl, ap, inl, inr, Option, none,
  some, List, [], ◌∷◌, str_eq, take, drop, length, length-take, is_some_of, leb, arith, Bool-cases,
}
use geofastmap_api.JobStore.{JobInfo}
use geofastmap_api.JobStore.Lists.{
  insert_job, newest_first, select, list_jobs_for_collection_memory, list_jobs_for_collection,
  list_all_jobs_memory, list_all_jobs,
}

abbrev pub All : (JobInfo → Type 0) → List JobInfo → Type 0
All P [] = Unit {0}
All P (job ∷ jobs) = P job × All P jobs

-- Newest update first.
abbrev pub IsSorted : List JobInfo → Type 0
IsSorted [] = Unit {0}
IsSorted (job ∷ jobs) = All (λ j. j.updated_at ≤ job.updated_at) jobs × IsSorted jobs

module _ (P : JobInfo → Type 0) where
  All-take : (n : ℕ) (jobs : List JobInfo) → All P jobs → All P (take n jobs)
  All-take zero jobs h = _
  All-take (suc n) [] h = _
  All-take (suc n) (job ∷ jobs) (p, h) = (p, All-take n jobs h)

  All-select : (p : JobInfo → Bool) (jobs : List JobInfo) → All P jobs → All P (select p jobs)
  All-select p [] h = _
  All-select p (job ∷ jobs) (q, h) = elim (Bool-cases (p job)) [
    | inl e ↦ rw e (q, All-select p jobs h)
    | inr e ↦ rw e (All-select p jobs h)
  ]

  All-insert_job :
      (job : JobInfo) (jobs : List JobInfo) → P job → All P jobs → All P (insert_job job jobs)
  unfolding insert_job
  All-insert_job job [] p h = (p, _)
  All-insert_job job (j ∷ js) p (q, h) = elim (Bool-cases (leb j.updated_at job.updated_at)) [
    | inl e ↦ rw e (p, (q, h))
    | inr e ↦ rw e (q, All-insert_job job js p h)
  ]

  All-newest_first : (jobs : List JobInfo) → All P jobs → All P (newest_first jobs)
  unfolding newest_first
  All-newest_first [] h = _
  All-newest_first (job ∷ jobs) (p, h) =
      All-insert_job job (newest_first jobs) p (All-newest_first jobs h)

select-All : (p : JobInfo → Bool) (jobs : List JobInfo) → All (λ j. p j ≡ true) (select p jobs)
select-All p [] = _
select-All p (job ∷ jobs) = elim (Bool-cases (p job)) [
  | inl e ↦ rw e (e, select-All p jobs)
  | inr e ↦ rw e (select-All p jobs)
]

All-map :
    (P Q : JobInfo → Type 0) (jobs : List JobInfo)
    → ((j : JobInfo) → P j → Q j)
    → All P jobs
    → All Q jobs
All-map P Q [] f h = _
All-map P Q (job ∷ jobs) f (p, h) = (f job p, All-map P Q jobs f h)

insert_job-IsSorted :
    (job : JobInfo) (jobs : List JobInfo) → IsSorted jobs → IsSorted (insert_job job jobs)
unfolding insert_job
insert_job-IsSorted job [] h = (_, _)
insert_job-IsSorted job (j ∷ js) (newer, h) = elim (Bool-cases (leb j.updated_at job.updated_at)) [
  | inl e ↦ rw e ((ground arith, All-map _ _ js (λ k older. ground arith) newer), (newer, h))
  | inr e ↦ rw e (
    All-insert_job (λ k. k.updated_at ≤ j.updated_at) job js (ground arith) newer,
    insert_job-IsSorted job js h,
  )
]

newest_first-IsSorted : (jobs : List JobInfo) → IsSorted (newest_first jobs)
unfolding newest_first
newest_first-IsSorted [] = _
newest_first-IsSorted (job ∷ jobs) =
    insert_job-IsSorted job (newest_first jobs) (newest_first-IsSorted jobs)

take-IsSorted : (n : ℕ) (jobs : List JobInfo) → IsSorted jobs → IsSorted (take n jobs)
take-IsSorted zero jobs h = _
take-IsSorted (suc n) [] h = _
take-IsSorted (suc n) (job ∷ jobs) (newer, h) = (All-take _ n jobs newer, take-IsSorted n jobs h)

select-IsSorted :
    (p : JobInfo → Bool) (jobs : List JobInfo) → IsSorted jobs → IsSorted (select p jobs)
select-IsSorted p [] h = _
select-IsSorted p (job ∷ jobs) (newer, h) = elim (Bool-cases (p job)) [
  | inl e ↦ rw e (All-select _ p jobs newer, select-IsSorted p jobs h)
  | inr e ↦ rw e (select-IsSorted p jobs h)
]

is_some_of-eq : (o : Option ℕ) (n : ℕ) → is_some_of o n ≡ true → o ≡ some n
is_some_of-eq none n h = cc
is_some_of-eq (some m) n h = ap some (ground arith)

-- A user's listing of a collection's jobs in memory: every job is the user's and the collection's,
-- the newest update is first, and there are no more than the limit.
pub list_jobs_for_collection-IsSorted :
    (values : List JobInfo) (collection_id : String) (limit owner : ℕ)
    → let jobs =
        list_jobs_for_collection
          (list_jobs_for_collection_memory values collection_id)
          limit
          (some owner) in
      All (λ j. j.owner_id ≡ some owner) jobs
      × All (λ j. str_eq j.collection_id collection_id ≡ true) jobs
      × IsSorted jobs
      × (length jobs ≤ limit)
unfolding list_jobs_for_collection list_jobs_for_collection_memory
list_jobs_for_collection-IsSorted values collection_id limit owner =
    let in_collection = select (λ j. str_eq j.collection_id collection_id) values in
    let sorted = take (limit * 2) (newest_first in_collection) in
    let owned = select (λ j. is_some_of j.owner_id owner) sorted in
    (
      All-take _ limit owned
          (All-map _ _ owned (λ j e. is_some_of-eq j.owner_id owner e) (select-All _ sorted)),
      All-take _ limit owned (
          All-select _ _ sorted (
            All-take _ (limit * 2) (newest_first in_collection)
              (All-newest_first _ in_collection (select-All _ values)))),
      take-IsSorted limit owned (
          select-IsSorted _ sorted
            (take-IsSorted (limit * 2) _ (newest_first-IsSorted in_collection))),
      omega (arith, length-take limit owned),
    )

take-take :
    {A : Type 0} (limit n : ℕ) (xs : List A) → limit ≤ n → take limit (take n xs) ≡ take limit xs
take-take zero n xs h = refl
take-take (suc limit) zero xs h = absurd (omega arith)
take-take (suc limit) (suc n) [] h = refl
take-take (suc limit) (suc n) (x ∷ xs) h = ap (λ t. x ∷ t) (take-take limit n xs (omega arith))

take-drop-take :
    {A : Type 0} (limit offset n : ℕ) (xs : List A)
    → limit + offset ≤ n
    → take limit (drop offset (take n xs)) ≡ take limit (drop offset xs)
take-drop-take limit zero n xs h = take-take limit n xs (omega arith)
take-drop-take limit (suc offset) zero xs h = absurd (omega arith)
take-drop-take limit (suc offset) (suc n) [] h = refl
take-drop-take limit (suc offset) (suc n) (x ∷ xs) h =
    take-drop-take limit offset n xs (omega arith)

-- The pages of all jobs that an admin lists are the parts of one list, newest update first, as far
-- as the first ten thousand jobs: no job is left out or shown twice between pages.
pub list_all_jobs-eq-take-drop :
    (values : List JobInfo) (limit offset : ℕ)
    → limit + offset ≤ 10000
    → (list_all_jobs (list_all_jobs_memory values) limit none offset
        ≡ take limit (drop offset (newest_first values)))
      × IsSorted (newest_first values)
unfolding list_all_jobs list_all_jobs_memory
list_all_jobs-eq-take-drop values limit offset h = (
  take-drop-take limit offset (min (max (limit + offset) 1) 10000) (newest_first values)
      (omega arith),
  newest_first-IsSorted values,
)
