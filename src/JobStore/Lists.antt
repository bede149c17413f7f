-- ===== src/JobStore/Lists.antt =====
-- app/services/job_store.py: the listings of jobs, newest update first. The values of the dict in
-- memory are a list in the order of their insertion.
pub mod Pages
use geofastmap_api.Prelude.{
  ℕ, zero, suc, ◌+◌, ◌*◌, min, max, String, Bool, true, false, Option, none, some, List, [], ◌∷◌,
  if◌then◌else◌, str_eq, take, drop, is_some_of, leb,
}
use geofastmap_api.JobStore.{JobInfo, Texts}
use geofastmap_api.JobStore.Backends.{Jobs, get_job_redis}

insert_job : JobInfo → List JobInfo → List JobInfo
insert_job job [] = job ∷ []
insert_job job (j ∷ js) =
    let rest = insert_job job js in
    if leb j.updated_at job.updated_at then job ∷ j ∷ js else j ∷ rest

-- `jobs.sort(key=lambda j: j.updated_at, reverse=True)`, which keeps the order of equal jobs.
pub newest_first : List JobInfo → List JobInfo
unfolding insert_job
newest_first [] = []
newest_first (job ∷ jobs) = insert_job job (newest_first jobs)

abbrev pub select : (JobInfo → Bool) → List JobInfo → List JobInfo
select p [] = []
select p (job ∷ jobs) = if p job then job ∷ select p jobs else select p jobs

pub list_jobs_for_collection_memory : List JobInfo → String → ℕ → List JobInfo
unfolding newest_first
list_jobs_for_collection_memory values collection_id limit =
    take limit (newest_first (select (λ j. str_eq j.collection_id collection_id) values))

-- LRANGE 0 (limit - 1): with the limit 0 it goes to the last element.
lrange_first : {A : Type 0} → ℕ → List A → List A
lrange_first zero ids = ids
lrange_first (suc n) ids = take (suc n) ids

found_jobs : Texts → Jobs → List String → List JobInfo
found_jobs texts r [] = []
found_jobs texts r (jid ∷ jids) =
    let rest = found_jobs texts r jids in
    elim (get_job_redis texts r jid) [ none ↦ rest | some job ↦ job ∷ rest ]

pub list_jobs_for_collection_redis : Texts → Jobs → String → ℕ → List JobInfo
unfolding newest_first lrange_first found_jobs
list_jobs_for_collection_redis texts r collection_id limit =
    take limit
      (newest_first (found_jobs texts r (lrange_first limit (r.by_collection collection_id))))

-- `[j for j in raw if j.owner_id == owner_id]`, where an owner is given.
abbrev pub owned_by : Option ℕ → List JobInfo → List JobInfo
owned_by none raw = raw
owned_by (some owner) raw = select (λ j. is_some_of j.owner_id owner) raw

abbrev pub sample_limit : Option ℕ → ℕ → ℕ
sample_limit none limit = limit
sample_limit (some owner) limit = limit * 2

-- `raw` is the backend's listing of the collection up to a limit.
pub list_jobs_for_collection : (raw : ℕ → List JobInfo) → ℕ → Option ℕ → List JobInfo
list_jobs_for_collection raw limit owner_id =
    take limit (owned_by owner_id (raw (sample_limit owner_id limit)))

pub list_all_jobs_memory : List JobInfo → ℕ → List JobInfo
unfolding newest_first
list_all_jobs_memory values limit = take limit (newest_first values)

-- `job_ids` is what SCAN gives.
pub list_all_jobs_redis : Texts → Jobs → List String → ℕ → List JobInfo
unfolding newest_first found_jobs
list_all_jobs_redis texts r job_ids limit = take limit (newest_first (found_jobs texts r job_ids))

abbrev pub fetch_limit : Option ℕ → ℕ → ℕ
fetch_limit none fetch = min fetch 10000
fetch_limit (some owner) fetch = min (max (fetch * 2) (fetch + 50)) 10000

pub list_all_jobs : (raw : ℕ → List JobInfo) → (limit : ℕ) → Option ℕ → (offset : ℕ) → List JobInfo
list_all_jobs raw limit owner_id offset =
    take limit
      (drop offset (owned_by owner_id (raw (fetch_limit owner_id (max (limit + offset) 1)))))

pub list_all_jobs_unpaginated : (raw : ℕ → List JobInfo) → Option ℕ → ℕ → List JobInfo
list_all_jobs_unpaginated raw owner_id max_jobs =
    let cap = max 1 (min max_jobs 10000) in take cap (owned_by owner_id (raw cap))
