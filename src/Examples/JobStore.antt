-- ===== src/Examples/JobStore.antt =====
-- app/services/job_store.py: an import that starts, runs and completes.
use Prim.Native.String.{String}
use geofastmap_api.Prelude.{
  ℕ, zero, suc, ◌≡◌, refl, ap, Option, none, some, List, [], ◌∷◌, str_eq, if◌then◌else◌,
}
use geofastmap_api.Json.{Json}
use geofastmap_api.Redis.{Redis}
use geofastmap_api.Bulk.Mutex.{mutex_key}
use geofastmap_api.JobStore.{JobInfo, JobUpdate, Texts, Hash}
use geofastmap_api.JobStore.Backends.{Jobs, get_job_redis}
use geofastmap_api.JobStore.Backends.Agree.Histories.{
  Event, creates, updates, run_memory, run_redis, SameJob, backends_agree,
}
use geofastmap_api.Examples.Store.{store, empty_store}

strokes : ℕ → String
strokes zero = String.[]
strokes (suc n) = String.◌∷◌ "1" (strokes n)

count : String → ℕ
count String.[] = zero
count (String.◌∷◌ c s) = suc (count s)

count-strokes : (n : ℕ) → count (strokes n) ≡ n
unfolding count strokes
count-strokes zero = refl
count-strokes (suc n) = ap suc (count-strokes n)

-- A number, written as a stroke more than it has.
abbrev read : String → Option ℕ
read String.[] = none
read (String.◌∷◌ c s) = some (count s)

abbrev write : ℕ → String
write n = String.◌∷◌ "1" (strokes n)

abbrev texts : Texts
texts = record {
  show = write;
  read_int = read;
  isoformat = write;
  fromisoformat = read;
  read_int-show = λ n. ap some (count-strokes n);
  fromisoformat-isoformat = λ n. ap some (count-strokes n);
  truthy-show = λ n. refl;
  truthy-isoformat = λ n. refl;
}

abbrev to_status : String → JobUpdate
to_status status = record {
  status = some status;
  message = some "";
  items_in = some 3;
  items_created = none;
  items_failed = none;
  finished_at = none;
}

abbrev lower : String → String
lower s = s

abbrev release : ℕ → String → String → ℕ
release s collection_id job_id = suc s

abbrev history : List Event
history =
    creates "j1" "roads" (some 4) none 10
    ∷ updates "j1" (to_status "running") 11
    ∷ updates "j1" (to_status "completed") 12
    ∷ []

abbrev no_jobs : Jobs
no_jobs = record { hashes = λ j. none; by_collection = λ c. [] }

backends_agree_example :
    ((run_memory texts release lower ((λ j. none), 0) history).1
      ≡ (run_redis texts release lower (no_jobs, 0) history).1)
    × ((j : String)
        → SameJob texts
            ((run_memory texts release lower ((λ j. none), 0) history).0 j)
            (get_job_redis texts (run_redis texts release lower (no_jobs, 0) history).0 j))
backends_agree_example = backends_agree texts release lower no_jobs 0 history (λ j. refl)

abbrev import_job : JobInfo
import_job = record {
  job_id = "j1";
  collection_id = "roads";
  status = "running";
  message = none;
  items_in = 0;
  items_created = 0;
  items_failed = 0;
  created_at = 10;
  updated_at = 10;
  finished_at = none;
  last_progress_at = none;
  owner_id = some 4;
  job_label = none;
}

abbrev two_updates : List (JobUpdate × ℕ)
two_updates = (to_status "running", 11) ∷ (to_status "completed", 12) ∷ []

abbrev job_hash : Hash
job_hash j = if str_eq "collection_id" j then some "roads" else none

abbrev held : Redis.State (store Json)
held = (store Json).set (empty_store Json) (mutex_key "roads") "j1" 60

abbrev jobs : List JobInfo
jobs =
    import_job ∷ record import_job { updated_at = 20 } ∷ record import_job { owner_id = none } ∷ []

abbrev one_job : String → Option JobInfo
one_job j = if str_eq "j1" j then some import_job else none
