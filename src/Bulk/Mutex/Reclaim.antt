-- ===== src/Bulk/Mutex/Reclaim.antt =====
-- app/services/bulk_collection_activity.py: the recovery of a mutex whose holder is gone.
use geofastmap_api.Prelude.{
  ℕ, ◌≤◌, String, true, false, ◌≡◌, refl, sym, ◌∙◌, ◌⊎◌, inl, inr, Option, none, some, arith, max,
  if◌then◌else◌, str_eq, leb, eq_iff, eq_refl, Bool-cases,
}
use geofastmap_api.Redis.{Redis}
use geofastmap_api.Bulk.Mutex.{
  mutex_key, JobView, is_gone, is_terminal_job_status, pending_mutex_holder_is_stale,
  get_collection_bulk_mutex_holder, release_collection_bulk_mutex,
  reclaim_stale_collection_bulk_mutex, reclaim_from, nonempty,
}

-- A job that will not release its mutex: it is not in the store, its status is terminal, it has a
-- finishing time, or it has been pending for the limit or longer, which is two minutes at least.
pub data IsOver (lower : String → String) (stale_seconds : ℕ) : Option JobView → Type 0 where
  missing : IsOver lower stale_seconds none
  terminal :
      {job : JobView}
      → is_terminal_job_status lower job.status ≡ true
      → IsOver lower stale_seconds (some job)
  finished : {job : JobView} → job.is_finished ≡ true → IsOver lower stale_seconds (some job)
  pending_long :
      {job : JobView}
      → lower job.status ≡ "pending"
      → 120 ≤ job.age_seconds
      → stale_seconds ≤ job.age_seconds
      → IsOver lower stale_seconds (some job)

module _ (lower : String → String) (stale_seconds : ℕ) (job : JobView) where
  gone_lem : is_gone lower stale_seconds (some job) ≡ (
      if is_terminal_job_status lower job.status
      then true
      else if job.is_finished
      then true
      else pending_mutex_holder_is_stale lower stale_seconds job)
  unfolding is_gone
  gone_lem = refl

  stale_of :
      lower job.status ≡ "pending"
      → 120 ≤ job.age_seconds
      → stale_seconds ≤ job.age_seconds
      → pending_mutex_holder_is_stale lower stale_seconds job ≡ true
  unfolding pending_mutex_holder_is_stale
  stale_of waits two_minutes long = rw waits (ground arith)

  of_stale :
      pending_mutex_holder_is_stale lower stale_seconds job ≡ true
      → IsOver lower stale_seconds (some job)
  unfolding pending_mutex_holder_is_stale
  of_stale stale = elim (Bool-cases (str_eq (lower job.status) "pending")) [
    | inl waits ↦
        let old : leb (max 120 stale_seconds) job.age_seconds ≡ true =
          sym (rw waits refl) ∙ stale in
        pending_long ((eq_iff (lower job.status) "pending").0 waits) (ground (arith, old))
          (ground (arith, old))
    | inr other ↦
        let never : false ≡ true = sym (rw other refl) ∙ stale in absurd (ground (arith, never))
  ]

  of_gone : is_gone lower stale_seconds (some job) ≡ true → IsOver lower stale_seconds (some job)
  of_gone gone = elim (Bool-cases (is_terminal_job_status lower job.status)) [
    | inl ends ↦ terminal ends
    | inr goes_on ↦ elim (Bool-cases job.is_finished) [
      | inl ends ↦ finished ends
      | inr open_end ↦ of_stale (sym (gone_lem ∙ rw (goes_on, open_end) refl) ∙ gone)
    ]
  ]

gone_of :
    (lower : String → String) (stale_seconds : ℕ) (o : Option JobView)
    → IsOver lower stale_seconds o
    → is_gone lower stale_seconds o ≡ true
unfolding is_gone
gone_of lower stale_seconds none missing = refl
gone_of lower stale_seconds (some job) (terminal ends) =
    gone_lem lower stale_seconds job ∙ rw ends refl
gone_of lower stale_seconds (some job) (finished ends) =
    gone_lem lower stale_seconds job ∙ rw ends (ground arith)
gone_of lower stale_seconds (some job) (pending_long waits two_minutes long) =
    gone_lem lower stale_seconds job
    ∙ rw (stale_of lower stale_seconds job waits two_minutes long) (ground arith)

over_of :
    (lower : String → String) (stale_seconds : ℕ) (o : Option JobView)
    → is_gone lower stale_seconds o ≡ true
    → IsOver lower stale_seconds o
over_of lower stale_seconds none gone = missing
over_of lower stale_seconds (some job) gone = of_gone lower stale_seconds job gone

module _ {W : Type 0} (redis : Redis W) (collection_id : String) where
  open redis use {State, get, get-delete}

  nonempty-eq : (t : Option String) (o : String) → nonempty redis t ≡ some o → t ≡ some o
  unfolding nonempty
  nonempty-eq none o h = cc
  nonempty-eq (some t) o h = ground arith

  get-release :
      (r : State) (holder key : String)
      → get_collection_bulk_mutex_holder redis "redis" r collection_id ≡ some holder
      → get (release_collection_bulk_mutex redis "redis" r collection_id holder) key
        ≡ (if str_eq (mutex_key collection_id) key then none else get r key)
  unfolding get_collection_bulk_mutex_holder release_collection_bulk_mutex
  get-release r holder key h =
      let held = nonempty-eq (get r (mutex_key collection_id)) holder h in
      simp (held, eq_refl, get-delete)

  -- The recovery of a mutex that names a holder, for every key of Redis: where the holder's job is
  -- over, the holder is reported and the mutex deleted, and no other key is changed; where it is not,
  -- nobody is reported and nothing is changed.
  pub reclaim_lem :
      (lower : String → String) (get_job : String → Option JobView) (stale_seconds : ℕ) (r : State)
      (holder key : String)
      → get_collection_bulk_mutex_holder redis "redis" r collection_id ≡ some holder
      → let after =
          reclaim_stale_collection_bulk_mutex redis lower get_job stale_seconds "redis" r
            collection_id in
        (IsOver lower stale_seconds (get_job holder)
          × (after.1 ≡ some holder)
          × (get after.0 key ≡ (if str_eq (mutex_key collection_id) key then none else get r key)))
        ⊎ ((¬ IsOver lower stale_seconds (get_job holder)) × (after ≡ (r, none)))
  unfolding reclaim_stale_collection_bulk_mutex
  reclaim_lem lower get_job stale_seconds r holder key h =
      elim (Bool-cases (is_gone lower stale_seconds (get_job holder))) [
        | inl e ↦
            rw (h, reclaim_from, e)
              (inl
                (over_of lower stale_seconds (get_job holder) e, refl, get-release r holder key h))
        | inr e ↦
            rw (h, reclaim_from, e)
              (inr (
                (λ over.
                    absurd (ground (arith, gone_of lower stale_seconds (get_job holder) over))),
                refl,
              ))
      ]
