-- ===== src/JobStore/Backends/Agree.antt =====
-- app/services/job_store.py: a job in memory and the hash of the same job.
pub mod Histories
use geofastmap_api.Prelude.{
  ℕ, String, Bool, true, false, not, ◌&&◌, ◌||◌, ◌≡◌, refl, ap, sym, inl, inr, Option, none, some,
  if◌then◌else◌, str_eq, truthy, is_some, Bool-cases, Option-cases, arith,
}
use geofastmap_api.Json.{◌>>=◌}
use geofastmap_api.JobStore.{
  JobInfo, JobUpdate, new_job, or_old, or_none, is_ending, release_bulk_mutex_on_terminal,
  updated_job, Texts, Hash, put_given, hset, no_fields, is_unset, map_text, given,
}
use geofastmap_api.JobStore.Backends.{
  read_count, read_set_time, read_time, read_owner, read_job, job_mapping, has_updates, updates_of,
  updated_hash,
}

module _ (texts : Texts) where
  open texts use {
    show, read_int, isoformat, fromisoformat, read_int-show, fromisoformat-isoformat, truthy-show,
    truthy-isoformat,
  }

  -- A hash that holds a job, at whatever times of its last update and progress.
  abbrev pub Holds : Hash → JobInfo → Type 0
  Holds raw job =
      ((raw "job_id" ≡ some job.job_id)
        × (raw "collection_id" ≡ some job.collection_id)
        × (raw "status" ≡ some job.status)
        × (or_none (raw "message") ≡ or_none job.message))
      × ((raw "items_in" ≡ some (show job.items_in))
          × (raw "items_created" ≡ some (show job.items_created))
          × (raw "items_failed" ≡ some (show job.items_failed)))
      × ((raw "created_at" ≡ some (isoformat job.created_at))
          × (raw "finished_at" ≡ map_text isoformat job.finished_at)
          × ((t : ℕ) × (raw "updated_at" ≡ some (isoformat t)))
          × ((t : Option ℕ) × (raw "last_progress_at" ≡ map_text isoformat t)))
      × ((raw "owner_id" ≡ map_text show job.owner_id)
          × (or_none (raw "job_label") ≡ or_none job.job_label))

  -- A job as Redis gives it: an empty message or label is none.
  abbrev pub as_read : JobInfo → ℕ → Option ℕ → JobInfo
  as_read job updated_at last_progress_at = record job {
    message = or_none job.message;
    job_label = or_none job.job_label;
    updated_at = updated_at;
    last_progress_at = last_progress_at;
  }

  read_time_lem : (t : Option ℕ) → read_time texts (map_text isoformat t) ≡ some t
  unfolding read_time read_set_time
  read_time_lem none = refl
  read_time_lem (some t) = rw (truthy-isoformat t, read_set_time, fromisoformat-isoformat t)

  read_owner_lem : (n : Option ℕ) → read_owner texts (map_text show n) ≡ n
  unfolding read_owner
  read_owner_lem none = refl
  read_owner_lem (some n) = rw (truthy-show n, read_int-show n)

  read_count_lem : (n : ℕ) → read_count texts (some (show n)) ≡ some n
  unfolding read_count
  read_count_lem n = read_int-show n

  -- A hash that holds a job is read as that job.
  pub read_job-Holds :
      (raw : Hash) (job : JobInfo)
      → Holds raw job
      → (t : ℕ) × (p : Option ℕ) × (read_job texts raw ≡ some (as_read job t p))
  unfolding read_job
  read_job-Holds raw job
        ((id, coll, st, msg), (n, c, f), (cr, fin, (t, upd), (p, prog)), (own, lab)) =
      (
        t,
        p,
        rw (
          fin, read_time_lem, prog, read_time_lem, id, coll, st, n, read_count_lem, c,
          read_count_lem, f, read_count_lem, cr, fromisoformat-isoformat, upd,
          fromisoformat-isoformat, own, read_owner_lem, msg, lab,
        ),
      )

  unset_lem : (t : Option ℕ) → is_unset (map_text isoformat t) ≡ not (is_some t)
  unset_lem none = refl
  unset_lem (some t) = rw (truthy-isoformat t)

  -- The field of a value that an update may give.
  text_field :
      (o : Option String) (old : Option String) (value : String)
      → old ≡ some value
      → or_old (or_old o none) old ≡ some (given o value)
  text_field none old value h = h
  text_field (some new) old value h = refl

  count_field :
      (o : Option ℕ) (old : Option String) (n : ℕ)
      → old ≡ some (show n)
      → or_old (or_old (map_text show o) none) old ≡ some (show (given o n))
  count_field none old n h = h
  count_field (some new) old n h = refl

  message_field :
      (o old message : Option String)
      → or_none old ≡ or_none message
      → or_none (or_old (or_old o none) old) ≡ or_none (or_old o message)
  message_field none old message h = h
  message_field (some new) old message h = refl

  finished_field :
      (o : Option ℕ) (ends : Bool) (now : ℕ) (old : Option String) (t : Option ℕ)
      → old ≡ map_text isoformat t
      → or_old
          (or_old
            (map_text isoformat o)
            (or_old (if ends && is_unset old then some (isoformat now) else none) none))
          old
        ≡ map_text isoformat (or_old o (if ends && not (is_some t) then some now else t))
  finished_field (some new) ends now old t h = refl
  finished_field none false now old t h = h
  finished_field none true now old none h = rw h
  finished_field none true now old (some t) h = rw (h, truthy-isoformat t)

  all_none :
      (a b : Option String) (c d e f : Option ℕ)
      → is_some a || is_some b || is_some c || is_some d || is_some e || is_some f ≡ false
      → (a ≡ none) × (b ≡ none) × (c ≡ none) × (d ≡ none) × (e ≡ none) × (f ≡ none)
  all_none none none none none none none h = (refl, refl, refl, refl, refl, refl)
  all_none a b c d e f h =
      (ground arith, ground arith, ground arith, ground arith, ground arith, ground arith)

  or_none_twice : (o : Option String) → or_none (or_old (or_none o) none) ≡ or_none o
  or_none_twice none = refl
  or_none_twice (some s) = ground arith

  or_old-none : (o : Option String) → or_old o none ≡ o
  or_old-none none = refl
  or_old-none (some s) = refl

  pub new_job-Holds :
      (job_id collection_id : String) (owner_id : Option ℕ) (job_label : Option String) (now : ℕ)
      → Holds
          (job_mapping texts (new_job job_id collection_id owner_id job_label now))
          (new_job job_id collection_id owner_id job_label now)
  unfolding job_mapping new_job
  new_job-Holds job_id collection_id owner_id job_label now = (
    (refl, refl, refl, refl),
    (refl, refl, refl),
    (refl, refl, (now, refl), (none, refl)),
    (or_old-none (map_text show owner_id), or_none_twice job_label),
  )

  module _ {S : Type 0} (release : S → String → String → S) (lower : String → String) where
    no_updates :
        (raw : Hash) (job : JobInfo) (u : JobUpdate) (now : ℕ)
        → has_updates texts u ≡ false
        → Holds raw job
        → Holds raw (updated_job release lower job u now)
    unfolding has_updates updated_job
    no_updates raw job u now h held =
        let (status, message, items_in, created, failed, finished) =
          all_none u.status u.message u.items_in u.items_created u.items_failed u.finished_at h in
        rw (status, message, items_in, created, failed, finished) held

    some_updates :
        (raw : Hash) (job : JobInfo) (u : JobUpdate) (now : ℕ)
        → Holds raw job
        → Holds
            (hset raw (
              put_given
                (some (isoformat now))
                "last_progress_at"
                (put_given (some (isoformat now)) "updated_at" (updates_of texts lower raw u now))))
            (updated_job release lower job u now)
    unfolding updates_of updated_job
    some_updates raw job u now ((id, coll, st, msg), (n, c, f), (cr, fin, upd, prog), (own, lab)) =
        (
          (id, coll, text_field u.status _ _ st, message_field u.message _ _ msg),
          (
            count_field u.items_in _ _ n,
            count_field u.items_created _ _ c,
            count_field u.items_failed _ _ f,
          ),
          (cr, finished_field u.finished_at _ now _ _ fin, (now, refl), (some now, refl)),
          (own, lab),
        )

    pub updated-Holds :
        (raw : Hash) (job : JobInfo) (u : JobUpdate) (now : ℕ)
        → Holds raw job
        → Holds (updated_hash texts lower raw u now) (updated_job release lower job u now)
    unfolding updated_hash
    updated-Holds raw job u now held = elim (Bool-cases (has_updates texts u)) [
      | inl some_given ↦ rw some_given (some_updates raw job u now held)
      | inr none_given ↦ rw none_given (no_updates raw job u now none_given held)
    ]
