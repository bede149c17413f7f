-- ===== src/Finalize/Reconcile/Passes.antt =====
-- app/services/bulk_finalize_reconcile.py: the pass over all jobs. The listing of the job store and
-- what the database answers of the partitions are parameters.
use text.Mathlib.Text.{starts_with}
use geofastmap_api.Prelude.{
  ℕ, String, Bool, true, false, not, ◌&&◌, ◌≡◌, refl, ◌⊎◌, inl, inr, Option, none, some, List, [],
  ◌∷◌, if◌then◌else◌, str_eq, length,
}
use geofastmap_api.JobStore.{JobInfo}
use geofastmap_api.Finalize.{Env, World, Failure, Answer}
use geofastmap_api.Finalize.Worker.{with_db}
use geofastmap_api.Finalize.Reconcile.{
  ReconcileStats, Reading, is_reconcile_candidate, staging_table_prefix,
}
use geofastmap_api.Finalize.Reconcile.Promotion.{Pass}
use geofastmap_api.Finalize.Reconcile.Jobs.{reconcile_one_job}
use geofastmap_api.Finalize.Reconcile.Jobs.DryRun.{dry_run_keeps, Untouched, IsQueryError}

-- The dictionary from names of staging tables to jobs, in which a later job replaces an earlier one.
job_of_table : Reading → List JobInfo → String → Option JobInfo
job_of_table reading [] relname = none
job_of_table reading (job ∷ jobs) relname =
    let later = job_of_table reading jobs relname in
    elim later [
      | some found ↦ some found
      | none ↦ if str_eq (reading.staging_table_name job.job_id) relname then some job else none
    ]

no_stats : ReconcileStats
no_stats = record {
  orphans_dropped = 0;
  completed_already_swapped = 0;
  promoted = 0;
  enqueued = 0;
  empty_closed = 0;
  abandoned = 0;
  skipped = 0;
  errors = [];
}

module _ (env : Env) where
  -- `list_all_jobs` with a limit; the attached partitions, with their collections; the orphans that
  -- a dry run would drop; and their removal.
  pub record Fleet : Type 0 where
    pub listed_jobs : World env → ℕ → List JobInfo
    pub attached : env.engine.Db → Answer (List (String × String))
    pub would_drop : env.engine.Db → Answer (List String)
    pub cleanup_orphans : env.engine.Db → env.engine.Db × Answer (List String)

  -- The next step, unless the one before raised.
  and_then : Pass env → (World env → ReconcileStats → Pass env) → Pass env
  and_then (w, stats, none) next = next w stats
  and_then (w, stats, some e) next = (w, stats, some e)

  module _ (reading : Reading) (now : ℕ) (dry_run : Bool) where
    reconcile_if : Bool → JobInfo → World env → ReconcileStats → Pass env
    reconcile_if chosen job w stats =
        if chosen then reconcile_one_job env reading w now job stats dry_run else (w, stats, none)

    reconcile_candidates : List JobInfo → World env → ReconcileStats → Pass env
    unfolding reconcile_if and_then
    reconcile_candidates [] w stats = (w, stats, none)
    reconcile_candidates (job ∷ jobs) w stats =
        and_then (reconcile_if (is_reconcile_candidate env w now job) job w stats)
          (reconcile_candidates jobs)

    of_table : Option JobInfo → World env → ReconcileStats → Pass env
    unfolding reconcile_if
    of_table none w stats = (w, stats, none)
    of_table (some job) w stats =
        reconcile_if
          (not (str_eq (env.lower job.status) "completed") && is_reconcile_candidate env w now job)
          job w stats

    reconcile_tables : List JobInfo → List (String × String) → World env → ReconcileStats → Pass env
    unfolding of_table and_then job_of_table
    reconcile_tables jobs [] w stats = (w, stats, none)
    reconcile_tables jobs ((relname, collection_id) ∷ rest) w stats =
        and_then
          (of_table
            (if starts_with relname staging_table_prefix
              then job_of_table reading jobs relname
              else none)
            w stats)
          (reconcile_tables jobs rest)

    reconcile_attached :
        List JobInfo → Answer (List (String × String)) → World env → ReconcileStats → Pass env
    unfolding reconcile_tables
    reconcile_attached jobs (Answer.raises e) w stats = (w, stats, some e)
    reconcile_attached jobs (Answer.gives tables) w stats = reconcile_tables jobs tables w stats

    reconcile_jobs_by_staging_table : Fleet → World env → ReconcileStats → Pass env
    unfolding reconcile_attached
    reconcile_jobs_by_staging_table fleet w stats =
        reconcile_attached (fleet.listed_jobs w 5000) (fleet.attached w.db) w stats

    count_dropped : World env → Answer (List String) → Pass env
    unfolding no_stats
    count_dropped w (Answer.raises e) = (w, no_stats, some e)
    count_dropped w (Answer.gives dropped) =
        (w, record no_stats { orphans_dropped = length dropped }, none)

    drop_orphans : Fleet → World env → Pass env
    unfolding count_dropped
    drop_orphans fleet w =
        if dry_run
        then count_dropped w (fleet.would_drop w.db)
        else let (db', dropped) = fleet.cleanup_orphans w.db in
          count_dropped (with_db env w db') dropped

    reconcile_listed : Fleet → (limit : ℕ) → World env → ReconcileStats → Pass env
    unfolding reconcile_candidates
    reconcile_listed fleet limit w stats = reconcile_candidates (fleet.listed_jobs w limit) w stats

    pub reconcile_all_stuck_finalize_jobs : Fleet → (limit : ℕ) → World env → Pass env
    unfolding drop_orphans reconcile_listed reconcile_jobs_by_staging_table and_then
    reconcile_all_stuck_finalize_jobs fleet limit w =
        and_then (and_then (drop_orphans fleet w) (reconcile_listed fleet limit))
          (reconcile_jobs_by_staging_table fleet)

  -- An exception of one of the queries of a dry run: on the partitions, or on a job's table and
  -- partition.
  abbrev pub IsPassError : Fleet → World env → Failure → Type 0
  IsPassError fleet w e =
      (fleet.would_drop w.db ≡ Answer.raises e)
      ⊎ (fleet.attached w.db ≡ Answer.raises e)
      ⊎ IsQueryError env w e

  module _ (fleet : Fleet) (w : World env) where
    abbrev pub PassUntouched : Pass env → Type 0
    PassUntouched r = Untouched env (IsPassError fleet w) w r

    and_then-Untouched :
        (r : Pass env) (next : World env → ReconcileStats → Pass env)
        → PassUntouched r
        → ((stats : ReconcileStats) → PassUntouched (next w stats))
        → PassUntouched (and_then r next)
    unfolding and_then
    and_then-Untouched (w', stats, none) next same goes_on = rw same (goes_on stats)
    and_then-Untouched (w', stats, some e) next same goes_on = same

    of_query : (r : Pass env) → Untouched env (IsQueryError env w) w r → PassUntouched r
    of_query (w', stats, none) same = same
    of_query (w', stats, some e) (same, error) = (same, inr (inr error))

    module _ (reading : Reading) (now : ℕ) where
      reconcile_if-Untouched :
          (chosen : Bool) (job : JobInfo) (stats : ReconcileStats)
          → PassUntouched (reconcile_if reading now true chosen job w stats)
      unfolding reconcile_if
      reconcile_if-Untouched true job stats =
          of_query (reconcile_one_job env reading w now job stats true)
            (dry_run_keeps env w now job stats reading)
      reconcile_if-Untouched false job stats = refl

      candidates-Untouched :
          (jobs : List JobInfo) (stats : ReconcileStats)
          → PassUntouched (reconcile_candidates reading now true jobs w stats)
      unfolding reconcile_candidates
      candidates-Untouched [] stats = refl
      candidates-Untouched (job ∷ jobs) stats =
          and_then-Untouched
            (reconcile_if reading now true (is_reconcile_candidate env w now job) job w stats)
            (reconcile_candidates reading now true jobs)
            (reconcile_if-Untouched (is_reconcile_candidate env w now job) job stats)
            (candidates-Untouched jobs)

      of_table-Untouched :
          (found : Option JobInfo) (stats : ReconcileStats)
          → PassUntouched (of_table reading now true found w stats)
      unfolding of_table
      of_table-Untouched none stats = refl
      of_table-Untouched (some job) stats =
          reconcile_if-Untouched
            (not (str_eq (env.lower job.status) "completed")
              && is_reconcile_candidate env w now job)
            job stats

      tables-Untouched :
          (jobs : List JobInfo) (tables : List (String × String)) (stats : ReconcileStats)
          → PassUntouched (reconcile_tables reading now true jobs tables w stats)
      unfolding reconcile_tables
      tables-Untouched jobs [] stats = refl
      tables-Untouched jobs ((relname, collection_id) ∷ rest) stats =
          let found =
            if starts_with relname staging_table_prefix
            then job_of_table reading jobs relname
            else none in
          and_then-Untouched (of_table reading now true found w stats)
            (reconcile_tables reading now true jobs rest) (of_table-Untouched found stats)
            (tables-Untouched jobs rest)

      attached-Untouched :
          (jobs : List JobInfo) (tables : Answer (List (String × String))) (stats : ReconcileStats)
          → fleet.attached w.db ≡ tables
          → PassUntouched (reconcile_attached reading now true jobs tables w stats)
      unfolding reconcile_attached
      attached-Untouched jobs (Answer.raises e) stats asked = (refl, inr (inl asked))
      attached-Untouched jobs (Answer.gives tables) stats asked = tables-Untouched jobs tables stats

      dropped-Untouched :
          (dropped : Answer (List String))
          → fleet.would_drop w.db ≡ dropped
          → PassUntouched (count_dropped reading now true w dropped)
      unfolding count_dropped
      dropped-Untouched (Answer.raises e) asked = (refl, inl asked)
      dropped-Untouched (Answer.gives names) asked = refl

      -- A dry run of the whole pass changes nothing in the job store, Redis, the queue or the
      -- database, whatever jobs and partitions there are, whether it returns or raises; and what it
      -- raises is what a query on the partitions or on a job's table or partition raises.
      pub dry_pass_keeps :
          (limit : ℕ)
          → PassUntouched (reconcile_all_stuck_finalize_jobs reading now true fleet limit w)
      unfolding reconcile_all_stuck_finalize_jobs drop_orphans reconcile_listed
          reconcile_jobs_by_staging_table
      dry_pass_keeps limit =
          and_then-Untouched _ (reconcile_jobs_by_staging_table reading now true fleet)
            (and_then-Untouched (count_dropped reading now true w (fleet.would_drop w.db))
              (reconcile_listed reading now true fleet limit)
              (dropped-Untouched (fleet.would_drop w.db) refl)
              (candidates-Untouched (fleet.listed_jobs w limit)))
            (λ stats.
              attached-Untouched (fleet.listed_jobs w 5000) (fleet.attached w.db) stats refl)
