-- ===== src/Finalize/Reconcile/Candidates.antt =====
-- app/services/bulk_finalize_reconcile.py: which jobs the pass touches.
use geofastmap_api.Prelude.{
  ℕ, String, true, false, ◌≡◌, ◌⊎◌, inl, inr, [], ◌∷◌, str_eq, eq_iff, Bool-cases, arith,
}
use geofastmap_api.Bulk.Mutex.{is_one_of}
use geofastmap_api.JobStore.{JobInfo}
use geofastmap_api.Finalize.{Env, World}
use geofastmap_api.Finalize.Reconcile.{is_reconcile_candidate, load_still_in_progress, holds}

finalizing_or_failed :
    (s : String)
    → is_one_of s ("finalizing" ∷ "failed" ∷ "running" ∷ "replacing" ∷ []) ≡ true
    → is_one_of s ("pending" ∷ "running" ∷ "replacing" ∷ []) ≡ false
    → (s ≡ "finalizing") ⊎ (s ≡ "failed")
finalizing_or_failed s listed loaded = elim (Bool-cases (str_eq s "finalizing")) [
  | inl e ↦ inl ((eq_iff s "finalizing").0 e)
  | inr other ↦ elim (Bool-cases (str_eq s "failed")) [
    | inl e ↦ inr ((eq_iff s "failed").0 e)
    | inr neither ↦ absurd (ground (arith, other, neither, listed, loaded))
  ]
]

module _ (env : Env) where
  progress_false :
      (w : World env) (now : ℕ) (job : JobInfo)
      → load_still_in_progress env w now job ≡ false
      → (is_one_of (env.lower job.status) ("pending" ∷ "running" ∷ "replacing" ∷ []) ≡ false)
        × (holds env w job ≡ false)
  unfolding load_still_in_progress
  progress_false w now job over =
      elim (Bool-cases
        (is_one_of (env.lower job.status) ("pending" ∷ "running" ∷ "replacing" ∷ []))) [
          | inl loads ↦ absurd (ground (arith, loads, over))
          | inr e ↦ elim (Bool-cases (holds env w job)) [
            | inl held ↦ absurd (ground (arith, e, held, over))
            | inr free ↦ (e, free)
          ]
        ]

  chosen_lem :
      (w : World env) (now : ℕ) (job : JobInfo)
      → is_reconcile_candidate env w now job ≡ true
      → (is_one_of (env.lower job.status) ("finalizing" ∷ "failed" ∷ "running" ∷ "replacing" ∷ [])
          ≡ true)
        × (load_still_in_progress env w now job ≡ false)
  unfolding is_reconcile_candidate
  chosen_lem w now job chosen =
      elim (Bool-cases (
        is_one_of (env.lower job.status)
          ("finalizing" ∷ "failed" ∷ "running" ∷ "replacing" ∷ []))) [
            | inr e ↦ absurd (ground (arith, e, chosen))
            | inl e ↦ elim (Bool-cases (load_still_in_progress env w now job)) [
              | inl loads ↦ absurd (ground (arith, e, loads, chosen))
              | inr over ↦ (e, over)
            ]
          ]

  -- The pass touches a job only where its load is over: its status is finalizing or failed, and it
  -- does not hold its collection's mutex. The statuses running and replacing, which the list of
  -- candidates names, are never among them.
  pub candidate_is_over :
      (w : World env) (now : ℕ) (job : JobInfo)
      → is_reconcile_candidate env w now job ≡ true
      → ((env.lower job.status ≡ "finalizing") ⊎ (env.lower job.status ≡ "failed"))
        × (holds env w job ≡ false)
  candidate_is_over w now job chosen =
      let (listed, over) = chosen_lem w now job chosen in
      let (loaded, free) = progress_false w now job over in
      (finalizing_or_failed (env.lower job.status) listed loaded, free)
