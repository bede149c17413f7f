-- ===== src/Bulk/Activity/Counts.antt =====
-- app/services/bulk_collection_activity.py: the counter of a collection counts its running work.
use Prim.Native.String.{◌++◌}
use mathlib.Core.Option.{some-injective, none-ne-some}
use geofastmap_api.Prelude.{
  ℕ, zero, suc, ℤ, pos, String, false, ◌≡◌, refl, ap, ◌∙◌, ◌⊎◌, inl, inr, Option, none, some, List,
  [], ◌∷◌, if◌then◌else◌, str_eq, eq_iff, eq_refl, ltb, Bool-cases, arith,
}
use geofastmap_api.Queue.Keys.{prefix_eq}
use geofastmap_api.Bulk.Activity.{
  Counters, counter, up, is_positive, incr, decr, drop_counter, incr_activity, decr_activity,
  has_activity,
}

-- A piece of work on a collection starts or ends.
pub data Work : Type 0 where
  starts : String → Work
  ends : String → Work

-- The counter of so many pieces of work.
abbrev pub shown : ℕ → Option ℤ
shown zero = none
shown (suc n) = some (pos (suc n))

-- How much work runs on each collection after an event; an end without a start is none.
unfoldable pub running : (String → ℕ) → List Work → String → Option ℕ
running now [] c = some (now c)
running now (starts d ∷ events) c =
    running (λ e. if str_eq d e then suc (now e) else now e) events c
running now (ends d ∷ events) c = elim (now d) [
  | zero ↦ none
  | suc n ↦ running (λ e. if str_eq d e then n else now e) events c
]

module _ (prefix : String) where
  pub run_work : Counters → List Work → Counters
  run_work s [] = s
  run_work s (starts c ∷ events) = run_work (incr_activity "redis" prefix s c) events
  run_work s (ends c ∷ events) = run_work (decr_activity "redis" prefix s c) events

  -- The counters show how much work runs.
  abbrev pub Shows : Counters → (String → ℕ) → Type 0
  Shows s now = (c : String) → s (prefix ++ c) ≡ shown (now c)

  shown-up : (n : ℕ) → some (up (counter (shown n))) ≡ shown (suc n)
  shown-up zero = refl
  shown-up (suc n) = refl

  start-Shows :
      (s : Counters) (now : String → ℕ) (d : String)
      → Shows s now
      → Shows (incr_activity "redis" prefix s d) (λ e. if str_eq d e then suc (now e) else now e)
  unfolding incr_activity incr
  start-Shows s now d h c = elim (Bool-cases (str_eq d c)) [
    | inl same ↦
        rw (prefix_eq prefix d c, same, h d)
          (shown-up (now d) ∙ ap (λ e. shown (suc (now e))) ((eq_iff d c).0 same))
    | inr other ↦ rw (prefix_eq prefix d c, other) (h c)
  ]

  end-Shows :
      (s : Counters) (now : String → ℕ) (d : String) (n : ℕ)
      → now d ≡ suc n
      → Shows s now
      → Shows (decr_activity "redis" prefix s d) (λ e. if str_eq d e then n else now e)
  unfolding decr_activity decr drop_counter
  end-Shows s now d zero some_work h c = elim (Bool-cases (str_eq d c)) [
    | inl same ↦ rw (h d, some_work, prefix_eq prefix d c, same) refl
    | inr other ↦ rw (h d, some_work, prefix_eq prefix d c, other) (h c)
  ]
  end-Shows s now d (suc n) some_work h c = elim (Bool-cases (str_eq d c)) [
    | inl same ↦ rw (h d, some_work, prefix_eq prefix d c, same) refl
    | inr other ↦ rw (h d, some_work, prefix_eq prefix d c, other) (h c)
  ]

  number_cases : (n : ℕ) → (n ≡ 0) ⊎ ((k : ℕ) × (n ≡ suc k))
  number_cases zero = inl refl
  number_cases (suc k) = inr (k, refl)

  run_work-Shows :
      (events : List Work) (s : Counters) (now : String → ℕ) (c : String) (n : ℕ)
      → Shows s now
      → running now events c ≡ some n
      → run_work s events (prefix ++ c) ≡ shown n
  unfolding run_work running
  run_work-Shows [] s now c n h e = h c ∙ ap shown (some-injective (now c) n e)
  run_work-Shows (starts d ∷ events) s now c n h e =
      run_work-Shows events _ _ c n (start-Shows s now d h) e
  run_work-Shows (ends d ∷ events) s now c n h e = elim (number_cases (now d)) [
    | inl none_runs ↦ absurd (none-ne-some n (rw (none_runs, running) at e))
    | inr (k, some_work) ↦
        run_work-Shows events (decr_activity "redis" prefix s d)
          (λ e. if str_eq d e then k else now e) c n (end-Shows s now d k some_work h)
          (rw (some_work, running) at e)
  ]

  shown-positive : (n : ℕ) → is_positive (counter (shown n)) ≡ ltb 0 n
  shown-positive zero = refl
  shown-positive (suc n) = ground arith

  -- From no counters, after any pieces of work started and ended on any collections, where each end
  -- has its start: a collection's counter is the number of pieces that still run on it, and is gone
  -- where that is 0, so there is activity exactly where something runs.
  pub activity_counts :
      (events : List Work) (c : String) (n : ℕ)
      → running (λ d. 0) events c ≡ some n
      → (run_work (λ k. none) events (prefix ++ c) ≡ shown n)
        × (has_activity "redis" prefix (run_work (λ k. none) events) c ≡ ltb 0 n)
  unfolding has_activity
  activity_counts events c n e =
      let counted = run_work-Shows events (λ k. none) (λ d. 0) c n (λ d. refl) e in
      (counted, rw counted (shown-positive n))

  -- The counter is decreased and deleted by two commands. Where other work starts between them, its
  -- count is deleted: there seems to be no activity while it runs.
  lost_count :
      (s : Counters) (c : String)
      → s (prefix ++ c) ≡ some (pos 1)
      → (is_positive (decr s (prefix ++ c)).1 ≡ false)
        × (has_activity "redis" prefix
              (drop_counter (incr_activity "redis" prefix (decr s (prefix ++ c)).0 c) (prefix ++ c))
              c
            ≡ false)
  unfolding has_activity decr drop_counter
  lost_count s c one = (rw one refl, rw (eq_refl (prefix ++ c)) refl)
