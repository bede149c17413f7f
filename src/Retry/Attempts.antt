-- ===== src/Retry/Attempts.antt =====
-- app/services/titiler_retry.py and app/services/redis_resilience.py: which attempt is the last.
use geofastmap_api.Prelude.{
  ℕ, zero, suc, ◌+◌, ◌≤◌, ◌<◌, max, pos, Bool, true, false, ◌≡◌, refl, ap, subst, ◌⊎◌, inl, inr,
  some, List, [], ◌∷◌, leb, arith, Bool-cases, Option-cases, Option, none,
}
use geofastmap_api.Retry.{
  Attempt, answered, failed, Ending, raised, titiler_retry_backoff, is_retryable, ending,
  attempts_from, titiler_execute_with_retry, run_redis_retry, redis_attempts, retry_wait,
}

plus_zero : (n : ℕ) → n + 0 ≡ n
plus_zero n = omega arith

plus_suc : (n k : ℕ) → suc n + k ≡ n + suc k
plus_suc n k = omega arith

zero_plus : (n : ℕ) → 0 + n ≡ n
zero_plus n = omega arith

one_plus : (n : ℕ) → suc 0 + n ≡ suc n
one_plus n = omega arith

-- The backoffs of `n` attempts from the attempt `attempt` on.
abbrev pub backoffs : (base cap n attempt : ℕ) → List ℕ
backoffs base cap zero attempt = []
backoffs base cap (suc n) attempt =
    titiler_retry_backoff (pos attempt) base cap ∷ backoffs base cap n (suc attempt)

module _ {A E : Type 0} (is_request_error : E → Bool) (status_code : A → ℕ)
    (request : ℕ → Attempt A E) (before_retry : ℕ → Option E) (base cap : ℕ) where
  -- The attempt is tried again: its outcome asks for it, and the callback returns.
  abbrev pub Again : ℕ → Type 0
  Again n = (is_retryable is_request_error status_code (request n) ≡ true) × (before_retry n ≡ none)

  -- How a call ends at an attempt, after `slept`: with the attempt's own outcome, where it is not
  -- tried again or the last one; or with what the callback raises.
  abbrev pub EndsAt : (is_last : Type 0) → ℕ → List ℕ → Ending A E × List ℕ → Type 0
  EndsAt is_last n slept result =
      (((is_retryable is_request_error status_code (request n) ≡ false) ⊎ is_last)
        × (result ≡ (ending (request n) (suc n), slept)))
      ⊎ ((exc : E) × (is_retryable is_request_error status_code (request n) ≡ true)
          × (before_retry n ≡ some exc)
          × (result ≡ (raised exc, slept)))

  abbrev LastFrom : ℕ → ℕ → ℕ → Type 0
  LastFrom left attempt k =
      (k ≤ left)
      × ((j : ℕ) → j < k → Again (attempt + j))
      × EndsAt (k ≡ left) (attempt + k) (backoffs base cap k attempt)
          (attempts_from is_request_error status_code request before_retry base cap left attempt)

  before_suc :
      (attempt k : ℕ)
      → Again attempt
      → ((j : ℕ) → j < k → Again (suc attempt + j))
      → (j : ℕ) → j < suc k
      → Again (attempt + j)
  before_suc attempt k again before zero h = rw plus_zero again
  before_suc attempt k again before (suc j) h = rw (← plus_suc attempt j) (before j (omega arith))

  from_suc :
      (left attempt : ℕ)
      → Again attempt
      → attempts_from is_request_error status_code request before_retry base cap (suc left) attempt
        ≡ (let (result, slept) =
              attempts_from is_request_error status_code request before_retry base cap left
                (suc attempt) in
            (result, titiler_retry_backoff (pos attempt) base cap ∷ slept))
  unfolding attempts_from
  from_suc left attempt (again, returns) = rw (again, returns) refl

  later_LastFrom :
      (left attempt k : ℕ)
      → Again attempt
      → LastFrom left (suc attempt) k
      → LastFrom (suc left) attempt (suc k)
  later_LastFrom left attempt k again (bound, before, last) = (
    omega arith,
    before_suc attempt k again before,
    elim last [
      | inl (final, same) ↦ inl (
        elim final [ inl kept ↦ inl (rw (← plus_suc attempt k) kept) | inr e ↦ inr (ap suc e) ],
        rw (from_suc left attempt again, same, ← plus_suc attempt k) refl,
      )
      | inr (exc, tried, raises, same) ↦ inr (
        exc,
        rw (← plus_suc attempt k) tried,
        rw (← plus_suc attempt k) raises,
        rw (from_suc left attempt again, same) refl,
      )
    ],
  )

  stops_from : (left attempt : ℕ) → (k : ℕ) × LastFrom left attempt k
  unfolding attempts_from
  stops_from zero attempt =
      (0, (omega arith, (λ j h. absurd (omega arith)), inl (inr refl, rw plus_zero refl)))
  stops_from (suc left) attempt =
      elim (Bool-cases (is_retryable is_request_error status_code (request attempt))) [
        | inl again ↦ elim (Option-cases (before_retry attempt)) [
          | inl returns ↦
              let (k, last) = stops_from left (suc attempt) in
              (suc k, later_LastFrom left attempt k (again, returns) last)
          | inr (exc, raises) ↦ (
            0,
            (
              omega arith,
              (λ j h. absurd (omega arith)),
              inr (exc, rw plus_zero again, rw plus_zero raises, rw (again, raises) refl),
            ),
          )
        ]
        | inr final ↦ (
          0,
          (
            omega arith,
            (λ j h. absurd (omega arith)),
            inl (inl (rw plus_zero final), rw (plus_zero, final) refl),
          ),
        )
      ]

  -- With at least one attempt allowed, the loop stops at the first attempt whose outcome is not
  -- tried again or whose callback raises, or at the last one allowed: its answer comes with the number
  -- of attempts used, its error is raised, or the callback's where that raised before another
  -- attempt; and between the attempts the loop has slept the backoffs in their order.
  pub execute_stops :
      (left : ℕ)
      → (k : ℕ) × (k ≤ left)
        × ((j : ℕ) → j < k → Again j)
        × EndsAt (k ≡ left) k (backoffs base cap k 0) (
            titiler_execute_with_retry is_request_error status_code request before_retry
              (suc left)
              base
              cap)
  unfolding titiler_execute_with_retry
  execute_stops left =
      let (k, (bound, before, last)) = stops_from left 0 in
      (
        k,
        bound,
        (λ j h. subst Again (zero_plus j) (before j h)),
        subst
            (λ n.
              EndsAt (k ≡ left) n (backoffs base cap k 0)
                (attempts_from is_request_error status_code request before_retry base cap left 0))
            (zero_plus k) last,
      )

abbrev pub is_failed : {A E : Type 0} → Attempt A E → Bool
is_failed (failed exc) = true
is_failed (answered value) = false

Attempt-cases :
    {A E : Type 0} (a : Attempt A E)
    → ((value : A) × (a ≡ answered value)) ⊎ ((exc : E) × (a ≡ failed exc))
Attempt-cases (answered value) = inl (value, refl)
Attempt-cases (failed exc) = inr (exc, refl)

answered_value :
    {A E : Type 0} (a : Attempt A E) → is_failed a ≡ false → (value : A) × (a ≡ answered value)
answered_value (answered value) h = (value, refl)
answered_value (failed exc) h = absurd cc

failed_exc : {A E : Type 0} (a : Attempt A E) → is_failed a ≡ true → (exc : E) × (a ≡ failed exc)
failed_exc (answered value) h = absurd cc
failed_exc (failed exc) h = (exc, refl)

module _ {A E : Type 0} (fn : ℕ → Attempt A E) (random : ℕ → ℕ) (base max_backoff : ℕ) where
  -- The waits behind the `n` attempts after `attempt`.
  abbrev pub waits : (n attempt : ℕ) → List ℕ
  waits zero attempt = []
  waits (suc n) attempt =
      retry_wait (suc attempt) base max_backoff (random (suc attempt)) ∷ waits n (suc attempt)

  abbrev StopsAfter : ℕ → ℕ → ℕ → ℕ → Type 0
  StopsAfter limit fuel attempt k =
      (suc attempt + k ≤ max (suc attempt) limit)
      × ((j : ℕ) → j < k → is_failed (fn (suc attempt + j)) ≡ true)
      × ((is_failed (fn (suc attempt + k)) ≡ false) ⊎ (limit ≤ suc attempt + k))
      × (redis_attempts fn random false limit base max_backoff fuel attempt
          ≡ (ending (fn (suc attempt + k)) (suc attempt + k), waits k attempt))

  failed_suc :
      (attempt k : ℕ)
      → is_failed (fn attempt) ≡ true
      → ((j : ℕ) → j < k → is_failed (fn (suc attempt + j)) ≡ true)
      → (j : ℕ) → j < suc k
      → is_failed (fn (attempt + j)) ≡ true
  failed_suc attempt k again before zero h = rw plus_zero again
  failed_suc attempt k again before (suc j) h = rw (← plus_suc attempt j) (before j (omega arith))

  one_more :
      (limit fuel attempt k : ℕ) (exc : E)
      → fn (suc attempt) ≡ failed exc
      → leb limit (suc attempt) ≡ false
      → StopsAfter limit fuel (suc attempt) k
      → StopsAfter limit (suc fuel) attempt (suc k)
  unfolding redis_attempts
  one_more limit fuel attempt k exc e again (bound, before, last, same) = (
    ground arith,
    failed_suc (suc attempt) k (rw e refl) before,
    rw (← plus_suc (suc attempt) k) last,
    rw (e, redis_attempts, again, ← plus_suc (suc attempt) k, same),
  )

  redis_stops :
      (limit fuel attempt : ℕ)
      → limit ≤ attempt + fuel
      → 0 < fuel
      → (k : ℕ) × StopsAfter limit fuel attempt k
  unfolding redis_attempts
  redis_stops limit zero attempt enough some_fuel = absurd (omega arith)
  redis_stops limit (suc fuel) attempt enough some_fuel = elim (Attempt-cases (fn (suc attempt))) [
    | inl (value, e) ↦ (
      0,
      (
        ground arith,
        (λ j h. absurd (omega arith)),
        inl (rw (plus_zero, e) refl),
        rw (plus_zero, e, redis_attempts),
      ),
    )
    | inr (exc, e) ↦ elim (Bool-cases (leb limit (suc attempt))) [
      | inl enough' ↦ (
        0,
        (
          ground arith,
          (λ j h. absurd (omega arith)),
          inr (ground arith),
          rw (plus_zero, e, redis_attempts, enough'),
        ),
      )
      | inr again ↦
          let (k, rest) = redis_stops limit fuel (suc attempt) (omega arith) (ground arith) in
          (suc k, one_more limit fuel attempt k exc e again rest)
    ]
  ]

  -- A call with a limit, on fuel for as many attempts: the loop stops at the first attempt that
  -- answers, or raises the error of the last one, which is that of the limit (of the first attempt
  -- where the limit is 0); between the attempts it has waited, and never more than the limit's.
  pub redis_retry_stops :
      (limit enqueue_attempts fuel : ℕ)
      → limit ≤ fuel
      → 0 < fuel
      → (k : ℕ) × (suc k ≤ max 1 limit)
        × ((j : ℕ) → j < k → is_failed (fn (suc j)) ≡ true)
        × ((is_failed (fn (suc k)) ≡ false) ⊎ (limit ≤ suc k))
        × (run_redis_retry fn random (some limit) false enqueue_attempts base max_backoff fuel
            ≡ (ending (fn (suc k)) (suc k), waits k 0))
  unfolding run_redis_retry
  redis_retry_stops limit enqueue_attempts fuel enough some_fuel =
      let (k, (bound, before, last, same)) = redis_stops limit fuel 0 (omega arith) some_fuel in
      (
        k,
        ground arith,
        (λ j h. subst (λ n. is_failed (fn n) ≡ true) (one_plus j) (before j h)),
        subst (λ n. (is_failed (fn n) ≡ false) ⊎ (limit ≤ n)) (one_plus k) last,
        subst
            (λ n.
              redis_attempts fn random false limit base max_backoff fuel 0
              ≡ (ending (fn n) n, waits k 0))
            (one_plus k) same,
      )

  -- A call that is tried forever gives the first answer, on fuel for the attempts up to it, however
  -- many have failed before and whatever the limit.
  pub forever_answers :
      (limit fuel attempt k : ℕ)
      → k < fuel
      → ((j : ℕ) → j < k → is_failed (fn (suc attempt + j)) ≡ true)
      → is_failed (fn (suc attempt + k)) ≡ false
      → redis_attempts fn random true limit base max_backoff fuel attempt
        ≡ (ending (fn (suc attempt + k)) (suc attempt + k), waits k attempt)
  unfolding redis_attempts
  forever_answers limit zero attempt k enough before answer = absurd (omega arith)
  forever_answers limit (suc fuel) attempt zero enough before answer =
      let (value, e) = answered_value (fn (suc attempt)) (rw plus_zero at answer) in
      rw (plus_zero, e, redis_attempts)
  forever_answers limit (suc fuel) attempt (suc k) enough before answer =
      let (exc, e) = failed_exc (fn (suc attempt)) (rw plus_zero at (before 0 (omega arith))) in
      let rest =
        forever_answers limit fuel (suc attempt) k (omega arith)
          (λ j h. rw (plus_suc (suc attempt) j) (before (suc j) (omega arith)))
          (rw (plus_suc (suc attempt) k) answer) in
      rw (e, redis_attempts, ← plus_suc (suc attempt) k, rest)
