-- ===== src/Examples/Retry.antt =====
-- app/services/titiler_retry.py and app/services/redis_resilience.py: two calls that fail, and one
-- that answers.
use geofastmap_api.Prelude.{
  ℕ, zero, suc, ◌≤◌, ◌<◌, true, if◌then◌else◌, ◌==◌, ◌≡◌, refl, Option, some, none, ◌+◌, arith,
}
use geofastmap_api.Retry.{Attempt, answered, failed, titiler_execute_with_retry}
use geofastmap_api.Retry.Attempts.{execute_stops, backoffs, is_failed, Again, EndsAt}

abbrev responses : ℕ → Attempt ℕ ℕ
responses zero = failed 7
responses (suc zero) = answered 503
responses (suc (suc n)) = answered 200

-- The callback raises after the second attempt.
abbrev interrupted : ℕ → Option ℕ
interrupted n = if n == 1 then some 9 else none

execute_stops_example :
    (k : ℕ) × (k ≤ 2)
    × ((j : ℕ) → j < k → Again (λ e. e == 7) (λ c. c) responses interrupted 150 2000 j)
    × EndsAt
        (λ e. e == 7)
        (λ c. c)
        responses
        interrupted
        150
        2000
        (k ≡ 2)
        k
        (backoffs 150 2000 k 0)
        (titiler_execute_with_retry (λ e. e == 7) (λ c. c) responses interrupted 3 150 2000)
execute_stops_example = execute_stops (λ e. e == 7) (λ c. c) responses interrupted 150 2000 2

abbrev third : ℕ → Attempt ℕ ℕ
third n = if n == 3 then answered 9 else failed 1

first_two : (j : ℕ) → j < 2 → is_failed (third (1 + j)) ≡ true
first_two zero h = refl
first_two (suc zero) h = refl
first_two (suc (suc j)) h = absurd (omega arith)
