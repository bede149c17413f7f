-- ===== src/Retry.antt =====
-- app/services/titiler_retry.py and app/services/redis_resilience.py: calls that are tried again.
-- What the calls give is a parameter, by the number of the attempt. Times are in milliseconds, and
-- a wait with jitter in millionths of a second.
pub mod Attempts
use geofastmap_api.Prelude.{
  ℕ, zero, suc, ◌+◌, ◌-◌, ◌*◌, ◌^◌, min, max, ℤ, pos, negsuc, Bool, true, false, not, ◌&&◌, Option,
  none, some, List, [], ◌∷◌, if◌then◌else◌, ◌==◌, leb,
}

pub data Attempt {ℓ κ} (A : Type ℓ) (E : Type κ) : Type (ℓ ⊔ κ) where
  answered : A → Attempt A E
  failed : E → Attempt A E

pub data Ending {ℓ κ} (A : Type ℓ) (E : Type κ) : Type (ℓ ⊔ κ) where
  -- The answer, and the attempts used.
  returned : A → ℕ → Ending A E
  raised : E → Ending A E
  -- `RuntimeError("titiler_execute_with_retry: no response")`
  no_response : Ending A E
  out_of_fuel : Ending A E

pub titiler_http_status_retryable : ℕ → Bool
titiler_http_status_retryable status_code =
    if status_code == 404
    then true
    else if status_code == 500
    then true
    else if status_code == 502
    then true
    else if status_code == 503
    then true
    else status_code == 504

pub titiler_retry_backoff : ℤ → ℕ → ℕ → ℕ
titiler_retry_backoff (negsuc n) base max_time = 0
titiler_retry_backoff (pos attempt_idx) base max_time = min max_time (base * 2 ^ attempt_idx)

abbrev pub ending : {A E : Type 0} → Attempt A E → ℕ → Ending A E
ending (failed exc) attempts_used = raised exc
ending (answered resp) attempts_used = returned resp attempts_used

-- `before_retry` gives what the callback raises after an attempt, none where it returns or where there
-- is no callback.
module _ {A E : Type 0} (is_request_error : E → Bool) (status_code : A → ℕ) where
  -- An `httpx.RequestError`, or a response whose status is tried again; any other exception ends the
  -- call.
  pub is_retryable : Attempt A E → Bool
  is_retryable (failed exc) = is_request_error exc
  is_retryable (answered resp) = titiler_http_status_retryable (status_code resp)

  -- The body of the loop from the attempt `attempt` on, with `left` more attempts behind it, and
  -- the times slept.
  pub attempts_from :
      (ℕ → Attempt A E)
      → (before_retry : ℕ → Option E) → (base cap : ℕ) → (left attempt : ℕ) → Ending A E × List ℕ
  attempts_from request before_retry base cap zero attempt =
      (ending (request attempt) (suc attempt), [])
  attempts_from request before_retry base cap (suc left) attempt =
      let (result, slept) = attempts_from request before_retry base cap left (suc attempt) in
      if is_retryable (request attempt)
      then elim (before_retry attempt) [
        | none ↦ (result, titiler_retry_backoff (pos attempt) base cap ∷ slept)
        | some exc ↦ (raised exc, [])
      ]
      else (ending (request attempt) (suc attempt), [])

  pub titiler_execute_with_retry :
      (ℕ → Attempt A E)
      → (before_retry : ℕ → Option E) → (attempts_limit base cap : ℕ) → Ending A E × List ℕ
  titiler_execute_with_retry request before_retry zero base cap = (no_response, [])
  titiler_execute_with_retry request before_retry (suc left) base cap =
      attempts_from request before_retry base cap left 0

abbrev pub attempt_limit : Option ℕ → ℕ → ℕ
attempt_limit none enqueue_attempts = max 1 enqueue_attempts
attempt_limit (some given) enqueue_attempts = given

-- `random` is the draw in thousandths: 0 to 150.
pub retry_wait : ℕ → ℕ → ℕ → ℕ → ℕ
retry_wait attempt_idx base max_time random =
    min max_time (base * 2 ^ (attempt_idx - 1)) * (1000 + random)

module _ {A E : Type 0} where
  -- The `while True`, on fuel. `fn` gives what each attempt gives, `random` its draw.
  pub redis_attempts :
      (fn : ℕ → Attempt A E) (random : ℕ → ℕ) (forever : Bool) (limit base max_backoff : ℕ)
      → (fuel attempt : ℕ) → Ending A E × List ℕ
  redis_attempts fn random forever limit base max_backoff zero attempt = (out_of_fuel, [])
  redis_attempts fn random forever limit base max_backoff (suc fuel) attempt =
      let (result, slept) =
        redis_attempts fn random forever limit base max_backoff fuel (suc attempt) in
      elim (fn (suc attempt)) [
        | answered value ↦ (returned value (suc attempt), [])
        | failed exc ↦
            if not forever && leb limit (suc attempt)
            then (raised exc, [])
            else (result, retry_wait (suc attempt) base max_backoff (random (suc attempt)) ∷ slept)
      ]

  pub run_redis_retry :
      (fn : ℕ → Attempt A E) (random : ℕ → ℕ) (max_attempts : Option ℕ) (forever : Bool)
      (enqueue_attempts base max_backoff : ℕ)
      → (fuel : ℕ) → Ending A E × List ℕ
  unfolding redis_attempts
  run_redis_retry fn random max_attempts forever enqueue_attempts base max_backoff fuel =
      redis_attempts fn random forever (attempt_limit max_attempts enqueue_attempts) base
        max_backoff fuel 0
