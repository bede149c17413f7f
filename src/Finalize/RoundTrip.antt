-- ===== src/Finalize/RoundTrip.antt =====
-- app/services/bulk_finalize_queue.py and bulk_finalize_worker.py: what is queued is read back, also
-- by the next attempt.
use geofastmap_api.Prelude.{
  ℕ, zero, suc, ◌+◌, pos, String, true, false, ◌≡◌, refl, ap, sym, ◌∙◌, is_some, [], drop, eq_refl,
  Option, none, some, List, ◌∷◌, if◌then◌else◌, truthy, arith,
}
use geofastmap_api.Json.{num, str, lookups, or_else}
use geofastmap_api.Finalize.{
  Env, World, BulkFinalizePayload, finalize_fields, finalize_payload_of, finalize_to_json,
  finalize_from_json, enqueue_finalize, is_redis, mark_finalize_pending, number_or_null, dedupe_key,
  is_finalize_pending, text_of, count_of, owner_of,
}
use geofastmap_api.Finalize.Worker.{requeue_finalize_after_failure}

-- An empty mode is read as the default.
pub normal : BulkFinalizePayload → BulkFinalizePayload
normal p = record p { mode = if truthy p.mode then p.mode else "append" }

-- The next attempt of an import.
pub next_attempt : BulkFinalizePayload → BulkFinalizePayload
next_attempt p = record p { attempt = p.attempt + 1 }

get_count : (n : ℕ) → count_of (num (pos n)) ≡ some n
get_count zero = refl
get_count (suc n) = refl

get_owner : (o : Option ℕ) → owner_of (number_or_null o) ≡ some o
get_owner none = refl
get_owner (some n) = refl

get_mode :
    (s : String)
    → text_of (or_else (str s) (str "append")) ≡ some (if truthy s then s else "append")
get_mode s = ground arith

read_lem : (p : BulkFinalizePayload) → finalize_payload_of (finalize_fields p) ≡ some (normal p)
unfolding finalize_fields finalize_payload_of normal
read_lem p = simp (lookups, get_count, get_owner, get_mode)

module _ (env : Env) where
  pub first_of :
      (env.codec.Wire → Option BulkFinalizePayload)
      → List (env.codec.Wire)
      → Option BulkFinalizePayload
  first_of read [] = none
  first_of read (raw ∷ raws) = read raw

  pub finalize_from_json-to_json :
      (p : BulkFinalizePayload) → finalize_from_json env (finalize_to_json env p) ≡ some (normal p)
  unfolding finalize_from_json finalize_to_json
  finalize_from_json-to_json p = rw env.codec.loads-dumps (read_lem p)

  -- What is queued is marked as pending.
  enqueued :
      (w : World env) (p : BulkFinalizePayload)
      → is_redis env ≡ true
      → let after = (enqueue_finalize env w p true).0 in
        (after.queue ≡ finalize_to_json env p ∷ w.queue)
        × (is_finalize_pending env after p.job_id ≡ true)
  unfolding enqueue_finalize mark_finalize_pending is_finalize_pending
  enqueued w p in_redis =
      rw (in_redis, enqueue_finalize, mark_finalize_pending, env.redis.get-set, eq_refl)
        (refl, refl)

  pub enqueue_finalize-pending :
      (w : World env) (p : BulkFinalizePayload)
      → is_redis env ≡ true
      → is_finalize_pending env (enqueue_finalize env w p true).0 p.job_id ≡ true
  enqueue_finalize-pending w p in_redis = (enqueued w p in_redis).1

  pub enqueue_finalize-once :
      (w : World env) (p : BulkFinalizePayload)
      → is_redis env ≡ true
      → is_finalize_pending env w p.job_id ≡ false
      → enqueue_finalize env w p false ≡ enqueue_finalize env w p true
  unfolding enqueue_finalize is_finalize_pending
  enqueue_finalize-once w p in_redis free =
      let marked = is_some (env.redis.get w.store (dedupe_key p.job_id)) in
      let unmarked : marked ≡ false = sym (ap (λ b. if b then marked else false) in_redis) ∙ free in
      rw (unmarked, enqueue_finalize) refl

  pub enqueue_finalize-frame :
      (w : World env) (p : BulkFinalizePayload)
      → is_redis env ≡ true
      → let after = enqueue_finalize env w p true in
        (after.1 ≡ true)
        × (after.0.db ≡ w.db)
        × (after.0.jobs ≡ w.jobs)
        × (after.0.queue ≡ finalize_to_json env p ∷ w.queue)
  unfolding enqueue_finalize mark_finalize_pending
  enqueue_finalize-frame w p in_redis =
      rw (in_redis, enqueue_finalize, mark_finalize_pending) (refl, refl, refl, refl)

  -- An import that failed is queued for its next attempt: in Redis the payload that was put at the
  -- end of the queue is read back with the attempt counted, every other field as it was and an
  -- empty mode as the default, the import is marked as pending, and what was queued stays.
  pub requeue_counts_attempt :
      (w : World env) (p : BulkFinalizePayload)
      → is_redis env ≡ true
      → let after = requeue_finalize_after_failure env w p in
        (first_of (finalize_from_json env) after.queue ≡ some (normal (next_attempt p)))
        × (drop 1 after.queue ≡ w.queue)
        × (is_finalize_pending env after p.job_id ≡ true)
  unfolding requeue_finalize_after_failure first_of next_attempt
  requeue_counts_attempt w p in_redis =
      let (queue, pending) = enqueued w (next_attempt p) in_redis in
      rw queue (finalize_from_json-to_json (next_attempt p), refl, pending)
