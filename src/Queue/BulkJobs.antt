-- ===== src/Queue/BulkJobs.antt =====
-- app/services/bulk_queue.py: the registry of bulk jobs, and the removal of a job from the queue.
use Prim.Native.String.{◌++◌ as text_append}
use geofastmap_api.Prelude.{
  ℕ, ◌*◌, String, Bool, true, false, ◌≡◌, refl, ap, ◌⊎◌, inl, inr, Option, none, some, List, [],
  ◌∷◌, ◌++◌, if◌then◌else◌, str_eq, is_some, eq_refl, arith, Bool-cases,
}
use geofastmap_api.Json.{Json, str, Codec}
use geofastmap_api.Redis.{Redis, lrem_one}
use geofastmap_api.Queue.BulkImport.{Builtins, from_json}

abbrev pub queue_key : String
queue_key = "geofastmap:bulk_import_queue"

abbrev pub bulk_import_reg_prefix : String
bulk_import_reg_prefix = "geofastmap:bulk_import_meta:"

abbrev pub reg_key : String → String
reg_key job_id = text_append bulk_import_reg_prefix job_id

module _ {W : Type 0} (redis : Redis W) where
  open redis use {State, get, set, delete, lpush, get-set, get-delete}

  -- Redis, and the registry in memory.
  abbrev pub Registry : Type 0
  Registry = State × (String → Option String)

  pub register_bulk_import_job : String → Registry → String → String → Registry
  register_bulk_import_job bulk_queue_type (r, mem) job_id storage_key =
      if str_eq bulk_queue_type "redis"
      then (set r (reg_key job_id) storage_key (86400 * 8), mem)
      else (r, λ j. if str_eq job_id j then some storage_key else mem j)

  unfoldable pub unregister_bulk_import_job : String → Registry → String → Registry
  unregister_bulk_import_job bulk_queue_type (r, mem) job_id =
      if str_eq bulk_queue_type "redis"
      then (delete r (reg_key job_id), mem)
      else (r, λ j. if str_eq job_id j then none else mem j)

  pub get_bulk_import_storage_key : String → Registry → String → Option String
  get_bulk_import_storage_key bulk_queue_type (r, mem) job_id =
      if str_eq bulk_queue_type "redis" then get r (reg_key job_id) else mem job_id

  pub is_registered_bulk_import_job : String → Registry → String → Bool
  unfolding get_bulk_import_storage_key
  is_registered_bulk_import_job bulk_queue_type reg job_id =
      is_some (get_bulk_import_storage_key bulk_queue_type reg job_id)

  -- In both backends a registered job has the storage key that it was registered with, and after its
  -- unregistration it is none.
  pub register_lem :
      (bulk_queue_type : String) (reg : Registry) (job_id storage_key : String)
      → let reg' = register_bulk_import_job bulk_queue_type reg job_id storage_key in
        (get_bulk_import_storage_key bulk_queue_type reg' job_id ≡ some storage_key)
        × (is_registered_bulk_import_job bulk_queue_type
              (unregister_bulk_import_job bulk_queue_type reg' job_id)
              job_id
            ≡ false)
  unfolding register_bulk_import_job unregister_bulk_import_job get_bulk_import_storage_key
      is_registered_bulk_import_job
  register_lem bulk_queue_type (r, mem) job_id storage_key =
      elim (Bool-cases (str_eq bulk_queue_type "redis")) [
        | inl in_redis ↦
            (rw (in_redis, get-set, eq_refl) refl, rw (in_redis, get-delete, eq_refl) refl)
        | inr in_memory ↦ (rw (in_memory, eq_refl) refl, rw (in_memory, eq_refl) refl)
      ]

module _ (python : Builtins) (codec : Codec) (text_eq : codec.Wire → codec.Wire → Bool) where
  open codec use {Wire}

  is_id : Json → String → Bool
  is_id (str s) job_id = str_eq s job_id
  is_id _ job_id = false

  -- `BulkJobPayload.from_json(p).job_id == job_id`; a payload that cannot be read is skipped.
  pub matches : String → Wire → Bool
  unfolding is_id
  matches job_id p = elim (from_json python codec p) [
    | none ↦ false
    | some payload ↦ is_id payload.job_id job_id
  ]

  first_match : String → List Wire → Option Wire
  first_match job_id [] = none
  first_match job_id (w ∷ ws) =
      let rest = first_match job_id ws in if matches job_id w then some w else rest

  -- On the list of the queue's payloads.
  pub remove_bulk_job_from_redis_queue : String → List Wire → String → List Wire × ℕ
  unfolding lrem_one first_match
  remove_bulk_job_from_redis_queue bulk_queue_type payloads job_id =
      if str_eq bulk_queue_type "redis"
      then (elim (first_match job_id payloads) [
        | none ↦ (payloads, 0)
        | some p ↦ lrem_one text_eq payloads p
      ])
      else (payloads, 0)

  abbrev pub no_match : String → List Wire → Bool
  no_match job_id [] = true
  no_match job_id (w ∷ ws) = if matches job_id w then false else no_match job_id ws

  -- The first payload of the list that matches, and what stands around it.
  abbrev pub Split : String → List Wire → List Wire → Type 0
  Split job_id payloads left =
      (before : List Wire) × (p : Wire) × (after : List Wire) × (payloads ≡ before ++ p ∷ after)
      × (matches job_id p ≡ true)
      × (no_match job_id before ≡ true)
      × (left ≡ before ++ after)

  module _ (text_eq-eq : (v w : Wire) → text_eq v w ≡ true → v ≡ w)
      (text_eq_refl : (w : Wire) → text_eq w w ≡ true) where
    abbrev IsTaken : String → List Wire → Wire → Type 0
    IsTaken job_id ws p =
        (first_match job_id ws ≡ some p)
        × (matches job_id p ≡ true)
        × Split job_id ws (lrem_one text_eq ws p).0
        × ((lrem_one text_eq ws p).1 ≡ 1)

    IsTaken-later :
        (job_id : String) (w : Wire) (ws : List Wire) (p : Wire)
        → matches job_id w ≡ false
        → IsTaken job_id ws p
        → IsTaken job_id (w ∷ ws) p
    unfolding first_match lrem_one
    IsTaken-later job_id w ws p e
          (first, good, (before, q, after, split, ok, none_before, left), one) =
        elim (Bool-cases (text_eq w p)) [
          | inl same ↦
              let bad : matches job_id p ≡ false = rw (← text_eq-eq w p same) e in
              absurd (ground (arith, good, bad))
          | inr other ↦ (
            rw e first,
            good,
            (
              w ∷ before,
              q,
              after,
              ap (λ t. w ∷ t) split,
              ok,
              rw e none_before,
              rw (other, lrem_one) (ap (λ t. w ∷ t) left),
            ),
            rw (other, lrem_one) one,
          )
        ]

    search_queue :
        (job_id : String) (ws : List Wire)
        → ((no_match job_id ws ≡ true) × (first_match job_id ws ≡ none))
          ⊎ ((p : Wire) × IsTaken job_id ws p)
    unfolding first_match lrem_one
    search_queue job_id [] = inl (refl, refl)
    search_queue job_id (w ∷ ws) = elim (Bool-cases (matches job_id w)) [
      | inl e ↦ inr (
        w,
        (
          rw e refl,
          e,
          ([], w, ws, refl, e, refl, rw (text_eq_refl w) refl),
          rw (text_eq_refl w) refl,
        ),
      )
      | inr e ↦ elim (search_queue job_id ws) [
        | inl (none_there, gone) ↦ inl (rw e none_there, rw e gone)
        | inr (p, found) ↦ inr (p, IsTaken-later job_id w ws p e found)
      ]
    ]

    -- The removal of a job takes the first payload of that job out of the queue, answers 1, and
    -- leaves all others in their order; where the queue has none of that job, it answers 0 and the
    -- queue stays as it is.
    pub remove_bulk_job_lem :
        (payloads : List Wire) (job_id : String)
        → let (left, n) = remove_bulk_job_from_redis_queue "redis" payloads job_id in
          ((no_match job_id payloads ≡ true) × (left ≡ payloads) × (n ≡ 0))
          ⊎ (Split job_id payloads left × (n ≡ 1))
    unfolding remove_bulk_job_from_redis_queue
    remove_bulk_job_lem payloads job_id = elim (search_queue job_id payloads) [
      | inl (none_there, gone) ↦ inl (
        none_there,
        rw (gone, remove_bulk_job_from_redis_queue) refl,
        rw (gone, remove_bulk_job_from_redis_queue) refl,
      )
      | inr (p, (first, good, split, one)) ↦ inr (
        rw (first, remove_bulk_job_from_redis_queue) split,
        rw (first, remove_bulk_job_from_redis_queue) one,
      )
    ]
