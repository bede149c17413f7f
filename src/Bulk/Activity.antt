-- ===== src/Bulk/Activity.antt =====
-- app/services/bulk_collection_activity.py: the counters of running bulk work, of all work and of
-- work that replaces or deletes, and the wait for a collection to be idle. A counter is what INCR and
-- DECR keep under a key; a key without a value counts as 0. That keys run out is left out, and what a
-- counter holds is a number.
pub mod Counts
pub mod Waiting
use Prim.Native.String.{◌++◌}
use geofastmap_api.Prelude.{
  ℕ, zero, suc, ◌+◌, ℤ, pos, negsuc, String, Bool, true, false, Option, none, some, if◌then◌else◌,
  str_eq, ltb,
}

abbrev pub inflight_prefix : String
inflight_prefix = "geofastmap:bulk_collection_inflight:"

abbrev destructive_prefix : String
destructive_prefix = "geofastmap:bulk_collection_destructive:"

-- The counters under their keys.
abbrev pub Counters : Type 0
Counters = String → Option ℤ

abbrev pub put_counter : Counters → String → Option ℤ → Counters
put_counter s key v k = if str_eq key k then v else s k

abbrev pub counter : Option ℤ → ℤ
counter none = pos 0
counter (some n) = n

abbrev pub up : ℤ → ℤ
up (pos n) = pos (suc n)
up (negsuc zero) = pos 0
up (negsuc (suc n)) = negsuc n

abbrev pub down : ℤ → ℤ
down (pos zero) = negsuc 0
down (pos (suc n)) = pos n
down (negsuc n) = negsuc (suc n)

abbrev pub is_positive : ℤ → Bool
is_positive (pos zero) = false
is_positive (pos (suc n)) = true
is_positive (negsuc n) = false

-- INCR, and DECR with its answer.
pub incr : Counters → String → Counters
incr s key = put_counter s key (some (up (counter (s key))))

pub decr : Counters → String → Counters × ℤ
decr s key = let n = down (counter (s key)) in (put_counter s key (some n), n)

pub drop_counter : Counters → String → Counters
drop_counter s key = put_counter s key none

module _ (bulk_queue_type : String) (prefix : String) where
  pub incr_activity : Counters → (collection_id : String) → Counters
  unfolding incr
  incr_activity s collection_id =
      if str_eq bulk_queue_type "redis" then incr s (prefix ++ collection_id) else s

  pub decr_activity : Counters → (collection_id : String) → Counters
  unfolding decr drop_counter
  decr_activity s collection_id =
      let (s', n) = decr s (prefix ++ collection_id) in
      if str_eq bulk_queue_type "redis"
      then (if is_positive n then s' else drop_counter s' (prefix ++ collection_id))
      else s

  pub has_activity : Counters → (collection_id : String) → Bool
  has_activity s collection_id =
      if str_eq bulk_queue_type "redis"
      then is_positive (counter (s (prefix ++ collection_id)))
      else false

module _ (bulk_queue_type : String) where
  abbrev incr_collection_bulk_activity : Counters → String → Counters
  incr_collection_bulk_activity s c = incr_activity bulk_queue_type inflight_prefix s c

  abbrev decr_collection_bulk_activity : Counters → String → Counters
  decr_collection_bulk_activity s c = decr_activity bulk_queue_type inflight_prefix s c

  abbrev collection_has_bulk_activity : Counters → String → Bool
  collection_has_bulk_activity s c = has_activity bulk_queue_type inflight_prefix s c

  abbrev incr_collection_destructive_bulk_activity : Counters → String → Counters
  incr_collection_destructive_bulk_activity s c =
      incr_activity bulk_queue_type destructive_prefix s c

  abbrev decr_collection_destructive_bulk_activity : Counters → String → Counters
  decr_collection_destructive_bulk_activity s c =
      decr_activity bulk_queue_type destructive_prefix s c

  abbrev collection_has_destructive_bulk_activity : Counters → String → Bool
  collection_has_destructive_bulk_activity s c = has_activity bulk_queue_type destructive_prefix s c

-- The loop, over what its turns see: whether there is activity, and whether it is told to stop. None
-- where the fuel runs out.
pub wait_from : (fuel : ℕ) → (busy stopped : ℕ → Bool) → (turn : ℕ) → Option Bool
wait_from zero busy stopped turn = none
wait_from (suc fuel) busy stopped turn =
    let rest = wait_from fuel busy stopped (turn + 1) in
    if busy turn then (if stopped turn then some false else rest) else some true

pub wait_until_collection_bulk_idle :
    (bulk_queue_type : String) → (fuel : ℕ) → (busy stopped : ℕ → Bool) → Option Bool
unfolding wait_from
wait_until_collection_bulk_idle bulk_queue_type fuel busy stopped =
    if str_eq bulk_queue_type "redis" then wait_from fuel busy stopped 0 else some true
