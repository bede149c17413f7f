-- ===== src/Bulk/Activity/Waiting.antt =====
-- app/services/bulk_collection_activity.py: how the wait for a collection ends.
use geofastmap_api.Prelude.{
  ℕ, zero, suc, ◌+◌, ◌<◌, ◌≤◌, String, Bool, true, false, not, ◌≡◌, refl, sym, subst, ◌⊎◌, inl, inr,
  some, str_eq, Bool-cases, arith,
}
use geofastmap_api.Bulk.Activity.{wait_from, wait_until_collection_bulk_idle}

module _ (busy stopped : ℕ → Bool) where
  -- The turn is the one at which the wait ends: idle or told to stop.
  abbrev pub EndsAt : ℕ → Type 0
  EndsAt last = (busy last ≡ false) ⊎ (stopped last ≡ true)

  last_turn :
      (fuel turn : ℕ)
      → EndsAt turn
      → wait_from (suc fuel) busy stopped turn ≡ some (not (busy turn))
  unfolding wait_from
  last_turn fuel turn (inl idle) = rw idle refl
  last_turn fuel turn (inr told) = elim (Bool-cases (busy turn)) [
    | inl works ↦ rw (works, told) refl
    | inr idle ↦ rw idle refl
  ]

  wait_from-stops :
      (k fuel turn last : ℕ)
      → turn + k ≡ last
      → ((j : ℕ) → turn ≤ j → j < last → (busy j ≡ true) × (stopped j ≡ false))
      → EndsAt last
      → k < fuel
      → wait_from fuel busy stopped turn ≡ some (not (busy last))
  unfolding wait_from
  wait_from-stops k zero turn last e before at_end enough = absurd (omega arith)
  wait_from-stops zero (suc fuel) turn last e before at_end enough =
      let here : turn ≡ last = omega arith in
      subst (λ t. wait_from (suc fuel) busy stopped t ≡ some (not (busy last))) (sym here)
        (last_turn fuel last at_end)
  wait_from-stops (suc k) (suc fuel) turn last e before at_end enough =
      let (works, goes_on) = before turn (omega arith) (omega arith) in
      rw (works, goes_on)
        (wait_from-stops k fuel (turn + 1) last (omega arith)
          (λ j low high. before j (omega arith) high) at_end (omega arith))

  -- The wait ends at the first turn that is idle or told to stop, and answers whether it was idle;
  -- fuel beyond the number of that turn is enough.
  wait_stops :
      (bulk_queue_type : String) (fuel last : ℕ)
      → ((j : ℕ) → j < last → (busy j ≡ true) × (stopped j ≡ false))
      → EndsAt last
      → last < fuel
      → (wait_until_collection_bulk_idle bulk_queue_type fuel busy stopped ≡ some (not (busy last)))
        ⊎ (wait_until_collection_bulk_idle bulk_queue_type fuel busy stopped ≡ some true)
  unfolding wait_until_collection_bulk_idle
  wait_stops bulk_queue_type fuel last before at_end enough =
      elim (Bool-cases (str_eq bulk_queue_type "redis")) [
        | inl e ↦ inl (
            rw e (
              wait_from-stops last fuel 0 last (omega arith) (λ j low high. before j high) at_end
                enough))
        | inr e ↦ inr (rw e refl)
      ]
