-- ===== src/Mosaic/Greedy/Traces/Dedupe.antt =====
-- app/services/mosaic_plan.py: the candidates without repeated keys.
use geofastmap_api.Prelude.{
  String, Bool, true, false, ◌||◌, ◌≡◌, refl, ap, sym, ◌∙◌, List, [], ◌∷◌, str_eq, eq_iff,
  Bool-cases, arith, inl, inr,
}
use geofastmap_api.Mosaic.Greedy.{
  Floats, Shapes, Candidate, has_key, dedupe_from, dedupe_candidates_by_key,
}
use geofastmap_api.Mosaic.Greedy.Traces.{has_repeat, keys_of}

or_false : (b : Bool) → b || false ≡ b
or_false b = ground arith

module _ (floats : Floats) (shapes : Shapes floats) where
  same_has_key :
      (k j : String) (js : List String)
      → str_eq k j ≡ true
      → has_key floats shapes j js ≡ has_key floats shapes k js
  same_has_key k j js e = ap (λ x. has_key floats shapes x js) (sym ((eq_iff k j).0 e))

  other_key :
      (k j : String) (js : List String)
      → str_eq k j ≡ false
      → has_key floats shapes k (j ∷ js) ≡ has_key floats shapes k js
  unfolding has_key
  other_key k j js e = rw e refl

  dedupe_from-has_key :
      (cs : List (Candidate floats shapes)) (seen : List String) (k : String)
      → has_key floats shapes k (keys_of floats shapes (dedupe_from floats shapes seen cs))
          || has_key floats shapes k seen
        ≡ has_key floats shapes k (keys_of floats shapes cs) || has_key floats shapes k seen
  unfolding dedupe_from has_key keys_of
  dedupe_from-has_key [] seen k = refl
  dedupe_from-has_key (c ∷ cs) seen k =
      let skipped = dedupe_from-has_key cs seen k in
      let kept = dedupe_from-has_key cs (c.key ∷ seen) k in
      elim (Bool-cases (has_key floats shapes c.key seen)) [
        | inl old ↦ elim (Bool-cases (str_eq k c.key)) [
          | inl same ↦
              let known = sym (same_has_key k c.key seen same) ∙ old in
              rw (old, dedupe_from, same, known) (ground arith)
          | inr other ↦ rw (old, dedupe_from, other) skipped
        ]
        | inr new ↦ elim (Bool-cases (str_eq k c.key)) [
          | inl same ↦ rw (new, dedupe_from, same) refl
          | inr other ↦
              let found =
                has_key floats shapes k
                  (keys_of floats shapes (dedupe_from floats shapes (c.key ∷ seen) cs)) in
              let all = has_key floats shapes k (keys_of floats shapes cs) in
              let kept' = other_key k c.key seen other in
              rw (new, dedupe_from, other)
                (sym (ap (λ b. found || b) kept') ∙ kept ∙ ap (λ b. all || b) kept')
        ]
      ]

  dedupe_from-has_repeat :
      (cs : List (Candidate floats shapes)) (seen : List String)
      → has_repeat floats shapes seen (dedupe_from floats shapes seen cs) ≡ false
  unfolding dedupe_from has_repeat
  dedupe_from-has_repeat [] seen = refl
  dedupe_from-has_repeat (c ∷ cs) seen = elim (Bool-cases (has_key floats shapes c.key seen)) [
    | inl old ↦ rw (old, dedupe_from) (dedupe_from-has_repeat cs seen)
    | inr new ↦ rw (new, dedupe_from) (rw new (dedupe_from-has_repeat cs (c.key ∷ seen)))
  ]

  -- Without its repeated keys a list of candidates has the same keys, and none of them twice.
  pub dedupe_candidates_lem :
      (cs : List (Candidate floats shapes))
      → ((k : String)
          → has_key floats shapes k
              (keys_of floats shapes (dedupe_candidates_by_key floats shapes cs))
            ≡ has_key floats shapes k (keys_of floats shapes cs))
        × (has_repeat floats shapes [] (dedupe_candidates_by_key floats shapes cs) ≡ false)
  unfolding dedupe_candidates_by_key
  dedupe_candidates_lem cs = (
    λ k. sym (or_false _) ∙ dedupe_from-has_key cs [] k ∙ or_false _,
    dedupe_from-has_repeat cs [],
  )
