-- ===== src/Mosaic/Greedy/Winners.antt =====
-- app/services/mosaic_plan.py: the candidate that wins a round of the greedy choice.
use mathlib.Core.Option.{some-injective, none-ne-some}
use geofastmap_api.Prelude.{
  String, Bool, true, false, not, ◌&&◌, ◌||◌, ◌≡◌, refl, ap, sym, ◌∙◌, subst, inl, inr, none, some,
  List, [], ◌∷◌, if◌then◌else◌, Bool-cases,
}
use geofastmap_api.Mosaic.Greedy.{
  Floats, Shapes, Candidate, Best, has_key, adds, best_of, better_of, scan, pool_of, Run, best_pick,
  greedy_pick_better,
}

module _ (floats : Floats) (shapes : Shapes floats) where
  -- The candidates that compete in a round: of each key that is neither used nor seen the first one
  -- of the pool, where it adds to what is covered.
  pub eligible :
      (used seen : List String)
      → shapes.Geom
      → List (Candidate floats shapes)
      → List (Candidate floats shapes)
  eligible used seen remaining [] = []
  eligible used seen remaining (c ∷ pool) =
      let skipped = has_key floats shapes c.key used || has_key floats shapes c.key seen in
      let rest = eligible used (if skipped then seen else c.key ∷ seen) remaining pool in
      if not skipped && adds floats shapes remaining c then c ∷ rest else rest

  module _ (tie : Candidate floats shapes → floats.Num × String) (remaining : shapes.Geom) where
    -- The comparison of gains, then ratios, then ties.
    abbrev pub beats : Candidate floats shapes → Candidate floats shapes → Bool
    beats d c =
        let new = best_of floats shapes tie remaining d in
        let old = best_of floats shapes tie remaining c in
        greedy_pick_better floats shapes new.gain new.ratio new.tie old.gain old.ratio old.tie

    -- Each candidate in turn challenges the leader, and takes its place where it beats it.
    pub data IsWinner
        : Candidate floats shapes
          → List (Candidate floats shapes)
          → Candidate floats shapes
          → Type 0 where
      remains : {c : Candidate floats shapes} → IsWinner c [] c
      stays :
          {c d w : Candidate floats shapes} {ds : List (Candidate floats shapes)}
          → beats d c ≡ false
          → IsWinner c ds w
          → IsWinner c (d ∷ ds) w
      loses :
          {c d w : Candidate floats shapes} {ds : List (Candidate floats shapes)}
          → beats d c ≡ true
          → IsWinner d ds w
          → IsWinner c (d ∷ ds) w

    -- The winner among candidates, of which there is one at least.
    abbrev pub Wins : List (Candidate floats shapes) → Candidate floats shapes → Type 0
    Wins [] w = ⊥
    Wins (c ∷ cs) w = IsWinner c cs w

    is_best_of :
        (c : Candidate floats shapes) (b : Best floats shapes)
        → best_of floats shapes tie remaining c ≡ b
        → c ≡ b.candidate
    unfolding best_of
    is_best_of c b e = ap (λ x. x.candidate) e

    scan_on :
        (used : List String) (pool : List (Candidate floats shapes)) (seen : List String)
        (c : Candidate floats shapes) (b : Best floats shapes)
        → scan floats shapes tie used seen remaining pool
            (some (best_of floats shapes tie remaining c))
          ≡ some b
        → (best_of floats shapes tie remaining b.candidate ≡ b)
          × IsWinner c (eligible used seen remaining pool) b.candidate
    unfolding scan eligible better_of
    scan_on used [] seen c b e =
        let p = some-injective (best_of floats shapes tie remaining c) b e in
        let same = is_best_of c b p in
        (
          subst (λ d. best_of floats shapes tie remaining d ≡ b) same p,
          subst (IsWinner c []) same remains,
        )
    scan_on used (d ∷ pool) seen c b e =
        let skipped = has_key floats shapes d.key used || has_key floats shapes d.key seen in
        let seen' = if skipped then seen else d.key ∷ seen in
        elim (Bool-cases (not skipped && adds floats shapes remaining d)) [
          | inr passed ↦
              let (same, wins) = scan_on used pool seen' c b (sym (rw passed refl) ∙ e) in
              rw passed (same, wins)
          | inl chosen ↦ elim (Bool-cases (beats d c)) [
            | inl better ↦
                let (same, wins) =
                  scan_on used pool seen' d b (sym (rw (chosen, better) refl) ∙ e) in
                rw chosen (same, loses better wins)
            | inr worse ↦
                let (same, wins) =
                  scan_on used pool seen' c b (sym (rw (chosen, worse) refl) ∙ e) in
                rw chosen (same, stays worse wins)
          ]
        ]

    scan_from_start :
        (used : List String) (pool : List (Candidate floats shapes)) (seen : List String)
        (b : Best floats shapes)
        → scan floats shapes tie used seen remaining pool none ≡ some b
        → (best_of floats shapes tie remaining b.candidate ≡ b)
          × Wins (eligible used seen remaining pool) b.candidate
    unfolding scan eligible better_of
    scan_from_start used [] seen b e = absurd (none-ne-some b e)
    scan_from_start used (d ∷ pool) seen b e =
        let skipped = has_key floats shapes d.key used || has_key floats shapes d.key seen in
        let seen' = if skipped then seen else d.key ∷ seen in
        elim (Bool-cases (not skipped && adds floats shapes remaining d)) [
          | inr passed ↦ rw passed (scan_from_start used pool seen' b (sym (rw passed refl) ∙ e))
          | inl chosen ↦ rw chosen (scan_on used pool seen' d b (sym (rw chosen refl) ∙ e))
        ]

    still_some :
        (used : List String) (pool : List (Candidate floats shapes)) (seen : List String)
        (c : Candidate floats shapes)
        → scan floats shapes tie used seen remaining pool
            (some (best_of floats shapes tie remaining c))
          ≡ none
        → ⊥
    unfolding scan better_of
    still_some used [] seen c e = none-ne-some (best_of floats shapes tie remaining c) (sym e)
    still_some used (d ∷ pool) seen c e =
        let skipped = has_key floats shapes d.key used || has_key floats shapes d.key seen in
        let seen' = if skipped then seen else d.key ∷ seen in
        elim (Bool-cases (not skipped && adds floats shapes remaining d)) [
          | inr passed ↦ still_some used pool seen' c (sym (rw passed refl) ∙ e)
          | inl chosen ↦ elim (Bool-cases (beats d c)) [
            | inl better ↦ still_some used pool seen' d (sym (rw (chosen, better) refl) ∙ e)
            | inr worse ↦ still_some used pool seen' c (sym (rw (chosen, worse) refl) ∙ e)
          ]
        ]

    scan-none :
        (used : List String) (pool : List (Candidate floats shapes)) (seen : List String)
        → scan floats shapes tie used seen remaining pool none ≡ none
        → eligible used seen remaining pool ≡ []
    unfolding scan eligible better_of
    scan-none used [] seen e = refl
    scan-none used (d ∷ pool) seen e =
        let skipped = has_key floats shapes d.key used || has_key floats shapes d.key seen in
        let seen' = if skipped then seen else d.key ∷ seen in
        elim (Bool-cases (not skipped && adds floats shapes remaining d)) [
          | inr passed ↦ rw passed (scan-none used pool seen' (sym (rw passed refl) ∙ e))
          | inl chosen ↦ absurd (still_some used pool seen' d (sym (rw chosen refl) ∙ e))
        ]

  module _ (run : Run floats shapes) (used : List String) (remaining : shapes.Geom) where
    -- The candidates of a round.
    abbrev pub round : List (Candidate floats shapes)
    round = eligible used [] remaining (pool_of floats shapes run.candidates remaining)

    pub best_pick-Wins :
        (b : Best floats shapes)
        → best_pick floats shapes run used remaining ≡ some b
        → (best_of floats shapes run.tie remaining b.candidate ≡ b)
          × Wins run.tie remaining round b.candidate
    unfolding best_pick
    best_pick-Wins b e =
        scan_from_start run.tie remaining used (pool_of floats shapes run.candidates remaining) [] b
          e

    pub best_pick-none : best_pick floats shapes run used remaining ≡ none → round ≡ []
    unfolding best_pick
    best_pick-none e =
        scan-none run.tie remaining used (pool_of floats shapes run.candidates remaining) [] e
