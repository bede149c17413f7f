-- ===== src/Mosaic/Greedy/Picks.antt =====
-- app/services/mosaic_plan.py: what one round of the greedy choice picks.
use mathlib.Core.Option.{some-injective, none-ne-some}
use geofastmap_api.Prelude.{
  String, true, false, not, ◌&&◌, ◌||◌, ◌≡◌, refl, ap, is_text, ◌++◌, sym, ◌∙◌, subst, ◌⊎◌, inl,
  inr, Option, none, some, List, [], ◌∷◌, if◌then◌else◌, Bool-cases, Option-cases, arith,
}
use geofastmap_api.Mosaic.Greedy.{
  Floats, Shapes, Candidate, Best, has_key, adds, best_of, better_of, scan, pool_of, found,
  with_wkb, or_all, Run, best_pick, greedy_pick_better, geoms_of,
}

module _ (floats : Floats) (shapes : Shapes floats) where
  abbrev pub In : Candidate floats shapes → List (Candidate floats shapes) → Type 0
  In c [] = ⊥
  In c (d ∷ ds) = (c ≡ d) ⊎ In c ds

  -- A candidate of the pool whose key is not used, and which adds to what is covered.
  pub record IsPick (used : List String) (remaining : shapes.Geom)
      (pool : List (Candidate floats shapes)) (c : Candidate floats shapes) : Type 0 where
    pub is_in : In c pool
    pub unused : has_key floats shapes c.key used ≡ false
    pub gains : adds floats shapes remaining c ≡ true

  later-IsPick :
      (used : List String) (remaining : shapes.Geom) (d : Candidate floats shapes)
      (pool : List (Candidate floats shapes)) (c : Candidate floats shapes)
      → IsPick used remaining pool c
      → IsPick used remaining (d ∷ pool) c
  later-IsPick used remaining d pool c p = record {
    is_in = inr p.is_in;
    unused = p.unused;
    gains = p.gains;
  }

  module _ (tie : Candidate floats shapes → floats.Num × String) where
    better_lem :
        (new : Best floats shapes) (best : Option (Best floats shapes))
        → (better_of floats shapes tie new best ≡ some new)
          ⊎ (better_of floats shapes tie new best ≡ best)
    unfolding better_of
    better_lem new none = inl refl
    better_lem new (some old) =
        elim (Bool-cases (
          greedy_pick_better floats shapes new.gain new.ratio new.tie old.gain old.ratio old.tie)) [
            | inl better ↦ inl (rw better refl)
            | inr worse ↦ inr (rw worse refl)
          ]

    new-IsPick :
        (used seen : List String) (remaining : shapes.Geom) (c : Candidate floats shapes)
        (pool : List (Candidate floats shapes)) (b : Best floats shapes)
        → not (has_key floats shapes c.key used || has_key floats shapes c.key seen)
            && adds floats shapes remaining c
          ≡ true
        → best_of floats shapes tie remaining c ≡ b
        → IsPick used remaining (c ∷ pool) b.candidate
    unfolding best_of
    new-IsPick used seen remaining c pool b chosen e =
        let same : c ≡ b.candidate = ap (λ x. x.candidate) e in
        let unused : has_key floats shapes c.key used ≡ false = ground (arith, chosen) in
        let gains : adds floats shapes remaining c ≡ true = ground (arith, chosen) in
        subst (IsPick used remaining (c ∷ pool)) same
          (record { is_in = inl refl; unused = unused; gains = gains })

    scan_lem :
        (used : List String) (remaining : shapes.Geom) (pool : List (Candidate floats shapes))
        (seen : List String) (best : Option (Best floats shapes)) (b : Best floats shapes)
        → scan floats shapes tie used seen remaining pool best ≡ some b
        → (best ≡ some b) ⊎ IsPick used remaining pool b.candidate
    unfolding scan
    scan_lem used remaining [] seen best b e = inl e
    scan_lem used remaining (c ∷ pool) seen best b e =
        let skipped = has_key floats shapes c.key used || has_key floats shapes c.key seen in
        let new = best_of floats shapes tie remaining c in
        elim (scan_lem used remaining pool (if skipped then seen else c.key ∷ seen) _ b e) [
          | inr p ↦ inr (later-IsPick used remaining c pool b.candidate p)
          | inl h ↦ elim (Bool-cases (not skipped && adds floats shapes remaining c)) [
            | inr passed ↦ inl (sym (rw passed refl) ∙ h)
            | inl chosen ↦
                let h' : better_of floats shapes tie new best ≡ some b = sym (rw chosen refl) ∙ h in
                elim (better_lem new best) [
                  | inl is_new ↦ inr (
                      new-IsPick used seen remaining c pool b chosen
                        (some-injective new b (sym is_new ∙ h')))
                  | inr is_old ↦ inl (sym is_old ∙ h')
                ]
          ]
        ]

  In-append :
      (c : Candidate floats shapes) (cs ds : List (Candidate floats shapes))
      → In c (cs ++ ds)
      → In c cs ⊎ In c ds
  In-append c [] ds h = inr h
  In-append c (d ∷ cs) ds (inl e) = inl (inl e)
  In-append c (d ∷ cs) ds (inr h) = elim (In-append c cs ds h) [
    | inl l ↦ inl (inr l)
    | inr r ↦ inr r
  ]

  with_wkb-In :
      (cs : List (Candidate floats shapes)) (k : String) (c : Candidate floats shapes)
      → In c (with_wkb floats shapes cs k)
      → In c cs
  unfolding with_wkb
  with_wkb-In [] k c h = h
  with_wkb-In (d ∷ cs) k c h = elim (Bool-cases (is_text (shapes.wkb d.geom) k)) [
    | inl same ↦
        let kept : In c (d ∷ with_wkb floats shapes cs k) =
          subst (In c) {y = d ∷ with_wkb floats shapes cs k} (rw same refl) h in
        elim kept [ inl e ↦ inl e | inr rest ↦ inr (with_wkb-In cs k c rest) ]
    | inr other ↦
        inr (with_wkb-In cs k c (subst (In c) {y = with_wkb floats shapes cs k} (rw other refl) h))
  ]

  found-In :
      (cs : List (Candidate floats shapes)) (ks : List String) (c : Candidate floats shapes)
      → In c (found floats shapes cs ks)
      → In c cs
  unfolding found
  found-In cs [] c h = absurd h
  found-In cs (k ∷ ks) c h =
      elim (In-append c (with_wkb floats shapes cs k) (found floats shapes cs ks) h) [
        | inl l ↦ with_wkb-In cs k c l
        | inr r ↦ found-In cs ks c r
      ]

  or_all-In :
      (cs all : List (Candidate floats shapes)) (c : Candidate floats shapes)
      → ((d : Candidate floats shapes) → In d cs → In d all)
      → In c (or_all floats shapes cs all)
      → In c all
  or_all-In [] all c within h = h
  or_all-In (d ∷ cs) all c within h = within c h

  pool_of-In :
      (cs : List (Candidate floats shapes)) (remaining : shapes.Geom) (c : Candidate floats shapes)
      → In c (pool_of floats shapes cs remaining)
      → In c cs
  unfolding pool_of
  pool_of-In cs remaining c h =
      elim (Option-cases (shapes.query (geoms_of floats shapes cs) remaining)) [
        | inl e ↦ subst (In c) (rw (e, pool_of) refl) h
        | inr (ks, e) ↦
            or_all-In (found floats shapes cs ks) cs c (found-In cs ks)
              (subst (In c) (rw (e, pool_of) refl) h)
      ]

  pub best_pick-IsPick :
      (run : Run floats shapes) (used : List String) (remaining : shapes.Geom)
      (b : Best floats shapes)
      → best_pick floats shapes run used remaining ≡ some b
      → IsPick used remaining run.candidates b.candidate
  unfolding best_pick
  best_pick-IsPick run used remaining b e =
      elim (scan_lem run.tie used remaining (pool_of floats shapes run.candidates remaining) [] none
        b e) [
          | inl absent ↦ absurd (none-ne-some b absent)
          | inr p ↦ record {
            is_in = pool_of-In run.candidates remaining b.candidate p.is_in;
            unused = p.unused;
            gains = p.gains;
          }
        ]
