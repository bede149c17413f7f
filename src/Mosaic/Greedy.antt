-- ===== src/Mosaic/Greedy.antt =====
-- app/services/mosaic_plan.py: the greedy choice of images that cover an area. The geometry is that
-- of shapely, and numbers are floats: both are parameters, of which no law is needed.
mod Picks
pub mod Winners
pub mod Traces
use geofastmap_api.Prelude.{
  ℕ, zero, suc, String, Bool, true, false, not, ◌&&◌, ◌||◌, Option, none, some, List, [], ◌∷◌,
  if◌then◌else◌, str_eq, is_text, ◌++◌,
}
use geofastmap_api.Json.{Json}

pub record Floats : Type 1 where
  pub Num : Type 0
  pub zero_num : Num
  pub one_num : Num
  -- A number as the source writes it.
  pub literal : String → Num
  pub add : Num → Num → Num
  pub sub : Num → Num → Num
  pub mul : Num → Num → Num
  pub div : Num → Num → Num
  pub negate : Num → Num
  pub lt : Num → Num → Bool
  pub le : Num → Num → Bool
  pub eq : Num → Num → Bool
  -- `s < t` on texts
  pub text_lt : String → String → Bool

-- An operation of shapely that raises gives none.
pub record Shapes (floats : Floats) : Type 1 where
  pub Geom : Type 0
  pub area : Geom → floats.Num
  pub is_empty : Geom → Bool
  pub bounds : Geom → floats.Num × floats.Num × floats.Num × floats.Num
  pub intersection : Geom → Geom → Option Geom
  pub difference : Geom → Geom → Option Geom
  pub wkb : Geom → Option String
  -- The `wkb` of what the tree of the first geometries finds for the second.
  pub query : List Geom → Geom → Option (List String)

module _ (floats : Floats) (shapes : Shapes floats) where
  open floats use {Num, zero_num, one_num, literal, add, sub, mul, div, negate, lt, le, eq, text_lt}
  open shapes use {Geom, area, is_empty, bounds, intersection, difference, wkb, query}

  -- `dt` is the time stamp of the date.
  pub record Candidate : Type 0 where
    pub feature : Json
    pub geom : Geom
    pub href : String
    pub key : String
    pub cloud : Option Num
    pub dt : Option Num

  pub bounds_intersect : Num × Num × Num × Num → Num × Num × Num × Num → Bool
  bounds_intersect (a0, a1, a2, a3) (b0, b1, b2, b3) =
      not (le a2 b0 || le b2 a0 || le a3 b1 || le b3 a1)

  pub sort_key_lowest_cloud : Candidate → Num × String
  sort_key_lowest_cloud c = elim c.cloud [ none ↦ (literal "1e9", c.key) | some cc ↦ (cc, c.key) ]

  pub sort_key_newest : Candidate → Num × String
  sort_key_newest c = elim c.dt [
    | none ↦ (negate (literal "1e9"), c.key)
    | some t ↦ (negate t, c.key)
  ]

  -- `t1 < t2` on tuples
  tie_lt : Num × String → Num × String → Bool
  tie_lt (a, s) (b, t) = if eq a b then text_lt s t else lt a b

  pub greedy_pick_better : (g1 r1 : Num) → Num × String → (g2 r2 : Num) → Num × String → Bool
  unfolding tie_lt
  greedy_pick_better g1 r1 t1 g2 r2 t2 =
      if lt (add g2 (literal "1e-12")) g1
      then true
      else if lt (add g1 (literal "1e-12")) g2
      then false
      else if lt (add r2 (literal "1e-15")) r1
      then true
      else if lt (add r1 (literal "1e-15")) r2
      then false
      else tie_lt t1 t2

  pub record Best : Type 0 where
    pub candidate : Candidate
    pub gain : Num
    pub ratio : Num
    pub tie : Num × String

  pub has_key : String → List String → Bool
  has_key k [] = false
  has_key k (j ∷ js) = if str_eq k j then true else has_key k js

  area_or_zero : Option Geom → Num
  area_or_zero none = zero_num
  area_or_zero (some g) = area g

  pub gain_of : Geom → Candidate → Num
  unfolding area_or_zero
  gain_of remaining c = area_or_zero (intersection remaining c.geom)

  -- A candidate that adds to what is covered, by the bounds and by the area.
  pub adds : Geom → Candidate → Bool
  unfolding bounds_intersect gain_of
  adds remaining c =
      bounds_intersect (bounds remaining) (bounds c.geom) && not (le (gain_of remaining c) zero_num)

  module _ (tie : Candidate → Num × String) where
    pub best_of : Geom → Candidate → Best
    unfolding gain_of
    best_of remaining c = record {
      candidate = c;
      gain = gain_of remaining c;
      ratio =
          if lt (literal "1e-20") (area c.geom)
          then div (gain_of remaining c) (area c.geom)
          else zero_num;
      tie = tie c;
    }

    better_of : Best → Option Best → Option Best
    unfolding greedy_pick_better
    better_of new none = some new
    better_of new (some old) =
        if greedy_pick_better new.gain new.ratio new.tie old.gain old.ratio old.tie
        then some new
        else some old

    -- The loop over the pool, with the keys that were seen.
    pub scan : (used seen : List String) → Geom → List Candidate → Option Best → Option Best
    unfolding has_key adds best_of better_of
    scan used seen remaining [] best = best
    scan used seen remaining (c ∷ pool) best =
        let skipped = has_key c.key used || has_key c.key seen in
        let seen' = if skipped then seen else c.key ∷ seen in
        let best' =
          if not skipped && adds remaining c then better_of (best_of remaining c) best else best in
        scan used seen' remaining pool best'

  -- The candidates with a given `wkb`.
  with_wkb : List Candidate → String → List Candidate
  with_wkb [] k = []
  with_wkb (c ∷ cs) k =
      let rest = with_wkb cs k in if is_text (wkb c.geom) k then c ∷ rest else rest

  found : List Candidate → List String → List Candidate
  unfolding with_wkb
  found cs [] = []
  found cs (k ∷ ks) = with_wkb cs k ++ found cs ks

  geoms_of : List Candidate → List Geom
  geoms_of [] = []
  geoms_of (c ∷ cs) = c.geom ∷ geoms_of cs

  abbrev or_all : List Candidate → List Candidate → List Candidate
  or_all [] all = all
  or_all (c ∷ cs) all = c ∷ cs

  pub pool_of : List Candidate → Geom → List Candidate
  unfolding found geoms_of
  pool_of candidates remaining = elim (query (geoms_of candidates) remaining) [
    | none ↦ candidates
    | some keys ↦ or_all (found candidates keys) candidates
  ]

  -- The settings of a run: the covered part that is enough, and the marginal part that is too small.
  pub record Run : Type 0 where
    pub candidates : List Candidate
    pub tie : Candidate → Num × String
    pub aoi_area : Num
    pub min_coverage : Num
    pub min_marginal : Num

  module _ (run : Run) where
    -- The area is covered well enough, or nothing of it is left.
    pub is_done : Geom → Bool
    is_done remaining =
        le (div (area remaining) run.aoi_area) (sub one_num run.min_coverage)
        || is_empty remaining
        || le (area remaining) zero_num

    pub too_small : (is_first : Bool) → Geom → Best → Bool
    too_small is_first remaining best =
        not is_first
        && lt zero_num run.min_marginal
        && lt best.gain (mul (area remaining) run.min_marginal)

    pub best_pick : (used : List String) → Geom → Option Best
    unfolding scan pool_of
    best_pick used remaining =
        scan run.tie used [] remaining (pool_of run.candidates remaining) none

    pub cover_loop :
        (fuel : ℕ) → (is_first : Bool) → (used : List String) → Geom → List Candidate × Geom
    unfolding is_done too_small best_pick
    cover_loop zero is_first used remaining = ([], remaining)
    cover_loop (suc fuel) is_first used remaining =
        if is_done remaining then ([], remaining) else elim (best_pick used remaining) [
          | none ↦ ([], remaining)
          | some best ↦
              if too_small is_first remaining best
              then ([], remaining)
              else elim (difference remaining best.candidate.geom) [
                | none ↦ (best.candidate ∷ [], remaining)
                | some left ↦
                    let (more, last) = cover_loop fuel false (best.candidate.key ∷ used) left in
                    if is_empty left
                    then (best.candidate ∷ [], left)
                    else (best.candidate ∷ more, last)
              ]
        ]

    fraction_left : Geom → Num
    fraction_left remaining =
        if is_empty remaining then zero_num else div (area remaining) run.aoi_area

  abbrev pub clamp : Num → Num
  clamp x =
      let low = if lt x one_num then x else one_num in if lt zero_num low then low else zero_num

  pub greedy_cover_aoi :
      Geom
      → List Candidate
      → (lowest_cloud : Bool) → (min_coverage : Num) → (max_iterations : ℕ)
      → (min_marginal_coverage_fraction : Num) → List Candidate × Option Geom × Num
  unfolding cover_loop fraction_left
  greedy_cover_aoi aoi [] lowest_cloud min_coverage max_iterations min_marginal =
      ([], some aoi, one_num)
  greedy_cover_aoi aoi (c ∷ cs) lowest_cloud min_coverage max_iterations min_marginal =
      let run : Run = record {
        candidates = c ∷ cs;
        tie = if lowest_cloud then sort_key_lowest_cloud else sort_key_newest;
        aoi_area = area aoi;
        min_coverage = min_coverage;
        min_marginal = clamp min_marginal;
      } in
      let (selected, remaining) = cover_loop run max_iterations true [] aoi in
      if le (area aoi) zero_num then ([], some aoi, one_num) else (
        selected,
        if is_empty remaining then none else some remaining,
        fraction_left run remaining,
      )

  pub dedupe_from : (seen : List String) → List Candidate → List Candidate
  unfolding has_key
  dedupe_from seen [] = []
  dedupe_from seen (c ∷ cs) =
      let skipped = dedupe_from seen cs in
      let kept = dedupe_from (c.key ∷ seen) cs in if has_key c.key seen then skipped else c ∷ kept

  pub dedupe_candidates_by_key : List Candidate → List Candidate
  unfolding dedupe_from
  dedupe_candidates_by_key cs = dedupe_from [] cs
