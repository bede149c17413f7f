-- ===== src/Mosaic/Greedy/Traces.antt =====
-- app/services/mosaic_plan.py: the run of the greedy choice.
pub mod Dedupe
use mathlib.Core.Option.{some-injective, none-ne-some}
use geofastmap_api.Prelude.{
  ℕ, suc, ◌+◌, String, Bool, true, false, not, ◌&&◌, ◌||◌, ◌≡◌, is_text, ◌++◌, subst, ◌⊎◌, Option,
  none, some, List, [], ◌∷◌, if◌then◌else◌, str_eq, eq_iff,
}
use geofastmap_api.Mosaic.Greedy.{
  Floats, Shapes, Candidate, has_key, adds, better_of, scan, pool_of, found, with_wkb, or_all, Run,
  greedy_pick_better, dedupe_from, dedupe_candidates_by_key, geoms_of, sort_key_lowest_cloud,
  sort_key_newest, clamp, gain_of,
}
use geofastmap_api.Mosaic.Greedy.Picks.{IsPick}
use geofastmap_api.Mosaic.Greedy.Winners.{Wins, round}

module _ (floats : Floats) (shapes : Shapes floats) where
  module _ (run : Run floats shapes) where
    open floats use {zero_num, one_num, sub, mul, div, lt, le}
    open shapes use {Geom, area, is_empty, difference}

    -- The area is covered as far as asked for, or nothing is left of it.
    abbrev pub is_covered : Geom → Bool
    is_covered remaining =
        le (div (area remaining) run.aoi_area) (sub one_num run.min_coverage)
        || is_empty remaining
        || le (area remaining) zero_num

    -- After the first pick: a candidate that adds too small a part of what is left.
    abbrev pub is_marginal : (is_first : Bool) → Geom → Candidate floats shapes → Bool
    is_marginal is_first remaining c =
        not is_first
        && lt zero_num run.min_marginal
        && lt (gain_of floats shapes remaining c) (mul (area remaining) run.min_marginal)

    -- The winner of a round that is worth its place.
    pub record IsChoice (is_first : Bool) (used : List String) (remaining : Geom)
        (c : Candidate floats shapes) : Type 0 where
      pub open_end : is_covered remaining ≡ false
      pub is_pick : IsPick floats shapes used remaining run.candidates c
      pub wins : Wins floats shapes run.tie remaining (round floats shapes run used remaining) c
      pub is_worth : is_marginal is_first remaining c ≡ false

    -- A whole run of the greedy choice, with a limit of picks. It goes on with the winner of each
    -- round and takes it away from what is left; it ends at the limit, where the area is covered,
    -- where no candidate competes, where the winner is marginal, where the difference raises, and
    -- where nothing is left.
    pub data IsRun
        : ℕ → Bool → List String → Geom → List (Candidate floats shapes) → Geom → Type 0 where
      at_limit :
          {is_first : Bool} {used : List String} {remaining : Geom}
          → IsRun 0 is_first used remaining [] remaining
      covered :
          {limit : ℕ} {is_first : Bool} {used : List String} {remaining : Geom}
          → is_covered remaining ≡ true
          → IsRun limit is_first used remaining [] remaining
      unopposed :
          {limit : ℕ} {is_first : Bool} {used : List String} {remaining : Geom}
          → round floats shapes run used remaining ≡ []
          → IsRun limit is_first used remaining [] remaining
      marginal :
          {limit : ℕ} {is_first : Bool} {used : List String} {remaining : Geom}
          (c : Candidate floats shapes)
          → Wins floats shapes run.tie remaining (round floats shapes run used remaining) c
          → is_marginal is_first remaining c ≡ true
          → IsRun limit is_first used remaining [] remaining
      sticks :
          {limit : ℕ} {is_first : Bool} {used : List String} {remaining : Geom}
          (c : Candidate floats shapes)
          → IsChoice is_first used remaining c
          → difference remaining c.geom ≡ none
          → IsRun (suc limit) is_first used remaining (c ∷ []) remaining
      empties :
          {limit : ℕ} {is_first : Bool} {used : List String} {remaining left : Geom}
          (c : Candidate floats shapes)
          → IsChoice is_first used remaining c
          → difference remaining c.geom ≡ some left
          → is_empty left ≡ true
          → IsRun (suc limit) is_first used remaining (c ∷ []) left
      picks :
          {limit : ℕ} {is_first : Bool} {used : List String} {remaining left last : Geom}
          {cs : List (Candidate floats shapes)} (c : Candidate floats shapes)
          → IsChoice is_first used remaining c
          → difference remaining c.geom ≡ some left
          → is_empty left ≡ false
          → IsRun limit false (c.key ∷ used) left cs last
          → IsRun (suc limit) is_first used remaining (c ∷ cs) last

  pub keys_of : List (Candidate floats shapes) → List String
  keys_of [] = []
  keys_of (c ∷ cs) = c.key ∷ keys_of cs

  -- A key stands twice among the candidates, or once among them and once in the list before.
  pub has_repeat : List String → List (Candidate floats shapes) → Bool
  has_repeat used [] = false
  has_repeat used (c ∷ cs) = has_key floats shapes c.key used || has_repeat (c.key ∷ used) cs

  -- The settings of a run: the ties are those of the clouds or of the dates, and the marginal part is
  -- put between 0 and 1.
  abbrev pub run_of :
      shapes.Geom
      → List (Candidate floats shapes)
      → (lowest_cloud : Bool) → (min_coverage min_marginal : floats.Num) → Run floats shapes
  run_of aoi cs lowest_cloud min_coverage min_marginal = record {
    candidates = cs;
    tie =
        if lowest_cloud then sort_key_lowest_cloud floats shapes else sort_key_newest floats shapes;
    aoi_area = shapes.area aoi;
    min_coverage = min_coverage;
    min_marginal = clamp floats shapes min_marginal;
  }

  -- Nothing is selected, and the whole area is uncovered; or the selection is a whole run, and what
  -- is given as uncovered is what it leaves, with its part of the area.
  abbrev pub IsSelection :
      shapes.Geom
      → List (Candidate floats shapes)
      → Run floats shapes
      → ℕ
      → List (Candidate floats shapes) × Option shapes.Geom × floats.Num
      → Type 0
  IsSelection aoi cs run limit (selected, uncovered, fraction) =
      (((cs ≡ []) ⊎ (floats.le (shapes.area aoi) floats.zero_num ≡ true))
        × (selected ≡ [])
        × (uncovered ≡ some aoi)
        × (fraction ≡ floats.one_num))
      ⊎ ((last : shapes.Geom) × IsRun run limit true [] aoi selected last
          × (uncovered ≡ (if shapes.is_empty last then none else some last))
          × (fraction ≡ (
              if shapes.is_empty last
              then floats.zero_num
              else floats.div (shapes.area last) (shapes.area aoi))))
