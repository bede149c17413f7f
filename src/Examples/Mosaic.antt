-- ===== src/Examples/Mosaic.antt =====
-- app/services/mosaic_plan.py: a search over a winter, and an area that two images cover.
use geofastmap_api.Prelude.{
  ℕ, ◌+◌, ◌-◌, ◌*◌, ◌/◌, String, true, false, ◌≡◌, ◌⊎◌, none, some, List, [], ◌∷◌, min, ltb, leb,
  ◌==◌, arith,
}
use geofastmap_api.Json.{null}
use geofastmap_api.Mosaic.Dates.{Date, IsDate, date, days_in_month, is_leap}
use geofastmap_api.Mosaic.Slices.{calendar_month_datetime_slices}
use geofastmap_api.Mosaic.Slices.Months.{times_in, months_cover_once}
use geofastmap_api.Mosaic.Seasons.{slices_between}
use geofastmap_api.Mosaic.Seasons.Cover.Searches.{wanted_in, seasons_cover}
use geofastmap_api.Mosaic.Greedy.{Floats, Shapes, Candidate}

abbrev first : Date
first = date 2024 1 10

abbrev last : Date
last = date 2024 12 20

abbrev leap_day : Date
leap_day = date 2024 2 29

first-IsDate : IsDate first
unfolding days_in_month
first-IsDate = record {
  from_january = omega arith;
  to_december = omega arith;
  from_first = omega arith;
  to_last = omega arith;
}

last-IsDate : IsDate last
unfolding days_in_month
last-IsDate = record {
  from_january = omega arith;
  to_december = omega arith;
  from_first = omega arith;
  to_last = omega arith;
}

leap_day-IsDate : IsDate leap_day
unfolding days_in_month is_leap
leap_day-IsDate = record {
  from_january = omega arith;
  to_december = omega arith;
  from_first = omega arith;
  to_last = omega arith;
}

months_cover_once_example : times_in leap_day (calendar_month_datetime_slices first last) ≡ 1
months_cover_once_example =
    months_cover_once first last leap_day first-IsDate last-IsDate leap_day-IsDate

seasons_cover_example :
    (times_in leap_day (slices_between first last true ("winter" ∷ []))
      ≡ wanted_in first last ("winter" ∷ []) leap_day)
    ⊎ ((slices_between first last true ("winter" ∷ []) ≡ (first, last) ∷ [])
        × (wanted_in first last ("winter" ∷ []) last ≡ 0))
seasons_cover_example =
    seasons_cover first last leap_day last ("winter" ∷ []) first-IsDate last-IsDate leap_day-IsDate
      last-IsDate

abbrev floats : Floats
floats = record {
  Num = ℕ;
  zero_num = 0;
  one_num = 1;
  literal = λ s. 0;
  add = λ a b. a + b;
  sub = λ a b. a - b;
  mul = λ a b. a * b;
  div = λ a b. a / b;
  negate = λ a. a;
  lt = λ a b. ltb a b;
  le = λ a b. leb a b;
  eq = λ a b. a == b;
  text_lt = λ s t. false;
}

-- A shape is as many cells, and two shapes meet in the smaller one.
abbrev shapes : Shapes floats
shapes = record {
  Geom = ℕ;
  area = λ g. g;
  is_empty = λ g. g == 0;
  bounds = λ g. (0, 0, g, g);
  intersection = λ a b. some (min a b);
  difference = λ a b. some (a - b);
  wkb = λ g. none;
  query = λ gs g. none;
}

abbrev image : String → ℕ → Candidate floats shapes
image key cells = record {
  feature = null;
  geom = cells;
  href = key;
  key = key;
  cloud = some 1;
  dt = none;
}

abbrev images : List (Candidate floats shapes)
images = image "a" 3 ∷ image "b" 2 ∷ image "a" 3 ∷ []
