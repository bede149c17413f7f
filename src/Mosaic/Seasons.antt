-- ===== src/Mosaic/Seasons.antt =====
-- app/services/mosaic_plan.py: the ranges of dates of a search, by seasons. `want` are the names of
-- seasons in the order that the set of them is walked through, and dates that do not parse are none.
pub mod Cover
use geofastmap_api.Prelude.{
  ℕ, zero, suc, ◌+◌, ◌-◌, ◌*◌, ◌/◌, String, Bool, true, false, not, ◌&&◌, ◌||◌, Option, none, some,
  List, [], ◌∷◌, ◌++◌, if◌then◌else◌, str_eq, ◌==◌, ltb, leb,
}
use geofastmap_api.Mosaic.Dates.{
  Date, date, is_leap, days_in_month, rank, on_or_before, later, earlier,
}
use geofastmap_api.Mosaic.Slices.{Slice, with_slice, calendar_month_datetime_slices}

-- `_SEASON_MONTHS`
pub season_months : String → Option (ℕ × ℕ)
season_months s =
    if str_eq s "spring"
    then some (3, 5)
    else if str_eq s "summer"
    then some (6, 8)
    else if str_eq s "autumn"
    then some (9, 11)
    else if str_eq s "winter"
    then some (12, 2)
    else none

-- The part of a range from `d1` to `d2` that lies in the search, in front, where there is one.
pub with_part : (ds de d1 d2 : Date) → List Slice → List Slice
with_part ds de d1 d2 rest =
    if on_or_before ds d2 && on_or_before d1 de
    then with_slice (later d1 ds) (earlier d2 de) rest
    else rest

pub last_of : (year month : ℕ) → ℕ
last_of year b =
    if b == 2
    then (if is_leap year then 29 else 28)
    else if b == 1 || b == 3 || b == 5 || b == 7 || b == 8 || b == 10 || b == 12
    then 31
    else 30

-- A season of a year in front: the winter has its December of that year, and its January and
-- February of the next.
pub with_season : (ds de : Date) → (year : ℕ) → String → List Slice → List Slice
unfolding season_months with_part last_of
with_season ds de year sn rest = elim (season_months sn) [
  | none ↦ rest
  | some (a, b) ↦
      if str_eq sn "winter"
      then with_part ds de (date year 12 1) (date year 12 31)
          (with_part ds de (date (year + 1) 1 1) (date (year + 1) 2 28) rest)
      else with_part ds de (date year a 1) (date year b (last_of year b)) rest
]

pub year_slices : (ds de : Date) → (year : ℕ) → (want : List String) → List Slice → List Slice
unfolding with_season
year_slices ds de year [] rest = rest
year_slices ds de year (sn ∷ want) rest =
    with_season ds de year sn (year_slices ds de year want rest)

-- The years from `year` on, as many as `count`.
pub season_slices : (ds de : Date) → (count year : ℕ) → (want : List String) → List Slice
unfolding year_slices
season_slices ds de zero year want = []
season_slices ds de (suc count) year want =
    year_slices ds de year want (season_slices ds de count (year + 1) want)

-- `slices.sort(key=lambda x: x[0])`
pub insert_slice : Slice → List Slice → List Slice
insert_slice (s, e) [] = (s, e) ∷ []
insert_slice (s, e) ((s', e') ∷ rest) =
    let later_on = insert_slice (s, e) rest in
    if leb (rank s) (rank s') then (s, e) ∷ (s', e') ∷ rest else (s', e') ∷ later_on

pub sort_slices : List Slice → List Slice
unfolding insert_slice
sort_slices [] = []
sort_slices (slice ∷ rest) = insert_slice slice (sort_slices rest)

days_before : (year month : ℕ) → ℕ
days_before year zero = 0
days_before year (suc zero) = 0
days_before year (suc (suc m)) = days_before year (suc m) + days_in_month year (suc m)

-- `date.toordinal()`, but for the offset.
pub ordinal : Date → ℕ
unfolding days_before
ordinal d =
    (d.year * 365 + (d.year - 1) / 4 + (d.year - 1) / 400 - (d.year - 1) / 100)
    + days_before d.year d.month
    + d.day

or_whole : (ds de : Date) → List Slice → List Slice
unfolding sort_slices
or_whole ds de [] = (ds, de) ∷ []
or_whole ds de (slice ∷ slices) = sort_slices (slice ∷ slices)

or_range : (ds de : Date) → List Slice → List Slice
or_range ds de [] = (ds, de) ∷ []
or_range ds de (slice ∷ slices) = slice ∷ slices

-- The ranges of a search from `ds` to `de`, which are in order.
pub slices_between : (ds de : Date) → (any_season : Bool) → (want : List String) → List Slice
unfolding season_slices or_whole or_range ordinal
slices_between ds de any_season want =
    let months = calendar_month_datetime_slices ds de in
    if any_season
    then or_whole ds de (season_slices ds de (de.year + 1 - ds.year) ds.year want)
    else if ltb 31 (ordinal de - ordinal ds)
    then or_range ds de months
    else (ds, de) ∷ []

in_order : (ds de : Date) → Bool → List String → List Slice
unfolding slices_between
in_order ds de any_season want =
    if ltb (rank de) (rank ds)
    then slices_between de ds any_season want
    else slices_between ds de any_season want

pub season_datetime_slices :
    (date_start date_end : Option Date) → (any_season : Bool) → (want : List String) → List Slice
unfolding in_order
season_datetime_slices none none any_season want = []
season_datetime_slices none (some de) any_season want = in_order de de any_season want
season_datetime_slices (some ds) none any_season want = in_order ds ds any_season want
season_datetime_slices (some ds) (some de) any_season want = in_order ds de any_season want
