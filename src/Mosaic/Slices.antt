-- ===== src/Mosaic/Slices.antt =====
-- app/services/mosaic_plan.py: the ranges of dates of a search, by months. A range is its first and
-- last date; the text of a range is `range_text`.
pub mod Months
use geofastmap_api.Prelude.{
  ℕ, zero, suc, ◌+◌, ◌-◌, ◌*◌, String, Bool, true, false, ◌&&◌, List, [], ◌∷◌, if◌then◌else◌, ◌==◌,
  ltb, leb,
}
use Prim.Native.String.{◌++◌}
use geofastmap_api.Mosaic.Dates.{
  Date, date, days_in_month, rank, month_number, on_or_before, later, earlier,
}

abbrev pub Slice : Type 0
Slice = Date × Date

pub range_text : (isoformat : Date → String) → Slice → String
range_text isoformat (s, e) = (isoformat s ++ "T00:00:00Z/") ++ (isoformat e ++ "T23:59:59Z")

-- The first date of the next month. The source's years end with 9999: after its December it raises,
-- where here the year goes on.
pub next_month : Date → Date
next_month cur =
    if cur.month == 12 then date (cur.year + 1) 1 1 else date cur.year (cur.month + 1) 1

-- `next_m - timedelta(days=1)`, where `cur` is the first date of its month.
pub month_last : Date → Date
month_last cur = date cur.year cur.month (days_in_month cur.year cur.month)

-- A slice from `s` to `e` in front, where it is not empty.
abbrev pub with_slice : Date → Date → List Slice → List Slice
with_slice s e rest = if on_or_before s e then (s, e) ∷ rest else rest

-- The loop from the month of `cur`, with fuel for the months that are left.
pub month_slices_from : (fuel : ℕ) → (ds de cur : Date) → List Slice
unfolding next_month month_last
month_slices_from zero ds de cur = []
month_slices_from (suc fuel) ds de cur =
    let rest = month_slices_from fuel ds de (next_month cur) in
    if on_or_before cur de then with_slice (later ds cur) (earlier de (month_last cur)) rest else []

pub calendar_month_datetime_slices : (ds de : Date) → List Slice
unfolding month_slices_from
calendar_month_datetime_slices ds de =
    month_slices_from (month_number de + 1 - month_number ds) ds de (date ds.year ds.month 1)
