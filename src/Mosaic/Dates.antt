-- ===== src/Mosaic/Dates.antt =====
-- The dates of Python's `datetime` as app/services/mosaic_plan.py uses them: a year, a month from 1
-- to 12 and a day from 1 to the length of the month.
use geofastmap_api.Prelude.{
  ℕ, ◌+◌, ◌*◌, ◌%◌, ◌≤◌, Bool, not, ◌&&◌, ◌||◌, ◌≡◌, refl, if◌then◌else◌, ◌==◌, ltb, leb, arith,
}

pub record Date : Type 0 where
  pub year : ℕ
  pub month : ℕ
  pub day : ℕ

abbrev pub date : (year month day : ℕ) → Date
date y m d = record { year = y; month = m; day = d }

unfoldable pub is_leap : ℕ → Bool
is_leap y = y % 4 == 0 && (not (y % 100 == 0) || y % 400 == 0)

unfoldable pub days_in_month : (year month : ℕ) → ℕ
unfolding is_leap
days_in_month y m =
    if m == 2
    then (if is_leap y then 29 else 28)
    else if m == 4 || m == 6 || m == 9 || m == 11
    then 30
    else 31

pub record IsDate (d : Date) : Type 0 where
  pub from_january : 1 ≤ d.month
  pub to_december : d.month ≤ 12
  pub from_first : 1 ≤ d.day
  pub to_last : d.day ≤ days_in_month d.year d.month

-- The months are numbered through, and the dates by a number that grows with them.
abbrev pub month_number : Date → ℕ
month_number d = d.year * 12 + d.month

abbrev pub rank : Date → ℕ
rank d = (d.year * 12 + d.month) * 32 + d.day

-- `a <= b`
abbrev pub on_or_before : Date → Date → Bool
on_or_before a b = leb (rank a) (rank b)

-- `max(a, b)` and `min(a, b)`: of equal dates the first.
abbrev pub later : Date → Date → Date
later a b = if ltb (rank a) (rank b) then b else a

abbrev pub earlier : Date → Date → Date
earlier a b = if ltb (rank b) (rank a) then b else a

pub days_in_month-le : (y m : ℕ) → days_in_month y m ≤ 31
unfolding days_in_month
days_in_month-le y m = ground arith

pub days_in_month-ge : (y m : ℕ) → 28 ≤ days_in_month y m
unfolding days_in_month
days_in_month-ge y m = ground arith

pub days_in_month-november : (y : ℕ) → days_in_month y 11 ≡ 30
unfolding days_in_month
days_in_month-november y = refl

pub days_in_month-february : (y : ℕ) → days_in_month y 2 ≤ 29
unfolding days_in_month
days_in_month-february y = ground arith
