-- ===== src/Mosaic/Slices/Months.antt =====
-- app/services/mosaic_plan.py: the months of a range cover each of its days once.
use geofastmap_api.Prelude.{
  ℕ, zero, suc, ◌+◌, ◌-◌, ◌*◌, ◌≤◌, ◌<◌, Bool, true, false, not, ◌&&◌, ◌≡◌, refl, ◌∙◌, inl, inr,
  List, [], ◌∷◌, if◌then◌else◌, ◌==◌, leb, arith, Bool-cases, ==_iff,
}
use geofastmap_api.Mosaic.Dates.{
  Date, IsDate, date, days_in_month, days_in_month-le, days_in_month-ge, month_number, on_or_before,
  later, earlier,
}
use geofastmap_api.Mosaic.Slices.{
  Slice, next_month, month_last, with_slice, month_slices_from, calendar_month_datetime_slices,
}

abbrev pub is_in : Date → Slice → Bool
is_in d (s, e) = on_or_before s d && on_or_before d e

-- How many of the slices hold a date.
unfoldable pub times_in : Date → List Slice → ℕ
times_in d [] = 0
times_in d (slice ∷ slices) = (if is_in d slice then 1 else 0) + times_in d slices

is_in-later-earlier :
    (ds de cur last d : Date)
    → is_in d (later ds cur, earlier de last)
      ≡ ((on_or_before ds d && on_or_before cur d) && (on_or_before d de && on_or_before d last))
is_in-later-earlier ds de cur last d = ground arith

next-number : (cur : Date) → month_number (next_month cur) ≡ month_number cur + 1
unfolding next_month
next-number cur = ground arith

next-day : (cur : Date) → (next_month cur).day ≡ 1
unfolding next_month
next-day cur = ground arith

pub with_slice-times :
    (s e d : Date) (rest : List Slice)
    → times_in d (with_slice s e rest) ≡ (if is_in d (s, e) then 1 else 0) + times_in d rest
unfolding times_in
with_slice-times s e d rest = ground arith

-- Two dates of one month have one year and one month.
same_month :
    (y m y' m' : ℕ)
    → 1 ≤ m
    → m ≤ 12
    → 1 ≤ m'
    → m' ≤ 12
    → y * 12 + m ≡ y' * 12 + m'
    → (y ≡ y') × (m ≡ m')
same_month y m y' m' low high low' high' e = (omega arith, omega arith)

last_day :
    (d cur : Date)
    → IsDate d
    → 1 ≤ cur.month
    → cur.month ≤ 12
    → month_number d ≡ month_number cur
    → d.day ≤ days_in_month cur.year cur.month
last_day d cur valid low high e =
    let (y, m) =
      same_month d.year d.month cur.year cur.month valid.from_january valid.to_december low high
        e in
    rw (← y, ← m) valid.to_last

split_same :
    (m day last : ℕ)
    → day ≤ last
    → last ≤ 31
    → leb (m * 32 + day) (m * 32 + last) ≡ not (leb ((m + 1) * 32 + 1) (m * 32 + day))
split_same m day last fits short = ground arith

split_other :
    (m' m day last : ℕ)
    → day ≤ 31
    → 1 ≤ day
    → 28 ≤ last
    → last ≤ 31
    → (m' == m) ≡ false
    → leb (m' * 32 + day) (m * 32 + last) ≡ not (leb ((m + 1) * 32 + 1) (m' * 32 + day))
split_other m' m day last fits some_day long short other = ground arith

pub day-le : (d : Date) → IsDate d → d.day ≤ 31
day-le d valid =
    let fits = valid.to_last in let short = days_in_month-le d.year d.month in omega arith

-- A date comes no later than the last of a month, or no earlier than the first of the next.
month_split :
    (d cur : Date)
    → IsDate d
    → 1 ≤ cur.month
    → cur.month ≤ 12
    → on_or_before d (month_last cur) ≡ not (on_or_before (next_month cur) d)
unfolding month_last
month_split d cur valid low high =
    let last = days_in_month cur.year cur.month in
    let short = days_in_month-le cur.year cur.month in
    let long = days_in_month-ge cur.year cur.month in
    let fits : d.day ≤ 31 = day-le d valid in
    rw (next-number cur, next-day cur)
      (elim (Bool-cases (month_number d == month_number cur)) [
        | inl e ↦
            let same = (==_iff (month_number d) (month_number cur)).0 e in
            rw same
              (split_same (month_number cur) d.day last (last_day d cur valid low high same) short)
        | inr e ↦
            split_other (month_number d) (month_number cur) d.day last fits valid.from_first long
              short e
      ])

next_IsMonth :
    (cur : Date)
    → 1 ≤ cur.month
    → cur.month ≤ 12
    → (1 ≤ (next_month cur).month) × ((next_month cur).month ≤ 12)
unfolding next_month
next_IsMonth cur low high = (ground arith, ground arith)

-- A month after the last one holds no date of the range.
none_left :
    (de cur d : Date)
    → IsDate de
    → cur.day ≡ 1
    → month_number de < month_number cur
    → on_or_before cur d && on_or_before d de ≡ false
none_left de cur d valid first past = let fits = day-le de valid in ground arith

-- A date of this month or of a later one is counted once.
sum_lem :
    (a c b n : Bool)
    → (n ≡ true → c ≡ true)
    → (if (a && c) && (b && not n) then 1 else 0) + (if a && (n && b) then 1 else 0)
      ≡ (if a && (c && b) then 1 else 0)
sum_lem a true true true h = ground arith
sum_lem a true true false h = ground arith
sum_lem a true false true h = ground arith
sum_lem a true false false h = ground arith
sum_lem a false b true h = absurd (ground (arith, h refl))
sum_lem a false b false h = ground arith

next_follows :
    (cur d : Date)
    → cur.day ≡ 1
    → on_or_before (next_month cur) d ≡ true
    → on_or_before cur d ≡ true
next_follows cur d first h = let number = next-number cur in let day = next-day cur in ground arith

from_months :
    (fuel : ℕ) (ds de cur d : Date)
    → IsDate d
    → IsDate de
    → 1 ≤ cur.month
    → cur.month ≤ 12
    → cur.day ≡ 1
    → month_number de < month_number cur + fuel
    → times_in d (month_slices_from fuel ds de cur)
      ≡ (if on_or_before ds d && (on_or_before cur d && on_or_before d de) then 1 else 0)
unfolding month_slices_from times_in
from_months zero ds de cur d valid valid_end low high first enough =
    let past : month_number de < month_number cur = omega arith in
    let none = none_left de cur d valid_end first past in rw none (ground arith)
from_months (suc fuel) ds de cur d valid valid_end low high first enough =
    let next = next_month cur in
    let (low', high') = next_IsMonth cur low high in
    let more : month_number de < month_number next + fuel = rw (next-number cur) (omega arith) in
    let rest = from_months fuel ds de next d valid valid_end low' high' (next-day cur) more in
    let split = month_split d cur valid low high in
    elim (Bool-cases (on_or_before cur de)) [
      | inr past ↦ rw past (ground arith)
      | inl here ↦
          rw (here, with_slice-times, is_in-later-earlier, rest, split)
            (sum_lem (on_or_before ds d) (on_or_before cur d) (on_or_before d de)
              (on_or_before next d) (next_follows cur d first))
    ]

-- The slices by months of a range cover it: every date from the first to the last lies in one slice,
-- and every other date in none.
pub months_cover_once :
    (ds de d : Date)
    → IsDate ds
    → IsDate de
    → IsDate d
    → times_in d (calendar_month_datetime_slices ds de)
      ≡ (if on_or_before ds d && on_or_before d de then 1 else 0)
unfolding calendar_month_datetime_slices
months_cover_once ds de d valid_start valid_end valid =
    let cur = date ds.year ds.month 1 in
    let enough : month_number de < month_number cur + (month_number de + 1 - month_number ds) =
      omega arith in
    from_months (month_number de + 1 - month_number ds) ds de cur d valid valid_end
      valid_start.from_january valid_start.to_december refl enough
    ∙ ground arith
