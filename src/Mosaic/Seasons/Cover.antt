-- ===== src/Mosaic/Seasons/Cover.antt =====
-- app/services/mosaic_plan.py: which dates a season of a year covers.
pub mod Searches
use geofastmap_api.Prelude.{
  ℕ, zero, suc, ◌+◌, ◌-◌, ◌*◌, ◌≤◌, ◌<◌, String, Bool, true, false, not, ◌&&◌, ◌||◌, ◌≡◌, refl, ap,
  sym, ◌∙◌, ◌⊎◌, inl, inr, Option, none, some, List, [], ◌∷◌, if◌then◌else◌, str_eq, eq_iff, ◌==◌,
  ==_iff, ltb, leb, arith, Bool-cases,
}
use geofastmap_api.Mosaic.Dates.{
  Date, IsDate, date, is_leap, days_in_month, days_in_month-le, days_in_month-november,
  days_in_month-february, rank, on_or_before, later, earlier,
}
use geofastmap_api.Mosaic.Slices.{Slice, with_slice}
use geofastmap_api.Mosaic.Slices.Months.{times_in, is_in, with_slice-times, day-le}
use geofastmap_api.Mosaic.Seasons.{
  season_months, with_part, last_of, with_season, year_slices, season_slices, insert_slice,
  sort_slices, or_whole, slices_between,
}

abbrev pub in_range : (ds de d : Date) → Bool
in_range ds de d = on_or_before ds d && on_or_before d de

abbrev pub once : Bool → ℕ
once b = if b then 1 else 0

part_lem :
    (ds de d1 d2 d : Date)
    → is_in d (later d1 ds, earlier d2 de) ≡ (in_range ds de d && in_range d1 d2 d)
part_lem ds de d1 d2 d = ground arith

with_part-times :
    (ds de d1 d2 d : Date) (rest : List Slice)
    → times_in d (with_part ds de d1 d2 rest)
      ≡ once (in_range ds de d && in_range d1 d2 d) + times_in d rest
unfolding with_part
with_part-times ds de d1 d2 d rest = elim (Bool-cases (on_or_before ds d2 && on_or_before d1 de)) [
  | inl meets ↦ rw (meets, with_slice-times, part_lem) refl
  | inr apart ↦ rw apart (ground arith)
]

-- The date lies in the season that the source gives this name and year.
pub in_season : (year : ℕ) → String → Date → Bool
in_season year sn d =
    if str_eq sn "spring"
    then d.year == year && leb 3 d.month && leb d.month 5
    else if str_eq sn "summer"
    then d.year == year && leb 6 d.month && leb d.month 8
    else if str_eq sn "autumn"
    then d.year == year && leb 9 d.month && leb d.month 11
    else if str_eq sn "winter"
    then (d.year == year && d.month == 12)
      || (d.year == year + 1 && (leb d.month 2 && not (d.month == 2 && d.day == 29)))
    else false

months_lem :
    (year a b last : ℕ) (d : Date)
    → IsDate d
    → 1 ≤ a
    → b ≤ 12
    → last ≤ 31
    → (d.month ≡ b → d.day ≤ last)
    → in_range (date year a 1) (date year b last) d
      ≡ (d.year == year && leb a d.month && leb d.month b)
months_lem year a b last d valid low high short fits =
    let day = day-le d valid in
    let from_first = valid.from_first in
    let from_january = valid.from_january in
    let to_december = valid.to_december in
    elim (Bool-cases (d.month == b)) [
      | inl e ↦ let here : d.day ≤ last = fits ((==_iff d.month b).0 e) in ground (arith, e)
      | inr other ↦ ground (arith, other)
    ]

-- The days of a month of 30 days, of 31, and of December.
thirty : (d : Date) → IsDate d → d.month ≡ 11 → d.day ≤ 30
thirty d valid e =
    let fits = valid.to_last in
    let same = ap (days_in_month d.year) e ∙ days_in_month-november d.year in omega arith

twenty_nine : (d : Date) → IsDate d → d.month ≡ 2 → d.day ≤ 29
twenty_nine d valid e =
    let fits = valid.to_last in
    let same = ap (days_in_month d.year) e in let few = days_in_month-february d.year in omega arith

december_lem :
    (year : ℕ) (d : Date)
    → IsDate d
    → in_range (date year 12 1) (date year 12 31) d ≡ (d.year == year && d.month == 12)
december_lem year d valid =
    let day = day-le d valid in
    let from_first = valid.from_first in
    let from_january = valid.from_january in let to_december = valid.to_december in ground arith

two_months_lem :
    (year : ℕ) (d : Date)
    → IsDate d
    → in_range (date year 1 1) (date year 2 28) d
      ≡ (d.year == year && (leb d.month 2 && not (d.month == 2 && d.day == 29)))
two_months_lem year d valid =
    let day = day-le d valid in
    let from_first = valid.from_first in
    let from_january = valid.from_january in
    let to_december = valid.to_december in
    elim (Bool-cases (d.month == 2)) [
      | inl e ↦
          let here : d.day ≤ 29 = twenty_nine d valid ((==_iff d.month 2).0 e) in ground (arith, e)
      | inr other ↦ ground (arith, other)
    ]

winter_lem :
    (range : Bool) (year : ℕ) (d : Date) (others : ℕ)
    → once (range && (d.year == year && d.month == 12))
        + (once (
              range && (d.year == year + 1 && (leb d.month 2 && not (d.month == 2 && d.day == 29))))
            + others)
      ≡ once (
          range
          && ((d.year == year && d.month == 12)
              || (d.year == year + 1 && (leb d.month 2 && not (d.month == 2 && d.day == 29)))))
        + others
winter_lem range year d others = ground arith

no_winter :
    (sn s : String) → str_eq sn s ≡ true → str_eq s "winter" ≡ false → str_eq sn "winter" ≡ false
no_winter sn s e other = ap (λ x. str_eq x "winter") ((eq_iff sn s).0 e) ∙ other

with_season-times :
    (ds de : Date) (year : ℕ) (sn : String) (d : Date) (rest : List Slice)
    → IsDate d
    → times_in d (with_season ds de year sn rest)
      ≡ once (in_range ds de d && in_season year sn d) + times_in d rest
unfolding with_season season_months in_season last_of
with_season-times ds de year sn d rest valid =
    let day = day-le d valid in
    elim (Bool-cases (str_eq sn "spring")) [
      | inl spring ↦
          rw (spring, no_winter sn "spring" spring refl, with_season)
            (rw
              (
                with_part-times ds de (date year 3 1) (date year 5 31) d rest,
                months_lem year 3 5 31 d valid (omega arith) (omega arith) (omega arith) (λ e. day),
              )
              refl)
      | inr no_spring ↦ elim (Bool-cases (str_eq sn "summer")) [
        | inl summer ↦
            rw (no_spring, summer, no_winter sn "summer" summer refl, with_season)
              (rw
                (
                  with_part-times ds de (date year 6 1) (date year 8 31) d rest,
                  months_lem year 6 8 31 d valid (omega arith) (omega arith) (omega arith)
                      (λ e. day),
                )
                refl)
        | inr no_summer ↦ elim (Bool-cases (str_eq sn "autumn")) [
          | inl autumn ↦
              rw (no_spring, no_summer, autumn, no_winter sn "autumn" autumn refl, with_season)
                (rw
                  (
                    with_part-times ds de (date year 9 1) (date year 11 30) d rest,
                    months_lem year 9 11 30 d valid (omega arith) (omega arith) (omega arith)
                        (thirty d valid),
                  )
                  refl)
          | inr no_autumn ↦ elim (Bool-cases (str_eq sn "winter")) [
            | inl winter ↦
                rw (no_spring, no_summer, no_autumn, winter, with_season)
                  (rw
                    (
                      winter,
                      with_part-times ds de (date year 12 1) (date year 12 31) d
                          (with_part ds de (date (year + 1) 1 1) (date (year + 1) 2 28) rest),
                      december_lem year d valid,
                      with_part-times ds de (date (year + 1) 1 1) (date (year + 1) 2 28) d rest,
                      two_months_lem (year + 1) d valid,
                    )
                    (winter_lem (in_range ds de d) year d (times_in d rest)))
            | inr unknown ↦
                rw (no_spring, no_summer, no_autumn, unknown, with_season) (ground arith)
          ]
        ]
      ]
    ]

-- How many of the names are of a season of the year that holds the date.
pub season_times : (range : Bool) (year : ℕ) → Date → List String → ℕ
season_times range year d [] = 0
season_times range year d (sn ∷ want) =
    once (range && in_season year sn d) + season_times range year d want

pub year_slices-times :
    (ds de : Date) (year : ℕ) (d : Date) (want : List String) (rest : List Slice)
    → IsDate d
    → times_in d (year_slices ds de year want rest)
      ≡ season_times (in_range ds de d) year d want + times_in d rest
unfolding year_slices season_times
year_slices-times ds de year d [] rest valid = omega arith
year_slices-times ds de year d (sn ∷ want) rest valid =
    rw
      (
        with_season-times ds de year sn d (year_slices ds de year want rest) valid,
        year_slices-times ds de year d want rest valid,
      )
      (omega arith)

-- The names are counted one by one.
pub season_slices-times :
    (ds de : Date) (count year : ℕ) (d : Date) (sn : String) (want : List String)
    → IsDate d
    → times_in d (season_slices ds de count year (sn ∷ want))
      ≡ times_in d (season_slices ds de count year (sn ∷ []))
        + times_in d (season_slices ds de count year want)
unfolding season_slices times_in season_times
season_slices-times ds de zero year d sn want valid = omega arith
season_slices-times ds de (suc count) year d sn want valid =
    let next = season_slices-times ds de count (year + 1) d sn want valid in
    rw
      (
        year_slices-times ds de year d (sn ∷ want)
            (season_slices ds de count (year + 1) (sn ∷ want)) valid,
        year_slices-times ds de year d (sn ∷ []) (season_slices ds de count (year + 1) (sn ∷ []))
            valid,
        year_slices-times ds de year d want (season_slices ds de count (year + 1) want) valid,
        next,
      )
      (omega arith)
