-- ===== src/Mosaic/Seasons/Cover/Searches.antt =====
-- app/services/mosaic_plan.py: which dates the seasons of a search cover.
use geofastmap_api.Prelude.{
  ℕ, zero, suc, ◌+◌, ◌-◌, ◌≤◌, String, Bool, true, false, not, ◌&&◌, ◌||◌, ◌≡◌, refl, sym, ap, ◌∙◌,
  ◌⊎◌, inl, inr, List, [], ◌∷◌, if◌then◌else◌, str_eq, ◌==◌, ltb, leb, arith, Bool-cases,
}
use geofastmap_api.Mosaic.Dates.{Date, IsDate, rank}
use geofastmap_api.Mosaic.Slices.{Slice}
use geofastmap_api.Mosaic.Slices.Months.{times_in, is_in, day-le}
use geofastmap_api.Mosaic.Seasons.{
  year_slices, season_slices, insert_slice, sort_slices, or_whole, slices_between,
}
use geofastmap_api.Mosaic.Seasons.Cover.{
  in_range, once, in_season, season_times, year_slices-times, season_slices-times,
}

-- What a season of the given name means for a search that starts in the year `first`: its months,
-- and of the winter neither the 29th of February nor the first two months of that year.
pub wanted : (first : ℕ) → String → Date → Bool
wanted first sn d =
    if str_eq sn "spring"
    then leb 3 d.month && leb d.month 5
    else if str_eq sn "summer"
    then leb 6 d.month && leb d.month 8
    else if str_eq sn "autumn"
    then leb 9 d.month && leb d.month 11
    else if str_eq sn "winter"
    then d.month == 12 || (leb d.month 2 && not (d.month == 2 && d.day == 29) && ltb first d.year)
    else false

-- A season of the years from `year` on, as many as `count`.
in_years : (count year : ℕ) → String → Date → Bool
in_years count year sn d =
    if str_eq sn "spring"
    then (leb 3 d.month && leb d.month 5) && (leb year d.year && ltb d.year (year + count))
    else if str_eq sn "summer"
    then (leb 6 d.month && leb d.month 8) && (leb year d.year && ltb d.year (year + count))
    else if str_eq sn "autumn"
    then (leb 9 d.month && leb d.month 11) && (leb year d.year && ltb d.year (year + count))
    else if str_eq sn "winter"
    then (d.month == 12 && (leb year d.year && ltb d.year (year + count)))
      || ((leb d.month 2 && not (d.month == 2 && d.day == 29))
          && (ltb year d.year && leb d.year (year + count)))
    else false

plain_years :
    (range a b : Bool) (count year y : ℕ)
    → once (range && (y == year && a && b))
        + once (range && ((a && b) && (leb (year + 1) y && ltb y (year + 1 + count))))
      ≡ once (range && ((a && b) && (leb year y && ltb y (year + suc count))))
plain_years false a b count year y = ground arith
plain_years true false b count year y = ground arith
plain_years true true false count year y = ground arith
plain_years true true true count year y = ground arith

winter_years :
    (range a b : Bool) (count year y : ℕ)
    → a && b ≡ false
    → once (range && ((y == year && a) || (y == year + 1 && b)))
        + once (
            range
            && ((a && (leb (year + 1) y && ltb y (year + 1 + count)))
                || (b && (ltb (year + 1) y && leb y (year + 1 + count)))))
      ≡ once (
          range
          && ((a && (leb year y && ltb y (year + suc count)))
              || (b && (ltb year y && leb y (year + suc count)))))
winter_years false a b count year y apart = ground arith
winter_years true true true count year y apart = absurd (ground (arith, apart))
winter_years true true false count year y apart = ground arith
winter_years true false true count year y apart = ground arith
winter_years true false false count year y apart = ground arith

in_years-suc :
    (range : Bool) (count year : ℕ) (sn : String) (d : Date)
    → once (range && in_season year sn d) + once (range && in_years count (year + 1) sn d)
      ≡ once (range && in_years (suc count) year sn d)
unfolding in_season in_years
in_years-suc range count year sn d = elim (Bool-cases (str_eq sn "spring")) [
  | inl spring ↦ rw spring (plain_years range (leb 3 d.month) (leb d.month 5) count year d.year)
  | inr no_spring ↦ elim (Bool-cases (str_eq sn "summer")) [
    | inl summer ↦
        rw (no_spring, summer) (plain_years range (leb 6 d.month) (leb d.month 8) count year d.year)
    | inr no_summer ↦ elim (Bool-cases (str_eq sn "autumn")) [
      | inl autumn ↦
          rw (no_spring, no_summer, autumn)
            (plain_years range (leb 9 d.month) (leb d.month 11) count year d.year)
      | inr no_autumn ↦ elim (Bool-cases (str_eq sn "winter")) [
        | inl winter ↦
            rw (no_spring, no_summer, no_autumn, winter)
              (winter_years range (d.month == 12)
                (leb d.month 2 && not (d.month == 2 && d.day == 29)) count year d.year
                (ground arith))
        | inr unknown ↦ rw (no_spring, no_summer, no_autumn, unknown) (ground arith)
      ]
    ]
  ]
]

in_years-zero : (year : ℕ) (sn : String) (d : Date) → in_years zero year sn d ≡ false
unfolding in_years
in_years-zero year sn d = ground arith

season_times-once :
    (ds de : Date) (count year : ℕ) (sn : String) (d : Date)
    → IsDate d
    → times_in d (season_slices ds de count year (sn ∷ []))
      ≡ once (in_range ds de d && in_years count year sn d)
unfolding season_slices times_in season_times
season_times-once ds de zero year sn d valid = rw (in_years-zero year sn d) (ground arith)
season_times-once ds de (suc count) year sn d valid =
    let next = season_times-once ds de count (year + 1) sn d valid in
    rw
      (
        year_slices-times ds de year d (sn ∷ []) (season_slices ds de count (year + 1) (sn ∷ []))
            valid,
        next,
      )
      (ground (arith, in_years-suc (in_range ds de d) count year sn d))

years_lem :
    (ds de d : Date)
    → IsDate ds
    → IsDate de
    → IsDate d
    → in_range ds de d ≡ true
    → (ds.year ≤ d.year) × (d.year ≤ de.year)
years_lem ds de d first last valid inside =
    let day = day-le d valid in
    let start_day = day-le ds first in
    let end_day = day-le de last in
    let start_month = first.to_december in
    let end_month = last.to_december in
    let month = valid.to_december in
    let some_day = valid.from_first in
    let some_start = first.from_first in
    let some_month = valid.from_january in
    let some_start_month = first.from_january in (ground arith, ground arith)

known_years :
    (b : Bool) (first last y : ℕ)
    → first ≤ y
    → y ≤ last
    → (b && (leb first y && ltb y (first + (last + 1 - first))) ≡ b)
      × (b && (ltb first y && leb y (first + (last + 1 - first))) ≡ b && ltb first y)
known_years b first last y low high = (ground arith, ground arith)

in_years-eq :
    (first last : ℕ) (sn : String) (d : Date)
    → first ≤ d.year
    → d.year ≤ last
    → in_years (last + 1 - first) first sn d ≡ wanted first sn d
unfolding in_years wanted
in_years-eq first last sn d low high =
    rw
      (
        (known_years (leb 3 d.month && leb d.month 5) first last d.year low high).0,
        (known_years (leb 6 d.month && leb d.month 8) first last d.year low high).0,
        (known_years (leb 9 d.month && leb d.month 11) first last d.year low high).0,
        (known_years (d.month == 12) first last d.year low high).0,
        (known_years (leb d.month 2 && not (d.month == 2 && d.day == 29)) first last d.year low
            high).1,
      )
      refl

-- Within the search the years are all there.
in_years-wanted :
    (ds de : Date) (sn : String) (d : Date)
    → IsDate ds
    → IsDate de
    → IsDate d
    → once (in_range ds de d && in_years (de.year + 1 - ds.year) ds.year sn d)
      ≡ once (in_range ds de d && wanted ds.year sn d)
in_years-wanted ds de sn d first last valid = elim (Bool-cases (in_range ds de d)) [
  | inl inside ↦
      let (low, high) = years_lem ds de d first last valid inside in
      rw (in_years-eq ds.year de.year sn d low high) refl
  | inr outside ↦ rw outside refl
]

season_slices-none :
    (ds de : Date) (count year : ℕ) (d : Date) → times_in d (season_slices ds de count year []) ≡ 0
unfolding season_slices year_slices times_in
season_slices-none ds de zero year d = refl
season_slices-none ds de (suc count) year d = season_slices-none ds de count (year + 1) d

-- How many of the names stand for a season, as the search means it, that holds the date.
pub wanted_times : (first : ℕ) → List String → Date → ℕ
wanted_times first [] d = 0
wanted_times first (sn ∷ want) d = once (wanted first sn d) + wanted_times first want d

slices-wanted :
    (ds de d : Date) (want : List String)
    → IsDate ds
    → IsDate de
    → IsDate d
    → times_in d (season_slices ds de (de.year + 1 - ds.year) ds.year want)
      ≡ (if in_range ds de d then wanted_times ds.year want d else 0)
unfolding wanted_times
slices-wanted ds de d [] first last valid =
    rw (season_slices-none ds de (de.year + 1 - ds.year) ds.year d) (ground arith)
slices-wanted ds de d (sn ∷ want) first last valid =
    let rest = slices-wanted ds de d want first last valid in
    rw
      (
        season_slices-times ds de (de.year + 1 - ds.year) ds.year d sn want valid,
        season_times-once ds de (de.year + 1 - ds.year) ds.year sn d valid,
        in_years-wanted ds de sn d first last valid,
        rest,
      )
      (ground arith)

insert_slice-times :
    (slice : Slice) (slices : List Slice) (d : Date)
    → times_in d (insert_slice slice slices) ≡ once (is_in d slice) + times_in d slices
unfolding insert_slice times_in
insert_slice-times (s, e) [] d = refl
insert_slice-times (s, e) ((s', e') ∷ rest) d =
    let later_on = insert_slice-times (s, e) rest d in
    elim (Bool-cases (leb (rank s) (rank s'))) [
      | inl before ↦ rw before refl
      | inr after ↦ rw (after, times_in, later_on) (omega arith)
    ]

sort_slices-times :
    (slices : List Slice) (d : Date) → times_in d (sort_slices slices) ≡ times_in d slices
unfolding sort_slices times_in
sort_slices-times [] d = refl
sort_slices-times (slice ∷ rest) d =
    insert_slice-times slice (sort_slices rest) d
    ∙ ap (λ n. once (is_in d slice) + n) (sort_slices-times rest d)

whole_or :
    (slices : List Slice) (ds de d : Date) (n : ℕ)
    → times_in d slices ≡ n
    → (times_in d (or_whole ds de slices) ≡ n)
      ⊎ ((or_whole ds de slices ≡ (ds, de) ∷ []) × (slices ≡ []))
unfolding or_whole
whole_or [] ds de d n e = inr (refl, refl)
whole_or (slice ∷ slices) ds de d n e = inl (sort_slices-times (slice ∷ slices) d ∙ e)

-- What the seasons of the list ask for: how often a date of the range is wanted, and no other date.
abbrev pub wanted_in : Date → Date → List String → Date → ℕ
wanted_in ds de want d = if in_range ds de d then wanted_times ds.year want d else 0

-- With seasons a search covers a date of its range once for each name in the list whose season holds
-- the date: the months of that season, of the winter neither the 29th of February nor the first two
-- months of the search's first year. Nothing outside the range is covered. Otherwise the whole range
-- is searched, and then no date of the range, whichever is taken, is wanted by any season.
pub seasons_cover :
    (ds de d d' : Date) (want : List String)
    → IsDate ds
    → IsDate de
    → IsDate d
    → IsDate d'
    → (times_in d (slices_between ds de true want) ≡ wanted_in ds de want d)
      ⊎ ((slices_between ds de true want ≡ (ds, de) ∷ []) × (wanted_in ds de want d' ≡ 0))
unfolding slices_between or_whole times_in
seasons_cover ds de d d' want first last valid valid' =
    let slices = season_slices ds de (de.year + 1 - ds.year) ds.year want in
    elim (whole_or slices ds de d _ (slices-wanted ds de d want first last valid)) [
      | inl covered ↦ inl covered
      | inr (whole, empty) ↦
          inr (whole, sym (slices-wanted ds de d' want first last valid') ∙ ap (times_in d') empty)
    ]
