-- ===== src/Civil/Calendar.antt =====
-- The written time is the one of the calendar: leap years and the lengths of months are counted out.
use prometheus_knowledge_rs.Prelude.{
  ℕ, zero, suc, ◌+◌, ◌-◌, ◌*◌, ◌/◌, ◌%◌, ◌≤◌, ◌<◌, ◌≡◌, refl, ap, ◌∙◌, sym, inl, inr, Bool, false,
  not, ◌&&◌, ◌||◌, arith, ltb, leb, ◌==◌, if◌then◌else◌, Bool-cases,
}
use prometheus_knowledge_rs.Civil.{
  CivilTime, year_of_era, days_before, month_of_year, calendar_month, civil_of_seconds,
}
use prometheus_knowledge_rs.Civil.Days.{
  days_before_le, day_of_year_bound, month_of_year_bound, day_of_month_bound, year_of_era_bound,
}

-- The Gregorian calendar, without regard to the code.
unfoldable pub is_leap : ℕ → Bool
is_leap y = (y % 4 == 0 && not (y % 100 == 0)) || y % 400 == 0

abbrev pub days_in_year : ℕ → ℕ
days_in_year y = if is_leap y then 366 else 365

abbrev pub is_short : ℕ → Bool
is_short m = m == 4 || m == 6 || m == 9 || m == 11

abbrev pub days_in_month : ℕ → ℕ → ℕ
days_in_month y m = if m == 2 then (if is_leap y then 29 else 28) else if is_short m then 30 else 31

-- The days of the years before a year, and of the first months of a year.
unfoldable pub days_in_years : ℕ → ℕ
days_in_years zero = 0
days_in_years (suc y) = days_in_years y + days_in_year y

unfoldable pub days_in_months : ℕ → ℕ → ℕ
days_in_months y zero = 0
days_in_months y (suc n) = days_in_months y n + days_in_month y (suc n)

-- The days from the first of January of year 0 on.
abbrev pub day_number : CivilTime → ℕ
day_number t = days_in_years t.year + days_in_months t.year (t.month - 1) + (t.day - 1)

-- A time that the calendar and the clock have, and that lies so many seconds after the start of 1970,
-- which is day 719528.
pub record IsTimeOf (seconds : ℕ) (t : CivilTime) : Type 0 where
  pub month : (1 ≤ t.month) × (t.month ≤ 12)
  pub day : (1 ≤ t.day) × (t.day ≤ days_in_month t.year t.month)
  pub clock : (t.hour < 24) × (t.minute < 60) × (t.second < 60)
  pub elapsed :
      day_number t * 86400 + t.hour * 3600 + t.minute * 60 + t.second ≡ 719528 * 86400 + seconds

abbrev leap_day : ℕ → ℕ
leap_day y = if is_leap y then 1 else 0

abbrev closed_years : ℕ → ℕ
closed_years y = 365 * y + (y + 3) / 4 + (y + 399) / 400 - (y + 99) / 100

closed_years-suc : (y : ℕ) → closed_years (suc y) ≡ closed_years y + days_in_year y
unfolding is_leap
closed_years-suc y = ground arith

days_in_years-closed_years : (y : ℕ) → days_in_years y ≡ closed_years y
unfolding days_in_years
days_in_years-closed_years zero = refl
days_in_years-closed_years (suc y) =
    ap (λ n. n + days_in_year y) (days_in_years-closed_years y) ∙ sym (closed_years-suc y)

months_from_march :
    (y mp : ℕ) → mp ≤ 9 → days_in_months y (mp + 2) ≡ 59 + leap_day y + (153 * mp + 2) / 5
unfolding days_in_months
months_from_march y zero h = ground arith
months_from_march y (suc zero) h = ground arith
months_from_march y (suc (suc zero)) h = ground arith
months_from_march y (suc (suc (suc zero))) h = ground arith
months_from_march y (suc (suc (suc (suc zero)))) h = ground arith
months_from_march y (suc (suc (suc (suc (suc zero))))) h = ground arith
months_from_march y (suc (suc (suc (suc (suc (suc zero)))))) h = ground arith
months_from_march y (suc (suc (suc (suc (suc (suc (suc zero))))))) h = ground arith
months_from_march y (suc (suc (suc (suc (suc (suc (suc (suc zero)))))))) h = ground arith
months_from_march y (suc (suc (suc (suc (suc (suc (suc (suc (suc zero))))))))) h = ground arith
months_from_march y (suc (suc (suc (suc (suc (suc (suc (suc (suc (suc n)))))))))) h = omega arith

length_from_march :
    (y mp : ℕ) → mp ≤ 9 → days_in_month y (mp + 3) + (153 * mp + 2) / 5 ≡ (153 * (mp + 1) + 2) / 5
length_from_march y zero h = ground arith
length_from_march y (suc zero) h = ground arith
length_from_march y (suc (suc zero)) h = ground arith
length_from_march y (suc (suc (suc zero))) h = ground arith
length_from_march y (suc (suc (suc (suc zero)))) h = ground arith
length_from_march y (suc (suc (suc (suc (suc zero))))) h = ground arith
length_from_march y (suc (suc (suc (suc (suc (suc zero)))))) h = ground arith
length_from_march y (suc (suc (suc (suc (suc (suc (suc zero))))))) h = ground arith
length_from_march y (suc (suc (suc (suc (suc (suc (suc (suc zero)))))))) h = ground arith
length_from_march y (suc (suc (suc (suc (suc (suc (suc (suc (suc zero))))))))) h = ground arith
length_from_march y (suc (suc (suc (suc (suc (suc (suc (suc (suc (suc n)))))))))) h = omega arith

within_month : (doy : ℕ) → doy ≤ 365 → doy < (153 * (month_of_year doy + 1) + 2) / 5
unfolding month_of_year
within_month doy h = omega arith

-- The day of a year of an era is below the length of that year, which ends in February.
within_year :
    (doe : ℕ)
    → doe < 146097
    → doe - days_before (year_of_era doe) < days_in_year (year_of_era doe + 1)
unfolding year_of_era is_leap
within_year doe h = ground arith

is_leap_era : (n era : ℕ) → is_leap (n + era * 400) ≡ is_leap n
unfolding is_leap
is_leap_era n era =
    let by_4 : (n + era * 400) % 4 ≡ n % 4 = omega arith in
    let by_100 : (n + era * 400) % 100 ≡ n % 100 = omega arith in
    let by_400 : (n + era * 400) % 400 ≡ n % 400 = omega arith in rw (by_4, by_100, by_400) refl

first_years : (yoe : ℕ) → yoe ≤ 399 → closed_years yoe + leap_day yoe ≡ days_before yoe + 1
unfolding is_leap
first_years yoe h = ground arith

closed_years_era : (yoe era : ℕ) → closed_years (yoe + era * 400) ≡ closed_years yoe + era * 146097
closed_years_era yoe era = omega arith

era_years :
    (yoe era : ℕ)
    → yoe ≤ 399
    → days_in_years (yoe + era * 400) + leap_day (yoe + era * 400)
      ≡ era * 146097 + days_before yoe + 1
era_years yoe era h =
    rw (days_in_years-closed_years (yoe + era * 400), closed_years_era yoe era, is_leap_era yoe era)
      (omega (arith, first_years yoe h))

years_suc : (y : ℕ) → days_in_years (y + 1) ≡ days_in_years y + 365 + leap_day y
unfolding days_in_years
years_suc y =
    let next : y + 1 ≡ suc y = omega arith in
    elim (Bool-cases (is_leap y)) [
      | inl leap ↦ rw (next, leap) (omega arith)
      | inr plain ↦ rw (next, plain) (omega arith)
    ]

-- A year, a month and a day, as day number and as a date that the calendar has.
abbrev IsDay : ℕ → ℕ → ℕ → ℕ → Type 0
IsDay n y m d =
    (1 ≤ m)
    × (m ≤ 12)
    × (1 ≤ d)
    × (d ≤ days_in_month y m)
    × (days_in_years y + days_in_months y (m - 1) + (d - 1) ≡ n)

spring-IsDay :
    (yoe era doy mp : ℕ)
    → yoe ≤ 399
    → mp ≤ 9
    → (153 * mp + 2) / 5 ≤ doy
    → doy < (153 * (mp + 1) + 2) / 5
    → IsDay
        (era * 146097 + days_before yoe + doy + 60)
        (yoe + era * 400)
        (mp + 3)
        (doy - (153 * mp + 2) / 5 + 1)
spring-IsDay yoe era doy mp low early from until =
    let y = yoe + era * 400 in
    let month : mp + 3 - 1 ≡ mp + 2 = omega arith in
    (
      omega arith,
      omega arith,
      omega arith,
      omega (arith, length_from_march y mp early),
      rw (month, months_from_march y mp early) (omega (arith, era_years yoe era low)),
    )

january-IsDay :
    (yoe era doy : ℕ)
    → yoe ≤ 399
    → 306 ≤ doy
    → doy < 337
    → IsDay (era * 146097 + days_before yoe + doy + 60) (yoe + era * 400 + 1) 1 (doy - 306 + 1)
unfolding days_in_months
january-IsDay yoe era doy low from until = (
  omega arith,
  omega arith,
  omega arith,
  omega arith,
  rw (years_suc (yoe + era * 400)) (omega (arith, era_years yoe era low)),
)

february-IsDay :
    (yoe era doy : ℕ)
    → yoe ≤ 399
    → 337 ≤ doy
    → doy < days_in_year (yoe + 1)
    → IsDay (era * 146097 + days_before yoe + doy + 60) (yoe + era * 400 + 1) 2 (doy - 337 + 1)
unfolding days_in_months
february-IsDay yoe era doy low from until =
    let order : yoe + era * 400 + 1 ≡ yoe + 1 + era * 400 = omega arith in
    let same : is_leap (yoe + era * 400 + 1) ≡ is_leap (yoe + 1) =
      ap is_leap order ∙ is_leap_era (yoe + 1) era in
    (
      omega arith,
      omega arith,
      omega arith,
      rw same (ground arith),
      rw (years_suc (yoe + era * 400)) (omega (arith, era_years yoe era low)),
    )

month-IsDay :
    (yoe era doy mp : ℕ)
    → yoe ≤ 399
    → mp ≤ 11
    → (153 * mp + 2) / 5 ≤ doy
    → doy < (153 * (mp + 1) + 2) / 5
    → doy < days_in_year (yoe + 1)
    → IsDay
        (era * 146097 + days_before yoe + doy + 60)
        (yoe + era * 400 + (if leb (calendar_month mp) 2 then 1 else 0))
        (calendar_month mp)
        (doy - (153 * mp + 2) / 5 + 1)
month-IsDay yoe era doy mp low fits from until year = elim (Bool-cases (ltb mp 10)) [
  | inl early ↦
      let small : mp ≤ 9 = ground arith in
      let late : leb (mp + 3) 2 ≡ false = ground arith in
      let same : yoe + era * 400 + 0 ≡ yoe + era * 400 = omega arith in
      rw (early, late, same) (spring-IsDay yoe era doy mp low small from until)
  | inr late ↦ elim (Bool-cases (mp == 10)) [
    | inl ten ↦
        let is_ten : mp ≡ 10 = ground arith in
        rw is_ten (january-IsDay yoe era doy low (omega arith) (omega arith))
    | inr other ↦
        let is_eleven : mp ≡ 11 = ground arith in
        rw is_eleven (february-IsDay yoe era doy low (omega arith) year)
  ]
]

-- The time that is written is one that the calendar and the clock have, by the Gregorian leap years and
-- lengths of months, and counting its days from year 0 gives the seconds it was written for.
pub civil_of_seconds-IsTimeOf : (seconds : ℕ) → IsTimeOf seconds (civil_of_seconds seconds)
unfolding civil_of_seconds
civil_of_seconds-IsTimeOf seconds =
    let z = seconds / 86400 + 719468 in
    let doe = z % 146097 in
    let yoe = year_of_era doe in
    let doy = doe - days_before yoe in
    let inside : doe < 146097 = omega arith in
    let year_fits = day_of_year_bound doe inside in
    let (m_low, m_high, d_low, d_high, number) =
      month-IsDay yoe (z / 146097) doy (month_of_year doy) (year_of_era_bound doe inside)
        (month_of_year_bound doy year_fits) (day_of_month_bound doy year_fits).0
        (within_month doy year_fits) (within_year doe inside) in
    record {
      month = (m_low, m_high);
      day = (d_low, d_high);
      clock = (omega arith, omega arith, omega arith);
      elapsed = omega (arith, number, days_before_le doe inside);
    }
