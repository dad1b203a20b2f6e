-- ===== src/Civil/Days.antt =====
-- Civil times and the seconds that they stand for.
use prometheus_knowledge_rs.Prelude.{ℕ, ◌-◌, ◌≤◌, ◌<◌, arith, ◌+◌, ◌*◌, ◌/◌, ◌%◌}
use prometheus_knowledge_rs.Civil.{
  CivilTime, year_of_era, days_before, month_of_year, civil_of_seconds,
}

pub record IsCivil (t : CivilTime) : Type 0 where
  pub month : (1 ≤ t.month) × (t.month ≤ 12)
  pub day : (1 ≤ t.day) × (t.day ≤ 31)
  pub hour : t.hour < 24
  pub minute : t.minute < 60
  pub second : t.second < 60

pub year_of_era_bound : (doe : ℕ) → doe < 146097 → year_of_era doe ≤ 399
unfolding year_of_era
year_of_era_bound doe h = omega arith

pub days_before_le : (doe : ℕ) → doe < 146097 → days_before (year_of_era doe) ≤ doe
unfolding year_of_era
days_before_le doe h = omega arith

pub day_of_year_bound : (doe : ℕ) → doe < 146097 → doe - days_before (year_of_era doe) ≤ 365
unfolding year_of_era
day_of_year_bound doe h = omega arith

pub month_of_year_bound : (doy : ℕ) → doy ≤ 365 → month_of_year doy ≤ 11
unfolding month_of_year
month_of_year_bound doy h = omega arith

pub day_of_month_bound :
    (doy : ℕ)
    → doy ≤ 365
    → ((153 * month_of_year doy + 2) / 5 ≤ doy) × (doy - (153 * month_of_year doy + 2) / 5 ≤ 30)
unfolding month_of_year
day_of_month_bound doy h = omega arith

-- The time that is written is one of the calendar and the clock: the month is from 1 to 12, the day
-- from 1 to 31, the hour below 24, the minute and the second below 60.
pub civil_of_seconds-IsCivil : (seconds : ℕ) → IsCivil (civil_of_seconds seconds)
unfolding civil_of_seconds
civil_of_seconds-IsCivil seconds =
    let doe = (seconds / 86400 + 719468) % 146097 in
    let doy = doe - days_before (year_of_era doe) in
    let year_fits = day_of_year_bound doe (omega arith) in
    let month_fits = month_of_year_bound doy year_fits in
    let day_fits = day_of_month_bound doy year_fits in
    record {
      month = ground arith;
      day = omega arith;
      hour = omega arith;
      minute = omega arith;
      second = omega arith;
    }
