-- ===== src/Civil.antt =====
-- The time in the records of reviewed candidates: `rfc3339_now`, pk-cli/src/candidates.rs, for the
-- seconds since 1970 and years up to 9999.
pub mod Days
pub mod Calendar
use prometheus_knowledge_rs.Prelude.{
  ℕ, ◌+◌, ◌-◌, ◌*◌, ◌/◌, ◌%◌, [], ◌∷◌, ◌++◌, ltb, leb, if◌then◌else◌, Chars,
}

pub record CivilTime : Type 0 where
  pub year : ℕ
  pub month : ℕ
  pub day : ℕ
  pub hour : ℕ
  pub minute : ℕ
  pub second : ℕ

-- The year of its era of 400 years, for the day of the era.
unfoldable pub year_of_era : ℕ → ℕ
year_of_era doe = (doe - doe / 1460 + doe / 36524 - doe / 146096) / 365

-- Days before a year of its era.
abbrev pub days_before : ℕ → ℕ
days_before yoe = 365 * yoe + yoe / 4 - yoe / 100

-- Years start in March here: the month and the day of the month for a day of such a year.
unfoldable pub month_of_year : ℕ → ℕ
month_of_year doy = (5 * doy + 2) / 153

abbrev pub calendar_month : ℕ → ℕ
calendar_month mp = if ltb mp 10 then mp + 3 else mp - 9

unfoldable pub civil_of_seconds : ℕ → CivilTime
unfolding year_of_era month_of_year
civil_of_seconds seconds =
    let days = seconds / 86400 in
    let time = seconds % 86400 in
    let z = days + 719468 in
    let era = z / 146097 in
    let doe = z % 146097 in
    let yoe = year_of_era doe in
    let doy = doe - days_before yoe in
    let mp = month_of_year doy in
    let month = calendar_month mp in
    record {
      year = yoe + era * 400 + (if leb month 2 then 1 else 0);
      month = month;
      day = doy - (153 * mp + 2) / 5 + 1;
      hour = time / 3600;
      minute = time % 3600 / 60;
      second = time % 60;
    }

abbrev pub two_digits : ℕ → Chars
two_digits n = (48 + n / 10) ∷ (48 + n % 10) ∷ []

abbrev pub four_digits : ℕ → Chars
four_digits n = two_digits (n / 100) ++ two_digits (n % 100)

unfoldable pub rfc3339 : ℕ → Chars
unfolding civil_of_seconds
rfc3339 seconds =
    let t = civil_of_seconds seconds in
    four_digits t.year
    ++ (b'-'
        ∷ (two_digits t.month
            ++ (b'-'
                ∷ (two_digits t.day
                    ++ (b'T'
                        ∷ (two_digits t.hour
                            ++ (b':'
                                ∷ (two_digits t.minute
                                    ++ (b':' ∷ (two_digits t.second ++ (b'Z' ∷ [])))))))))))
