-- ===== src/Civil.antt =====
-- The calendar of timestamps: `civil_from_days` and `iso8601_utc_from_secs` of
-- src/rewrite_middleware.rs, which src/cycle_digest.rs and crates/ostk-cache-core/src/capture.rs
-- have again. Days since 1970 are not negative, as the clock's seconds are not.
pub mod Steps
mod Tests
use ostk_cache.Size.{decimal}
use ostk_cache.Prelude.{
  zero, suc, [], ◌∷◌, ◌++◌, Text, length, ℕ, ◌+◌, ◌-◌, ◌*◌, ◌/◌, ◌%◌, ltb, leb, if◌then◌else◌,
}

-- The triple that `civil_from_days` returns.
pub record Ymd : Type 0 where
  pub y : ℕ
  pub m : ℕ
  pub d : ℕ

abbrev pub ymd : ℕ → ℕ → ℕ → Ymd
ymd year month day = record { y = year; m = month; d = day }

-- The year of an era of 400 that a day of the era is in; years begin in March.
unfoldable pub year_of_era : ℕ → ℕ
year_of_era doe = (doe - doe / 1460 + doe / 36524 - doe / 146096) / 365

unfoldable pub day_of_year : ℕ → ℕ → ℕ
day_of_year doe yoe = doe - (365 * yoe + yoe / 4 - yoe / 100)

-- The date of a day of a year that begins in March.
unfoldable pub in_year : ℕ → ℕ → Ymd
in_year y doy =
    let mp = (5 * doy + 2) / 153 in
    let d = doy - (153 * mp + 2) / 5 + 1 in
    let m : ℕ = (if ltb mp 10 then mp + 3 else mp - 9) in ymd (if leb m 2 then y + 1 else y) m d

unfoldable pub civil_from_days : ℕ → Ymd
unfolding year_of_era day_of_year in_year
civil_from_days days =
    let z = days + 719468 in
    let era = z / 146097 in
    let doe = z - era * 146097 in
    let yoe = year_of_era doe in in_year (yoe + era * 400) (day_of_year doe yoe)

-- `{:0w}` of a number.
zeros : ℕ → Text
zeros zero = []
zeros (suc n) = b'0' ∷ zeros n

unfoldable pub padded : ℕ → ℕ → Text
unfolding zeros decimal
padded w n = zeros (w - length (decimal n)) ++ decimal n

unfoldable pub iso_text : Ymd → ℕ → ℕ → ℕ → Text
unfolding padded
iso_text t hour minute second =
    padded 4 t.y
    ++ (b'-' ∷ padded 2 t.m
        ++ (b'-' ∷ padded 2 t.d
            ++ (b'T' ∷ padded 2 hour
                ++ (b':' ∷ padded 2 minute ++ (b':' ∷ padded 2 second ++ b'Z' ∷ [])))))

unfoldable pub iso8601_utc_from_secs : ℕ → Text
unfolding civil_from_days iso_text
iso8601_utc_from_secs secs =
    let secs_of_day = secs % 86400 in
    iso_text (civil_from_days (secs / 86400)) (secs_of_day / 3600) (secs_of_day % 3600 / 60)
      (secs_of_day % 60)
