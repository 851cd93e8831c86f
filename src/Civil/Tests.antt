-- ===== src/Civil/Tests.antt =====
-- Dates and timestamps.
use ostk_cache.Prelude.{◌≡◌, refl, codes}
use ostk_cache.Civil.{ymd, civil_from_days, iso8601_utc_from_secs}
use ostk_cache.Civil.Steps.{calendar, civil-calendar}

leap_day : civil_from_days 11016 ≡ ymd 2000 2 29
unfolding civil_from_days
leap_day = refl

-- The vector of the source's own test.
known_vector : iso8601_utc_from_secs 0 ≡ codes "1970-01-01T00:00:00Z"
unfolding iso8601_utc_from_secs
known_vector = refl

civil-calendar_example : civil_from_days 59 ≡ calendar 59
civil-calendar_example = civil-calendar 59
