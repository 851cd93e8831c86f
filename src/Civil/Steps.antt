-- ===== src/Civil/Steps.antt =====
-- The calendar day by day.
use ostk_cache.Prelude.{
  Bool, true, false, not, ◌&&◌, ◌||◌, ◌==◌, ℕ, zero, suc, ◌+◌, ◌-◌, ◌*◌, ◌/◌, ◌%◌, ◌≤◌, ◌<◌, ◌≡◌,
  arith, refl, ap, ◌∙◌, Bool-cases, inl, inr, ltb→lt, ltb, if◌then◌else◌,
}
use ostk_cache.Civil.{Ymd, ymd, year_of_era, day_of_year, in_year, civil_from_days}

-- The first day of a year of the era.
abbrev start : ℕ → ℕ
start y = 365 * y + y / 4 - y / 100 + y / 400

year_of_era_lt : (doe : ℕ) → doe < 146097 → year_of_era doe < 400
unfolding year_of_era
year_of_era_lt doe h = omega arith

start-le : (doe : ℕ) → doe < 146097 → start (year_of_era doe) ≤ doe
unfolding year_of_era
start-le doe h = omega arith

lt-start : (doe : ℕ) → doe < 146097 → doe < start (year_of_era doe + 1)
unfolding year_of_era
lt-start doe h = omega arith

pub is_leap : ℕ → Bool
is_leap y = (y % 4 == 0) && (not (y % 100 == 0) || y % 400 == 0)

pub days_in_month : Bool → ℕ → ℕ
days_in_month leap m =
    if m == 2
    then (if leap then 29 else 28)
    else if m == 4 || (m == 6 || (m == 9 || m == 11))
    then 30
    else 31

-- The day after a date in the Gregorian calendar.
pub next_day : Ymd → Ymd
unfolding days_in_month is_leap
next_day t =
    if ltb t.d (days_in_month (is_leap t.y) t.m)
    then ymd t.y t.m (t.d + 1)
    else if ltb t.m 12
    then ymd t.y (t.m + 1) 1
    else ymd (t.y + 1) 1 1

start_mono : (a b : ℕ) → a ≤ b → start a ≤ start b
start_mono a b h = omega arith

before_leap_day : (y doy : ℕ) → doy + 1 < 365 → in_year y (doy + 1) ≡ next_day (in_year y doy)
unfolding in_year next_day
before_leap_day y doy h = ground arith

leap_day : (y : ℕ) → is_leap (y + 1) ≡ true → in_year y 365 ≡ next_day (in_year y 364)
unfolding in_year next_day
leap_day y h = ground arith

new_year_plain : (y : ℕ) → is_leap (y + 1) ≡ false → in_year (y + 1) 0 ≡ next_day (in_year y 364)
unfolding in_year next_day
new_year_plain y h = ground arith

new_year_leap : (y : ℕ) → is_leap (y + 1) ≡ true → in_year (y + 1) 0 ≡ next_day (in_year y 365)
unfolding in_year next_day
new_year_leap y h = ground arith

abbrev days_in_year : ℕ → ℕ
days_in_year y = if is_leap (y + 1) then 366 else 365

within_year :
    (y doy : ℕ) → doy + 1 < days_in_year y → in_year y (doy + 1) ≡ next_day (in_year y doy)
within_year y doy h = elim (Bool-cases (is_leap (y + 1))) [
  | inr plain ↦ before_leap_day y doy (rw plain at h)
  | inl leap ↦ elim (Bool-cases (ltb (doy + 1) 365)) [
    | inl early ↦ before_leap_day y doy (ltb→lt _ _ early)
    | inr last ↦
        let h' : doy + 1 < 366 = rw leap at h in
        let e : doy ≡ 364 = ground arith in rw e (leap_day y leap)
  ]
]

new_year : (y : ℕ) → in_year (y + 1) 0 ≡ next_day (in_year y (days_in_year y - 1))
new_year y = elim (Bool-cases (is_leap (y + 1))) [
  | inr plain ↦ rw plain (new_year_plain y plain)
  | inl leap ↦ rw leap (new_year_leap y leap)
]

-- How many days a year of an era has, by the leap day at its end.
length-year :
    (y era : ℕ)
    → y < 400
    → start (y + 1) ≡ start y + (if is_leap (y + era * 400 + 1) then 366 else 365)
unfolding is_leap
length-year y era h = ground arith

-- A day of an era is in one year of it.
year_unique : (doe y : ℕ) → doe < 146097 → start y ≤ doe → doe < start (y + 1) → year_of_era doe ≡ y
year_unique doe y h a b = omega (arith, start-le doe h, lt-start doe h)

-- The date of a day of an era.
civil_at : ℕ → ℕ → Ymd
civil_at era doe = in_year (year_of_era doe + era * 400) (day_of_year doe (year_of_era doe))

-- Inside a year the day of the year is counted from its start.
day-start : (doe y : ℕ) → y < 400 → start y ≤ doe → day_of_year doe y ≡ doe - start y
unfolding day_of_year
day-start doe y h a = omega arith

civil_of :
    (era doe y : ℕ)
    → doe < 146097
    → y < 400
    → start y ≤ doe
    → doe < start (y + 1)
    → civil_at era doe ≡ in_year (y + era * 400) (doe - start y)
unfolding civil_at
civil_of era doe y h l a b = rw (year_unique doe y h a b, day-start doe y l a) refl

-- Within a year of an era.
same_year :
    (era doe y : ℕ)
    → doe + 1 < 146097
    → y < 400
    → start y ≤ doe
    → doe + 1 < start (y + 1)
    → civil_at era (doe + 1) ≡ next_day (civil_at era doe)
same_year era doe y h l a b =
    let k : doe + 1 - start y ≡ (doe - start y) + 1 = omega arith in
    rw
      (
        civil_of era (doe + 1) y h l (omega arith) b,
        civil_of era doe y (omega arith) l a (omega arith),
        k,
      )
      (within_year (y + era * 400) (doe - start y) (omega (arith, length-year y era l)))

-- From the last day of a year of an era to the next year.
next_year :
    (era doe y : ℕ)
    → doe + 1 < 146097
    → y + 1 < 400
    → doe + 1 ≡ start (y + 1)
    → civil_at era (doe + 1) ≡ next_day (civil_at era doe)
next_year era doe y h l e =
    let k : doe - start y ≡ days_in_year (y + era * 400) - 1 =
      omega (arith, length-year y era (omega arith)) in
    let z : doe + 1 - start (y + 1) ≡ 0 = omega arith in
    let s : y + 1 + era * 400 ≡ y + era * 400 + 1 = omega arith in
    rw
      (
        civil_of era (doe + 1) (y + 1) h l (omega arith) (omega arith),
        civil_of era doe y (omega arith) (omega arith) (omega arith) (omega arith),
        k,
        z,
        s,
      )
      (new_year (y + era * 400))

next_era : (era : ℕ) → civil_at (era + 1) 0 ≡ next_day (civil_at era 146096)
next_era era =
    let k : 146096 - start 399 ≡ days_in_year (399 + era * 400) - 1 =
      omega (arith, length-year 399 era (omega arith)) in
    let s : 0 + (era + 1) * 400 ≡ 399 + era * 400 + 1 = omega arith in
    rw
      (
        civil_of (era + 1) 0 0 (omega arith) (omega arith) (omega arith) (omega arith),
        civil_of era 146096 399 (omega arith) (omega arith) (omega arith) (omega arith),
        k,
        s,
      )
      (new_year (399 + era * 400))

-- Every day of an era but the last.
in_era : (era doe : ℕ) → doe + 1 < 146097 → civil_at era (doe + 1) ≡ next_day (civil_at era doe)
in_era era doe h =
    let y = year_of_era doe in
    let a : start (year_of_era doe) ≤ doe = start-le doe (omega arith) in
    let b : doe < start (year_of_era doe + 1) = lt-start doe (omega arith) in
    let l : year_of_era doe < 400 = year_of_era_lt doe (omega arith) in
    elim (Bool-cases (ltb (doe + 1) (start (year_of_era doe + 1)))) [
      | inl same ↦ same_year era doe (year_of_era doe) h l a (ltb→lt _ _ same)
      | inr next ↦
          let e : doe + 1 ≡ start (year_of_era doe + 1) = ground arith in
          next_year era doe (year_of_era doe) h (omega arith) e
    ]

civil_from_days-at :
    (days : ℕ)
    → civil_from_days days ≡ civil_at ((days + 719468) / 146097) ((days + 719468) % 146097)
unfolding civil_from_days civil_at
civil_from_days-at days =
    let e : days + 719468 - (days + 719468) / 146097 * 146097 ≡ (days + 719468) % 146097 =
      omega arith in
    rw e refl

-- The date of the next day is the day after the date, in the Gregorian calendar.
pub civil_suc : (days : ℕ) → civil_from_days (suc days) ≡ next_day (civil_from_days days)
civil_suc days =
    rw (civil_from_days-at days, civil_from_days-at (suc days))
      (elim (Bool-cases (ltb ((days + 719468) % 146097 + 1) 146097)) [
        | inl inside ↦
            let q : (suc days + 719468) / 146097 ≡ (days + 719468) / 146097 = ground arith in
            let r : (suc days + 719468) % 146097 ≡ (days + 719468) % 146097 + 1 = ground arith in
            rw (q, r)
              (in_era ((days + 719468) / 146097) ((days + 719468) % 146097) (ltb→lt _ _ inside))
        | inr last ↦
            let q : (suc days + 719468) / 146097 ≡ (days + 719468) / 146097 + 1 = ground arith in
            let r : (suc days + 719468) % 146097 ≡ 0 = ground arith in
            let l : (days + 719468) % 146097 ≡ 146096 = ground arith in
            rw (q, r, l) (next_era ((days + 719468) / 146097))
      ])

-- The calendar counted from the first of January 1970.
pub calendar : ℕ → Ymd
unfolding next_day
calendar zero = ymd 1970 1 1
calendar (suc n) = next_day (calendar n)

-- The date of any day is the one that counting days from the first of January 1970 in the Gregorian
-- calendar comes to.
pub civil-calendar : (days : ℕ) → civil_from_days days ≡ calendar days
unfolding calendar civil_from_days
civil-calendar zero = refl
civil-calendar (suc days) = civil_suc days ∙ ap next_day (civil-calendar days)
