-- ===== src/Timestamp/Calendar.antt =====
-- The date against the calendar, which counts the days of the years and of the months.
use lxc.Base.{
  ℕ, zero, suc, ◌+◌, ◌-◌, ◌*◌, ◌/◌, ◌%◌, ◌≤◌, ◌<◌, ◌≡◌, refl, Bool, true, false, ◌&&◌, ◌||◌, not,
  ◌==◌, ltb, ltb→lt, ◌⊎◌, if◌then◌else◌, [], ◌∷◌, get_or, arith, Bool-cases, inl, inr, ◌∙◌, ap,
}
use lxc.Timestamp.{
  Date, date_of_days, z_of, era_of, doe_of, yoe_of, doy_of, mp_of, month_of, day_of,
}

abbrev pub is_leap : ℕ → Bool
is_leap y = y % 4 == 0 && (not (y % 100 == 0) || y % 400 == 0)

abbrev pub month_days : ℕ → ℕ → ℕ
month_days y m =
    get_or
      (31 ∷ (if is_leap y then 29 else 28) ∷ 31 ∷ 30 ∷ 31 ∷ 30 ∷ 31 ∷ 31 ∷ 30 ∷ 31 ∷ 30 ∷ 31 ∷ [])
      (m - 1) 0

-- The days before a year, from 1 January of the year 0, and before a month of it.
unfoldable pub days_before_year : ℕ → ℕ
days_before_year zero = 0
days_before_year (suc y) = days_before_year y + (if is_leap y then 366 else 365)

-- The days of the months before the month m + 1.
unfoldable pub days_before_month : ℕ → ℕ → ℕ
days_before_month y zero = 0
days_before_month y (suc m) = days_before_month y m + month_days y (suc m)

abbrev pub day_number : Date → ℕ
day_number d = days_before_year d.year + days_before_month d.year (d.month - 1) + (d.day - 1)

pub record IsDate (d : Date) : Type 0 where
  pub month_low : 1 ≤ d.month
  pub month_high : d.month ≤ 12
  pub day_low : 1 ≤ d.day
  pub day_high : d.day ≤ month_days d.year d.month

days_before_year_closed :
    (y : ℕ) → days_before_year y + (y + 99) / 100 ≡ 365 * y + (y + 3) / 4 + (y + 399) / 400
unfolding days_before_year
days_before_year_closed zero = omega arith
days_before_year_closed (suc y) = ground (arith, days_before_year_closed y)

-- The months from March on: the m-th has the days between two values of (153 * m + 2) / 5.
march_days : (y m : ℕ) → m < 10 → month_days y (m + 3) + (153 * m + 2) / 5 ≡ (153 * (m + 1) + 2) / 5
march_days y zero h = ground arith
march_days y (suc zero) h = ground arith
march_days y (suc (suc zero)) h = ground arith
march_days y (suc (suc (suc zero))) h = ground arith
march_days y (suc (suc (suc (suc zero)))) h = ground arith
march_days y (suc (suc (suc (suc (suc zero))))) h = ground arith
march_days y (suc (suc (suc (suc (suc (suc zero)))))) h = ground arith
march_days y (suc (suc (suc (suc (suc (suc (suc zero))))))) h = ground arith
march_days y (suc (suc (suc (suc (suc (suc (suc (suc zero)))))))) h = ground arith
march_days y (suc (suc (suc (suc (suc (suc (suc (suc (suc zero))))))))) h = ground arith
march_days y (suc (suc (suc (suc (suc (suc (suc (suc (suc (suc m)))))))))) h = absurd (omega arith)

days_before_march : (y : ℕ) → days_before_month y 2 ≡ (if is_leap y then 60 else 59)
unfolding days_before_month
days_before_march y = ground arith

march_step :
    (y m : ℕ)
    → days_before_month y (suc (suc (suc m)))
      ≡ days_before_month y (suc (suc m)) + month_days y (m + 3)
unfolding days_before_month
march_step y m =
    let e : suc (suc (suc m)) ≡ m + 3 = omega arith in
    ap (λ n. days_before_month y (suc (suc m)) + month_days y n) e

march_closed :
    (y m : ℕ)
    → m ≤ 10
    → days_before_month y (suc (suc m)) ≡ (if is_leap y then 60 else 59) + (153 * m + 2) / 5
march_closed y zero h = omega (arith, days_before_march y)
march_closed y (suc m) h =
    omega (arith, march_step y m, march_days y m (omega arith), march_closed y m (omega arith))

-- The days before a month from March on, by its number.
days_before_march_month :
    (y m : ℕ)
    → 3 ≤ m
    → m ≤ 12
    → days_before_month y (m - 1) ≡ (if is_leap y then 60 else 59) + (153 * (m - 3) + 2) / 5
days_before_march_month y m h k =
    let e : m - 1 ≡ suc (suc (m - 3)) = omega arith in rw e (march_closed y (m - 3) (omega arith))

-- The year of an era that begins on 1 March, and the day of that year.
module _ (doe : ℕ) (h : doe < 146097) where
  yoe_low : 365 * yoe_of doe + yoe_of doe / 4 - yoe_of doe / 100 ≤ doe
  yoe_low = omega arith

  yoe_small : yoe_of doe < 400
  yoe_small = omega arith

  yoe_high :
      doe
      < 365 * (yoe_of doe + 1)
        + (yoe_of doe + 1) / 4
        - (yoe_of doe + 1) / 100
        + (yoe_of doe + 1) / 400
  yoe_high = omega arith

-- 1 March of a year, counted from 1 January of the year 0.
march_first :
    (y : ℕ)
    → days_before_year y + (if is_leap y then 60 else 59) + y / 100 ≡ 365 * y + y / 4 + y / 400 + 60
march_first y = ground (arith, days_before_year_closed y)

-- The date for a year that begins on 1 March and a day of it.
abbrev civil : ℕ → ℕ → Date
civil y doy =
    let month = month_of (mp_of doy) in
    record { year = if ltb month 3 then y + 1 else y; month = month; day = day_of doy }

march_start : ℕ → ℕ
march_start y = days_before_year y + (if is_leap y then 60 else 59)

date_of_days-civil :
    (n : ℕ)
    → date_of_days n
      ≡ civil (yoe_of (doe_of (z_of n)) + era_of (z_of n) * 400) (doy_of (doe_of (z_of n)))
unfolding date_of_days
date_of_days-civil n = refl

-- The day of the year is below the length of the year up to the next 1 March.
era_start :
    (era doe yoe : ℕ)
    → yoe < 400
    → 365 * yoe + yoe / 4 - yoe / 100 ≤ doe
    → march_start (yoe + era * 400) + (doe - (365 * yoe + yoe / 4 - yoe / 100))
      ≡ doe + era * 146097 + 60
unfolding march_start
era_start era doe yoe h k = omega (arith, march_first (yoe + era * 400))

year_length :
    (era doe yoe : ℕ)
    → yoe < 400
    → doe < 365 * (yoe + 1) + (yoe + 1) / 4 - (yoe + 1) / 100 + (yoe + 1) / 400
    → doe - (365 * yoe + yoe / 4 - yoe / 100)
      < 365 + (if is_leap (yoe + era * 400 + 1) then 1 else 0)
year_length era doe yoe k h = ground arith

civil_march :
    (y doy : ℕ)
    → ltb (mp_of doy) 10 ≡ true
    → civil y doy ≡ record { year = y; month = mp_of doy + 3; day = day_of doy }
civil_march y doy e = let late : ltb (mp_of doy + 3) 3 ≡ false = ground arith in rw (e, late) refl

civil_winter :
    (y doy : ℕ)
    → doy < 366
    → ltb (mp_of doy) 10 ≡ false
    → civil y doy ≡ record { year = y + 1; month = mp_of doy - 9; day = day_of doy }
civil_winter y doy h e =
    let early : ltb (mp_of doy - 9) 3 ≡ true = ground arith in rw (e, early) refl

next_year :
    (y : ℕ) → days_before_year (y + 1) ≡ days_before_year y + (if is_leap y then 366 else 365)
unfolding days_before_year
next_year y = let e : y + 1 ≡ suc y = omega arith in rw e refl

january : (y : ℕ) → days_before_month y 0 ≡ 0
unfolding days_before_month
january y = refl

february : (y : ℕ) → days_before_month y 1 ≡ 31
unfolding days_before_month
february y = refl

-- mp is 10 or 11 in January and February.
winter : (doy : ℕ) → doy < 366 → ltb (mp_of doy) 10 ≡ false → (mp_of doy ≡ 10) ⊎ (mp_of doy ≡ 11)
winter doy h e = ground arith

civil-number : (y doy : ℕ) → doy < 366 → day_number (civil y doy) ≡ march_start y + doy
unfolding march_start
civil-number y doy h = elim (Bool-cases (ltb (mp_of doy) 10)) [
  | inl e ↦
      ap day_number (civil_march y doy e)
      ∙ omega (
        arith,
        ltb→lt (mp_of doy) 10 e,
        days_before_march_month y (mp_of doy + 3) (omega arith)
            (omega (arith, ltb→lt (mp_of doy) 10 e)),
      )
  | inr e ↦ ap day_number (civil_winter y doy h e) ∙ elim (winter doy h e) [
    | inl ten ↦ rw ten (ground (arith, ten, next_year y, january (y + 1)))
    | inr eleven ↦ rw eleven (ground (arith, eleven, next_year y, february (y + 1)))
  ]
]

civil-IsDate : (y doy : ℕ) → doy < 365 + (if is_leap (y + 1) then 1 else 0) → IsDate (civil y doy)
civil-IsDate y doy h = elim (Bool-cases (ltb (mp_of doy) 10)) [
  | inl e ↦ rw (civil_march y doy e) (record {
    month_low = omega arith;
    month_high = omega (arith, ltb→lt (mp_of doy) 10 e);
    day_low = omega arith;
    day_high = omega (arith, march_days y (mp_of doy) (ltb→lt (mp_of doy) 10 e));
  })
  | inr e ↦ elim (winter doy (ground arith) e) [
    | inl ten ↦ rw (civil_winter y doy (ground arith) e, ten) (ground (arith, ten))
    | inr eleven ↦ rw (civil_winter y doy (ground arith) e, eleven) (ground (arith, eleven))
  ]
]

below_366 : (d y : ℕ) → d < 365 + (if is_leap y then 1 else 0) → d < 366
below_366 d y h = ground arith

-- For every number of days since 1 January 1970, the date is one of the calendar, with a month
-- from 1 to 12 and a day from 1 to the length of that month in that year, and it is the date of
-- that day: the days of the years and the months before it, counted by the rule of leap years from
-- 1 January of the year 0, are 719528 more.
pub date_of_days-number :
    (n : ℕ) → IsDate (date_of_days n) × (day_number (date_of_days n) ≡ n + 719528)
date_of_days-number n =
    let z = z_of n in
    let era = era_of z in
    let doe = doe_of z in
    let yoe = yoe_of doe in
    let small : doe < 146097 = omega arith in
    let length_ok = year_length era doe yoe (yoe_small doe small) (yoe_high doe small) in
    let start = era_start era doe yoe (yoe_small doe small) (yoe_low doe small) in
    rw (date_of_days-civil n) (
      civil-IsDate (yoe + era * 400) (doy_of doe) length_ok,
      civil-number (yoe + era * 400) (doy_of doe) (below_366 _ (yoe + era * 400 + 1) length_ok)
          ∙ (start ∙ omega arith),
    )
