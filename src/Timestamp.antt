-- ===== src/Timestamp.antt =====
-- The time in the lines of the log: lxc_unix_epoch_to_utc of lxc/log.c, for times that are not
-- before 1970 and years below 10^20.
pub mod Calendar
pub mod Split
mod Tests
use lxc.Base.{
  ℕ, ◌+◌, ◌-◌, ◌*◌, ◌/◌, Bytes, [], ◌∷◌, ◌++◌, ltb, leb, if◌then◌else◌, length, take, Result, ok,
  err, eio,
}
use lxc.Text.Decimal.{decimal}

-- A day of the civil calendar
pub record Date : Type 0 where
  pub year : ℕ
  pub month : ℕ
  pub day : ℕ

pub record Clock : Type 0 where
  pub hours : ℕ
  pub minutes : ℕ
  pub seconds : ℕ

-- The variables of the algorithm, by the names of the source: the shifted day number, the era, the
-- day and the year of the era, the day of the year from 1 March, and its month from March.
abbrev pub z_of : ℕ → ℕ
z_of epoch_to_days = epoch_to_days + 719468

abbrev pub era_of : ℕ → ℕ
era_of z = z / 146097

abbrev pub doe_of : ℕ → ℕ
doe_of z = z - era_of z * 146097

abbrev pub yoe_of : ℕ → ℕ
yoe_of doe = (doe - doe / 1460 + doe / 36524 - doe / 146096) / 365

abbrev pub doy_of : ℕ → ℕ
doy_of doe = doe - (365 * yoe_of doe + yoe_of doe / 4 - yoe_of doe / 100)

abbrev pub mp_of : ℕ → ℕ
mp_of doy = (5 * doy + 2) / 153

abbrev pub month_of : ℕ → ℕ
month_of mp = if ltb mp 10 then mp + 3 else mp - 9

abbrev pub day_of : ℕ → ℕ
day_of doy = doy - (153 * mp_of doy + 2) / 5 + 1

unfoldable pub date_of_days : ℕ → Date
date_of_days epoch_to_days =
    let z = z_of epoch_to_days in
    let doe = doe_of z in
    let doy = doy_of doe in
    let month = month_of (mp_of doy) in
    let year = yoe_of doe + era_of z * 400 in
    record { year = if ltb month 3 then year + 1 else year; month = month; day = day_of doy }

unfoldable pub clock_of : ℕ → Clock
clock_of tv_sec =
    let d_in_s = tv_sec / 86400 * 86400 in
    let hours = (tv_sec - d_in_s) / 3600 in
    let h_in_s = hours * 3600 in
    let minutes = (tv_sec - d_in_s - h_in_s) / 60 in
    record { hours = hours; minutes = minutes; seconds = tv_sec - d_in_s - h_in_s - minutes * 60 }

-- The format %02d
unfoldable pub two_digits : ℕ → Bytes
unfolding decimal
two_digits n = if ltb n 10 then b'0' ∷ decimal n else decimal n

-- The format %.3s of the nanoseconds in decimal
unfoldable pub fraction : ℕ → Bytes
unfolding decimal
fraction tv_nsec = take 3 (decimal tv_nsec)

unfoldable pub stamp : Date → Clock → ℕ → Bytes
unfolding two_digits fraction decimal
stamp d c tv_nsec =
    decimal d.year
    ++ (two_digits d.month
        ++ (two_digits d.day
            ++ (two_digits c.hours
                ++ (two_digits c.minutes ++ (two_digits c.seconds ++ (b'.' ∷ fraction tv_nsec))))))

-- The text that is left in the buffer; strnprintf fails where it does not fit.
unfoldable pub lxc_unix_epoch_to_utc : ℕ → ℕ → ℕ → Result Bytes
unfolding stamp date_of_days clock_of
lxc_unix_epoch_to_utc bufsize tv_sec tv_nsec =
    let text = stamp (date_of_days (tv_sec / 86400)) (clock_of tv_sec) tv_nsec in
    if leb bufsize (length text) then err eio else ok text
