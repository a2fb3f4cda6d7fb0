-- ===== src/Timestamp/Split.antt =====
-- The text of a time holds the date and the time of the day of that second.
use lxc.Base.{ℕ, ◌+◌, ◌*◌, ◌/◌, ◌<◌, ◌≡◌, false, leb, length, ok, arith, refl}
use lxc.Timestamp.{Date, Clock, clock_of, date_of_days, stamp, lxc_unix_epoch_to_utc}
use lxc.Timestamp.Calendar.{IsDate, day_number, date_of_days-number}

pub record IsClock (c : Clock) : Type 0 where
  pub hour : c.hours < 24
  pub minute : c.minutes < 60
  pub second : c.seconds < 60

clock_of-second :
    (tv_sec : ℕ)
    → IsClock (clock_of tv_sec)
      × (tv_sec / 86400 * 86400
            + (clock_of tv_sec).hours * 3600
            + (clock_of tv_sec).minutes * 60
            + (clock_of tv_sec).seconds
          ≡ tv_sec)
unfolding clock_of
clock_of-second tv_sec = omega arith

-- In a buffer that is large enough for it, a time is printed as a date of the calendar, with a
-- month from 1 to 12 and a day from 1 to the length of the month, and a time of the day below
-- 24:00:00. The day, counted with the rule of leap years from 1 January of the year 0, and the time
-- of the day give the second that was asked for, which counts from 1 January 1970, the day 719528.
pub lxc_unix_epoch_to_utc-second :
    (bufsize tv_sec tv_nsec : ℕ)
    → leb bufsize (length (stamp (date_of_days (tv_sec / 86400)) (clock_of tv_sec) tv_nsec)) ≡ false
    → (d : Date) × (c : Clock) × (lxc_unix_epoch_to_utc bufsize tv_sec tv_nsec
        ≡ ok (stamp d c tv_nsec))
      × IsDate d
      × IsClock c
      × (day_number d * 86400 + c.hours * 3600 + c.minutes * 60 + c.seconds
          ≡ 719528 * 86400 + tv_sec)
unfolding lxc_unix_epoch_to_utc
lxc_unix_epoch_to_utc-second bufsize tv_sec tv_nsec h =
    let (date, number) = date_of_days-number (tv_sec / 86400) in
    let (clock, second) = clock_of-second tv_sec in
    (
      date_of_days (tv_sec / 86400),
      clock_of tv_sec,
      rw h refl,
      date,
      clock,
      omega (arith, number, second),
    )
