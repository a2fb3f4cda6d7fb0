-- ===== src/Timestamp/Tests.antt =====
-- The time of a line at concrete times.
use lxc.Base.{◌≡◌, leb, length, false, refl, ok, err, codes, eio, ◌+◌, ◌*◌, ◌/◌}
use lxc.Text.Decimal.{digits_of}
use lxc.Timestamp.{Date, Clock, stamp, lxc_unix_epoch_to_utc, date_of_days, clock_of}
use lxc.Timestamp.Calendar.{IsDate, day_number}
use lxc.Timestamp.Split.{IsClock, lxc_unix_epoch_to_utc-second}

-- 29 February 2024, 12:34:56.789
leap_day : lxc_unix_epoch_to_utc 42 1709210096 789000000 ≡ ok (codes "20240229123456.789")
unfolding lxc_unix_epoch_to_utc digits_of
leap_day = refl

-- 5 milliseconds are printed as 500.
five_milliseconds : lxc_unix_epoch_to_utc 42 0 5000000 ≡ ok (codes "19700101000000.500")
unfolding lxc_unix_epoch_to_utc digits_of
five_milliseconds = refl

too_small : lxc_unix_epoch_to_utc 10 0 5000000 ≡ err eio
unfolding lxc_unix_epoch_to_utc digits_of
too_small = refl

roomy :
    leb 42 (length (stamp (date_of_days (1709210096 / 86400)) (clock_of 1709210096) 789000000))
    ≡ false
unfolding stamp date_of_days clock_of digits_of
roomy = refl

lxc_unix_epoch_to_utc-second_example :
    (d : Date) × (c : Clock) × (lxc_unix_epoch_to_utc 42 1709210096 789000000
      ≡ ok (stamp d c 789000000))
    × IsDate d
    × IsClock c
    × (day_number d * 86400 + c.hours * 3600 + c.minutes * 60 + c.seconds
        ≡ 719528 * 86400 + 1709210096)
lxc_unix_epoch_to_utc-second_example = lxc_unix_epoch_to_utc-second 42 1709210096 789000000 roomy
