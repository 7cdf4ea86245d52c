-- ===== src/Clock/Tests.antt =====
-- Tests of the clock, and its theorem at the end of a February.
use cuore_os.Base.{◌+◌, ◌≡◌, refl, arith}
use cuore_os.Clock.{RtcTime, days_since_1970, is_leap, epoch_of}
use cuore_os.Clock.Calendar.{day_count, day_count-next_day}

first_day : days_since_1970 1970 1 1 ≡ 0
unfolding days_since_1970
first_day = refl

abbrev some_second : RtcTime
some_second = record { second = 40; minute = 46; hour = 1; day = 9; month = 9; year = 2001 }

billion : epoch_of some_second ≡ 1000000000
unfolding epoch_of
billion = refl

day_count-next_day_example : day_count (2024, 3, 1) ≡ day_count (2024, 2, 29) + 1
unfolding is_leap
day_count-next_day_example =
    day_count-next_day 2024 2 29 (omega arith) (omega arith) (omega arith) (omega arith)
      (omega arith) (omega arith)
