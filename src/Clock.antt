-- ===== src/Clock.antt =====
-- time.c and drivers/RTC.c: the date of the real-time clock and its seconds since 1970. The reads of
-- the CMOS registers and of the HPET are arguments.
pub mod Calendar
mod Tests
use cuore_os.Base.{
  ℕ, ◌+◌, ◌-◌, ◌*◌, ◌/◌, ◌%◌, Bool, true, false, not, ◌&&◌, ◌||◌, List, [], ◌∷◌, ltb, ◌==◌, u8, u64,
  sub64, if◌then◌else◌, bit_and, bit_or, get_or,
}

-- Less the day of the week, which nothing reads.
pub record RtcTime : Type 0 where
  pub second : ℕ
  pub minute : ℕ
  pub hour : ℕ
  pub day : ℕ
  pub month : ℕ
  pub year : ℕ

abbrev pub days_before_month : List ℕ
days_before_month = 0 ∷ 31 ∷ 59 ∷ 90 ∷ 120 ∷ 151 ∷ 181 ∷ 212 ∷ 243 ∷ 273 ∷ 304 ∷ 334 ∷ []

unfoldable pub is_leap : ℕ → Bool
is_leap year = (year % 4 == 0 && not (year % 100 == 0)) || year % 400 == 0

-- The days from the first of January 1970, on 64 bits. A month outside of the table, which the code
-- reads past, counts no days here.
unfoldable pub days_since_1970 : (year month day : ℕ) → ℕ
unfolding is_leap
days_since_1970 year month day = u64 (
    sub64 (u64 (sub64 year 1970 * 365 + sub64 year 1969 / 4)) (sub64 year 1901 / 100)
    + sub64 year 1601 / 400
    + get_or days_before_month (month - 1) 0
    + (if ltb 2 month && is_leap year then 1 else 0)
    + sub64 day 1)

-- On the time that two reads agree on.
unfoldable pub epoch_of : RtcTime → ℕ
unfolding days_since_1970
epoch_of t =
    u64 (days_since_1970 t.year t.month t.day * 86400 + t.hour * 3600 + t.minute * 60 + t.second)

-- `get_epoch` with the ticks and the length of a tick of the HPET.
unfoldable pub get_epoch : (boot_epoch boot_ticks ticks f_per_tick : ℕ) → ℕ
get_epoch boot_epoch boot_ticks ticks f_per_tick =
    if boot_ticks == 0
    then boot_epoch
    else u64 (boot_epoch + sub64 ticks boot_ticks / (1000000000000000 / f_per_tick))
