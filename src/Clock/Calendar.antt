-- ===== src/Clock/Calendar.antt =====
-- The day count of time.c against the calendar.
use cuore_os.Base.{
  ℕ, zero, suc, ◌+◌, ◌-◌, ◌*◌, ◌/◌, ◌^◌, ◌≤◌, ◌<◌, ◌≡◌, refl, Bool, true, false, ◌&&◌, List, [],
  ◌∷◌, ltb, if◌then◌else◌, arith, get_or, if_cases, u64, sub64, All, ltb→lt, not_ltb→le,
}
use cuore_os.Clock.{days_before_month, is_leap, days_since_1970}

abbrev pub month_lengths : (leap : Bool) → List ℕ
month_lengths leap =
    31 ∷ (if leap then 29 else 28) ∷ 31 ∷ 30 ∷ 31 ∷ 30 ∷ 31 ∷ 31 ∷ 30 ∷ 31 ∷ 30 ∷ 31 ∷ []

abbrev pub month_length : (leap : Bool) → ℕ → ℕ
month_length leap month = get_or (month_lengths leap) (month - 1) 0

-- The days of a year before a month.
abbrev before : (leap : Bool) → ℕ → ℕ
before leap month = get_or days_before_month (month - 1) 0 + (if ltb 2 month && leap then 1 else 0)

before-next :
    (leap : Bool) (month : ℕ)
    → 1 ≤ month
    → month < 12
    → before leap (month + 1) ≡ before leap month + month_length leap month
before-next leap zero h k = ground (arith, h)
before-next leap (suc zero) h k = ground arith
before-next leap (suc (suc zero)) h k = ground arith
before-next leap (suc (suc (suc zero))) h k = ground arith
before-next leap (suc (suc (suc (suc zero)))) h k = ground arith
before-next leap (suc (suc (suc (suc (suc zero))))) h k = ground arith
before-next leap (suc (suc (suc (suc (suc (suc zero)))))) h k = ground arith
before-next leap (suc (suc (suc (suc (suc (suc (suc zero))))))) h k = ground arith
before-next leap (suc (suc (suc (suc (suc (suc (suc (suc zero)))))))) h k = ground arith
before-next leap (suc (suc (suc (suc (suc (suc (suc (suc (suc zero))))))))) h k = ground arith
before-next leap (suc (suc (suc (suc (suc (suc (suc (suc (suc (suc zero)))))))))) h k = ground arith
before-next leap (suc (suc (suc (suc (suc (suc (suc (suc (suc (suc (suc zero))))))))))) h k =
    ground arith
before-next leap (suc (suc (suc (suc (suc (suc (suc (suc (suc (suc (suc (suc month)))))))))))) h k =
    ground (arith, k)

-- The days of the years from 1970 on that are over.
abbrev years : ℕ → ℕ
years year = (year - 1970) * 365 + (year - 1969) / 4 - (year - 1901) / 100 + (year - 1601) / 400

year-next :
    (year : ℕ) → 1970 ≤ year → years (year + 1) ≡ years year + 365 + (if is_leap year then 1 else 0)
unfolding is_leap
year-next year h = ground arith

-- Where nothing wraps: for the years and days that the fields of the clock hold.
sub64-exact : (a b : ℕ) → b ≤ a → a < 2 ^ 64 → sub64 a b ≡ a - b
sub64-exact a b h k = omega arith

days-exact :
    (year month_days leap_day day : ℕ)
    → 1970 ≤ year
    → year < 2 ^ 32
    → 1 ≤ day
    → day < 256
    → month_days ≤ 334
    → leap_day ≤ 1
    → u64 (
        sub64 (u64 (sub64 year 1970 * 365 + sub64 year 1969 / 4)) (sub64 year 1901 / 100)
        + sub64 year 1601 / 400
        + month_days
        + leap_day
        + sub64 day 1)
      ≡ years year + (month_days + leap_day) + (day - 1)
days-exact year month_days leap_day day a b c d e f = omega arith

get_or-bound : (xs : List ℕ) (i b : ℕ) → All (λ x. x ≤ b) xs → get_or xs i 0 ≤ b
get_or-bound [] i b h = omega arith
get_or-bound (x ∷ xs) zero b h = h.0
get_or-bound (x ∷ xs) (suc i) b h = get_or-bound xs i b h.1

days_since_1970-exact :
    (year month day : ℕ)
    → 1970 ≤ year
    → year < 2 ^ 32
    → 1 ≤ day
    → day < 256
    → days_since_1970 year month day ≡ years year + before (is_leap year) month + (day - 1)
unfolding days_since_1970
days_since_1970-exact year month day a b c d =
    days-exact year (get_or days_before_month (month - 1) 0)
      (if ltb 2 month && is_leap year then 1 else 0) day a b c d
      (get_or-bound days_before_month (month - 1) 334 (omega arith))
      (if_cases (λ n. n ≤ 1) (ltb 2 month && is_leap year) 1 0 (λ _. omega arith)
        (λ _. omega arith))

month_length-bound : (leap : Bool) (month : ℕ) → month_length leap month ≤ 31
month_length-bound true month = get_or-bound (month_lengths true) (month - 1) 31 (omega arith)
month_length-bound false month = get_or-bound (month_lengths false) (month - 1) 31 (omega arith)

december :
    (leap : Bool) (month : ℕ)
    → month ≡ 12
    → before leap month + month_length leap month ≡ 365 + (if leap then 1 else 0)
december true month e = rw e refl
december false month e = rw e refl

-- The day after a date.
abbrev pub next_day : ℕ × ℕ × ℕ → ℕ × ℕ × ℕ
next_day (year, month, day) =
    if ltb day (month_length (is_leap year) month)
    then (year, month, day + 1)
    else if ltb month 12
    then (year, month + 1, 1)
    else (year + 1, 1, 1)

abbrev pub day_count : ℕ × ℕ × ℕ → ℕ
day_count (year, month, day) = days_since_1970 year month day

-- For a date of the calendar from 1970 on whose year stays below 2^32, `get_epoch_rtc` counts one
-- day more for the date after it, by the lengths of the months and the leap years, than for it.
pub day_count-next_day :
    (year month day : ℕ)
    → 1970 ≤ year
    → year + 1 < 2 ^ 32
    → 1 ≤ month
    → month ≤ 12
    → 1 ≤ day
    → day ≤ month_length (is_leap year) month
    → day_count (next_day (year, month, day)) ≡ day_count (year, month, day) + 1
day_count-next_day year month day a b c d e f =
    if_cases later (ltb day (month_length (is_leap year) month)) _ _
      (λ t. omega (
        arith,
        today,
        ltb→lt _ _ t,
        short,
        days_since_1970-exact year month (day + 1) a (omega (arith, b)) (omega arith)
            (omega (arith, ltb→lt _ _ t, short)),
      ))
      (λ t.
        if_cases later (ltb month 12) _ _
          (λ u. omega (
            arith,
            today,
            f,
            not_ltb→le _ _ t,
            before-next (is_leap year) month c (ltb→lt _ _ u),
            days_since_1970-exact year (month + 1) 1 a (omega (arith, b)) (omega arith)
                (omega arith),
          ))
          (λ u. omega (
            arith,
            today,
            f,
            not_ltb→le _ _ t,
            year-next year a,
            december (is_leap year) month (omega (arith, d, not_ltb→le _ _ u)),
            days_since_1970-exact (year + 1) 1 1 (omega (arith, a)) b (omega arith) (omega arith),
          )))
  where
    later : ℕ × ℕ × ℕ → Type 0
    later date = day_count date ≡ days_since_1970 year month day + 1

    short : month_length (is_leap year) month ≤ 31
    short = month_length-bound (is_leap year) month

    today : days_since_1970 year month day ≡ years year + before (is_leap year) month + (day - 1)
    today = days_since_1970-exact year month day a (omega (arith, b)) e (omega (arith, f, short))
