-- ===== src/Rtc/Decode.antt =====
-- The decoding of a date that the clock holds in binary-coded decimals.
use cuore_os.Base.{ℕ, ◌+◌, ◌*◌, ◌/◌, ◌%◌, ◌<◌, ◌≡◌, arith, bit_and_low}
use cuore_os.Rtc.{bcd_to_bin}

-- Two decimal digits in a byte.
abbrev pub bin_to_bcd : ℕ → ℕ
bin_to_bcd n = n / 10 * 16 + n % 10

-- `BCD_TO_BIN` of a number below 100 in two binary-coded decimals, computed by the mask and the
-- division, is the number.
pub bcd_to_bin-bin_to_bcd : (n : ℕ) → n < 100 → bcd_to_bin (bin_to_bcd n) ≡ n
unfolding bcd_to_bin
bcd_to_bin-bin_to_bcd n h = omega (arith, bit_and_low 4 (bin_to_bcd n))
