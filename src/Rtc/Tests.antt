-- ===== src/Rtc/Tests.antt =====
-- Tests of the decoding of the clock.
use cuore_os.Base.{◌≡◌, refl, arith}
use cuore_os.Rtc.{Registers, read_rtc, decode, hour_of, bcd_hour, bcd_to_bin, is_bcd}
use cuore_os.Rtc.Decode.{bcd_to_bin-bin_to_bcd}

-- The 28th of February 2024, 23:59:58, in decimals and 24 hours, with a century register.
abbrev late : Registers
late = record {
  second = 0x58;
  minute = 0x59;
  hour = 0x23;
  day = 0x28;
  month = 0x02;
  year = 0x24;
  century = 0x20;
  register_b = 0x02;
}

late_time :
    read_rtc late ≡ record { second = 58; minute = 59; hour = 23; day = 28; month = 2; year = 2024 }
unfolding read_rtc decode hour_of bcd_hour bcd_to_bin is_bcd
late_time = refl

-- Noon in the 12 hour mode is 12 with the bit of the afternoon, and is read as 0.
noon : hour_of (record late { hour = 0x92; register_b = 0x00 }) ≡ 0
unfolding hour_of bcd_hour is_bcd
noon = refl

bcd_to_bin-bin_to_bcd_example : bcd_to_bin 0x59 ≡ 59
bcd_to_bin-bin_to_bcd_example = bcd_to_bin-bin_to_bcd 59 (omega arith)
