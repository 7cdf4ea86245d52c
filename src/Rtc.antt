-- ===== src/Rtc.antt =====
-- drivers/RTC.c: the date from the registers of the CMOS clock. The registers are read elsewhere: a
-- record holds their bytes, which stay the same while the clock does not update.
pub mod Decode
mod Tests
use cuore_os.Base.{
  ℕ, ◌+◌, ◌*◌, ◌/◌, ◌%◌, Bool, not, ◌&&◌, u8, u32, ◌==◌, if◌then◌else◌, bit_and, bit_or,
}
use cuore_os.Clock.{RtcTime}

-- `century` is the register that the FADT names, or 0 where it names none.
pub record Registers : Type 0 where
  pub second : ℕ
  pub minute : ℕ
  pub hour : ℕ
  pub day : ℕ
  pub month : ℕ
  pub year : ℕ
  pub century : ℕ
  pub register_b : ℕ

-- BCD_TO_BIN, with the cast to a byte of the variable that takes it.
unfoldable pub bcd_to_bin : ℕ → ℕ
bcd_to_bin val = u8 (bit_and val 0x0F + val / 16 * 10)

-- The hour, of which the highest bit says afternoon.
unfoldable pub bcd_hour : ℕ → ℕ
bcd_hour hour = u8 (bit_or (bit_and hour 0x0F + bit_and hour 0x70 / 16 * 10) (bit_and hour 0x80))

unfoldable pub is_bcd : Registers → Bool
is_bcd r = bit_and r.register_b 0x04 == 0

unfoldable pub hour_of : Registers → ℕ
unfolding bcd_hour is_bcd
hour_of r =
    let hour = if is_bcd r then bcd_hour r.hour else r.hour in
    if bit_and r.register_b 0x02 == 0 && not (bit_and hour 0x80 == 0)
    then (bit_and hour 0x7F + 12) % 24
    else hour

unfoldable pub decode : Registers → ℕ → ℕ
unfolding is_bcd bcd_to_bin
decode r val = if is_bcd r then bcd_to_bin val else val

-- What `read_rtc` leaves in `*time`.
unfoldable pub read_rtc : Registers → RtcTime
unfolding decode hour_of
read_rtc r = record {
  second = decode r r.second;
  minute = decode r r.minute;
  hour = hour_of r;
  day = decode r r.day;
  month = decode r r.month;
  year =
      if decode r r.century == 0
      then decode r r.year + 2000
      else u32 (decode r r.year + decode r r.century * 100);
}
