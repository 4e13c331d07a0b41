-- ===== src/Cartridge/Rtc.antt =====
-- The clock chip: src/cartridge/rtc.c. The host's broken-down local time is an argument; its year
-- is 2000 or later, so that `tm_year - 100` is not negative.
use gba_emulator.Base.{
  arith, bit_or, bit_or_fields, refl, u8, update, ℕ, ◌%◌, ◌*◌, ◌+◌, ◌-◌, ◌/◌, ◌<◌, ◌^◌, ◌≡◌, ◌≤◌,
}

pub data RtcStateEnum : Type 0 where
  rtc_idle rtc_command rtc_data : RtcStateEnum

pub record RtcState : Type 0 where
  pub data_pin : ℕ
  pub direction : ℕ
  pub control : ℕ
  pub state : RtcStateEnum
  pub command : ℕ
  pub bit_index : ℕ
  pub byte_index : ℕ
  pub data_buffer : ℕ → ℕ

-- The fields of `struct tm` that the code reads.
pub record Tm : Type 0 where
  pub tm_year : ℕ
  pub tm_mon : ℕ
  pub tm_mday : ℕ
  pub tm_wday : ℕ
  pub tm_hour : ℕ
  pub tm_min : ℕ
  pub tm_sec : ℕ

unfoldable pub rtc_init : RtcState
rtc_init = record {
  data_pin = 0;
  direction = 0;
  control = 0;
  state = rtc_idle;
  command = 0;
  bit_index = 0;
  byte_index = 0;
  data_buffer = λ _. 0;
}

unfoldable pub to_bcd : ℕ → ℕ
to_bcd val = u8 (bit_or (val / 10 * 2 ^ 4) (val % 10))

unfoldable pub rtc_read : RtcState → ℕ
rtc_read rtc = rtc.data_pin

unfoldable pub rtc_write : Tm → RtcState → ℕ → RtcState
unfolding to_bcd
rtc_write t rtc val =
    let b0 = update rtc.data_buffer 0 (to_bcd (t.tm_year - 100)) in
    let b1 = update b0 1 (to_bcd (t.tm_mon + 1)) in
    let b2 = update b1 2 (to_bcd t.tm_mday) in
    let b3 = update b2 3 (to_bcd t.tm_wday) in
    let b4 = update b3 4 (to_bcd t.tm_hour) in
    let b5 = update b4 5 (to_bcd t.tm_min) in
    record rtc { data_buffer = update b5 6 (to_bcd t.tm_sec) }

-- The number that two decimal digits in a byte stand for.
pub from_bcd : ℕ → ℕ
from_bcd b = b / 16 * 10 + b % 16

to_bcd_sum : (val : ℕ) → val < 100 → to_bcd val ≡ val / 10 * 16 + val % 10
unfolding to_bcd
to_bcd_sum val h = omega (arith, bit_or_fields 4 (val / 10) (val % 10) (omega arith))

abbrev pub IsTime : Tm → Type 0
IsTime t =
    (100 ≤ t.tm_year)
    × (t.tm_year < 200)
    × (t.tm_mon < 12)
    × (t.tm_mday < 32)
    × (t.tm_wday < 7)
    × (t.tm_hour < 24)
    × (t.tm_min < 60)
    × (t.tm_sec < 61)

-- For a time of the years 2000 to 2099 the seven bytes of the buffer read back, as two decimal
-- digits each, to the two-digit year, the month from 1, the day, the weekday and the time of day;
-- the eighth byte stays.
rtc_write_digits :
    (t : Tm) (rtc : RtcState) (val : ℕ)
    → IsTime t
    → let b = (rtc_write t rtc val).data_buffer in
      (from_bcd (b 0) + 2000 ≡ t.tm_year + 1900)
      × (from_bcd (b 1) ≡ t.tm_mon + 1)
      × (from_bcd (b 2) ≡ t.tm_mday)
      × (from_bcd (b 3) ≡ t.tm_wday)
      × (from_bcd (b 4) ≡ t.tm_hour)
      × (from_bcd (b 5) ≡ t.tm_min)
      × (from_bcd (b 6) ≡ t.tm_sec)
      × (b 7 ≡ rtc.data_buffer 7)
unfolding rtc_write from_bcd
rtc_write_digits t rtc val h = (
  omega (arith, to_bcd_sum (t.tm_year - 100) (omega arith)),
  omega (arith, to_bcd_sum (t.tm_mon + 1) (omega arith)),
  omega (arith, to_bcd_sum t.tm_mday (omega arith)),
  omega (arith, to_bcd_sum t.tm_wday (omega arith)),
  omega (arith, to_bcd_sum t.tm_hour (omega arith)),
  omega (arith, to_bcd_sum t.tm_min (omega arith)),
  omega (arith, to_bcd_sum t.tm_sec (omega arith)),
  refl,
)
