-- ===== src/Rtc.antt =====
-- kernel/rtc.cpp: reading the real time clock, and the seconds since 1970.
pub mod Days
mod Tests
use cofeuos.Base.{
  ℕ, zero, suc, ◌+◌, ◌-◌, ◌*◌, ◌/◌, ◌%◌, ◌^◌, bit_or, bit_and, Bool, true, false, not, ◌&&◌, ◌||◌,
  List, [], ◌∷◌, leb, ltb, ◌==◌, if◌then◌else◌, get_or, add32, sub32,
}

-- The `RTCDate` of include/rtc.h.
pub record RtcDate : Type 0 where
  pub second : ℕ
  pub minute : ℕ
  pub hour : ℕ
  pub day : ℕ
  pub month : ℕ
  pub year : ℕ
  pub century : ℕ

pub bcd_to_bin : ℕ → ℕ
bcd_to_bin val = (val / 16 * 10 + val % 16) % 256

-- The value that `rtc_init` writes to register B, from the value that it reads.
pub init_reg_b : ℕ → ℕ
init_reg_b reg_b =
    let b1 = if bit_and reg_b 4 == 0 then bit_or reg_b 4 else reg_b in
    if bit_and b1 2 == 0 then bit_or b1 2 else b1

-- The seven registers as they are read.
pub record Sample : Type 0 where
  pub sec : ℕ
  pub min : ℕ
  pub hr : ℕ
  pub day : ℕ
  pub mon : ℕ
  pub yr : ℕ
  pub cen : ℕ

abbrev pub from_bcd : Sample → Sample
from_bcd t = record {
  sec = bcd_to_bin t.sec;
  min = bcd_to_bin t.min;
  hr = bcd_to_bin t.hr;
  day = bcd_to_bin t.day;
  mon = bcd_to_bin t.mon;
  yr = bcd_to_bin t.yr;
  cen = bcd_to_bin t.cen;
}

-- The hour on a clock of twice twelve hours.
pub hour_of : ℕ → ℕ
hour_of hr = let h = if leb 128 hr then (hr % 128 + 12) % 256 else hr in if h == 24 then 0 else h

-- `rtc_read` behind the waits for the clock: the first reading, the seconds that are read again, the
-- second reading, which counts if these differ, and register B.
pub date_of : Sample → ℕ → Sample → ℕ → RtcDate
date_of t1 again t2 reg_b =
    let t = if t1.sec == again then t1 else t2 in
    let u = if bit_and reg_b 2 == 0 then from_bcd t else t in
    let hr = if bit_and reg_b 4 == 0 then hour_of u.hr else u.hr in
    let year = (u.yr + 2000) % 2 ^ 16 in
    record {
      second = u.sec;
      minute = u.min;
      hour = hr;
      day = u.day;
      month = u.mon;
      year = if ltb 0 u.cen && ltb year 2000 then (u.cen * 100 + u.yr) % 2 ^ 16 else year;
      century = u.cen;
    }

abbrev pub is_leap : ℕ → Bool
is_leap y = y % 4 == 0 && (not (y % 100 == 0) || y % 400 == 0)

-- The loop over the years from `i` on, with the rounds left.
pub year_days : ℕ → ℕ → ℕ
year_days zero i = 0
year_days (suc k) i = (if is_leap i then 366 else 365) + year_days k (i + 1)

abbrev pub days_in_month : List ℕ
days_in_month = 31 ∷ 28 ∷ 31 ∷ 30 ∷ 31 ∷ 30 ∷ 31 ∷ 31 ∷ 30 ∷ 31 ∷ 30 ∷ 31 ∷ []

-- The loop over the months from `i` on.
pub month_days : ℕ → ℕ → ℕ → ℕ
month_days zero i y = 0
month_days (suc k) i y =
    get_or days_in_month (i - 1) 0 + (if i == 2 && is_leap y then 1 else 0) + month_days k (i + 1) y

-- `rtc_timestamp` of the date that was read.
pub timestamp : RtcDate → ℕ
timestamp rtc =
    let whole = year_days (rtc.year - 1970) 1970 + month_days (rtc.month - 1) 1 rtc.year in
    let days = sub32 (add32 (whole % 2 ^ 32) rtc.day) 1 in
    (days * 86400 + rtc.hour * 3600 + rtc.minute * 60 + rtc.second) % 2 ^ 32
