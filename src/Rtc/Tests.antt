-- ===== src/Rtc/Tests.antt =====
-- Runs of kernel/rtc.cpp: the last second of the leap day of 2024, in BCD on a clock of 24 hours.
use cofeuos.Base.{◌+◌, ◌*◌, ◌%◌, ◌^◌, ◌≡◌, refl, arith}
use cofeuos.Rtc.{
  Sample, RtcDate, bcd_to_bin, hour_of, date_of, year_days, month_days, timestamp, init_reg_b,
}
use cofeuos.Rtc.Days.{day_number, timestamp_lem}

abbrev sample : Sample
sample = record { sec = 0x59; min = 0x59; hr = 0x23; day = 0x29; mon = 2; yr = 0x24; cen = 0x20 }

abbrev date : RtcDate
date = record {
  second = 59;
  minute = 59;
  hour = 23;
  day = 29;
  month = 2;
  year = 2024;
  century = 20;
}

date_of_runs : date_of sample 0x59 sample 4 ≡ date
unfolding date_of hour_of bcd_to_bin
date_of_runs = refl

timestamp_runs : timestamp date ≡ 1709251199
unfolding timestamp year_days month_days
timestamp_runs = refl

-- The flag for the afternoon is lost in the BCD conversion, and noon becomes midnight without it.
hour_runs : hour_of (bcd_to_bin 0x92) ≡ 92
unfolding hour_of bcd_to_bin
hour_runs = refl

noon_runs : hour_of 0x8c ≡ 0
unfolding hour_of
noon_runs = refl

init_runs : init_reg_b 0 ≡ 6
unfolding init_reg_b
init_runs = refl

timestamp_lem_example :
    timestamp date ≡ (day_number date * 86400 + 23 * 3600 + 59 * 60 + 59) % 2 ^ 32
timestamp_lem_example =
    timestamp_lem date (omega arith) (omega arith) (omega arith) (omega arith) (omega arith)
      (omega arith)
