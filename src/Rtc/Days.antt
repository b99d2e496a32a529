-- ===== src/Rtc/Days.antt =====
-- The count of days in kernel/rtc.cpp against the calendar's rule.
use cofeuos.Base.{
  ℕ, zero, suc, ◌+◌, ◌-◌, ◌*◌, ◌/◌, ◌%◌, ◌^◌, ◌<◌, ◌≤◌, ◌≡◌, refl, ap, ◌∙◌, add32, sub32, arith,
  Bool, true, false, ◌&&◌, leb, ltb, ◌==◌, if◌then◌else◌,
}
use cofeuos.Rtc.{RtcDate, is_leap, year_days, month_days, timestamp}

-- The leap years before year `y`.
abbrev pub leaps : ℕ → ℕ
leaps y = (y - 1) / 4 + (y - 1) / 400 - (y - 1) / 100

leap-step : (y : ℕ) → 0 < y → leaps (y + 1) ≡ (if is_leap y then 1 else 0) + leaps y
leap-step y pos = ground arith

year_length : (b : Bool) → (if b then 366 else 365) ≡ 365 + (if b then 1 else 0)
year_length true = refl
year_length false = refl

-- The days of the `k` years from year `i` on.
year_days-leaps : (k i : ℕ) → 0 < i → year_days k i + leaps i ≡ 365 * k + leaps (i + k)
unfolding year_days
year_days-leaps zero i pos = let e : i + 0 ≡ i = omega arith in rw e (omega arith)
year_days-leaps (suc k) i pos =
    let e : i + suc k ≡ i + 1 + k = omega arith in
    rw e (
      omega
        (arith, year_days-leaps k (i + 1) (omega arith), leap-step i pos, year_length (is_leap i)))

-- The days of a common year before month `m`.
abbrev pub days_before : ℕ → ℕ
days_before m =
    if leb m 1
    then 0
    else if m == 2
    then 31
    else if m == 3
    then 59
    else if m == 4
    then 90
    else if m == 5
    then 120
    else if m == 6
    then 151
    else if m == 7
    then 181
    else if m == 8
    then 212
    else if m == 9
    then 243
    else if m == 10
    then 273
    else if m == 11
    then 304
    else 334

abbrev pub leap_day : ℕ → ℕ → ℕ
leap_day y m = if is_leap y && ltb 2 m then 1 else 0

month_days-before : (m y : ℕ) → m < 12 → month_days m 1 y ≡ days_before (m + 1) + leap_day y (m + 1)
unfolding month_days
month_days-before zero y lt = ground arith
month_days-before (suc zero) y lt = ground arith
month_days-before (suc (suc zero)) y lt = ground arith
month_days-before (suc (suc (suc zero))) y lt = ground arith
month_days-before (suc (suc (suc (suc zero)))) y lt = ground arith
month_days-before (suc (suc (suc (suc (suc zero))))) y lt = ground arith
month_days-before (suc (suc (suc (suc (suc (suc zero)))))) y lt = ground arith
month_days-before (suc (suc (suc (suc (suc (suc (suc zero))))))) y lt = ground arith
month_days-before (suc (suc (suc (suc (suc (suc (suc (suc zero)))))))) y lt = ground arith
month_days-before (suc (suc (suc (suc (suc (suc (suc (suc (suc zero))))))))) y lt = ground arith
month_days-before (suc (suc (suc (suc (suc (suc (suc (suc (suc (suc zero)))))))))) y lt =
    ground arith
month_days-before (suc (suc (suc (suc (suc (suc (suc (suc (suc (suc (suc zero))))))))))) y lt =
    ground arith
month_days-before (suc (suc (suc (suc (suc (suc (suc (suc (suc (suc (suc (suc m)))))))))))) y lt =
    absurd (omega arith)

-- The days from the first of 1970 to a date, by the calendar's rule for leap years.
abbrev pub day_number : RtcDate → ℕ
day_number r =
    365 * (r.year - 1970)
    + (leaps r.year - leaps 1970)
    + days_before r.month
    + leap_day r.year r.month
    + (r.day - 1)

days_eq :
    (a b d k l l0 c j : ℕ)
    → a + l0 ≡ 365 * k + l
    → b ≡ c + j
    → l0 ≤ l
    → 365 * k + l + c + j < 2 ^ 31
    → 1 ≤ d
    → d < 256
    → sub32 (add32 ((a + b) % 2 ^ 32) d) 1 ≡ 365 * k + (l - l0) + c + j + (d - 1)
days_eq a b d k l l0 c j ea eb le small lo hi = omega arith

-- `rtc_timestamp` is the number of seconds since 1970 by the Gregorian calendar, modulo 2^32, for a date
-- from 1970 on whose month and day are at least 1 and whose month is at most 12.
pub timestamp_lem :
    (r : RtcDate)
    → 1970 ≤ r.year
    → r.year < 2 ^ 16
    → 1 ≤ r.month
    → r.month ≤ 12
    → 1 ≤ r.day
    → r.day < 256
    → timestamp r ≡ (day_number r * 86400 + r.hour * 3600 + r.minute * 60 + r.second) % 2 ^ 32
unfolding timestamp
timestamp_lem r y0 y1 m0 m1 d0 d1 =
    let years = year_days-leaps (r.year - 1970) 1970 (omega arith) in
    let e : 1970 + (r.year - 1970) ≡ r.year = omega arith in
    let m : r.month - 1 + 1 ≡ r.month = omega arith in
    let months = month_days-before (r.month - 1) r.year (omega arith) in
    let grow : leaps 1970 ≤ leaps r.year = omega arith in
    let small : leaps r.year ≤ r.year = omega arith in
    let before : days_before r.month ≤ 334 = ground arith in
    let years' : year_days (r.year - 1970) 1970 + leaps 1970
        ≡ 365 * (r.year - 1970) + leaps r.year =
      years ∙ ap (λ x. 365 * (r.year - 1970) + leaps x) e in
    let months' : month_days (r.month - 1) 1 r.year
        ≡ days_before r.month + leap_day r.year r.month =
      months ∙ ap (λ x. days_before x + leap_day r.year x) m in
    let extra : leap_day r.year r.month ≤ 1 = ground arith in
    ap (λ x. (x * 86400 + r.hour * 3600 + r.minute * 60 + r.second) % 2 ^ 32)
      (days_eq (year_days (r.year - 1970) 1970) (month_days (r.month - 1) 1 r.year) r.day
        (r.year - 1970) (leaps r.year) (leaps 1970) (days_before r.month) (leap_day r.year r.month)
        years' months' grow (omega (arith, small, before, extra)) d0 d1)
