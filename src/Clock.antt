-- ===== src/Clock.antt =====
-- fs/time.c: seconds since 1970 and calendar dates, with `setTime` of fs/fatfs.c, which packs a
-- date into the two words of a directory entry.
pub mod RoundTrip
pub mod Stamp
use Prim.Native.Nat.{bit_or}
use buaa_os_mos_with_fat.Base.{
  ℕ, zero, suc, ◌+◌, ◌-◌, ◌*◌, ◌/◌, ◌%◌, ◌^◌, Bool, true, false, ◌&&◌, ◌||◌, ◌==◌, ◌!=◌, ltb, leb,
  if◌then◌else◌, List, [], ◌∷◌, get_or,
}

-- UTC_BASE_YEAR, MONTH_PER_YEAR, DAY_PER_YEAR, SEC_PER_DAY, SEC_PER_HOUR, SEC_PER_MIN
abbrev pub utc_base_year : ℕ
utc_base_year = 1970

abbrev pub day_per_year : ℕ
day_per_year = 365

abbrev pub sec_per_day : ℕ
sec_per_day = 86400

abbrev pub sec_per_hour : ℕ
sec_per_hour = 3600

abbrev pub sec_per_min : ℕ
sec_per_min = 60

-- `mytime_struct`
pub record MyTime : Type 0 where
  pub year : ℕ
  pub month : ℕ
  pub day : ℕ
  pub hour : ℕ
  pub min : ℕ
  pub sec : ℕ
  pub day_index : ℕ

abbrev day_per_mon : List ℕ
day_per_mon = 31 ∷ 28 ∷ 31 ∷ 30 ∷ 31 ∷ 30 ∷ 31 ∷ 31 ∷ 30 ∷ 31 ∷ 30 ∷ 31 ∷ []

unfoldable pub is_leap_year : ℕ → ℕ
is_leap_year year =
    if year % 400 == 0 then 1 else if year % 100 == 0 then 0 else if year % 4 == 0 then 1 else 0

unfoldable pub last_day_of_mon : ℕ → ℕ → ℕ
last_day_of_mon month year =
    if month == 0 || ltb 12 month
    then get_or day_per_mon 1 0 + is_leap_year year
    else if month != 2
    then get_or day_per_mon (month - 1) 0
    else get_or day_per_mon 1 0 + is_leap_year year

abbrev pub days_of : ℕ → ℕ
days_of year = day_per_year + is_leap_year year

-- `applib_dt_dayindex`. The codes are `char`, which is signed: a code is the byte, and `code_neg`
-- and `code_pos` are the parts of its value. `week` is `positive - negative`.
abbrev code_pos : ℕ → ℕ
code_pos b = if ltb b 128 then b else 0

abbrev code_neg : ℕ → ℕ
code_neg b = if ltb b 128 then 0 else 256 - b

abbrev weekday : ℕ → ℕ → ℕ
weekday p n = if ltb n p then (p - n) % 7 else 7 - (n - p) % 7

day_codes : (century year month day : ℕ) → ℕ
day_codes c y m d =
    weekday
      (code_pos y
        + code_pos y / 4
        + code_pos c / 4
        + 2 * code_neg c
        + (if ltb m 128 then 26 * (m + 1) / 10 else 0)
        + code_pos d)
      (code_neg y
        + code_neg y / 4
        + code_neg c / 4
        + 2 * code_pos c
        + 26 * (code_neg m - 1) / 10
        + code_neg d
        + 1)

unfoldable pub day_index_of : ℕ → ℕ → ℕ → ℕ
unfolding day_codes
day_index_of year month day =
    if month == 1 || month == 2
    then day_codes ((year - 1) / 100 % 256) (if year == 0 then 255 else (year - 1) % 100)
        ((month + 12) % 256) day
    else day_codes (year / 100 % 256) (year % 100) month day

-- the loop over the years: rounds, `y` and `day`
unfoldable pub year_loop : ℕ → ℕ → ℕ → ℕ × ℕ
year_loop zero y day = (y, day)
year_loop (suc rounds) y day =
    let next = year_loop rounds ((y + 1) % 2 ^ 16) (day - days_of y) in
    if ltb 0 day && leb (days_of y) day then next else (y, day)

-- the loop over the months
unfoldable pub month_loop : ℕ → ℕ → ℕ → ℕ → ℕ × ℕ
month_loop zero y m day = (m, day)
month_loop (suc rounds) y m day =
    let next = month_loop rounds y (m + 1) (day - last_day_of_mon m y) in
    if leb (last_day_of_mon m y) day then next else (m, day)

abbrev shifted : ℕ → Bool → ℕ
shifted utc_sec saving = if saving then (utc_sec + sec_per_hour) % 2 ^ 32 else utc_sec

with_date : ℕ → ℕ × ℕ → MyTime
with_date utc (y, rest) =
    let (m, d) = month_loop 11 y 1 rest in
    record {
      year = y;
      month = m;
      day = (d + 1) % 256;
      hour = utc % sec_per_day / sec_per_hour;
      min = utc % sec_per_day % sec_per_hour / sec_per_min;
      sec = utc % sec_per_day % sec_per_hour % sec_per_min;
      day_index = day_index_of y m ((d + 1) % 256);
    }

-- `utc_sec_2_mytime`; the loop over the years runs less than once a year.
unfoldable pub utc_sec_2_mytime : ℕ → Bool → MyTime
unfolding with_date year_loop month_loop day_index_of last_day_of_mon is_leap_year
utc_sec_2_mytime utc_sec saving =
    let utc = shifted utc_sec saving in
    with_date utc (year_loop 150 utc_base_year (utc / sec_per_day))

-- the loops of `mytime_2_utc_sec`: rounds, `i` and `no_of_days`
unfoldable pub years_days : ℕ → ℕ → ℕ → ℕ
years_days zero i n = n
years_days (suc rounds) i n = years_days rounds (i + 1) (n + days_of i)

unfoldable pub months_days : ℕ → ℕ → ℕ → ℕ → ℕ
months_days zero y i n = n
months_days (suc rounds) y i n = months_days rounds y (i + 1) (n + last_day_of_mon i y)

-- `dst` is the variable of that name, which the code never sets.
unfoldable pub mytime_2_utc_sec : (dst : Bool) → MyTime → Bool → ℕ
unfolding years_days months_days last_day_of_mon is_leap_year
mytime_2_utc_sec dst t saving =
    if ltb t.year utc_base_year
    then 0
    else (let days =
          months_days (t.month - 1) t.year 1 (years_days (t.year - utc_base_year) utc_base_year 0)
          + (2 ^ 32 + t.day - 1) in
        let utc =
          (days * sec_per_day + t.hour * sec_per_hour + t.min * sec_per_min + t.sec) % 2 ^ 32 in
        if dst && saving then (utc + (2 ^ 32 - sec_per_hour)) % 2 ^ 32 else utc)

-- The four words that `setTime` of fs/fatfs.c writes to a directory entry.
pub record Stamps : Type 0 where
  pub crt_date : ℕ
  pub crt_time : ℕ
  pub wrt_date : ℕ
  pub wrt_time : ℕ

-- `((nYear - 1980) << 9) | (nMonth << 5) | nDay` as a `short`
unfoldable pub pack_date : MyTime → ℕ
pack_date t =
    bit_or (bit_or ((t.year + (2 ^ 32 - 1980)) * 2 ^ 9 % 2 ^ 32) (t.month * 2 ^ 5)) t.day % 2 ^ 16

-- `(nHour << 11) | (nMin << 5) | (nSec >> 1)` as a `short`
unfoldable pub pack_time : MyTime → ℕ
pack_time t = bit_or (bit_or (t.hour * 2 ^ 11) (t.min * 2 ^ 5)) (t.sec / 2) % 2 ^ 16

-- `setTime`, where `seconds` is what `get_time` reads from the clock
unfoldable pub set_time : ℕ → Bool → Stamps → Stamps
unfolding pack_date pack_time
set_time seconds create cur =
    let t = utc_sec_2_mytime ((seconds + (8 * sec_per_hour - 8 * sec_per_min)) % 2 ^ 32) false in
    let date = pack_date t in
    let time = pack_time t in
    record {
      crt_date = if create then date else cur.crt_date;
      crt_time = if create then time else cur.crt_time;
      wrt_date = date;
      wrt_time = time;
    }
