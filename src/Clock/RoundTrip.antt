-- ===== src/Clock/RoundTrip.antt =====
-- The two conversions of fs/time.c are each other's inverses.
use buaa_os_mos_with_fat.Base.{
  ℕ, zero, suc, ◌+◌, ◌-◌, ◌*◌, ◌/◌, ◌%◌, ◌^◌, ◌≤◌, ◌<◌, ◌≡◌, refl, Bool, true, false, ltb, leb,
  arith, Bool-cases, inl, inr, ◌&&◌, leb→le, ge→ltb, List, [], ◌∷◌, get_or,
}
use buaa_os_mos_with_fat.Clock.{
  MyTime, utc_base_year, sec_per_day, sec_per_hour, sec_per_min, days_of, is_leap_year,
  last_day_of_mon, year_loop, month_loop, years_days, months_days, with_date, utc_sec_2_mytime,
  mytime_2_utc_sec, day_per_mon,
}

leap-le : (y : ℕ) → is_leap_year y ≤ 1
unfolding is_leap_year
leap-le y = ground arith

years_days-acc : (r i n : ℕ) → years_days r i n ≡ n + years_days r i 0
unfolding years_days
years_days-acc zero i n = omega arith
years_days-acc (suc r) i n =
    omega
      (arith, years_days-acc r (i + 1) (n + days_of i), years_days-acc r (i + 1) (0 + days_of i))

months_days-acc : (r y i n : ℕ) → months_days r y i n ≡ n + months_days r y i 0
unfolding months_days
months_days-acc zero y i n = omega arith
months_days-acc (suc r) y i n = omega (
  arith,
  months_days-acc r y (i + 1) (n + last_day_of_mon i y),
  months_days-acc r y (i + 1) (0 + last_day_of_mon i y),
)

-- What the loop over the years returns for a number of days.
record YearOf (y day : ℕ) (out : ℕ × ℕ) : Type 0 where
  low : y ≤ out.0
  total : years_days (out.0 - y) y 0 + out.1 ≡ day
  rest : out.1 < days_of out.0

year_step :
    (y day : ℕ) (out : ℕ × ℕ)
    → days_of y ≤ day
    → YearOf (y + 1) (day - days_of y) out
    → YearOf y day out
unfolding years_days
year_step y day out h v = record {
  low = omega (arith, v.low);
  total =
      let one_more : out.0 - y ≡ suc (out.0 - (y + 1)) = omega (arith, v.low) in
      rw one_more
        (omega (arith, v.total, years_days-acc (out.0 - (y + 1)) (y + 1) (0 + days_of y)));
  rest = v.rest;
}

year_stop : (y day : ℕ) → day < days_of y → YearOf y day (y, day)
unfolding years_days
year_stop y day h =
    let none_left : y - y ≡ 0 = omega arith in
    record { low = omega arith; total = rw none_left (omega arith); rest = h }

year_loop-YearOf :
    (rounds y day : ℕ)
    → day < rounds * 365
    → y + rounds < 2 ^ 16
    → YearOf y day (year_loop rounds y day)
unfolding year_loop
year_loop-YearOf zero y day h k = absurd (omega arith)
year_loop-YearOf (suc rounds) y day h k = elim (Bool-cases (ltb 0 day && leb (days_of y) day)) [
  | inl go ↦
      let no_wrap : (y + 1) % 2 ^ 16 ≡ y + 1 = omega arith in
      rw (go, no_wrap)
        (year_step y day _ (ground arith)
          (year_loop-YearOf rounds (y + 1) (day - days_of y) (ground arith) (omega arith)))
  | inr stop ↦ rw stop (year_stop y day (ground arith))
]

record MonthOf (y m day : ℕ) (out : ℕ × ℕ) : Type 0 where
  low : m ≤ out.0
  high : out.0 ≤ 12
  total : months_days (out.0 - m) y m 0 + out.1 ≡ day
  rest : out.1 < last_day_of_mon out.0 y

month_step :
    (y m day : ℕ) (out : ℕ × ℕ)
    → last_day_of_mon m y ≤ day
    → MonthOf y (m + 1) (day - last_day_of_mon m y) out
    → MonthOf y m day out
unfolding months_days
month_step y m day out h v = record {
  low = omega (arith, v.low);
  high = v.high;
  total =
      let one_more : out.0 - m ≡ suc (out.0 - (m + 1)) = omega (arith, v.low) in
      rw one_more (
        omega
          (arith, v.total, months_days-acc (out.0 - (m + 1)) y (m + 1) (0 + last_day_of_mon m y)));
  rest = v.rest;
}

month_stop : (y m day : ℕ) → m ≤ 12 → day < last_day_of_mon m y → MonthOf y m day (m, day)
unfolding months_days
month_stop y m day k h =
    let none_left : m - m ≡ 0 = omega arith in
    record { low = omega arith; high = k; total = rw none_left (omega arith); rest = h }

month_loop-MonthOf :
    (rounds y m day : ℕ)
    → m + rounds ≡ 12
    → day < months_days (suc rounds) y m 0
    → MonthOf y m day (month_loop rounds y m day)
unfolding month_loop months_days
month_loop-MonthOf zero y m day e h = month_stop y m day (omega arith) (omega arith)
month_loop-MonthOf (suc rounds) y m day e h = elim (Bool-cases (leb (last_day_of_mon m y) day)) [
  | inl go ↦ rw go (
      month_step y m day _ (leb→le _ _ go) (
        month_loop-MonthOf rounds y (m + 1) (day - last_day_of_mon m y) (omega arith)
          (ground (arith, months_days-acc (suc rounds) y (m + 1) (0 + last_day_of_mon m y)))))
  | inr stop ↦ rw stop (month_stop y m day (omega arith) (ground arith))
]

-- the months of a year make up its days
year_of_months : (y : ℕ) → months_days 12 y 1 0 ≡ days_of y
unfolding months_days last_day_of_mon
year_of_months y = omega arith

and_false : (b : Bool) → (b && false) ≡ false
and_false true = refl
and_false false = refl

abbrev AllLe : ℕ → List ℕ → Type 0
AllLe b [] = Unit {0}
AllLe b (x ∷ xs) = (x ≤ b) × AllLe b xs

get_or-le : (b : ℕ) (xs : List ℕ) (i : ℕ) → AllLe b xs → get_or xs i 0 ≤ b
get_or-le b [] i h = omega arith
get_or-le b (x ∷ xs) zero h = h.0
get_or-le b (x ∷ xs) (suc i) h = get_or-le b xs i h.1

pub last_day-le : (m y : ℕ) → last_day_of_mon m y ≤ 31
unfolding last_day_of_mon
last_day-le m y = ground (arith, leap-le y, get_or-le 31 day_per_mon (m - 1) (omega arith))

-- The sums at the end of `mytime_2_utc_sec`, for the date of `utc`.
sums :
    (utc years months d : ℕ)
    → utc < 2 ^ 32
    → d < 31
    → years + (months + d) ≡ utc / sec_per_day
    → ((years + months + (2 ^ 32 + (d + 1) % 256 - 1)) * sec_per_day
          + utc % sec_per_day / sec_per_hour * sec_per_hour
          + utc % sec_per_day % sec_per_hour / sec_per_min * sec_per_min
          + utc % sec_per_day % sec_per_hour % sec_per_min)
        % 2 ^ 32
      ≡ utc
sums utc years months d h k e = omega arith

with_date_lem :
    (dst : Bool) (utc y rest : ℕ)
    → utc < 2 ^ 32
    → YearOf utc_base_year (utc / sec_per_day) (y, rest)
    → mytime_2_utc_sec dst (with_date utc (y, rest)) false ≡ utc
unfolding mytime_2_utc_sec with_date
with_date_lem dst utc y rest h v =
    let w = month_loop-MonthOf 11 y 1 rest refl (rw (year_of_months y) v.rest) in
    let out = month_loop 11 y 1 rest in
    let years = years_days (y - utc_base_year) utc_base_year 0 in
    let months = months_days (out.0 - 1) y 1 0 in
    rw (ge→ltb y utc_base_year v.low, months_days-acc (out.0 - 1) y 1 years, and_false dst)
      (sums utc years months out.1 h (omega (arith, w.rest, last_day-le out.0 y))
        (omega (arith, w.total, v.total)))

-- For each second of 1970 to 2106, the date that `utc_sec_2_mytime` gives leads
-- `mytime_2_utc_sec` back to it, whatever the variable `dst` holds.
pub mytime_2_utc_sec-utc_sec_2_mytime :
    (dst : Bool) (utc : ℕ)
    → utc < 2 ^ 32
    → mytime_2_utc_sec dst (utc_sec_2_mytime utc false) false ≡ utc
unfolding utc_sec_2_mytime
mytime_2_utc_sec-utc_sec_2_mytime dst utc h =
    with_date_lem dst utc _ _ h
      (year_loop-YearOf 150 utc_base_year (utc / sec_per_day) (omega arith) (omega arith))

-- what a calendar calls a date and a time of day
pub record IsDate (t : MyTime) : Type 0 where
  pub month_low : 1 ≤ t.month
  pub month_high : t.month ≤ 12
  pub day_low : 1 ≤ t.day
  pub day_high : t.day ≤ last_day_of_mon t.month t.year
  pub hour_high : t.hour < 24
  pub min_high : t.min < 60
  pub sec_high : t.sec < 60
  pub year_low : 1970 ≤ t.year
  pub year_high : t.year ≤ 2106

with_date-IsDate :
    (utc y rest : ℕ)
    → utc < 2 ^ 32
    → y ≤ 2106
    → YearOf utc_base_year (utc / sec_per_day) (y, rest)
    → IsDate (with_date utc (y, rest))
unfolding with_date
with_date-IsDate utc y rest h high v =
    let out = month_loop 11 y 1 rest in
    let w = month_loop-MonthOf 11 y 1 rest refl (rw (year_of_months y) v.rest) in
    let small = last_day-le out.0 y in
    record {
      month_low = w.low;
      month_high = w.high;
      day_low = omega (arith, w.rest);
      day_high = omega (arith, w.rest);
      hour_high = omega arith;
      min_high = omega arith;
      sec_high = omega arith;
      year_low = v.low;
      year_high = high;
    }

years_days-ge : (r i : ℕ) → r * 365 ≤ years_days r i 0
unfolding years_days
years_days-ge zero i = omega arith
years_days-ge (suc r) i =
    omega (arith, years_days-ge r (i + 1), years_days-acc r (i + 1) (0 + days_of i))

pub utc_sec_2_mytime-IsDate : (utc : ℕ) → utc < 2 ^ 32 → IsDate (utc_sec_2_mytime utc false)
unfolding utc_sec_2_mytime
utc_sec_2_mytime-IsDate utc h =
    let v = year_loop-YearOf 150 utc_base_year (utc / sec_per_day) (omega arith) (omega arith) in
    let y = (year_loop 150 utc_base_year (utc / sec_per_day)).0 in
    with_date-IsDate utc _ _ h
      (omega (arith, v.total, v.low, years_days-ge (y - utc_base_year) utc_base_year)) v
