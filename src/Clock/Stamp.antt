-- ===== src/Clock/Stamp.antt =====
-- The fields of a packed date and time are read back from the words of a directory entry.
use Prim.Native.Nat.{bit_or}
use buaa_os_mos_with_fat.Base.{
  ℕ, ◌+◌, ◌-◌, ◌*◌, ◌/◌, ◌%◌, ◌^◌, ◌≤◌, ◌<◌, ◌≡◌, refl, Bool, false, arith, if◌then◌else◌,
}
use buaa_os_mos_with_fat.Base.Bits.{bit_or-disjoint}
use buaa_os_mos_with_fat.Clock.{MyTime, Stamps, pack_date, pack_time, set_time, utc_sec_2_mytime}
use buaa_os_mos_with_fat.Clock.RoundTrip.{IsDate, last_day-le, utc_sec_2_mytime-IsDate}

date_bits :
    (y m d : ℕ)
    → m < 16
    → d < 32
    → bit_or (bit_or (y * 2 ^ 9) (m * 2 ^ 5)) d ≡ (y * 16 + m) * 2 ^ 5 + d
date_bits y m d k l =
    let regroup : y * 2 ^ 9 + m * 2 ^ 5 ≡ (y * 16 + m) * 2 ^ 5 = omega arith in
    rw (bit_or-disjoint 9 y (m * 2 ^ 5) (omega arith), regroup) (bit_or-disjoint 5 (y * 16 + m) d l)

time_bits :
    (h m s : ℕ)
    → m < 64
    → s < 32
    → bit_or (bit_or (h * 2 ^ 11) (m * 2 ^ 5)) s ≡ (h * 64 + m) * 2 ^ 5 + s
time_bits h m s k l =
    let regroup : h * 2 ^ 11 + m * 2 ^ 5 ≡ (h * 64 + m) * 2 ^ 5 = omega arith in
    rw (bit_or-disjoint 11 h (m * 2 ^ 5) (omega arith), regroup)
      (bit_or-disjoint 5 (h * 64 + m) s l)

-- The words of a directory entry that stand for the date and time t, to two seconds.
pub record Shows (date time : ℕ) (t : MyTime) : Type 0 where
  pub year : date / 2 ^ 9 + 1980 ≡ t.year
  pub month : date / 2 ^ 5 % 16 ≡ t.month
  pub day : date % 32 ≡ t.day
  pub hour : time / 2 ^ 11 ≡ t.hour
  pub min : time / 2 ^ 5 % 64 ≡ t.min
  pub sec : time % 32 ≡ t.sec / 2

shift_year :
    (y : ℕ) → 1980 ≤ y → y ≤ 2106 → (y + (2 ^ 32 - 1980)) * 2 ^ 9 % 2 ^ 32 ≡ (y - 1980) * 2 ^ 9
shift_year y h k = omega arith

packed-Shows : (t : MyTime) → IsDate t → 1980 ≤ t.year → Shows (pack_date t) (pack_time t) t
unfolding pack_date pack_time
packed-Shows t v h =
    let date =
      date_bits (t.year - 1980) t.month t.day (omega (arith, v.month_high))
        (omega (arith, v.day_high, last_day-le t.month t.year)) in
    let time =
      time_bits t.hour t.min (t.sec / 2) (omega (arith, v.min_high)) (omega (arith, v.sec_high)) in
    let small = last_day-le t.month t.year in
    rw (shift_year t.year h v.year_high, date, time)
      (record {
        year = omega (arith, v.year_high, v.month_high, v.day_high);
        month = omega (arith, v.year_high, v.month_high, v.day_high);
        day = omega (arith, v.year_high, v.month_high, v.day_high);
        hour = omega (arith, v.hour_high, v.min_high, v.sec_high);
        min = omega (arith, v.hour_high, v.min_high, v.sec_high);
        sec = omega (arith, v.hour_high, v.min_high, v.sec_high);
      })

-- the moment that `setTime` stamps: eight hours less eight minutes ahead of the clock
abbrev pub local_time : ℕ → MyTime
local_time seconds = utc_sec_2_mytime ((seconds + 28320) % 2 ^ 32) false

-- From 1980 on, `setTime` writes words from which the local date and time are read back, the seconds
-- to two; it touches the time of creation only if it is told to.
pub set_time_lem :
    (seconds : ℕ) (create : Bool) (cur : Stamps)
    → 1980 ≤ (local_time seconds).year
    → let s = set_time seconds create cur in
      Shows s.wrt_date s.wrt_time (local_time seconds)
      × (s.crt_date ≡ (if create then s.wrt_date else cur.crt_date))
      × (s.crt_time ≡ (if create then s.wrt_time else cur.crt_time))
unfolding set_time
set_time_lem seconds create cur h = (
  packed-Shows (local_time seconds)
      (utc_sec_2_mytime-IsDate ((seconds + 28320) % 2 ^ 32) (omega arith)) h,
  refl,
  refl,
)
