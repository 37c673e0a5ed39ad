-- ===== src/Base/Bits.antt =====
-- Words as numbers: the bit of a word, and what `&`, `|` and `~` do to it. The mask of bit k is
-- `2 ^ k`, which the sources write `1 << k`.
use Prim.Native.Nat.{
  ℕ, zero, suc, ◌+◌, ◌-◌, ◌*◌, ◌/◌, ◌%◌, ◌^◌, ◌≤◌, ◌<◌, min, max, bit_and, bit_or, digits,
  bit_and-bitwise, bit_or-bitwise,
}
use mathlib.Core.Path.{◌≡◌, refl, ◌∙◌}
use mathlib.Core.Logic.{inl, inr}
use native.Mathlib.Omega.{arith}
use native.Mathlib.Nat.{pow-succ'}
use buaa_os_mos_with_fat.Base.Tests.{◌==◌, if◌then◌else◌, Bool-cases}

-- The rounds of `digits` beyond the first operand's own value change nothing.
module _ (last : ℕ → ℕ) (join : ℕ → ℕ → ℕ) where
  one_round_more :
      (rounds a b : ℕ)
      → a ≤ rounds
      → digits last join (suc rounds) a b ≡ digits last join rounds a b
  one_round_more zero zero b le = refl
  one_round_more (suc rounds) zero b le = refl
  one_round_more zero (suc a) b le = absurd (omega arith)
  one_round_more (suc rounds) (suc a) b le =
      let halves = one_round_more rounds (suc a / 2) (b / 2) (omega arith) in rw halves refl

  own_rounds : (rounds a b : ℕ) → a ≤ rounds → digits last join rounds a b ≡ digits last join a a b
  own_rounds zero zero b le = refl
  own_rounds zero (suc a) b le = absurd (omega arith)
  own_rounds (suc rounds) a b le = elim (Bool-cases (a == suc rounds)) [
    | inl same ↦ let e : a ≡ suc rounds = ground arith in rw e refl
    | inr less ↦ one_round_more rounds a b (ground arith) ∙ own_rounds rounds a b (ground arith)
  ]

zero-bit_and : (w : ℕ) → bit_and 0 w ≡ 0
zero-bit_and = bit_and-bitwise 0

zero-bit_or : (w : ℕ) → bit_or 0 w ≡ w
zero-bit_or = bit_or-bitwise 0

-- the lowest digit, and the rest
pub bit_and_step : (v w : ℕ) → bit_and v w ≡ bit_and (v / 2) (w / 2) * 2 + min (v % 2) (w % 2)
bit_and_step zero w = rw (zero-bit_and w, zero-bit_and (w / 2)) (omega arith)
bit_and_step (suc v) w =
    let rounds = own_rounds (λ x. 0) min v (suc v / 2) (w / 2) (omega arith) in
    omega (arith, rounds, bit_and-bitwise (suc v / 2) (w / 2), bit_and-bitwise (suc v) w)

pub bit_or_step : (v w : ℕ) → bit_or v w ≡ bit_or (v / 2) (w / 2) * 2 + max (v % 2) (w % 2)
bit_or_step zero w = rw (zero-bit_or w, zero-bit_or (w / 2)) (omega arith)
bit_or_step (suc v) w =
    let rounds = own_rounds (λ x. x) max v (suc v / 2) (w / 2) (omega arith) in
    omega (arith, rounds, bit_or-bitwise (suc v / 2) (w / 2), bit_or-bitwise (suc v) w)

-- bit k of w
unfoldable pub bit : ℕ → ℕ → ℕ
bit zero w = w % 2
bit (suc k) w = bit k (w / 2)

pub bit-le : (k w : ℕ) → bit k w ≤ 1
unfolding bit
bit-le zero w = omega arith
bit-le (suc k) w = bit-le k (w / 2)

pub pow_suc : (k : ℕ) → 2 ^ suc k ≡ 2 * 2 ^ k
pow_suc k = pow-succ' 2 k

-- a number is twice its half and its last digit
half_twice : (b : ℕ) → 2 * b / 2 ≡ b
half_twice b = omega arith

pub half_odd : (b : ℕ) → (2 * b + 1) / 2 ≡ b
half_odd b = omega arith

bit_and-even : (a b : ℕ) → bit_and a (2 * b) ≡ 2 * bit_and (a / 2) b
bit_and-even a b = rw (bit_and_step a (2 * b), half_twice b) (omega arith)

pub bit_and-odd : (a b : ℕ) → bit_and a (2 * b + 1) ≡ 2 * bit_and (a / 2) b + a % 2
bit_and-odd a b = rw (bit_and_step a (2 * b + 1), half_odd b) (omega arith)

pub bit_or-even : (a b : ℕ) → bit_or a (2 * b) ≡ 2 * bit_or (a / 2) b + a % 2
bit_or-even a b = rw (bit_or_step a (2 * b), half_twice b) (omega arith)

pub bit_or-odd : (a b : ℕ) → bit_or a (2 * b + 1) ≡ 2 * bit_or (a / 2) b + 1
bit_or-odd a b = rw (bit_or_step a (2 * b + 1), half_odd b) (omega arith)

pub bit_and-zero : (a n : ℕ) → a ≤ n → bit_and a 0 ≡ 0
bit_and-zero zero n h = zero-bit_and 0
bit_and-zero (suc a) zero h = absurd (omega arith)
bit_and-zero (suc a) (suc n) h =
    omega (arith, bit_and_step (suc a) 0, bit_and-zero (suc a / 2) n (omega arith))

pub bit_or-zero : (a n : ℕ) → a ≤ n → bit_or a 0 ≡ a
bit_or-zero zero n h = zero-bit_or 0
bit_or-zero (suc a) zero h = absurd (omega arith)
bit_or-zero (suc a) (suc n) h =
    omega (arith, bit_or_step (suc a) 0, bit_or-zero (suc a / 2) n (omega arith))

-- `w & (1 << k)` is the k-th bit, in its place
pub bit_and-pow : (k w : ℕ) → bit_and w (2 ^ k) ≡ bit k w * 2 ^ k
unfolding bit
bit_and-pow zero w = omega (arith, bit_and-odd w 0, bit_and-zero (w / 2) (w / 2) (omega arith))
bit_and-pow (suc k) w = rw (pow_suc k, bit_and-even w (2 ^ k), bit_and-pow k (w / 2)) (omega arith)

pub even_half : (b w : ℕ) → (2 * b + w % 2) / 2 ≡ b
even_half b w = omega arith

zero_of_small : (b : ℕ) → b < 1 → b ≡ 0
zero_of_small b h = omega arith

shift_half : (a p : ℕ) → a * (2 * p) / 2 ≡ a * p
shift_half a p = omega arith

-- `w | (1 << j)` sets bit j, and no other
pub bit-or_pow : (k j w : ℕ) → bit k (bit_or w (2 ^ j)) ≡ (if k == j then 1 else bit k w)
unfolding bit
bit-or_pow zero zero w = omega (arith, bit_or-odd w 0)
bit-or_pow (suc k) zero w =
    rw (bit_or-odd w 0, half_odd (bit_or (w / 2) 0), bit_or-zero (w / 2) (w / 2) (omega arith))
      (ground arith)
bit-or_pow zero (suc j) w = rw (pow_suc j, bit_or-even w (2 ^ j)) (ground arith)
bit-or_pow (suc k) (suc j) w =
    rw (pow_suc j, bit_or-even w (2 ^ j), even_half (bit_or (w / 2) (2 ^ j)) w)
      (ground (arith, bit-or_pow k j (w / 2)))

-- `~(1 << j)` in n bits
abbrev pub clear_mask : ℕ → ℕ → ℕ
clear_mask n j = 2 ^ n - 1 - 2 ^ j

pub pow_pos : (n : ℕ) → 0 < 2 ^ n
pow_pos zero = omega arith
pow_pos (suc n) = omega (arith, pow_suc n, pow_pos n)

pub pow_lt : (j n : ℕ) → j < n → 2 ^ j < 2 ^ n
pow_lt j zero h = absurd (omega arith)
pow_lt zero (suc n) h = omega (arith, pow_suc n, pow_pos n)
pow_lt (suc j) (suc n) h = omega (arith, pow_suc n, pow_suc j, pow_lt j n (omega arith))

ones_suc : (n : ℕ) → 2 ^ suc n - 1 ≡ 2 * (2 ^ n - 1) + 1
ones_suc n = omega (arith, pow_suc n, pow_pos n)

clear_mask-zero : (n : ℕ) → clear_mask (suc n) zero ≡ 2 * (2 ^ n - 1)
clear_mask-zero n = omega (arith, pow_suc n)

clear_mask-suc : (n j : ℕ) → j < n → clear_mask (suc n) (suc j) ≡ 2 * clear_mask n j + 1
clear_mask-suc n j h = omega (arith, pow_suc n, pow_suc j, pow_lt j n h)

twice_half_even : (b : ℕ) → 2 * b % 2 ≡ 0
twice_half_even b = omega arith

low_digit : (b w : ℕ) → (2 * b + w % 2) % 2 ≡ w % 2
low_digit b w = omega arith

bit-and_ones : (n k w : ℕ) → k < n → bit k (bit_and w (2 ^ n - 1)) ≡ bit k w
unfolding bit
bit-and_ones zero k w h = absurd (omega arith)
bit-and_ones (suc n) zero w h =
    rw (ones_suc n, bit_and-odd w (2 ^ n - 1)) (low_digit (bit_and (w / 2) (2 ^ n - 1)) w)
bit-and_ones (suc n) (suc k) w h =
    rw (ones_suc n, bit_and-odd w (2 ^ n - 1), even_half (bit_and (w / 2) (2 ^ n - 1)) w)
      (bit-and_ones n k (w / 2) (omega arith))

-- `w & ~(1 << j)` clears bit j, and no other
pub bit-and_clear_mask :
    (n k j w : ℕ)
    → k < n
    → j < n
    → bit k (bit_and w (clear_mask n j)) ≡ (if k == j then 0 else bit k w)
unfolding bit
bit-and_clear_mask zero k j w h l = absurd (omega arith)
bit-and_clear_mask (suc n) zero zero w h l =
    rw (clear_mask-zero n, bit_and-even w (2 ^ n - 1))
      (twice_half_even (bit_and (w / 2) (2 ^ n - 1)))
bit-and_clear_mask (suc n) (suc k) zero w h l =
    rw (clear_mask-zero n, bit_and-even w (2 ^ n - 1), half_twice (bit_and (w / 2) (2 ^ n - 1)))
      (ground (arith, bit-and_ones n k (w / 2)))
bit-and_clear_mask (suc n) zero (suc j) w h l =
    rw (clear_mask-suc n j (omega arith), bit_and-odd w (clear_mask n j))
      (ground (arith, low_digit (bit_and (w / 2) (clear_mask n j)) w))
bit-and_clear_mask (suc n) (suc k) (suc j) w h l =
    rw
      (
        clear_mask-suc n j (omega arith),
        bit_and-odd w (clear_mask n j),
        even_half (bit_and (w / 2) (clear_mask n j)) w,
      )
      (ground (arith, bit-and_clear_mask n k j (w / 2)))

-- `a | b` adds numbers that share no bit: b lies below the bits of a
pub bit_or-disjoint : (k a b : ℕ) → b < 2 ^ k → bit_or (a * 2 ^ k) b ≡ a * 2 ^ k + b
bit_or-disjoint zero a b h =
    rw (zero_of_small b h) (omega (arith, bit_or-zero (a * 1) (a * 1) (omega arith)))
bit_or-disjoint (suc k) a b h =
    rw (bit_or_step (a * 2 ^ suc k) b, pow_suc k, shift_half a (2 ^ k))
      (omega (arith, bit_or-disjoint k a (b / 2) (omega (arith, pow_suc k))))
