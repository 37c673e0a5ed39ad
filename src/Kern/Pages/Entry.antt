-- ===== src/Kern/Pages/Entry.antt =====
-- Entries of page tables: the page and the flags in one word.
use Prim.Native.Nat.{bit_or}
use native.Mathlib.Nat.{div-div-eq-div-mul}
use buaa_os_mos_with_fat.Base.{
  ℕ, zero, suc, ◌*◌, ◌/◌, ◌^◌, ◌<◌, ◌≡◌, refl, true, false, ◌!=◌, arith, sym, ◌∙◌,
}
use buaa_os_mos_with_fat.Base.Bits.{
  bit, bit_and-pow, bit-or_pow, bit_or-even, bit_or-odd, bit_or-zero, even_half, half_odd, pow_suc,
  bit_or-disjoint,
}
use buaa_os_mos_with_fat.Kern.Pages.{is_valid, entry_of, ppn, pte_v, pte_d}

halve : (w k : ℕ) → w / 2 ^ suc k ≡ w / 2 / 2 ^ k
halve w k = rw (pow_suc k) (sym (div-div-eq-div-mul w 2 (2 ^ k)))

-- a flag below bit k does not reach the bits from k on
pub or_high : (k j w : ℕ) → j < k → bit_or w (2 ^ j) / 2 ^ k ≡ w / 2 ^ k
or_high zero j w h = absurd (omega arith)
or_high (suc k) zero w h =
    rw
      (
        halve (bit_or w (2 ^ 0)) k,
        halve w k,
        bit_or-odd w 0,
        half_odd (bit_or (w / 2) 0),
        bit_or-zero (w / 2) (w / 2) (omega arith),
      )
      refl
or_high (suc k) (suc j) w h =
    rw
      (
        halve (bit_or w (2 ^ suc j)) k,
        halve w k,
        pow_suc j,
        bit_or-even w (2 ^ j),
        even_half (bit_or (w / 2) (2 ^ j)) w,
      )
      (or_high k j (w / 2) (omega arith))

is_valid_lem : (w : ℕ) → is_valid w ≡ (bit 9 w != 0)
unfolding is_valid
is_valid_lem w = rw (bit_and-pow 9 w) (ground arith)

ppn_of : (p low : ℕ) → low < 2 ^ 12 → bit_or (p * 2 ^ 12) low / 2 ^ 12 ≡ p
ppn_of p low h = rw (bit_or-disjoint 12 p low h) (omega arith)

pub ppn-entry_of : (p perm : ℕ) → perm < 2 ^ 12 → ppn (entry_of p perm) ≡ p
unfolding entry_of
ppn-entry_of p perm h = or_high 12 9 (bit_or (p * 2 ^ 12) perm) (omega arith) ∙ ppn_of p perm h

pub is_valid-entry_of : (p perm : ℕ) → is_valid (entry_of p perm) ≡ true
unfolding entry_of
is_valid-entry_of p perm =
    rw
      (
        is_valid_lem (bit_or (bit_or (p * 2 ^ 12) perm) pte_v),
        bit-or_pow 9 9 (bit_or (p * 2 ^ 12) perm),
      )
      refl

-- the directory entry of a new table
pub ppn_new_table : (p : ℕ) → ppn (bit_or (bit_or (p * 2 ^ 12) pte_v) pte_d) ≡ p
ppn_new_table p =
    or_high 12 10 (bit_or (p * 2 ^ 12) pte_v) (omega arith) ∙ ppn_of p pte_v (omega arith)

pub is_valid_new_table : (p : ℕ) → is_valid (bit_or (bit_or (p * 2 ^ 12) pte_v) pte_d) ≡ true
is_valid_new_table p =
    rw
      (
        is_valid_lem (bit_or (bit_or (p * 2 ^ 12) pte_v) pte_d),
        bit-or_pow 9 10 (bit_or (p * 2 ^ 12) pte_v),
        bit-or_pow 9 9 (p * 2 ^ 12),
      )
      refl

pub is_valid_zero : is_valid 0 ≡ false
unfolding is_valid
is_valid_zero = refl
