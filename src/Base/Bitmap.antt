-- ===== src/Base/Bitmap.antt =====
-- An array of 32-bit words read as one bit for each number: what kern/env.c does to `asid_bitmap`
-- and fs/fs.c to `bitmap`. The array in memory is a function of its index.
use Prim.Native.Nat.{bit_and, bit_or, ◌*◌}
use buaa_os_mos_with_fat.Base.Tests.{◌==◌, ◌!=◌, if◌then◌else◌}
use buaa_os_mos_with_fat.Base.Bits.{
  bit, bit_and-pow, bit-or_pow, bit-and_clear_mask, clear_mask, pow_pos,
}
use Prim.Native.Nat.{ℕ, zero, suc, ◌/◌, ◌%◌, ◌^◌, ◌<◌}
use mathlib.Core.Path.{◌≡◌}
use mathlib.Core.Logic.{◌≢◌}
use mathlib.Core.Bool.{Bool, true, false}
use native.Mathlib.Omega.{arith}

abbrev pub Words : Type 0
Words = ℕ → ℕ

unfoldable pub update : Words → ℕ → ℕ → Words
update m i v j = if i == j then v else m j

pub update_ne : (m : Words) (i v j : ℕ) → i ≢ j → update m i v j ≡ m j
unfolding update
update_ne m i v j h = ground arith

pub update_here : (m : Words) (i v : ℕ) → update m i v i ≡ v
unfolding update
update_here m i v = ground arith

-- `b[i / 32] & (1 << (i % 32))`
unfoldable pub test_bit : Words → ℕ → Bool
test_bit b i = bit_and (b (i / 32)) (2 ^ (i % 32)) != 0

-- `b[i / 32] |= 1 << (i % 32)`
unfoldable pub set_bit : Words → ℕ → Words
unfolding update
set_bit b i = update b (i / 32) (bit_or (b (i / 32)) (2 ^ (i % 32)))

-- `b[i / 32] &= ~(1 << (i % 32))`
unfoldable pub clear_bit : Words → ℕ → Words
unfolding update
clear_bit b i = update b (i / 32) (bit_and (b (i / 32)) (clear_mask 32 (i % 32)))

product_pos : (b p : ℕ) → 0 < p → 0 < suc b * p
product_pos b p h = grind arith

bit_nonzero : (b p : ℕ) → 0 < p → (b * p != 0) ≡ (b != 0)
bit_nonzero zero p h = ground arith
bit_nonzero (suc b) p h = ground (arith, product_pos b p h)

test_bit_lem : (b : Words) (i : ℕ) → test_bit b i ≡ (bit (i % 32) (b (i / 32)) != 0)
unfolding test_bit
test_bit_lem b i = rw (bit_and-pow (i % 32) (b (i / 32))) (bit_nonzero _ _ (pow_pos (i % 32)))

-- setting bit i is seen at i, and nowhere else
pub test_bit-set :
    (b : Words) (i j : ℕ) → test_bit (set_bit b i) j ≡ (if i == j then true else test_bit b j)
unfolding set_bit
test_bit-set b i j =
    rw (test_bit_lem (set_bit b i) j, test_bit_lem b j)
      (ground (arith, bit-or_pow (j % 32) (i % 32) (b (i / 32))))

pub test_bit-clear :
    (b : Words) (i j : ℕ) → test_bit (clear_bit b i) j ≡ (if i == j then false else test_bit b j)
unfolding clear_bit
test_bit-clear b i j =
    rw (test_bit_lem (clear_bit b i) j, test_bit_lem b j)
      (ground (arith, bit-and_clear_mask 32 (j % 32) (i % 32) (b (i / 32))))
