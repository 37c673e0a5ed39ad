-- ===== src/Fs/Bitmap.antt =====
-- fs/fs.c: the bitmap of free blocks, in which a bit that is set means a free block.
pub mod Alloc
use buaa_os_mos_with_fat.Base.{
  ℕ, zero, suc, ◌+◌, ◌-◌, ◌*◌, ◌/◌, ◌%◌, ◌^◌, Bool, true, false, not, ◌&&◌, ◌||◌, ◌==◌, leb, ltb,
  if◌then◌else◌, Error, no_disk, Run, ok, err, panic, Cmd, pure, fail, get, modify, ◌>>=◌, ◌>>◌,
}
use Prim.Native.Nat.{bit_and, bit_or}
use buaa_os_mos_with_fat.Base.Bits.{clear_mask}
use buaa_os_mos_with_fat.Base.Bitmap.{Words, test_bit, update}
use buaa_os_mos_with_fat.Fs.Cache.{Server, block_words, nblocks, bitmap, write_block, map_block}

-- a word of `bitmap`, written
unfoldable pub set_word : ℕ → ℕ → Server → Server
set_word i v f = record f { cache = update f.cache (2 * block_words + i) v }

unfoldable pub mark_free : ℕ → Server → Server
unfolding set_word
mark_free b f = set_word (b / 32) (bit_or (bitmap f (b / 32)) (2 ^ (b % 32))) f

unfoldable pub mark_used : ℕ → Server → Server
unfolding set_word
mark_used b f = set_word (b / 32) (bit_and (bitmap f (b / 32)) (clear_mask 32 (b % 32))) f

unfoldable pub free_block : ℕ → Server → Server
unfolding mark_free
free_block b f = if b == 0 || (f.super_set && leb (nblocks f) b) then f else mark_free b f

-- the block that holds the bit, `blockno / BIT2BLK + 2`
abbrev pub bitmap_block : ℕ → ℕ
bitmap_block b = b / 32768 + 2

-- The loop of `alloc_block_num`: the rounds left, and `blockno`.
unfoldable pub alloc_scan : ℕ → ℕ → Cmd Server ℕ
alloc_scan zero b f = err no_disk f
alloc_scan (suc rounds) b f =
    let rest = alloc_scan rounds (b + 1) f in
    if test_bit (bitmap f) b
    then (do modify (mark_used b); write_block (bitmap_block b); pure b) f
    else rest

unfoldable pub alloc_block_num : Cmd Server ℕ
unfolding alloc_scan mark_used
alloc_block_num f = alloc_scan (nblocks f - 3) 3 f

unfoldable pub or_free : ℕ → Run Server (Unit {0}) → Run Server ℕ
unfolding free_block
or_free b (ok _ f) = ok b f
or_free b (err e f) = err e (free_block b f)
or_free b panic = panic

unfoldable pub alloc_block : (granted : Bool) → Cmd Server ℕ
unfolding or_free
alloc_block granted = do b ← alloc_block_num; λ f. or_free b (map_block granted b f)
