-- ===== src/Fs/Bitmap/Alloc.antt =====
-- `alloc_block_num` and `free_block`: which block is given out, and what the bitmap says on disk.
use mathlib.Core.Path.{fun_ext}
use buaa_os_mos_with_fat.Base.{
  ℕ, zero, suc, ◌+◌, ◌-◌, ◌*◌, ◌/◌, ◌%◌, ◌^◌, ◌≤◌, ◌<◌, ◌≡◌, ◌≢◌, refl, true, false, ◌&&◌, ◌||◌,
  ◌==◌, leb, ltb, if◌then◌else◌, no_disk, no_mem, Run, ok, err, arith, Bool-cases, inl, inr, ap,
  ◌∙◌, ◌!=◌,
}
use buaa_os_mos_with_fat.Base.Bitmap.{
  Words, test_bit, set_bit, clear_bit, update, test_bit-set, test_bit-clear,
}
use buaa_os_mos_with_fat.Fs.Cache.{
  Server, nblocks, bitmap, diskaddr, write_block, copy_block, map_block,
}
use buaa_os_mos_with_fat.Fs.Bitmap.{
  mark_free, mark_used, free_block, bitmap_block, alloc_scan, alloc_block_num, or_free,
}

-- The file system as `fs_init` leaves it: its size passes `read_super`, and `read_bitmap` has read
-- the blocks of the bitmap.
pub record IsOpen (f : Server) : Type 0 where
  pub has_super : f.super_set ≡ true
  pub size_fits : nblocks f ≤ 2 ^ 18
  pub bitmap_read : (b : ℕ) → b < nblocks f → f.mapped (b / 32768 + 2) ≡ true

-- the state once block b is taken, and its block of the bitmap written
abbrev taken : ℕ → Server → Server
taken b f =
    let g : Server = mark_used b f in record g { disk = copy_block (bitmap_block b) g.cache g.disk }

in_window : (b : ℕ) → b < 2 ^ 18 → leb 0x4000_0000 (b * 4096 % 2 ^ 32) ≡ false
in_window b h = ground arith

write_block_lem :
    (b : ℕ) (f : Server)
    → b < 2 ^ 18
    → f.mapped b ≡ true
    → write_block b f ≡ ok tt (record f { disk = copy_block b f.cache f.disk })
unfolding write_block diskaddr
write_block_lem b f h m =
    let same : b % 2 ^ 20 ≡ b = omega arith in rw (in_window b h, same, m, in_window b h)

bitmap-mark_used : (b : ℕ) (f : Server) → bitmap (mark_used b f) ≡ clear_bit (bitmap f) b
unfolding mark_used clear_bit update
bitmap-mark_used b f = fun_ext (λ i. ground arith)

bitmap-mark_free : (b : ℕ) (f : Server) → bitmap (mark_free b f) ≡ set_bit (bitmap f) b
unfolding mark_free set_bit update
bitmap-mark_free b f = fun_ext (λ i. ground arith)

test_bit-taken :
    (b j : ℕ) (f : Server)
    → test_bit (bitmap (taken b f)) j ≡ (if b == j then false else test_bit (bitmap f) j)
test_bit-taken b j f =
    ap (λ (m : Words). test_bit m j) (bitmap-mark_used b f) ∙ test_bit-clear (bitmap f) b j

-- What has happened to the bitmap, a map from words to words that begins with block 2, and to the
-- disk, when block a has been given out. A block has 1024 words, and the bitmap a bit for each block.
pub record Taken (f : Server) (a : ℕ) (g : Server) : Type 0 where
  pub marked : (j : ℕ) → test_bit (bitmap g) j ≡ (if a == j then false else test_bit (bitmap f) j)
  pub others : (w : ℕ) → w ≢ 2048 + a / 32 → g.cache w ≡ f.cache w
  pub written : (w : ℕ) → w / 1024 ≡ 2 + a / 32768 → g.disk w ≡ g.cache w
  pub kept : (w : ℕ) → w / 1024 ≢ 2 + a / 32768 → g.disk w ≡ f.disk w
  pub synced : ((w : ℕ) → f.disk w ≡ f.cache w) → (w : ℕ) → g.disk w ≡ g.cache w
  pub same_pages : (p : ℕ) → (g.mapped p ≡ f.mapped p) × (g.dirty p ≡ f.dirty p)

taken-Taken : (a : ℕ) (f : Server) → Taken f a (taken a f)
unfolding mark_used copy_block update
taken-Taken a f = record {
  marked = λ j. test_bit-taken a j f;
  others = λ w h. ground (arith, h);
  written = λ w h. ground (arith, h);
  kept = λ w h. ground (arith, h);
  synced = λ same w. ground (arith, same w);
  same_pages = λ p. (refl, refl);
}

-- What the loop of `alloc_block_num` may return.
abbrev pub Given : ℕ → ℕ → Server → Run Server ℕ → Type 0
Given rounds b f (ok a g) =
    (b ≤ a)
    × (a < b + rounds)
    × (test_bit (bitmap f) a ≡ true)
    × ((j : ℕ) → b ≤ j → j < a → test_bit (bitmap f) j ≡ false)
    × Taken f a g
Given rounds b f (err e g) =
    (e ≡ no_disk) × (g ≡ f) × ((j : ℕ) → b ≤ j → j < b + rounds → test_bit (bitmap f) j ≡ false)
Given rounds b f Run.panic = ⊥

Given-step :
    (rounds b : ℕ) (f : Server) (r : Run Server ℕ)
    → test_bit (bitmap f) b ≡ false
    → Given rounds (b + 1) f r
    → Given (suc rounds) b f r
Given-step rounds b f (ok a g) used (low, high, free, before, effect) =
    (omega arith, omega arith, free, λ j p q. ground (arith, before j), effect)
Given-step rounds b f (err e g) used (code, same, all) =
    (code, same, λ j p q. ground (arith, all j))
Given-step rounds b f Run.panic used h = h

alloc_scan-Given :
    (rounds b : ℕ) (f : Server)
    → IsOpen f
    → b + rounds ≤ nblocks f
    → Given rounds b f (alloc_scan rounds b f)
unfolding alloc_scan
alloc_scan-Given zero b f v h = (refl, refl, λ j p q. absurd (omega arith))
alloc_scan-Given (suc rounds) b f v h = elim (Bool-cases (test_bit (bitmap f) b)) [
  | inl free ↦
      rw
        (
          free,
          write_block_lem (b / 32768 + 2) (mark_used b f) (omega (arith, v.size_fits))
              (unfold mark_used in v.bitmap_read b (omega arith)),
        )
        (omega arith, omega arith, free, λ j p q. absurd (omega arith), taken-Taken b f)
  | inr used ↦
      rw used (Given-step rounds b f _ used (alloc_scan-Given rounds (b + 1) f v (omega arith)))
]

-- On an open file system `alloc_block_num` returns the lowest free block from 3 on. The bitmap then
-- has it, and no other block that was not, as used; no other word of the cache changes; the block of
-- the bitmap that has its bit is on disk as in the cache, and the rest of the disk as before. If none
-- is free it fails with -E_NO_DISK and changes nothing.
pub alloc_block_num-Given :
    (f : Server) → IsOpen f → 3 ≤ nblocks f → Given (nblocks f - 3) 3 f (alloc_block_num f)
unfolding alloc_block_num
alloc_block_num-Given f v h = alloc_scan-Given (nblocks f - 3) 3 f v (omega arith)

-- `free_block` marks a valid block as free in the cache's bitmap, and no other; block 0 and the
-- blocks beyond the end it leaves alone. The disk it does not touch.
pub free_block_lem :
    (b j : ℕ) (f : Server)
    → f.super_set ≡ true
    → (test_bit (bitmap (free_block b f)) j
        ≡ (if b != 0 && ltb b (nblocks f) && b == j then true else test_bit (bitmap f) j))
      × ((w : ℕ) → (free_block b f).disk w ≡ f.disk w)
unfolding free_block
free_block_lem b j f s = elim (Bool-cases (b == 0 || (f.super_set && leb (nblocks f) b))) [
  | inl out ↦ rw out (ground arith, λ w. refl)
  | inr valid ↦ rw valid (
    ap (λ (m : Words). test_bit m j) (bitmap-mark_free b f)
        ∙ test_bit-set (bitmap f) b j
        ∙ ground arith,
    unfold mark_free in λ w. refl,
  )
]

-- When the kernel has no page for the block that was taken, `alloc_block` returns the error, and the
-- block is free again in the cache.
pub or_free-fail :
    (b : ℕ) (f : Server)
    → b < 2 ^ 18
    → f.mapped b ≡ false
    → or_free b (map_block false b f) ≡ err no_mem (free_block b f)
unfolding or_free map_block
or_free-fail b f h m =
    let same : b % 2 ^ 20 ≡ b = omega arith in rw (in_window b h, same, m, in_window b h)
