-- ===== src/Fs/Cache.antt =====
-- fs/fs.c: the block cache. It is an array of 32-bit words from DISKMAP on, 1024 to a block, and
-- the disk is another. `super` and `bitmap` point into the cache, at blocks 1 and 2.
use buaa_os_mos_with_fat.Base.{
  ℕ, ◌+◌, ◌*◌, ◌/◌, ◌%◌, ◌^◌, Bool, true, false, not, ◌&&◌, ◌||◌, ◌==◌, leb, if◌then◌else◌, no_mem,
  not_found, ok, panic, Cmd, pure, fail, stop, get, modify, assert, ◌>>=◌, ◌>>◌,
}
use buaa_os_mos_with_fat.Base.Bitmap.{Words, test_bit}

pub record Server : Type 0 where
  pub cache : Words
  pub disk : Words
  pub mapped : ℕ → Bool
  pub dirty : ℕ → Bool
  pub super_set : Bool
  pub bitmap_set : Bool

-- words to a block, DISKMAX
abbrev pub block_words : ℕ
block_words = 1024

abbrev pub disk_max : ℕ
disk_max = 0x4000_0000

-- `super->s_nblocks`
abbrev pub nblocks : Server → ℕ
nblocks f = f.cache (block_words + 1)

-- the array `bitmap`
abbrev pub bitmap : Server → Words
bitmap f i = f.cache (2 * block_words + i)

-- `diskaddr`: the place of the block in the cache, which `u_int` arithmetic reduces
unfoldable pub diskaddr : ℕ → Cmd Server ℕ
diskaddr blockno f =
    if leb disk_max (blockno * 4096 % 2 ^ 32) then panic else ok (blockno % 2 ^ 20) f

-- `block_is_mapped(blockno) != NULL`
unfoldable pub block_is_mapped : ℕ → Cmd Server Bool
unfolding diskaddr
block_is_mapped blockno = do slot ← diskaddr blockno; f ← get; pure (f.mapped slot)

unfoldable pub block_is_dirty : ℕ → Cmd Server Bool
unfolding diskaddr
block_is_dirty blockno = do slot ← diskaddr blockno; f ← get; pure (f.mapped slot && f.dirty slot)

-- `syscall_mem_map` of a mapped page onto itself, with PTE_DIRTY, takes no memory.
unfoldable pub dirty_block : ℕ → Cmd Server (Unit {0})
unfolding diskaddr
dirty_block blockno = do
  slot ← diskaddr blockno
  f ← get
  if not (f.mapped slot)
      then fail not_found
      else if f.dirty slot
      then pure tt
      else modify (λ g. record g { dirty = λ b. if b == slot then true else g.dirty b })

-- one block, from one array to the other
unfoldable pub copy_block : ℕ → Words → Words → Words
copy_block slot from to w = if w / block_words == slot then from w else to w

unfoldable pub write_block : ℕ → Cmd Server (Unit {0})
unfolding diskaddr block_is_mapped copy_block
write_block blockno = do
  present ← block_is_mapped blockno
  slot ← diskaddr blockno
  if present then modify (λ f. record f { disk = copy_block slot f.cache f.disk }) else stop

unfoldable pub block_is_free : ℕ → Server → Bool
block_is_free blockno f =
    if not f.super_set || leb (nblocks f) blockno then false else test_bit (bitmap f) blockno

-- a page for the block; its words are zero
unfoldable pub map_page : ℕ → Server → Server
map_page slot f = record f {
  cache = λ w. if w / block_words == slot then 0 else f.cache w;
  mapped = λ b. if b == slot then true else f.mapped b;
  dirty = λ b. if b == slot then false else f.dirty b;
}

-- `read_block`: the place of the block, and `*isnew`. Its `syscall_mem_alloc`, whose result the
-- code ignores, succeeds.
unfoldable pub read_block : ℕ → Cmd Server (ℕ × Bool)
unfolding diskaddr block_is_mapped block_is_free map_page copy_block
read_block blockno = do
  f ← get
  assert (not (f.super_set && leb (nblocks f) blockno))
  assert (not (f.bitmap_set && block_is_free blockno f))
  slot ← diskaddr blockno
  present ← block_is_mapped blockno
  if present then pure (slot, false) else (do
    modify (map_page slot)
    modify (λ g. record g { cache = copy_block slot g.disk g.cache })
    pure (slot, true))

-- `granted` is the kernel's answer to `syscall_mem_alloc`
unfoldable pub map_block : (granted : Bool) → ℕ → Cmd Server (Unit {0})
unfolding block_is_mapped diskaddr map_page
map_block granted blockno = do
  present ← block_is_mapped blockno
  slot ← diskaddr blockno
  if present then pure tt else if granted then modify (map_page slot) else fail no_mem

unfoldable pub unmap_block : ℕ → Cmd Server (Unit {0})
unfolding block_is_mapped block_is_free block_is_dirty write_block
unmap_block blockno = do
  f ← get
  present ← block_is_mapped blockno
  dirtied ← block_is_dirty blockno
  if not (block_is_free blockno f) && dirtied then write_block blockno else pure tt
  slot ← diskaddr blockno
  modify
      λ g. if present then record g { mapped = λ b. if b == slot then false else g.mapped b } else g
  still ← block_is_mapped blockno
  assert (not still)
