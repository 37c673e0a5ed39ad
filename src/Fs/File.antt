-- ===== src/Fs/File.antt =====
-- fs/fs.c: the blocks of a file. A `struct File` lies in the cache: `f` is the index of its first
-- word; `f_size` is word 32, `f_type` 33, `f_direct` 34 to 43 and `f_indirect` 44.
use buaa_os_mos_with_fat.Base.{
  ℕ, zero, suc, ◌+◌, ◌-◌, ◌*◌, ◌/◌, Bool, true, false, not, ◌&&◌, ◌==◌, ◌!=◌, leb, ltb,
  if◌then◌else◌, not_found, inval, Run, ok, err, panic, Cmd, pure, fail, modify, ◌>>=◌, ◌>>◌,
}
use buaa_os_mos_with_fat.Base.Bitmap.{update}
use buaa_os_mos_with_fat.Fs.Cache.{
  Server, block_words, read_block, dirty_block, block_is_dirty, write_block, nblocks,
}
use buaa_os_mos_with_fat.Fs.Bitmap.{alloc_block, free_block}

-- NDIRECT, NINDIRECT
abbrev pub ndirect : ℕ
ndirect = 10

abbrev pub nindirect : ℕ
nindirect = 1024

abbrev pub f_size : ℕ → ℕ
f_size f = f + 32

abbrev pub f_direct : ℕ → ℕ → ℕ
f_direct f i = f + 34 + i

abbrev pub f_indirect : ℕ → ℕ
f_indirect f = f + 44

-- `*p` and `*p = v`
abbrev pub load : ℕ → Cmd Server ℕ
load p s = ok (s.cache p) s

abbrev pub store : ℕ → ℕ → Cmd Server (Unit {0})
store p v s = ok tt (record s { cache = update s.cache p v })

-- the indirect block of the file, which is made if it is missing and `alloc` is set
unfoldable pub need_indirect : (granted alloc : Bool) → ℕ → Cmd Server (Unit {0})
unfolding update
need_indirect granted alloc f = do
  indirect ← load (f_indirect f)
  if indirect == 0
      then if not alloc
        then fail not_found
        else (do r ← alloc_block granted; store (f_indirect f) r)
      else pure tt

-- `file_block_walk`: the index of the word that holds the block's number
unfoldable pub file_block_walk : (granted alloc : Bool) → ℕ → ℕ → Cmd Server ℕ
unfolding need_indirect
file_block_walk granted alloc f filebno =
    if ltb filebno ndirect
    then pure (f_direct f filebno)
    else if ltb filebno nindirect
    then (do
      need_indirect granted alloc f
      indirect ← load (f_indirect f)
      (blk, isnew) ← read_block indirect
      pure (blk * block_words + filebno))
    else fail inval

unfoldable pub file_map_block : (granted alloc : Bool) → ℕ → ℕ → Cmd Server ℕ
unfolding file_block_walk update
file_map_block granted alloc f filebno = do
  ptr ← file_block_walk granted alloc f filebno
  diskbno ← load ptr
  if diskbno == 0
      then if not alloc then fail not_found else (do r ← alloc_block granted; store ptr r; load ptr)
      else pure diskbno

unfoldable pub file_clear_block : ℕ → ℕ → Cmd Server (Unit {0})
unfolding file_block_walk update
file_clear_block f filebno = do
  ptr ← file_block_walk false false f filebno
  diskbno ← load ptr
  if diskbno != 0 then (do modify (free_block diskbno); store ptr 0) else pure tt

-- `file_get_block`: the place of the block in the cache
unfoldable pub file_get_block : (granted : Bool) → ℕ → ℕ → Cmd Server ℕ
unfolding file_map_block
file_get_block granted f filebno = do
  diskbno ← file_map_block granted true f filebno
  (blk, isnew) ← read_block diskbno
  pure blk

unfoldable pub file_dirty : ℕ → ℕ → Cmd Server (Unit {0})
unfolding file_map_block
file_dirty f offset = do diskbno ← file_map_block false false f (offset / 4096); dirty_block diskbno

-- `if ((r = file_map_block(…)) < 0) continue;` and the rest of the round
unfoldable pub flush_round : Run Server ℕ → Run Server (Unit {0})
flush_round (ok diskno s) =
    (do dirtied ← block_is_dirty diskno; if dirtied then write_block diskno else pure tt) s
flush_round (err e s) = ok tt s
flush_round panic = panic

-- the loop of `file_flush`: the rounds left, and `bno`
unfoldable pub flush_loop : ℕ → ℕ → ℕ → Cmd Server (Unit {0})
unfolding flush_round
flush_loop f zero bno = pure tt
flush_loop f (suc rounds) bno = do
  λ s. flush_round (file_map_block false false f bno s)
  flush_loop f rounds (bno + 1)

unfoldable pub file_flush : ℕ → Cmd Server (Unit {0})
unfolding flush_loop
file_flush f = do size ← load (f_size f); flush_loop f (size / 4096 + 1) 0

-- the loop of `file_truncate`; the code ignores what `file_clear_block` returns
unfoldable pub ignore_error : Run Server (Unit {0}) → Run Server (Unit {0})
ignore_error (ok a s) = ok a s
ignore_error (err e s) = ok tt s
ignore_error panic = panic

unfoldable pub clear_loop : ℕ → ℕ → ℕ → Cmd Server (Unit {0})
unfolding file_clear_block ignore_error
clear_loop f zero bno = pure tt
clear_loop f (suc rounds) bno = do
  λ s. ignore_error (file_clear_block f bno s)
  clear_loop f rounds (bno + 1)

unfoldable pub file_truncate : ℕ → ℕ → Cmd Server (Unit {0})
unfolding clear_loop update
file_truncate f newsize = do
  size ← load (f_size f)
  let new_nblocks = if newsize == 0 then 0 else newsize / 4096 + 1
  clear_loop f (size / 4096 + 1 - new_nblocks) new_nblocks
  indirect ← load (f_indirect f)
  if leb new_nblocks ndirect && indirect != 0
      then (do modify (free_block indirect); store (f_indirect f) 0)
      else pure tt
  store (f_size f) newsize

-- the loop of `fs_sync`
unfoldable pub sync_loop : ℕ → ℕ → Cmd Server (Unit {0})
sync_loop zero i = pure tt
sync_loop (suc rounds) i = do
  dirtied ← block_is_dirty i
  if dirtied then write_block i else pure tt
  sync_loop rounds (i + 1)

unfoldable pub fs_sync : Cmd Server (Unit {0})
unfolding sync_loop
fs_sync s = sync_loop (nblocks s) 0 s
