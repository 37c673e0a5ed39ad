-- ===== src/User/Transfer.antt =====
-- user/lib/fd.c: `read`, `readn`, `write` and `seek` over a table of devices, and `file_read` of
-- user/lib/file.c. The program's memory is a function from addresses to bytes; descriptors and the
-- sizes of the files behind them are by the address of the descriptor. The loop of `readn` has at
-- most as many rounds as it reads bytes.
pub mod Source
pub mod Advanced
pub mod Moved
pub mod Readn
use Prim.Native.Nat.{bit_and}
use buaa_os_mos_with_fat.Base.{
  ℕ, zero, suc, ◌+◌, ◌-◌, ◌%◌, ◌^◌, Bool, true, false, ◌==◌, ◌!=◌, ltb, if◌then◌else◌, List, [],
  ◌∷◌, inval, Run, ok, err, panic, Cmd, pure, fail, stop, get, modify, assert, ◌>>=◌, ◌>>◌,
}
use buaa_os_mos_with_fat.Base.Bitmap.{Words}
use buaa_os_mos_with_fat.User.Descriptors.{Tables, fd_lookup, fd2data}

pub record Fd : Type 0 where
  pub fd_dev_id : ℕ
  pub fd_offset : ℕ
  pub fd_omode : ℕ
  pub fd_fat : ℕ

pub record World : Type 0 where
  pub tables : Tables
  pub fd : ℕ → Fd
  pub f_size : ℕ → ℕ
  pub fat_size : ℕ → ℕ
  pub mem : Words

-- the members of `struct Dev` that transfer bytes
pub record Dev : Type 0 where
  pub dev_id : ℕ
  pub dev_read : (fd buf n offset : ℕ) → Cmd World ℕ
  pub dev_write : (fd buf n offset : ℕ) → Cmd World ℕ

-- the loop of `dev_lookup`
unfoldable pub dev_lookup : List Dev → ℕ → Cmd World Dev
dev_lookup [] id w = err inval w
dev_lookup (d ∷ devtab) id w =
    let rest = dev_lookup devtab id w in if d.dev_id == id then ok d w else rest

abbrev pub in_tables : Run Tables ℕ → Cmd World ℕ
in_tables (ok a t) w = ok a (record w { tables = t })
in_tables (err e t) w = err e (record w { tables = t })
in_tables Run.panic w = panic

unfoldable pub set_offset : (fd offset : ℕ) → World → World
set_offset fd offset w = record w {
  fd = λ a. if a == fd then (let d : Fd = w.fd a in record d { fd_offset = offset }) else w.fd a;
}

-- `if (r > 0) fd->fd_offset += r;`
unfoldable pub advance : (fd r : ℕ) → Cmd World ℕ
unfolding set_offset
advance fd r w = ok r (if ltb 0 r then set_offset fd (((w.fd fd).fd_offset + r) % 2 ^ 32) w else w)

module _ (devtab : List Dev) where
  unfoldable pub read : (fdnum buf n : ℕ) → Cmd World ℕ
  unfolding dev_lookup advance
  read fdnum buf n = do
    fd ← λ w. in_tables (fd_lookup fdnum w.tables) w
    w ← get
    dev ← dev_lookup devtab (w.fd fd).fd_dev_id
    if bit_and (w.fd fd).fd_omode 3 == 1
        then fail inval
        else (dev.dev_read fd buf n (w.fd fd).fd_offset >>= advance fd)

  unfoldable pub write : (fdnum buf n : ℕ) → Cmd World ℕ
  unfolding dev_lookup advance
  write fdnum buf n = do
    fd ← λ w. in_tables (fd_lookup fdnum w.tables) w
    w ← get
    dev ← dev_lookup devtab (w.fd fd).fd_dev_id
    if bit_and (w.fd fd).fd_omode 3 == 0
        then fail inval
        else (dev.dev_write fd buf n (w.fd fd).fd_offset >>= advance fd)

  -- the loop of `readn`: the rounds left, and `tot`
  unfoldable pub readn_loop : (rounds tot fdnum buf n : ℕ) → Cmd World ℕ
  unfolding read
  readn_loop zero tot fdnum buf n = if ltb tot n then stop else pure tot
  readn_loop (suc rounds) tot fdnum buf n =
      if ltb tot n
      then (do
        m ← read fdnum (buf + tot) (n - tot)
        if m == 0 then pure tot else readn_loop rounds (tot + m) fdnum buf n)
      else pure tot

  unfoldable pub readn : (fdnum buf n : ℕ) → Cmd World ℕ
  unfolding readn_loop
  readn fdnum buf n = readn_loop n 0 fdnum buf n

unfoldable pub seek : (fdnum offset : ℕ) → Cmd World (Unit {0})
unfolding set_offset
seek fdnum offset = do
  fd ← λ w. in_tables (fd_lookup fdnum w.tables) w
  modify (set_offset fd offset)

-- `memcpy` between places that do not overlap
unfoldable pub copy : (dst src n : ℕ) → Words → Words
copy dst src n m x = if ltb x dst then m x else if ltb (x - dst) n then m (src + (x - dst)) else m x

-- what both readers do with the size
unfoldable pub read_part : (size fd buf n offset : ℕ) → Cmd World ℕ
unfolding copy fd2data
read_part size fd buf n offset w =
    let count : ℕ = if ltb size ((offset + n) % 2 ^ 32) then size - offset else n in
    if ltb size offset
    then ok 0 w
    else ok count (record w { mem = copy buf (fd2data fd + offset) count w.mem })

unfoldable pub file_read_fat : (fd buf n offset : ℕ) → Cmd World ℕ
unfolding read_part
file_read_fat fd buf n offset = do
  w ← get
  assert ((w.fd fd).fd_fat != 0)
  read_part (w.fat_size fd) fd buf n offset

unfoldable pub file_read : (fd buf n offset : ℕ) → Cmd World ℕ
unfolding file_read_fat read_part
file_read fd buf n offset w =
    if (w.fd fd).fd_fat != 0
    then file_read_fat fd buf n offset w
    else read_part (w.f_size fd) fd buf n offset w
