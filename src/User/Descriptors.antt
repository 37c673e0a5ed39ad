-- ===== src/User/Descriptors.antt =====
-- user/lib/fd.c: file descriptors. Descriptor i has a page at FDTABLE + i * BY2PG; `dir_valid` and
-- `page_valid` say which entries of `vpd` and `vpt` have PTE_V. A descriptor is not negative. A read
-- of `vpt` where there is no page table does not return.
pub mod Found
use buaa_os_mos_with_fat.Base.{
  ℕ, zero, suc, ◌+◌, ◌-◌, ◌*◌, ◌/◌, ◌^◌, Bool, true, false, not, leb, if◌then◌else◌, max_open,
  inval, Run, ok, err, panic, Cmd,
}

pub record Tables : Type 0 where
  pub dir_valid : ℕ → Bool
  pub page_valid : ℕ → Bool

-- MAXFD, FILEBASE and FDTABLE
abbrev pub maxfd : ℕ
maxfd = 32

abbrev pub filebase : ℕ
filebase = 0x6000_0000

abbrev pub fdtable : ℕ
fdtable = filebase - 2 ^ 22

-- INDEX2FD and INDEX2DATA
abbrev pub index2fd : ℕ → ℕ
index2fd i = fdtable + i * 4096

abbrev pub index2data : ℕ → ℕ
index2data i = filebase + i * 2 ^ 22

unfoldable pub fd2num : ℕ → ℕ
fd2num fd = (fd - fdtable) / 4096

unfoldable pub num2fd : ℕ → ℕ
num2fd fd = fd * 4096 + fdtable

unfoldable pub fd2data : ℕ → ℕ
unfolding fd2num
fd2data fd = index2data (fd2num fd)

-- the rounds that are left, and `fdno`
unfoldable pub fd_scan : (rounds fdno : ℕ) → Cmd Tables ℕ
fd_scan zero fdno t = err max_open t
fd_scan (suc rounds) fdno t =
    let rest = fd_scan rounds (fdno + 1) t in
    let va : ℕ = index2fd fdno in
    if not (t.dir_valid (va / 2 ^ 22))
    then ok va t
    else if not (t.page_valid (va / 4096))
    then ok va t
    else rest

unfoldable pub fd_alloc : Cmd Tables ℕ
unfolding fd_scan
fd_alloc t = fd_scan (maxfd - 1) 0 t

unfoldable pub fd_lookup : (fdnum : ℕ) → Cmd Tables ℕ
fd_lookup fdnum t =
    if leb maxfd fdnum
    then panic
    else if not (t.dir_valid (index2fd fdnum / 2 ^ 22))
    then panic
    else if t.page_valid (index2fd fdnum / 4096)
    then ok (index2fd fdnum) t
    else err inval t
