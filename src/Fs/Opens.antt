-- ===== src/Fs/Opens.antt =====
-- fs/serv.c: a table of open files, `opentab` or `fat_opentab`, whose functions are the same.
-- (their entries i have one page, so `refs` is that of both). `refs` is what `pageref` says of the page of each entry, and `pages` the words of these pages.
pub mod Allocated
use buaa_os_mos_with_fat.Base.{
  ℕ, zero, suc, ◌+◌, ◌%◌, ◌^◌, Bool, true, false, ◌||◌, ◌==◌, ◌!=◌, if◌then◌else◌, no_mem, max_open,
  inval, Run, ok, err, Cmd,
}
use buaa_os_mos_with_fat.Base.Bitmap.{Words, update}

-- MAXOPEN
abbrev pub maxopen : ℕ
maxopen = 1024

pub record Table : Type 0 where
  pub o_fileid : ℕ → ℕ
  pub refs : ℕ → ℕ
  pub pages : ℕ → Words

-- `serve_init`, on a table whose pages are not there yet
unfoldable pub serve_init : Table → Table
serve_init t = record t { o_fileid = λ i. i }

-- `case 1`: the entry gets a new number, and its page is cleared
unfoldable pub give : (i : ℕ) → Cmd Table (ℕ × ℕ)
unfolding update
give i t =
    let id : ℕ = (t.o_fileid i + maxopen) % 2 ^ 32 in
    ok (i, id)
      (record t {
        o_fileid = update t.o_fileid i id;
        pages = λ j w. if j == i then 0 else t.pages j w;
      })

-- the rounds that are left, and `i`; `granted` is what the kernel answers to `syscall_mem_alloc`
unfoldable pub open_scan : (granted : Bool) → (rounds i : ℕ) → Cmd Table (ℕ × ℕ)
unfolding give update
open_scan granted zero i t = err max_open t
open_scan granted (suc rounds) i t =
    let rest = open_scan granted rounds (i + 1) t in
    if t.refs i == 0
    then (if granted then give i (record t { refs = update t.refs i 1 }) else err no_mem t)
    else if t.refs i == 1
    then give i t
    else rest

unfoldable pub open_alloc : (granted : Bool) → Cmd Table (ℕ × ℕ)
unfolding open_scan
open_alloc granted t = open_scan granted maxopen 0 t

abbrev pub fat_open_alloc : (granted : Bool) → Cmd Table (ℕ × ℕ)
fat_open_alloc granted t = open_alloc granted t

unfoldable pub open_lookup : (fileid : ℕ) → Cmd Table ℕ
open_lookup fileid t =
    let i : ℕ = fileid % maxopen in
    if t.refs i == 1 || t.o_fileid i != fileid then err inval t else ok i t

abbrev pub fat_open_lookup : (fileid : ℕ) → Cmd Table ℕ
fat_open_lookup fileid t = open_lookup fileid t

-- `ipc_send` of the page of an entry: the client has it too
unfoldable pub share : (i : ℕ) → Table → Table
unfolding update
share i t = record t { refs = update t.refs i (t.refs i + 1) }
