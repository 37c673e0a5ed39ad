-- ===== src/Tests/Opens.antt =====
-- A table of which a client has the first page, and the second has been used before.
use buaa_os_mos_with_fat.Base.{◌≡◌, refl, false, ◌==◌, if◌then◌else◌, ok}
use buaa_os_mos_with_fat.Fs.Opens.{Table, maxopen, serve_init, give, open_alloc}
use buaa_os_mos_with_fat.Fs.Opens.Allocated.{Opened, open_alloc-Opened, serve_init-IsNumbered}

abbrev table : Table
table = serve_init (record {
  o_fileid = λ i. 0;
  refs = λ i. if i == 0 then 2 else if i == 1 then 1 else 0;
  pages = λ i w. 1;
})

second : (n : Table) × (open_alloc false table ≡ ok (1, 1025) n)
unfolding open_alloc give serve_init
second = (_, refl)

open_alloc-Opened_example : Opened false maxopen 0 table (open_alloc false table)
open_alloc-Opened_example = open_alloc-Opened false table (serve_init-IsNumbered _)
