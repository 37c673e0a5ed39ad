-- ===== src/Tests/Boot.antt =====
-- A machine with 64 pages, of which the kernel uses a little more than 16.
use buaa_os_mos_with_fat.Base.{◌+◌, ◌-◌, ◌/◌, ◌≡◌, refl, [], ok, arith}
use buaa_os_mos_with_fat.Kern.Pages.{Mem}
use buaa_os_mos_with_fat.Kern.Pages.Init.{page_init, Started, rounded, ulim, page_init-Started}

abbrev machine : Mem
machine = record { npage = 64; free = []; ref = λ p. 7; words = λ w. 0; flushes = [] }

page_init-Started_example :
    (v : Mem) × (page_init 0x8001_0004 machine ≡ ok (rounded 0x8001_0004) v)
    × Started 64 ((0x8001_0004 - ulim + 4095) / 4096) v
page_init-Started_example =
    page_init-Started 0x8001_0004 machine (omega arith) (omega arith) (omega arith)

its_end : rounded 0x8001_0004 ≡ 0x8001_1000
its_end = refl
