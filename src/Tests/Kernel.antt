-- ===== src/Tests/Kernel.antt =====
-- The kernel's tables on small inputs.
use buaa_os_mos_with_fat.Base.{◌≡◌, refl, true, each_below}
use buaa_os_mos_with_fat.Base.Bitmap.{Words, test_bit}
use buaa_os_mos_with_fat.Kern.Asid.{nasid, asid_alloc, Scanned, asid_alloc-smallest}

abbrev none_used : Words
none_used w = 0

-- all 64 in use
abbrev all_used : Words
all_used w = 0xffff_ffff

asid_alloc-smallest_example : Scanned nasid 0 none_used (asid_alloc none_used)
asid_alloc-smallest_example = asid_alloc-smallest none_used

all_used_table : each_below (test_bit all_used) 64 ≡ true
unfolding test_bit
all_used_table = refl
