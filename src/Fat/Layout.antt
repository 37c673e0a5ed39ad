-- ===== src/Fat/Layout.antt =====
-- fs/fatfs.c: the two numberings of clusters and the cache's addresses are each other's inverses.
use buaa_os_mos_with_fat.Base.{ℕ, ◌+◌, ◌-◌, ◌*◌, ◌%◌, ◌<◌, ◌≤◌, ◌≡◌, true, arith, ok, leb, false}
use native.Mathlib.Nat.{mul-div_cancel, mod-eq_of_lt}
use buaa_os_mos_with_fat.Fat.Defs.{
  Super, Fat, word, by2clus, by2pg, first_data, fat_disk_map, fat_disk_max, is_data, clusno_to_data,
  data_to_clusno, fat_diskaddr, va_to_clusno, align_with_page,
}

-- What `fat_readBPB` finds on a disk that the driver can address: no `u_int` of the geometry
-- wraps, and a page holds whole clusters.
pub record IsSound (s : Super) : Type 0 where
  pub some_sectors : 0 < s.sect2clus
  pub root_fits : s.root_clus < word
  pub region_fits : s.num_of_reserved + s.num_of_fats * s.sec_per_fat < word
  pub total_fits : s.tot_clus < word

is_data_bounds :
    (s : Super) (clusno : ℕ)
    → is_data s clusno ≡ true
    → (first_data s ≤ clusno) × (clusno < s.tot_clus)
unfolding is_data
is_data_bounds s clusno h = ground arith

there_and_back :
    (c q r : ℕ)
    → q ≤ c
    → c < word
    → r < word
    → ((c + (word - q) + r) % word + q + (word - r)) % word ≡ c
there_and_back c q r h k l = omega arith

-- For a cluster of the data region, its number in the table leads back to it.
pub data_to_clusno-clusno_to_data :
    (s : Super) (clusno : ℕ)
    → IsSound s
    → is_data s clusno ≡ true
    → data_to_clusno s (clusno_to_data s clusno) ≡ clusno
unfolding clusno_to_data data_to_clusno
data_to_clusno-clusno_to_data s clusno v h = rw h (
    there_and_back clusno (first_data s) s.root_clus (is_data_bounds s clusno h).0
      (omega (arith, is_data_bounds s clusno h)) v.root_fits)

offset_fits : (n : ℕ) → n < fat_disk_max → n < word
offset_fits n h = omega arith

not_past : (n : ℕ) → n < fat_disk_max → leb fat_disk_max n ≡ false
not_past n h = ground arith

offset_back : (n : ℕ) → n < fat_disk_max → (fat_disk_map + n + (word - fat_disk_map)) % word ≡ n
offset_back n h = omega arith

pub by2clus_pos : (s : Super) → 0 < s.sect2clus → 0 < by2clus s
by2clus_pos s h = omega arith

pub fat_diskaddr_lem :
    (f : Fat) (clusno : ℕ)
    → clusno * by2clus f.super < fat_disk_max
    → fat_diskaddr clusno f ≡ ok (fat_disk_map + clusno * by2clus f.super) f
unfolding fat_diskaddr
fat_diskaddr_lem f clusno fits =
    rw (mod-eq_of_lt (offset_fits (clusno * by2clus f.super) fits), not_past _ fits)

-- The address of a cluster that fits in the cache's window leads back to the cluster.
pub va_to_clusno-fat_diskaddr :
    (f : Fat) (clusno : ℕ)
    → 0 < f.super.sect2clus
    → clusno * by2clus f.super < fat_disk_max
    → (va : ℕ) × (fat_diskaddr clusno f ≡ ok va f) × (va_to_clusno f.super va ≡ clusno)
unfolding va_to_clusno
va_to_clusno-fat_diskaddr f clusno h fits = (
  fat_disk_map + clusno * by2clus f.super,
  fat_diskaddr_lem f clusno fits,
  rw (offset_back (clusno * by2clus f.super) fits, mul-div_cancel clusno (by2clus_pos f.super h)),
)

-- `alignWithPage` rounds an address down to its page.
pub align_with_page_lem :
    (va : ℕ)
    → (align_with_page va ≤ va)
      × (va < align_with_page va + by2pg)
      × (align_with_page va % by2pg ≡ 0)
unfolding align_with_page
align_with_page_lem va = omega arith
