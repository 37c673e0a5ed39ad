-- ===== src/Tests/Disk.antt =====
-- A small FAT32 disk and a small disk of fs/fs.c.
use buaa_os_mos_with_fat.Base.{
  ℕ, ◌+◌, ◌-◌, ◌%◌, ◌≤◌, ◌<◌, ◌≡◌, refl, true, false, ◌==◌, ltb, if◌then◌else◌, ok, panic, arith,
}
use buaa_os_mos_with_fat.Fat.Defs.{Super, Fat, eof_fat32, align_with_page}
use buaa_os_mos_with_fat.Fat.Layout.{IsSound, align_with_page_lem}
use buaa_os_mos_with_fat.Fat.Table.{fat_alloc_cluster_num, fat_free_cluster}
use buaa_os_mos_with_fat.Fat.Table.Mounted.{IsMounted}
use buaa_os_mos_with_fat.Fat.Table.Count.{count_free}
use buaa_os_mos_with_fat.Fat.Table.Alloc.{
  IsAccurate, Allocated, fat_alloc_cluster_num-Allocated, fat_alloc_cluster_num-last,
}
use buaa_os_mos_with_fat.Fat.Table.Free.{
  Freed, fat_free_cluster-Freed, Restored, fat_free_cluster-alloc,
}
use buaa_os_mos_with_fat.Fs.Cache.{Server}
use buaa_os_mos_with_fat.Fs.Bitmap.{alloc_block_num}
use buaa_os_mos_with_fat.Fs.Bitmap.Alloc.{IsOpen, Given, alloc_block_num-Given}

abbrev small_super : Super
small_super = record {
  sect2clus = 1;
  num_of_reserved = 1;
  num_of_fats = 1;
  sec_per_fat = 1;
  root_clus = 2;
  tot_clus = 8;
}

-- entries 0 to `used - 1` are in use, of six
abbrev small : (used : ℕ) → Fat
small used = record {
  super = small_super;
  ready = true;
  fat1_clus_no = 1;
  fat1 = λ i. if ltb i used then eof_fat32 else 0;
  fat1_disk = λ i. if ltb i used then eof_fat32 else 0;
  free_count = 6 - used;
  nxt_free = used;
  mapped = λ p. true;
  dirty = λ p. false;
}

small_super-IsSound : IsSound small_super
small_super-IsSound = record {
  some_sectors = omega arith;
  root_fits = omega arith;
  region_fits = omega arith;
  total_fits = omega arith;
}

small-IsMounted : (used : ℕ) → IsMounted (small used)
small-IsMounted used = record {
  some_sectors = omega arith;
  page_holds = omega arith;
  root_is_two = refl;
  reserved_fit = omega arith;
  data_region = omega arith;
  sectors_fit = omega arith;
  is_ready = refl;
  first_cached = refl;
  table_fits = λ d h. omega arith;
  table_cached = λ d h. refl;
}

small-IsAccurate_4 : IsAccurate (small 4)
unfolding count_free
small-IsAccurate_4 = record {
  counted = refl;
  hint_low = omega arith;
  hint_in = omega arith;
  hint_free = refl;
  none_below = λ i h. ground arith;
}

small-IsAccurate_5 : IsAccurate (small 5)
unfolding count_free
small-IsAccurate_5 = record {
  counted = refl;
  hint_low = omega arith;
  hint_in = omega arith;
  hint_free = refl;
  none_below = λ i h. ground arith;
}

fat_alloc_cluster_num-Allocated_example :
    (g : Fat) × (fat_alloc_cluster_num (small 4) ≡ ok 4 g) × Allocated (small 4) 4 g
fat_alloc_cluster_num-Allocated_example =
    fat_alloc_cluster_num-Allocated (small 4) (small-IsMounted 4) small-IsAccurate_4 (λ i. refl)
      (omega arith)

fat_alloc_cluster_num-last_example : fat_alloc_cluster_num (small 5) ≡ panic
fat_alloc_cluster_num-last_example =
    fat_alloc_cluster_num-last (small 5) (small-IsMounted 5) small-IsAccurate_5 (omega arith)

fat_free_cluster-Freed_example :
    (g : Fat) × (fat_free_cluster 3 (small 4) ≡ ok tt g) × Freed (small 4) 3 g
fat_free_cluster-Freed_example =
    fat_free_cluster-Freed 3 (small 4) (small-IsMounted 4) small-IsAccurate_4 (λ i. refl)
      (omega arith) (omega arith) (omega arith)

fat_free_cluster-alloc_example :
    (g h : Fat) × (fat_alloc_cluster_num (small 4) ≡ ok 4 g)
    × (fat_free_cluster 4 g ≡ ok tt h)
    × Restored (small 4) h
fat_free_cluster-alloc_example =
    fat_free_cluster-alloc (small 4) (small-IsMounted 4) small-IsAccurate_4 (λ i. refl)
      (omega arith)

-- a disk of eight blocks, of which 6 and 7 are free
abbrev blocks : Server
blocks = record {
  cache = λ w. if w == 1025 then 8 else if w == 2048 then 0xc0 else 0;
  disk = λ w. if w == 1025 then 8 else if w == 2048 then 0xc0 else 0;
  mapped = λ b. ltb b 6;
  dirty = λ b. false;
  super_set = true;
  bitmap_set = true;
}

blocks-IsOpen : IsOpen blocks
blocks-IsOpen = record {
  has_super = refl;
  size_fits = omega arith;
  bitmap_read = λ b h. ground arith;
}

alloc_block_num-Given_example : Given 5 3 blocks (alloc_block_num blocks)
alloc_block_num-Given_example = alloc_block_num-Given blocks blocks-IsOpen (omega arith)

align_with_page_lem_example :
    (align_with_page 5000 ≤ 5000)
    × (5000 < align_with_page 5000 + 4096)
    × (align_with_page 5000 % 4096 ≡ 0)
align_with_page_lem_example = align_with_page_lem 5000
