-- ===== src/Tests/Chains.antt =====
-- A file of two clusters on a small disk.
use buaa_os_mos_with_fat.Base.{
  ℕ, ◌≡◌, refl, true, false, ◌==◌, ltb, leb, if◌then◌else◌, List, [], ◌∷◌, get_or, some, not_found,
  ok, err, arith,
}
use buaa_os_mos_with_fat.Fat.Defs.{Super, Fat, eof_fat32}
use buaa_os_mos_with_fat.Fat.Table.Mounted.{IsMounted}
use buaa_os_mos_with_fat.Fat.Table.Count.{count_free}
use buaa_os_mos_with_fat.Fat.Table.Alloc.{IsAccurate}
use buaa_os_mos_with_fat.Fat.Chain.{
  FileEntry, first_of, file_get_data_clus_no, fat_total_clus, fat_walk_cluster, fat_file_truncate,
}
use buaa_os_mos_with_fat.Fat.Chain.Cutting.{Sound}
use buaa_os_mos_with_fat.Fat.Chain.Truncated.{Truncated, fat_file_truncate-Truncated}
use buaa_os_mos_with_fat.Fat.Chain.Walk.{fat_walk_cluster-total}
use buaa_os_mos_with_fat.Fat.Chain.Grown.{Walked, fat_walk_cluster-Walked}

abbrev geometry : Super
geometry = record {
  sect2clus = 1;
  num_of_reserved = 1;
  num_of_fats = 1;
  sec_per_fat = 1;
  root_clus = 2;
  tot_clus = 12;
}

-- entries 0 to 4 of ten are in use: cluster 4 follows 2
abbrev table : ℕ → ℕ
table i = if i == 2 then 4 else if ltb i 5 then eof_fat32 else 0

abbrev disk : Fat
disk = record {
  super = geometry;
  ready = true;
  fat1_clus_no = 1;
  fat1 = table;
  fat1_disk = table;
  free_count = 5;
  nxt_free = 5;
  mapped = λ p. true;
  dirty = λ p. false;
}

abbrev file : FileEntry
file = record { hi1 = 0; hi0 = 0; lo1 = 0; lo0 = 2; file_size = 600 }

disk-IsMounted : IsMounted disk
disk-IsMounted = record {
  some_sectors = omega arith;
  page_holds = omega arith;
  root_is_two = refl;
  reserved_fit = omega arith;
  data_region = omega arith;
  sectors_fit = omega arith;
  is_ready = refl;
  first_cached = refl;
  table_fits = λ d h. omega arith;
  table_cached = λ d h. refl;
}

disk-IsAccurate : IsAccurate disk
unfolding count_free
disk-IsAccurate = record {
  counted = refl;
  hint_low = omega arith;
  hint_in = omega arith;
  hint_free = refl;
  none_below = λ i h. ground arith;
}

disk-Sound : Sound disk
disk-Sound = (disk-IsMounted, disk-IsAccurate, λ i. refl)

fat_file_truncate-Truncated_example :
    (e' : FileEntry) × (g : Fat) × (fat_file_truncate file 100 disk ≡ ok e' g)
    × Truncated disk file (2 ∷ 4 ∷ []) 100 e' g
fat_file_truncate-Truncated_example =
    fat_file_truncate-Truncated disk file 100 (2 ∷ 4 ∷ []) disk-Sound
      (unfold file_get_data_clus_no in
        (refl, omega arith, omega arith, refl, (refl, omega arith, omega arith, refl, refl)))
      refl (omega arith) (omega arith)

fat_walk_cluster-total_example :
    (total : ℕ) × (total ≡ 1)
    × (fat_total_clus 10 (some file) disk ≡ ok total disk)
    × ((k : ℕ)
        → fat_walk_cluster true false (some file) k disk
          ≡ (if leb k total then ok (get_or (2 ∷ 4 ∷ []) k 0) disk else err not_found disk))
fat_walk_cluster-total_example =
    fat_walk_cluster-total true disk (some file) 10 2 (4 ∷ []) disk-Sound
      (unfold first_of in
        (refl, omega arith, omega arith, refl, (refl, omega arith, omega arith, refl, refl)))
      (omega arith)

fat_walk_cluster-Walked_example :
    (last : ℕ) × (g : Fat) × (new : List ℕ) × (fat_walk_cluster true true (some file) 3 disk
      ≡ ok last g)
    × Walked disk 2 (4 ∷ []) 3 g last new
fat_walk_cluster-Walked_example =
    fat_walk_cluster-Walked disk (some file) 3 2 (4 ∷ []) disk-Sound (omega arith)
      (unfold first_of in
        (refl, omega arith, omega arith, refl, (refl, omega arith, omega arith, refl, refl)))
      (omega arith)
