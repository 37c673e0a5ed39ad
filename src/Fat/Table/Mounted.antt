-- ===== src/Fat/Table/Mounted.antt =====
-- A mounted disk, on which the table's operations do not panic, and what they compute there.
use native.Mathlib.Nat.{mul-add-div_right, mod-eq_of_lt, lt-div-mul-add, zero-mul}
use buaa_os_mos_with_fat.Base.{
  ℕ, zero, suc, ◌+◌, ◌-◌, ◌*◌, ◌/◌, ◌%◌, ◌≤◌, ◌<◌, ◌≡◌, refl, Bool, true, ◌==◌, arith, ok, le→leb,
  inl, inr, Bool-cases,
}
use buaa_os_mos_with_fat.Fat.Defs.{
  Super, Fat, word, by2clus, by2pg, first_data, root_sec, fat_disk_map, fat_disk_max,
  data_to_clusno, dirty_fat, write_cluster, copy_out, fat_clus_is_mapped,
}
use buaa_os_mos_with_fat.Fat.Layout.{fat_diskaddr_lem, by2clus_pos}
use buaa_os_mos_with_fat.Fat.Table.{alloc_limit, clusno_of, fat_clus_is_free, find_free}
use buaa_os_mos_with_fat.Fat.Table.Count.{first_free}

-- the cluster of the cache that holds entry d of the table
abbrev pub entry_clus : Super → ℕ → ℕ → ℕ
entry_clus s clus d = clus + d * 4 / by2clus s

-- The geometry, with the root directory at cluster 2, and the table and sector 0 in the cache.
pub record Mounted (s : Super) (ready : Bool) (clus : ℕ) (mapped : ℕ → Bool) : Type 0 where
  pub some_sectors : 0 < s.sect2clus
  pub page_holds : by2clus s ≤ by2pg
  pub root_is_two : s.root_clus ≡ 2
  pub reserved_fit : s.num_of_reserved + s.num_of_fats * s.sec_per_fat < word
  pub data_region : first_data s < s.tot_clus
  pub sectors_fit : s.tot_clus * s.sect2clus < word
  pub is_ready : ready ≡ true
  pub first_cached : mapped (fat_disk_map / by2pg) ≡ true
  pub table_fits :
      (d : ℕ) → d < s.tot_clus - first_data s → entry_clus s clus d * by2clus s < fat_disk_max
  pub table_cached :
      (d : ℕ)
      → d < s.tot_clus - first_data s
      → mapped ((fat_disk_map + entry_clus s clus d * by2clus s) / by2pg) ≡ true

abbrev pub IsMounted : Fat → Type 0
IsMounted f = Mounted f.super f.ready f.fat1_clus_no f.mapped

limit_number :
    (t q r : ℕ)
    → r ≡ 2
    → q < t
    → t < word
    → (t + (word - (2 + q + (word - r)) % word)) % word ≡ t - q
limit_number t q r h k l = omega arith

mul_mono : (a b c : ℕ) → a ≤ b → a * c ≤ b * c
mul_mono a b c h = grind arith

le_product : (a b : ℕ) → 0 < b → a ≤ a * b
le_product a b h = grind arith

sector_number :
    (d q t m r : ℕ) → d + q < t → r < q * m + m → t * m < word → 2 ≤ d → (d - 2) * m + r < word
sector_number d q t m r h k l two = omega (arith, mul_mono (d - 2 + q + 1) t m (omega arith))

in_region : (d q t r : ℕ) → r ≡ 2 → 2 ≤ d → d < t - q → t < word → (d + q + (word - r)) % word < t
in_region d q t r h k l m = omega arith

module _ {s : Super} {ready : Bool} {clus : ℕ} {mapped : ℕ → Bool}
    (v : Mounted s ready clus mapped) where
  pub total_fits : s.tot_clus < word
  total_fits = omega (arith, v.sectors_fit, le_product s.tot_clus s.sect2clus v.some_sectors)

  pub limit_lem : alloc_limit s ≡ s.tot_clus - first_data s
  unfolding data_to_clusno
  limit_lem =
      limit_number s.tot_clus (first_data s) s.root_clus v.root_is_two v.data_region total_fits

  pub clusno_of_lem :
      (d : ℕ) → 2 ≤ d → d < s.tot_clus - first_data s → clusno_of s d ≡ d - 2 + first_data s
  clusno_of_lem d h l =
      rw
        (mod-eq_of_lt (
          sector_number d (first_data s) s.tot_clus s.sect2clus (root_sec s) (omega arith)
            (lt-div-mul-add v.some_sectors) v.sectors_fit h))
        (mul-add-div_right v.some_sectors (d - 2) (root_sec s))

  pub data_to_clusno-lt :
      (d : ℕ) → 2 ≤ d → d < s.tot_clus - first_data s → data_to_clusno s d < s.tot_clus
  unfolding data_to_clusno
  data_to_clusno-lt d h l =
      in_region d (first_data s) s.tot_clus s.root_clus v.root_is_two h l total_fits

entry_number :
    (clus d b : ℕ)
    → b ≤ by2pg
    → 0 < b
    → (clus + d * 4 / b) * b < fat_disk_max
    → (d * 4 < word) × (clus + d * 4 / b < word)
entry_number clus d b small pos fits = (
  omega (
    arith,
    lt-div-mul-add {a = d * 4} pos,
    mul_mono (d * 4 / b) (clus + d * 4 / b) b (omega arith),
  ),
  omega (arith, le_product (clus + d * 4 / b) b pos),
)

-- The write of a cluster that is in the cache reaches the disk.
pub write_cluster_lem :
    (f : Fat) (clusno : ℕ)
    → clusno * by2clus f.super < fat_disk_max
    → f.mapped ((fat_disk_map + clusno * by2clus f.super) / by2pg) ≡ true
    → write_cluster clusno f ≡ ok tt (copy_out clusno f)
unfolding write_cluster
write_cluster_lem f clusno fits present = rw (fat_diskaddr_lem f clusno fits, present)

module _ (f : Fat) (v : IsMounted f) where
  cluster_pos : 0 < by2clus f.super
  cluster_pos = by2clus_pos f.super v.some_sectors

  first_mapped : fat_clus_is_mapped 0 f ≡ ok true f
  unfolding fat_clus_is_mapped
  first_mapped = rw (fat_diskaddr_lem f 0 (omega arith), zero-mul (by2clus f.super), v.first_cached)

  pub fat_clus_is_free_lem :
      (d : ℕ)
      → 2 ≤ d
      → d < f.super.tot_clus - first_data f.super
      → fat_clus_is_free d f ≡ ok (f.fat1 d == 0) f
  unfolding fat_clus_is_free
  fat_clus_is_free_lem d h l = rw (le→leb 2 d h, first_mapped, clusno_of_lem v d h l) (ground arith)

  pub dirty_fat_lem :
      (d : ℕ)
      → d < f.super.tot_clus - first_data f.super
      → dirty_fat d f ≡ ok tt (copy_out (entry_clus f.super f.fat1_clus_no d) f)
  unfolding dirty_fat
  dirty_fat_lem d l =
      rw
        (
          mod-eq_of_lt
              (entry_number f.fat1_clus_no d (by2clus f.super) v.page_holds cluster_pos
                (v.table_fits d l)).0,
          mod-eq_of_lt
              (entry_number f.fat1_clus_no d (by2clus f.super) v.page_holds cluster_pos
                (v.table_fits d l)).1,
        )
        (write_cluster_lem f _ (v.table_fits d l) (v.table_cached d l))

  pub find_free_lem :
      (rounds i : ℕ)
      → 2 ≤ i
      → i + rounds ≤ f.super.tot_clus - first_data f.super
      → find_free rounds i f ≡ ok (first_free f.fat1 rounds i) f
  unfolding find_free first_free
  find_free_lem zero i h l = refl
  find_free_lem (suc rounds) i h l =
      rw (fat_clus_is_free_lem i h (omega arith)) (elim (Bool-cases (f.fat1 i == 0)) [
        | inl free ↦ rw free refl
        | inr used ↦ rw used (find_free_lem rounds (i + 1) (omega arith) (omega arith))
      ])
