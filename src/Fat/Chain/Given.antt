-- ===== src/Fat/Chain/Given.antt =====
-- `fat_alloc_cluster` on a disk in order, when the kernel gives the page.
use buaa_os_mos_with_fat.Base.{
  ℕ, ◌+◌, ◌*◌, ◌/◌, ◌≤◌, ◌<◌, ◌≡◌, refl, true, false, ◌==◌, if◌then◌else◌, arith, Bool-cases, inl,
  inr, sym, ap, ◌∙◌, ok,
}
use mathlib.Core.Path.{subst}
use buaa_os_mos_with_fat.Fat.Defs.{
  Super, Fat, eof_fat32, by2clus, by2pg, fat_disk_map, fat_disk_max, data_to_clusno,
  fat_clus_is_mapped, align_with_page,
}
use buaa_os_mos_with_fat.Fat.Layout.{by2clus_pos, fat_diskaddr_lem}
use buaa_os_mos_with_fat.Fat.Table.{
  fat_alloc_cluster_num, fat_map_cluster, or_give_back, fat_alloc_cluster, fat_clus_is_free,
}
use buaa_os_mos_with_fat.Fat.Table.Mounted.{IsMounted, fat_clus_is_free_lem, data_to_clusno-lt}
use buaa_os_mos_with_fat.Fat.Table.Alloc.{entries, Allocated, fat_alloc_cluster_num-Allocated}
use buaa_os_mos_with_fat.Fat.Chain.Cutting.{Sound}

-- the cache has an address for each cluster of the disk
abbrev pub Addressable : Fat → Type 0
Addressable f = f.super.tot_clus * by2clus f.super ≤ fat_disk_max

-- a page more in the cache
abbrev with_page : ℕ → Fat → Fat
with_page p f = record f {
  mapped = λ q. if q == p then true else f.mapped q;
  dirty = λ q. if q == p then false else f.dirty q;
}

with_page-Sound : (p : ℕ) (f : Fat) → Sound f → Sound (with_page p f)
with_page-Sound p f (v, a, s) = (
  record {
    some_sectors = v.some_sectors;
    page_holds = v.page_holds;
    root_is_two = v.root_is_two;
    reserved_fit = v.reserved_fit;
    data_region = v.data_region;
    sectors_fit = v.sectors_fit;
    is_ready = v.is_ready;
    first_cached = ground (arith, v.first_cached);
    table_fits = v.table_fits;
    table_cached = λ d h. ground (arith, v.table_cached d h);
  },
  a,
  s,
)

mul_less : (a b c : ℕ) → a < b → 0 < c → a * c < b * c
mul_less a b c h pos = grind arith

-- another state with the same table
record Same (f g : Fat) : Type 0 where
  pub same_disk : g.super ≡ f.super
  pub table : (i : ℕ) → g.fat1 i ≡ f.fat1 i
  pub count : g.free_count ≡ f.free_count
  pub sound : Sound g

-- The page of the cluster is there afterwards.
fat_map_cluster-Same :
    (f : Fat) (clusno : ℕ)
    → clusno * by2clus f.super < fat_disk_max
    → Sound f
    → (g : Fat) × (fat_map_cluster true clusno f ≡ ok tt g) × Same f g
unfolding fat_map_cluster fat_clus_is_mapped
fat_map_cluster-Same f clusno fits sound =
    let va : ℕ = fat_disk_map + clusno * by2clus f.super in
    elim (Bool-cases (f.mapped (va / by2pg))) [
      | inl there ↦ (
        f,
        rw (fat_diskaddr_lem f clusno fits, there, fat_diskaddr_lem f clusno fits) refl,
        record { same_disk = refl; table = λ i. refl; count = refl; sound = sound },
      )
      | inr absent ↦ (
        with_page (align_with_page va / by2pg) f,
        rw (fat_diskaddr_lem f clusno fits, fat_diskaddr_lem f clusno fits, absent) refl,
        record {
          same_disk = refl;
          table = λ i. refl;
          count = refl;
          sound = with_page-Sound (align_with_page va / by2pg) f sound;
        },
      )
    ]

-- What has happened when cluster d has been given out.
pub record Given (f : Fat) (d : ℕ) (g : Fat) : Type 0 where
  pub same_disk : g.super ≡ f.super
  pub low : 2 ≤ d
  pub high : d < entries f.super
  pub was_free : f.fat1 d ≡ 0
  pub entry : (i : ℕ) → g.fat1 i ≡ (if d == i then eof_fat32 else f.fat1 i)
  pub fewer : g.free_count + 1 ≡ f.free_count
  pub sound : Sound g

after_mapping : (f g h : Fat) → Sound f → Allocated f f.nxt_free g → Same g h → Given f f.nxt_free h
after_mapping f g h (v, a, s) got same = record {
  same_disk = same.same_disk ∙ got.same_disk;
  low = a.hint_low;
  high = a.hint_in;
  was_free = got.was_free;
  entry = λ i. same.table i ∙ got.entry i;
  fewer = omega (arith, same.count, got.one_less);
  sound = same.sound;
}

alloc_split :
    (f g h : Fat) (d : ℕ)
    → fat_alloc_cluster_num f ≡ ok d g
    → fat_clus_is_free d g ≡ ok false g
    → fat_map_cluster true (data_to_clusno g.super d) g ≡ ok tt h
    → fat_alloc_cluster true f ≡ ok d h
unfolding fat_alloc_cluster or_give_back
alloc_split f g h d num used page = rw (num, used, page) refl

in_cache :
    (f : Fat) (d : ℕ)
    → IsMounted f
    → Addressable f
    → 2 ≤ d
    → d < entries f.super
    → data_to_clusno f.super d * by2clus f.super < fat_disk_max
in_cache f d v fits low high = omega (
  arith,
  mul_less (data_to_clusno f.super d) f.super.tot_clus (by2clus f.super)
      (data_to_clusno-lt v d low high) (by2clus_pos f.super v.some_sectors),
)

pub fat_alloc_cluster-Given :
    (f : Fat)
    → Sound f
    → Addressable f
    → 1 < f.free_count
    → (g : Fat) × (fat_alloc_cluster true f ≡ ok f.nxt_free g) × Given f f.nxt_free g
fat_alloc_cluster-Given f (v, a, s) fits enough =
    let (g, num, got) = fat_alloc_cluster_num-Allocated f v a s enough in
    let inside : f.nxt_free < entries g.super = rw got.same_disk a.hint_in in
    let used : (g.fat1 f.nxt_free == 0) ≡ false = ground (arith, got.entry f.nxt_free) in
    let test = fat_clus_is_free_lem g got.mounted f.nxt_free a.hint_low inside in
    let place : data_to_clusno g.super f.nxt_free * by2clus g.super < fat_disk_max =
      in_cache g f.nxt_free got.mounted
        (subst (λ (x : Super). x.tot_clus * by2clus x ≤ fat_disk_max) (sym got.same_disk) fits)
        a.hint_low inside in
    let (h, page, same) =
      fat_map_cluster-Same g (data_to_clusno g.super f.nxt_free) place
        (got.mounted, got.accurate, got.synced) in
    (
      h,
      alloc_split f g h f.nxt_free num (test ∙ ap (λ b. ok b g) used) page,
      after_mapping f g h (v, a, s) got same,
    )
