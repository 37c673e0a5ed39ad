-- ===== src/Fat/Chain/Appended.antt =====
-- A cluster that is put behind the last one of a chain.
use buaa_os_mos_with_fat.Base.{
  ℕ, suc, ◌+◌, ◌≤◌, ◌<◌, ◌≡◌, ◌≢◌, refl, true, ◌==◌, if◌then◌else◌, arith, ap, ◌∙◌, ok,
}
use buaa_os_mos_with_fat.Base.Bitmap.{update}
use buaa_os_mos_with_fat.Fat.Defs.{Fat, eof_fat32, copy_out}
use buaa_os_mos_with_fat.Fat.Table.{set_entry, fat_alloc_cluster}
use buaa_os_mos_with_fat.Fat.Table.Mounted.{dirty_fat_lem}
use buaa_os_mos_with_fat.Fat.Table.Alloc.{entries, stored, stored-Synced}
use buaa_os_mos_with_fat.Fat.Chain.{put_next, walk_clusters}
use buaa_os_mos_with_fat.Fat.Chain.Cutting.{Sound, relinked-Accurate}
use buaa_os_mos_with_fat.Fat.Chain.Given.{Addressable, fat_alloc_cluster-Given}

-- What has happened when cluster num has been put behind c, the last one of its chain.
pub record Appended (f : Fat) (c num : ℕ) (g : Fat) : Type 0 where
  pub same_disk : g.super ≡ f.super
  pub low : 2 ≤ num
  pub high : num < entries f.super
  pub was_free : f.fat1 num ≡ 0
  pub entry :
      (i : ℕ) → g.fat1 i ≡ (if c == i then num else if num == i then eof_fat32 else f.fat1 i)
  pub fewer : g.free_count + 1 ≡ f.free_count
  pub sound : Sound g

link_lem :
    (f : Fat) (c num : ℕ)
    → Sound f
    → c < entries f.super
    → f.fat1 c ≢ 0
    → num ≢ 0
    → (put_next c (ok num f) ≡ ok tt (stored c num f)) × Sound (stored c num f)
unfolding put_next copy_out set_entry
link_lem f c num (v, a, s) l used link = (
  dirty_fat_lem (set_entry c num f) v c l,
  (v, relinked-Accurate f c num a l used link, stored-Synced c num f s),
)

pub append_one :
    (f : Fat) (c : ℕ)
    → Sound f
    → Addressable f
    → 1 < f.free_count
    → c < entries f.super
    → f.fat1 c ≡ eof_fat32
    → (g : Fat) × (put_next c (fat_alloc_cluster true f) ≡ ok tt g) × Appended f c f.nxt_free g
unfolding copy_out set_entry update
append_one f c sound fits enough high last =
    let (g, run, got) = fat_alloc_cluster-Given f sound fits enough in
    let used : g.fat1 c ≡ eof_fat32 = got.entry c ∙ ground (arith, last) in
    let inside : c < entries g.super = rw got.same_disk high in
    let (linked, in_order) =
      link_lem g c f.nxt_free got.sound inside (λ e. omega (arith, used))
        (λ e. omega (arith, got.low)) in
    (
      stored c f.nxt_free g,
      ap (put_next c) run ∙ linked,
      record {
        same_disk = got.same_disk;
        low = got.low;
        high = got.high;
        was_free = got.was_free;
        entry = λ i. ground (arith, got.entry i);
        fewer = got.fewer;
        sound = in_order;
      },
    )

pub walk_grow :
    (f g : Fat) (d rounds : ℕ)
    → f.fat1 d ≡ eof_fat32
    → put_next d (fat_alloc_cluster true f) ≡ ok tt g
    → walk_clusters true true (suc rounds) d f ≡ walk_clusters true true rounds (g.fat1 d) g
unfolding walk_clusters
walk_grow f g d rounds h run =
    let test : (f.fat1 d == eof_fat32) ≡ true = ground arith in rw (test, run) refl
