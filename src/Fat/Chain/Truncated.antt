-- ===== src/Fat/Chain/Truncated.antt =====
-- What `fat_file_truncate` does to the chain and to the table.
use buaa_os_mos_with_fat.Base.{
  ℕ, ◌+◌, ◌-◌, ◌/◌, ◌^◌, ◌≤◌, ◌<◌, ◌≡◌, refl, true, false, ◌&&◌, ◌==◌, ltb, if◌then◌else◌, List,
  length, take, drop, arith, sym, ap, ◌∙◌, ok, and_then, pure, assert,
}
use native.Mathlib.Nat.{le-div_iff_mul-le, div-mul-le_self}
use buaa_os_mos_with_fat.Fat.Layout.{by2clus_pos}
use buaa_os_mos_with_fat.Fat.Defs.{Fat, by2clus}
use buaa_os_mos_with_fat.Fat.Table.Alloc.{entries}
use buaa_os_mos_with_fat.Fat.Chain.{
  FileEntry, file_get_data_clus_no, clear_clus, cut_chain, clusters_of, fat_file_truncate,
}
use buaa_os_mos_with_fat.Fat.Chain.Linked.{is_on, Chain, length-drop}
use buaa_os_mos_with_fat.Fat.Chain.Cutting.{Sound, cut_chain-CutTo}

-- What `fat_file_truncate` has done to the file of the entry e with the clusters cs.
pub record Truncated (f : Fat) (e : FileEntry) (cs : List ℕ) (newsize : ℕ) (e' : FileEntry)
    (g : Fat) : Type 0 where
  pub same_disk : g.super ≡ f.super
  pub size : e'.file_size ≡ newsize
  pub kept :
      0 < newsize
      → (file_get_data_clus_no e' ≡ file_get_data_clus_no e)
        × Chain g.fat1 (entries f.super) (file_get_data_clus_no e) (take (clusters_of f newsize) cs)
  pub emptied : newsize ≡ 0 → file_get_data_clus_no e' ≡ 0
  pub freed : (i : ℕ) → is_on i (drop (clusters_of f newsize) cs) ≡ true → g.fat1 i ≡ 0
  pub others : (i : ℕ) → is_on i cs ≡ false → g.fat1 i ≡ f.fat1 i
  pub more : g.free_count ≡ f.free_count + (length cs - clusters_of f newsize)
  pub sound : Sound g

-- the entry that is left
abbrev left_entry : FileEntry → ℕ → FileEntry
left_entry e newsize =
    let left : FileEntry = if newsize == 0 then clear_clus e else e in
    record left { file_size = newsize }

truncate_run :
    (f g : Fat) (e : FileEntry) (newsize : ℕ)
    → 0 < e.file_size
    → e.file_size < 2 ^ 31
    → cut_chain
        (file_get_data_clus_no e)
        (clusters_of f newsize)
        (e.file_size / by2clus f.super + 1)
        f
      ≡ ok tt g
    → fat_file_truncate e newsize f ≡ ok (left_entry e newsize) g
unfolding fat_file_truncate
truncate_run f g e newsize some small run =
    let test : (ltb 0 e.file_size && ltb e.file_size (2 ^ 31)) ≡ true = ground arith in
    ap
      (λ b. and_then (assert b f) (λ _ h.
        and_then
          (cut_chain (file_get_data_clus_no e) (clusters_of h newsize)
            (e.file_size / by2clus h.super + 1) h)
          (λ _. pure (left_entry e newsize))))
      test
    ∙ ap (λ r. and_then r (λ _. pure (left_entry e newsize))) run

div_mono : (a c b : ℕ) → 0 < b → a ≤ c → a / b ≤ c / b
div_mono a c b pos h =
    (le-div_iff_mul-le {k = b} {x = a / b} {y = c} pos).1 (omega (arith, div-mul-le_self a b))

keep_few :
    (newsize size b n : ℕ)
    → 0 < b
    → newsize ≤ size
    → n ≡ size / b + 1
    → (if newsize == 0 then 0 else newsize / b + 1) ≤ n
keep_few newsize size b n pos h g = ground (arith, div_mono newsize size b pos h)

keep_some : (newsize b : ℕ) → 0 < newsize → 0 < (if newsize == 0 then 0 else newsize / b + 1)
keep_some newsize b h = ground arith

clus_left :
    (e : FileEntry) (newsize : ℕ)
    → 0 < newsize
    → file_get_data_clus_no (left_entry e newsize) ≡ file_get_data_clus_no e
unfolding file_get_data_clus_no
clus_left e newsize h = let some : (newsize == 0) ≡ false = ground arith in rw some refl

no_clus_left :
    (e : FileEntry) (newsize : ℕ) → newsize ≡ 0 → file_get_data_clus_no (left_entry e newsize) ≡ 0
unfolding file_get_data_clus_no clear_clus
no_clus_left e newsize h = rw h refl

size_left : (e : FileEntry) (newsize : ℕ) → (left_entry e newsize).file_size ≡ newsize
size_left e newsize = refl

-- On a disk in order, for a file whose chain has the clusters that its size stands for, a smaller
-- new size cuts the chain: the clusters that the new size stands for stay linked from the same first
-- cluster, or the entry has none when the new size is 0; the entries of the other clusters of the
-- chain become free, all further entries of the table stay, the free clusters are that many more,
-- the entry has the new size, and the disk is in order again.
pub fat_file_truncate-Truncated :
    (f : Fat) (e : FileEntry) (newsize : ℕ) (cs : List ℕ)
    → Sound f
    → Chain f.fat1 (entries f.super) (file_get_data_clus_no e) cs
    → length cs ≡ e.file_size / by2clus f.super + 1
    → newsize < e.file_size
    → e.file_size < 2 ^ 31
    → (e' : FileEntry) × (g : Fat) × (fat_file_truncate e newsize f ≡ ok e' g)
      × Truncated f e cs newsize e' g
fat_file_truncate-Truncated f e newsize cs sound chain len less small =
    let few =
      keep_few newsize e.file_size (by2clus f.super) (length cs)
        (by2clus_pos f.super sound.0.some_sectors) (omega arith) len in
    let (g, run, cut) =
      cut_chain-CutTo f (file_get_data_clus_no e) (clusters_of f newsize) cs sound chain few in
    let same_run =
      ap (λ n. cut_chain (file_get_data_clus_no e) (clusters_of f newsize) n f) (sym len) ∙ run in
    (
      left_entry e newsize,
      g,
      truncate_run f g e newsize (omega arith) small same_run,
      record {
        same_disk = cut.same_disk;
        size = size_left e newsize;
        kept = λ h. (clus_left e newsize h, cut.kept (keep_some newsize (by2clus f.super) h));
        emptied = no_clus_left e newsize;
        freed = cut.freed;
        others = cut.others;
        more = cut.more ∙ ap (λ n. f.free_count + n) (length-drop (clusters_of f newsize) cs);
        sound = cut.sound;
      },
    )
