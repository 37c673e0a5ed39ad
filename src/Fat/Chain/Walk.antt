-- ===== src/Fat/Chain/Walk.antt =====
-- `fat_total_clus` and `fat_walk_cluster` where they only read.
use buaa_os_mos_with_fat.Base.{
  ℕ, zero, suc, ◌+◌, ◌*◌, ◌/◌, ◌≤◌, ◌<◌, ◌≡◌, ◌≢◌, refl, Bool, true, false, ◌==◌, leb,
  if◌then◌else◌, List, [], ◌∷◌, length, get_or, Option, arith, sym, ap, ◌∙◌, Run, ok, err,
  not_found,
}
use native.Mathlib.Nat.{lt-div-mul-add}
use buaa_os_mos_with_fat.Fat.Layout.{by2clus_pos}
use buaa_os_mos_with_fat.Fat.Defs.{Fat, eof_fat32, by2clus, by2pg, fat_disk_max}
use buaa_os_mos_with_fat.Fat.Table.Alloc.{entries}
use buaa_os_mos_with_fat.Fat.Chain.{
  FileEntry, first_of, total_loop, fat_total_clus, walk_clusters, fat_walk_cluster,
}
use buaa_os_mos_with_fat.Fat.Chain.Linked.{Chain}
use buaa_os_mos_with_fat.Fat.Chain.Cutting.{Sound}

pub walk_on :
    (granted alloc : Bool) (f : Fat) (d rounds : ℕ)
    → f.fat1 d ≢ eof_fat32
    → walk_clusters granted alloc (suc rounds) d f ≡ walk_clusters granted alloc rounds (f.fat1 d) f
unfolding walk_clusters
walk_on granted alloc f d rounds h =
    let test : (f.fat1 d == eof_fat32) ≡ false = ground arith in rw test refl

walk_stop :
    (granted : Bool) (f : Fat) (d rounds : ℕ)
    → f.fat1 d ≡ eof_fat32
    → walk_clusters granted false (suc rounds) d f ≡ err not_found f
unfolding walk_clusters
walk_stop granted f d rounds h =
    let test : (f.fat1 d == eof_fat32) ≡ true = ground arith in rw test refl

entry_small :
    (clus d b : ℕ) → b ≤ by2pg → 0 < b → (clus + d * 4 / b) * b < fat_disk_max → d < eof_fat32
entry_small clus d b small pos fits = omega (
  arith,
  lt-div-mul-add {a = d * 4} pos,
  product_mono (d * 4 / b) (clus + d * 4 / b) b (omega arith),
)
  where
    product_mono : (x y z : ℕ) → x ≤ y → x * z ≤ y * z
    product_mono x y z h = grind arith

-- no entry is mistaken for the mark of the end
pub entry-eof : (f : Fat) (d : ℕ) → Sound f → d < entries f.super → d ≢ eof_fat32
entry-eof f d (v, a, s) h = λ e. omega (
  arith,
  entry_small f.fat1_clus_no d (by2clus f.super) v.page_holds (by2clus_pos f.super v.some_sectors)
      (v.table_fits d h),
)

total_stop : (f : Fat) (rounds d i : ℕ) → f.fat1 d ≡ eof_fat32 → total_loop rounds d i f ≡ ok i f
unfolding total_loop
total_stop f zero d i h = let test : (f.fat1 d == eof_fat32) ≡ true = ground arith in rw test refl
total_stop f (suc rounds) d i h =
    let test : (f.fat1 d == eof_fat32) ≡ true = ground arith in rw test refl

total_on :
    (f : Fat) (rounds d i : ℕ)
    → f.fat1 d ≢ eof_fat32
    → total_loop (suc rounds) d i f ≡ total_loop rounds (f.fat1 d) (i + 1) f
unfolding total_loop
total_on f rounds d i h = let test : (f.fat1 d == eof_fat32) ≡ false = ground arith in rw test refl

total_lem :
    (f : Fat) (rounds c i : ℕ) (cs : List ℕ)
    → Sound f
    → Chain f.fat1 (entries f.super) (f.fat1 c) cs
    → length cs ≤ rounds
    → total_loop rounds c i f ≡ ok (i + length cs) f
total_lem f rounds c i [] sound ends h =
    let e : i ≡ i + 0 = omega arith in total_stop f rounds c i ends ∙ ap (λ n. ok n f) e
total_lem f zero c i (d ∷ cs) sound chain h = absurd (omega arith)
total_lem f (suc rounds) c i (d ∷ cs) sound (next, low, high, once, chain) h =
    let e : i + 1 + length cs ≡ i + suc (length cs) = omega arith in
    total_on f rounds c i (λ g. entry-eof f d sound high (sym next ∙ g))
    ∙ ap (λ x. total_loop rounds x (i + 1) f) next
    ∙ total_lem f rounds d (i + 1) cs sound chain (omega arith)
    ∙ ap (λ n. ok n f) e

-- what a walk of k clusters finds
abbrev found_at : Fat → (k : ℕ) → List ℕ → ℕ → Run Fat ℕ
found_at f k cs last = if leb k last then ok (get_or cs k 0) f else err not_found f

walk_lem :
    (granted : Bool) (f : Fat) (k c : ℕ) (cs : List ℕ)
    → Sound f
    → Chain f.fat1 (entries f.super) (f.fat1 c) cs
    → walk_clusters granted false k c f ≡ found_at f k (c ∷ cs) (length cs)
walk_lem granted f zero c cs sound chain =
    let test : leb 0 (length cs) ≡ true = ground arith in rw test (unfold walk_clusters in refl)
walk_lem granted f (suc k) c [] sound ends =
    let test : leb (suc k) 0 ≡ false = ground arith in rw test (walk_stop granted f c k ends)
walk_lem granted f (suc k) c (d ∷ cs) sound (next, low, high, once, chain) =
    let test : leb k (length cs) ≡ leb (suc k) (suc (length cs)) = ground arith in
    walk_on granted false f c k (λ g. entry-eof f d sound high (sym next ∙ g))
    ∙ ap (λ x. walk_clusters granted false k x f) next
    ∙ walk_lem granted f k d cs sound chain
    ∙ ap (λ b. if b then ok (get_or (d ∷ cs) k 0) f else err not_found f) test

-- On a disk in order, `fat_total_clus` gets to the end of each chain, in as many rounds as the chain
-- has links, and returns that number. `fat_walk_cluster` that may not allocate returns cluster k of
-- the chain if k is at most that number, and -E_NOT_FOUND for a greater k; it changes nothing. The
-- chain is that of the file, or of the root directory where there is none.
pub fat_walk_cluster-total :
    (granted : Bool) (f : Fat) (file : Option FileEntry) (rounds c : ℕ) (cs : List ℕ)
    → Sound f
    → Chain f.fat1 (entries f.super) (first_of file f) (c ∷ cs)
    → length cs ≤ rounds
    → (total : ℕ) × (total ≡ length cs)
      × (fat_total_clus rounds file f ≡ ok total f)
      × ((k : ℕ)
          → fat_walk_cluster granted false file k f
            ≡ (if leb k total then ok (get_or (c ∷ cs) k 0) f else err not_found f))
unfolding fat_total_clus fat_walk_cluster
fat_walk_cluster-total granted f file rounds c cs sound chain h =
    let zero_first : 0 + length cs ≡ length cs = omega arith in
    (
      length cs,
      refl,
      ap (λ d. total_loop rounds d 0 f) chain.0
          ∙ total_lem f rounds c 0 cs sound chain.4 h
          ∙ ap (λ n. ok n f) zero_first,
      λ k.
          ap (λ d. walk_clusters granted false k d f) chain.0
          ∙ walk_lem granted f k c cs sound chain.4,
    )
