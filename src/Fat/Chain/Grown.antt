-- ===== src/Fat/Chain/Grown.antt =====
-- `fat_walk_cluster` where it may lengthen the chain.
use buaa_os_mos_with_fat.Base.{
  ℕ, zero, suc, ◌+◌, ◌-◌, ◌*◌, ◌≤◌, ◌<◌, ◌≡◌, ◌≢◌, refl, true, false, ◌==◌, List, [], ◌∷◌, ◌++◌,
  length, get_or, Option, arith, Bool-cases, inl, inr, sym, ap, ◌∙◌, ok,
}
use mathlib.Core.Path.{subst}
use mathlib.Core.List.{append-nil}
use buaa_os_mos_with_fat.Fat.Defs.{Super, Fat, eof_fat32, by2clus, fat_disk_max}
use buaa_os_mos_with_fat.Fat.Table.Alloc.{entries}
use buaa_os_mos_with_fat.Fat.Chain.{FileEntry, first_of, walk_clusters, fat_walk_cluster}
use buaa_os_mos_with_fat.Fat.Chain.Linked.{is_on, Chain}
use buaa_os_mos_with_fat.Fat.Chain.Cutting.{Sound}
use buaa_os_mos_with_fat.Fat.Chain.Walk.{walk_on, entry-eof}
use buaa_os_mos_with_fat.Fat.Chain.Given.{Addressable}
use buaa_os_mos_with_fat.Fat.Chain.Appended.{Appended, append_one, walk_grow}

is_on-append :
    (i : ℕ) (xs ys : List ℕ) → is_on i xs ≡ false → is_on i ys ≡ false → is_on i (xs ++ ys) ≡ false
is_on-append i [] ys h g = g
is_on-append i (x ∷ xs) ys h g =
    let tail = is_on-append i xs ys (ground (arith, h)) g in ground (arith, h, tail)

-- What `fat_walk_cluster` has done when it has gone `rounds` clusters from c on, along cs and the
-- new clusters.
pub record Walked (f : Fat) (c : ℕ) (cs : List ℕ) (rounds : ℕ) (g : Fat) (last : ℕ) (new : List ℕ)
    : Type 0 where
  pub same_disk : g.super ≡ f.super
  pub chain : Chain g.fat1 (entries f.super) c (c ∷ (cs ++ new))
  pub reached : get_or (c ∷ (cs ++ new)) rounds 0 ≡ last
  pub count : length new ≡ rounds - length cs
  pub were_free : (i : ℕ) → is_on i new ≡ true → f.fat1 i ≡ 0
  pub others : (i : ℕ) → is_on i (c ∷ cs) ≡ false → is_on i new ≡ false → g.fat1 i ≡ f.fat1 i
  pub fewer : g.free_count + length new ≡ f.free_count
  pub sound : Sound g

-- a cluster in use is not new
in_use :
    (f : Fat) (i : ℕ) (new : List ℕ)
    → ((j : ℕ) → is_on j new ≡ true → f.fat1 j ≡ 0)
    → f.fat1 i ≢ 0
    → is_on i new ≡ false
in_use f i new free used = elim (Bool-cases (is_on i new)) [
  | inl on ↦ absurd (used (free i on))
  | inr off ↦ off
]

not_moved :
    (f : Fat) (c : ℕ) (cs : List ℕ)
    → Sound f
    → Chain f.fat1 (entries f.super) c (c ∷ cs)
    → Walked f c cs 0 f c []
not_moved f c cs sound chain = record {
  same_disk = refl;
  chain = subst (λ x. Chain f.fat1 (entries f.super) c (c ∷ x)) (sym (append-nil cs)) chain;
  reached = refl;
  count = omega arith;
  were_free = λ i on. cc on;
  others = λ i off none. refl;
  fewer = omega arith;
  sound = sound;
}

-- a step along the chain
one_on :
    (f g : Fat) (c d : ℕ) (cs new : List ℕ) (rounds last : ℕ)
    → Chain f.fat1 (entries f.super) c (c ∷ d ∷ cs)
    → Walked f d cs rounds g last new
    → Walked f c (d ∷ cs) (suc rounds) g last new
one_on f g c d cs new rounds last (here, low, high, once, left) v =
    let next = left.0 in
    let big = left.1 in
    let off = in_use f c new v.were_free (λ e. omega arith) in
    let same : g.fat1 c ≡ d = v.others c once off ∙ next in
    record {
      same_disk = v.same_disk;
      chain = (
        refl,
        low,
        high,
        is_on-append c (d ∷ cs) new once off,
        subst (λ x. Chain g.fat1 (entries f.super) x (d ∷ (cs ++ new))) (sym same) v.chain,
      );
      reached = v.reached;
      count = omega (arith, v.count);
      were_free = v.were_free;
      others = λ i away none. v.others i (ground (arith, away)) none;
      fewer = v.fewer;
      sound = v.sound;
    }

new_free :
    (f h : Fat) (c num i : ℕ) (new : List ℕ)
    → Appended f c num h
    → (is_on i new ≡ true → h.fat1 i ≡ 0)
    → is_on i (num ∷ new) ≡ true
    → f.fat1 i ≡ 0
new_free f h c num i new got free on = elim (Bool-cases (num == i)) [
  | inl same ↦ let e : i ≡ num = ground arith in ap f.fat1 e ∙ got.was_free
  | inr other ↦
      let zero_then = free (ground (arith, on, other)) in
      ground (arith, zero_then, got.entry i, other, got.low)
]

-- a step to a new cluster
one_new :
    (f h g : Fat) (c num : ℕ) (new : List ℕ) (rounds last : ℕ)
    → Sound f
    → 2 ≤ c
    → c < entries f.super
    → f.fat1 c ≡ eof_fat32
    → Appended f c num h
    → Walked h num [] rounds g last new
    → Walked f c [] (suc rounds) g last (num ∷ new)
one_new f h g c num new rounds last sound low high ends got v =
    let other : c ≢ num = λ e. omega (arith, ap f.fat1 e, got.was_free) in
    let linked : h.fat1 c ≡ num = got.entry c ∙ ground arith in
    let off = in_use h c new v.were_free (λ e. omega (arith, got.low)) in
    let apart : is_on c (num ∷ []) ≡ false = ground arith in
    let same : g.fat1 c ≡ num = v.others c apart off ∙ linked in
    record {
      same_disk = v.same_disk ∙ got.same_disk;
      chain = (
        refl,
        low,
        high,
        is_on-append c (num ∷ []) new apart off,
        subst (λ x. Chain g.fat1 (entries f.super) x (num ∷ new)) (sym same)
            (subst (λ (x : Super). Chain g.fat1 (entries x) num (num ∷ new)) got.same_disk v.chain),
      );
      reached = v.reached;
      count = omega (arith, v.count);
      were_free = λ i on. new_free f h c num i new got (v.were_free i) on;
      others = λ i away none.
          v.others i (ground (arith, none)) (ground (arith, none))
          ∙ got.entry i
          ∙ ground (arith, away, none);
      fewer = omega (arith, v.fewer, got.fewer);
      sound = v.sound;
    }

Appended-Chain :
    (f g : Fat) (c num : ℕ)
    → f.fat1 c ≡ eof_fat32
    → Appended f c num g
    → (g.fat1 c ≡ num) × Chain g.fat1 (entries g.super) num (num ∷ [])
Appended-Chain f g c num ends got =
    let other : c ≢ num = λ e. omega (arith, ap f.fat1 e, got.was_free) in
    (
      got.entry c ∙ ground arith,
      (refl, got.low, rw got.same_disk got.high, refl, got.entry num ∙ ground arith),
    )

walk_from :
    (f : Fat) (c : ℕ) (cs : List ℕ) (rounds : ℕ)
    → Sound f
    → Addressable f
    → Chain f.fat1 (entries f.super) c (c ∷ cs)
    → rounds < length cs + f.free_count
    → (last : ℕ) × (g : Fat) × (new : List ℕ) × (walk_clusters true true rounds c f ≡ ok last g)
      × Walked f c cs rounds g last new
walk_from f c cs zero sound fits chain enough =
    (c, f, [], unfold walk_clusters in refl, not_moved f c cs sound chain)
walk_from f c [] (suc rounds) sound fits (here, low, high, once, ends) enough =
    let (h, grown, got) = append_one f c sound fits (omega arith) high ends in
    let num : ℕ = f.nxt_free in
    let fits_then =
      subst (λ (x : Super). x.tot_clus * by2clus x ≤ fat_disk_max) (sym got.same_disk) fits in
    let (linked, alone) = Appended-Chain f h c num ends got in
    let (last, g, new, run, v) =
      walk_from h num [] rounds got.sound fits_then alone (omega (arith, got.fewer)) in
    (
      last,
      g,
      num ∷ new,
      walk_grow f h c rounds ends grown ∙ ap (λ d. walk_clusters true true rounds d h) linked ∙ run,
      one_new f h g c num new rounds last sound low high ends got v,
    )
walk_from f c (d ∷ cs) (suc rounds) sound fits (here, low, high, once, left) enough =
    let (last, g, new, run, v) =
      walk_from f d cs rounds sound fits (refl, left.1, left.2, left.3, left.4)
        (omega (arith, enough)) in
    (
      last,
      g,
      new,
      walk_on true true f c rounds (λ e. entry-eof f d sound left.2 (sym left.0 ∙ e))
          ∙ ap (λ x. walk_clusters true true rounds x f) left.0
          ∙ run,
      one_on f g c d cs new rounds last (here, low, high, once, left) v,
    )

-- On a disk in order whose clusters all have addresses in the cache, when the kernel gives pages and
-- there are more free clusters than the chain of the file lacks, `fat_walk_cluster` that may
-- allocate succeeds with cluster `f_clus_no` of the chain, which then goes on, behind the clusters
-- that it had, with as many clusters that were free as were missing. The other entries of the table
-- stay, the free clusters are that many fewer, and the disk is in order again. Without a file it is
-- the chain of the root directory.
pub fat_walk_cluster-Walked :
    (f : Fat) (file : Option FileEntry) (f_clus_no c : ℕ) (cs : List ℕ)
    → Sound f
    → Addressable f
    → Chain f.fat1 (entries f.super) (first_of file f) (c ∷ cs)
    → f_clus_no < length cs + f.free_count
    → (last : ℕ) × (g : Fat) × (new : List ℕ) × (fat_walk_cluster true true file f_clus_no f
        ≡ ok last g)
      × Walked f c cs f_clus_no g last new
unfolding fat_walk_cluster
fat_walk_cluster-Walked f file f_clus_no c cs sound fits chain enough =
    let (last, g, new, run, v) =
      walk_from f c cs f_clus_no sound fits (refl, chain.1, chain.2, chain.3, chain.4) enough in
    (last, g, new, ap (λ d. walk_clusters true true f_clus_no d f) chain.0 ∙ run, v)
