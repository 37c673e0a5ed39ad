-- ===== src/Fat/Chain/Cutting.antt =====
-- What the loops of `fat_file_truncate` do to the chain and to the table.
use buaa_os_mos_with_fat.Base.{
  ℕ, zero, suc, ◌+◌, ◌-◌, ◌≤◌, ◌<◌, ◌≡◌, ◌≢◌, refl, Bool, true, false, ltb, if◌then◌else◌, List, [],
  ◌∷◌, length, take, drop, arith, sym, ap, ◌∙◌, ok, and_then, pure, ◌>>◌,
}
use mathlib.Core.Path.{subst}
use buaa_os_mos_with_fat.Base.Bitmap.{update, update_ne}
use buaa_os_mos_with_fat.Fat.Defs.{Super, Fat, eof_fat32, copy_out}
use buaa_os_mos_with_fat.Fat.Table.{set_entry}
use buaa_os_mos_with_fat.Fat.Table.Mounted.{IsMounted, dirty_fat_lem}
use buaa_os_mos_with_fat.Fat.Table.Count.{count_free-update}
use buaa_os_mos_with_fat.Fat.Table.Alloc.{
  entries, Accurate, IsAccurate, Synced, stored, stored-Synced,
}
use buaa_os_mos_with_fat.Fat.Table.Free.{Freed, fat_free_cluster-Freed}
use buaa_os_mos_with_fat.Fat.Chain.{follow, free_rest, end_chain, cut_chain}
use buaa_os_mos_with_fat.Fat.Chain.Linked.{
  is_on, Chain, same-Chain, Chain-nonzero, Chain-used, length-drop, take-drop_apart, is_on-drop,
  other_on, Cut, follow-Cut,
}

-- a disk in order
abbrev pub Sound : Fat → Type 0
Sound f = IsMounted f × IsAccurate f × Synced f

-- What has happened when the clusters of the list have been given back.
pub record AllFreed (f : Fat) (cs : List ℕ) (g : Fat) : Type 0 where
  pub same_disk : g.super ≡ f.super
  pub entry : (i : ℕ) → g.fat1 i ≡ (if is_on i cs then 0 else f.fat1 i)
  pub more : g.free_count ≡ f.free_count + length cs
  pub sound : Sound g

free_more :
    (f g h : Fat) (c : ℕ) (cs : List ℕ) → Freed f c g → AllFreed g cs h → AllFreed f (c ∷ cs) h
free_more f g h c cs once rest = record {
  same_disk = rest.same_disk ∙ once.same_disk;
  entry = λ i. ground (arith, rest.entry i, once.entry i);
  more = omega (arith, rest.more, once.one_more);
  sound = rest.sound;
}

if-false : (b : Bool) (x y : ℕ) → b ≡ false → (if b then x else y) ≡ y
if-false b x y e = rw e refl

pub free_rest-AllFreed :
    (f : Fat) (d : ℕ) (cs : List ℕ)
    → Sound f
    → Chain f.fat1 (entries f.super) d cs
    → (g : Fat) × (free_rest (length cs) d f ≡ ok tt g) × AllFreed f cs g
unfolding free_rest
free_rest-AllFreed f d [] sound chain =
    (f, refl, record { same_disk = refl; entry = λ i. refl; more = omega arith; sound = sound })
free_rest-AllFreed f d (c ∷ cs) (v, a, s) (here, low, high, once, chain) =
    let (g, run, freed) =
      fat_free_cluster-Freed c f v a s low high (Chain-nonzero f.fat1 _ (f.fat1 c) cs chain) in
    let left =
      subst (λ (x : Super). Chain g.fat1 (entries x) (f.fat1 c) cs) (sym freed.same_disk)
        (same-Chain f.fat1 g.fat1 (entries f.super) (f.fat1 c) cs
          (λ i on. freed.entry i ∙ if-false _ 0 (f.fat1 i) (other_on c i cs once on)) chain) in
    let (h, more, all) =
      free_rest-AllFreed g (f.fat1 c) cs (freed.mounted, freed.accurate, freed.synced) left in
    subst (λ x. (h : Fat) × (free_rest (suc (length cs)) x f ≡ ok tt h) × AllFreed f (c ∷ cs) h)
      (sym here) (h, rw run more, free_more f g h c cs freed all)

-- An entry in use that links to another cluster, or ends the chain, leaves the counters right.
pub relinked-Accurate :
    (f : Fat) (d v : ℕ)
    → IsAccurate f
    → d < entries f.super
    → f.fat1 d ≢ 0
    → v ≢ 0
    → Accurate f.super (update f.fat1 d v) f.free_count f.nxt_free
unfolding update
relinked-Accurate f d v a l used link = record {
  counted = ground (arith, a.counted, count_free-update f.fat1 d v (entries f.super) l);
  hint_low = omega (arith, a.hint_low);
  hint_in = omega (arith, a.hint_in);
  hint_free = ground (arith, a.hint_free);
  none_below = λ i p. ground (arith, a.none_below i);
}

pub end_chain_lem :
    (f : Fat) (d : ℕ)
    → Sound f
    → d < entries f.super
    → f.fat1 d ≢ 0
    → (end_chain d f ≡ ok tt (stored d eof_fat32 f)) × Sound (stored d eof_fat32 f)
unfolding end_chain copy_out set_entry
end_chain_lem f d (v, a, s) l used = (
  dirty_fat_lem (set_entry d eof_fat32 f) v d l,
  (v, relinked-Accurate f d eof_fat32 a l used (λ e. omega arith), stored-Synced d eof_fat32 f s),
)

-- What the two loops of `fat_file_truncate` have done to the chain cs of d when k clusters are kept.
pub record CutTo (f : Fat) (d : ℕ) (cs : List ℕ) (k : ℕ) (g : Fat) : Type 0 where
  pub same_disk : g.super ≡ f.super
  pub kept : 0 < k → Chain g.fat1 (entries f.super) d (take k cs)
  pub freed : (i : ℕ) → is_on i (drop k cs) ≡ true → g.fat1 i ≡ 0
  pub others : (i : ℕ) → is_on i cs ≡ false → g.fat1 i ≡ f.fat1 i
  pub more : g.free_count ≡ f.free_count + length (drop k cs)
  pub sound : Sound g

-- none is kept
none_kept : (f g : Fat) (d : ℕ) (cs : List ℕ) → AllFreed f cs g → CutTo f d cs 0 g
none_kept f g d cs all = record {
  same_disk = all.same_disk;
  kept = λ h. absurd (omega arith);
  freed = λ i on. ground (arith, all.entry i, on);
  others = λ i off. ground (arith, all.entry i, off);
  more = all.more;
  sound = all.sound;
}

some_kept :
    (f g : Fat) (d k tmp next : ℕ) (cs : List ℕ)
    → Chain f.fat1 (entries f.super) d cs
    → Cut f.fat1 (entries f.super) d cs (suc k) tmp next
    → AllFreed (stored tmp eof_fat32 f) (drop (suc k) cs) g
    → CutTo f d cs (suc k) g
unfolding copy_out set_entry
some_kept f g d k tmp next cs chain v all = record {
  same_disk = all.same_disk;
  kept = λ h.
      same-Chain (update f.fat1 tmp eof_fat32) g.fat1 (entries f.super) d (take (suc k) cs)
        (λ i on.
          all.entry i
          ∙ if-false _ 0 _ (take-drop_apart f.fat1 (entries f.super) d i (suc k) cs chain on))
        v.kept;
  freed = λ i on. ground (arith, all.entry i, on);
  others = λ i off.
      all.entry i
      ∙ if-false _ 0 _ (is_on-drop i (suc k) cs off)
      ∙ update_ne f.fat1 tmp eof_fat32 i (λ e. cc (sym v.on ∙ ap (λ x. is_on x cs) e ∙ off));
  more = all.more;
  sound = all.sound;
}

cut_chain-zero : (f : Fat) (d old : ℕ) → cut_chain d 0 old f ≡ free_rest old d f
unfolding cut_chain follow
cut_chain-zero f d old = let e : old - 0 ≡ old = omega arith in ap (λ n. free_rest n d f) e

cut_chain-suc :
    (f g : Fat) (d k old : ℕ)
    → end_chain (follow f.fat1 (suc k) d d).0 f ≡ ok tt g
    → cut_chain d (suc k) old f ≡ free_rest (old - suc k) (follow f.fat1 (suc k) d d).1 g
unfolding cut_chain
cut_chain-suc f g d k old run =
    let some : ltb 0 (suc k) ≡ true = ground arith in
    let reached : ℕ × ℕ = follow f.fat1 (suc k) d d in
    ap (λ b. ((if b then end_chain reached.0 else pure tt) >> free_rest (old - suc k) reached.1) f)
      some
    ∙ ap (λ r. and_then r (λ _. free_rest (old - suc k) (follow f.fat1 (suc k) d d).1)) run

pub cut_chain-CutTo :
    (f : Fat) (d k : ℕ) (cs : List ℕ)
    → Sound f
    → Chain f.fat1 (entries f.super) d cs
    → k ≤ length cs
    → (g : Fat) × (cut_chain d k (length cs) f ≡ ok tt g) × CutTo f d cs k g
unfolding copy_out set_entry
cut_chain-CutTo f d zero cs sound chain h =
    let (g, run, all) = free_rest-AllFreed f d cs sound chain in
    (g, cut_chain-zero f d (length cs) ∙ run, none_kept f g d cs all)
cut_chain-CutTo f d (suc k) cs sound chain h =
    let v = follow-Cut f.fat1 (entries f.super) d d k cs (omega arith) chain in
    let tmp : ℕ = (follow f.fat1 (suc k) d d).0 in
    let next : ℕ = (follow f.fat1 (suc k) d d).1 in
    let (ended, sound_then) =
      end_chain_lem f tmp sound v.high (Chain-used f.fat1 (entries f.super) d tmp cs chain v.on) in
    let left =
      same-Chain f.fat1 (update f.fat1 tmp eof_fat32) (entries f.super) next (drop (suc k) cs)
        (λ i on.
          update_ne f.fat1 tmp eof_fat32 i
            (λ e. cc (sym on ∙ ap (λ x. is_on x (drop (suc k) cs)) (sym e) ∙ v.ends)))
        v.rest in
    let (g, run, all) =
      free_rest-AllFreed (stored tmp eof_fat32 f) next (drop (suc k) cs) sound_then left in
    (
      g,
      cut_chain-suc f (stored tmp eof_fat32 f) d k (length cs) ended
          ∙ ap (λ n. free_rest n next (stored tmp eof_fat32 f)) (sym (length-drop (suc k) cs))
          ∙ run,
      some_kept f g d k tmp next cs chain v all,
    )
