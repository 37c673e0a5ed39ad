-- ===== src/Fat/Table/Free.antt =====
-- `fat_free_cluster` gives a cluster back, and undoes an allocation.
use buaa_os_mos_with_fat.Base.{
  ℕ, ◌+◌, ◌≤◌, ◌<◌, ◌≡◌, ◌≢◌, refl, ◌==◌, arith, ok, leb, if◌then◌else◌, min, false, assert-true,
}
use buaa_os_mos_with_fat.Base.Bitmap.{update}
use buaa_os_mos_with_fat.Fat.Defs.{Fat, copy_out}
use buaa_os_mos_with_fat.Fat.Table.{set_entry, fat_alloc_cluster_num, fat_free_cluster}
use buaa_os_mos_with_fat.Fat.Table.Count.{count_free-update}
use buaa_os_mos_with_fat.Fat.Table.Mounted.{IsMounted, data_to_clusno-lt, dirty_fat_lem}
use buaa_os_mos_with_fat.Fat.Table.Alloc.{
  entries, Accurate, IsAccurate, Synced, stored, stored-Synced, Allocated,
  fat_alloc_cluster_num-Allocated,
}

-- the state that `fat_free_cluster` leaves
abbrev given_back : ℕ → Fat → Fat
given_back d f =
    let g : Fat = stored d 0 f in
    record g { free_count = f.free_count + 1; nxt_free = min f.nxt_free d }

not_past_end : (a b : ℕ) → a < b → leb b a ≡ false
not_past_end a b h = ground arith

free_run :
    (d : ℕ) (f : Fat)
    → IsMounted f
    → 2 ≤ d
    → d < entries f.super
    → fat_free_cluster d f ≡ ok tt (given_back d f)
unfolding fat_free_cluster copy_out
free_run d f v h l = rw (
  not_past_end _ _ (data_to_clusno-lt v d h l),
  assert-true f.ready f v.is_ready,
  dirty_fat_lem (set_entry d 0 f) v d l,
)

-- What `fat_free_cluster` has done when it returns.
pub record Freed (f : Fat) (d : ℕ) (g : Fat) : Type 0 where
  pub same_disk : g.super ≡ f.super
  pub entry : (i : ℕ) → g.fat1 i ≡ (if d == i then 0 else f.fat1 i)
  pub one_more : g.free_count ≡ f.free_count + 1
  pub next : g.nxt_free ≡ min f.nxt_free d
  pub mounted : IsMounted g
  pub accurate : IsAccurate g
  pub synced : Synced g

freed-Accurate :
    (d : ℕ) (f : Fat)
    → IsAccurate f
    → 2 ≤ d
    → d < entries f.super
    → f.fat1 d ≢ 0
    → Accurate f.super (update f.fat1 d 0) (f.free_count + 1) (min f.nxt_free d)
unfolding update
freed-Accurate d f a h l used = record {
  counted = ground (arith, a.counted, count_free-update f.fat1 d 0 (entries f.super) l);
  hint_low = omega (arith, a.hint_low);
  hint_in = omega (arith, a.hint_in);
  hint_free = ground (arith, a.hint_free);
  none_below = λ i p. ground (arith, a.none_below i);
}

-- On a mounted disk with right counters and the table on disk equal to that in the cache,
-- `fat_free_cluster` of a cluster in use, from 2 on, marks that entry, and no other, as free, in the cache and on disk, and leaves the counters right.
pub fat_free_cluster-Freed :
    (d : ℕ) (f : Fat)
    → IsMounted f
    → IsAccurate f
    → Synced f
    → 2 ≤ d
    → d < entries f.super
    → f.fat1 d ≢ 0
    → (g : Fat) × (fat_free_cluster d f ≡ ok tt g) × Freed f d g
unfolding copy_out set_entry
fat_free_cluster-Freed d f v a s h l used = (
  given_back d f,
  free_run d f v h l,
  record {
    same_disk = refl;
    entry = unfold update in λ i. refl;
    one_more = refl;
    next = refl;
    mounted = v;
    accurate = freed-Accurate d f a h l used;
    synced = stored-Synced d 0 f s;
  },
)

-- What is left of a cluster that was allocated and given back: nothing.
pub record Restored (f h : Fat) : Type 0 where
  pub table : (i : ℕ) → h.fat1 i ≡ f.fat1 i
  pub count : h.free_count ≡ f.free_count
  pub hint : h.nxt_free ≡ f.nxt_free

restored :
    (f g h : Fat) → IsAccurate f → Allocated f f.nxt_free g → Freed g f.nxt_free h → Restored f h
restored f g h a got back = record {
  table = λ i. ground (arith, back.entry i, got.entry i, a.hint_free);
  count = ground (arith, back.one_more, got.one_less);
  hint =
      ground
        (arith, back.next, got.accurate.hint_free, got.entry g.nxt_free, a.none_below g.nxt_free);
}

-- Giving back the cluster that `fat_alloc_cluster_num` has just returned restores the table and
-- both counters, on a mounted disk with right counters, the table on disk equal to that in the
-- cache, and at least two free clusters.
pub fat_free_cluster-alloc :
    (f : Fat)
    → IsMounted f
    → IsAccurate f
    → Synced f
    → 1 < f.free_count
    → (g h : Fat) × (fat_alloc_cluster_num f ≡ ok f.nxt_free g)
      × (fat_free_cluster f.nxt_free g ≡ ok tt h)
      × Restored f h
fat_free_cluster-alloc f v a s h =
    let (g, run, got) = fat_alloc_cluster_num-Allocated f v a s h in
    let (k, back, freed) =
      fat_free_cluster-Freed f.nxt_free g got.mounted got.accurate got.synced a.hint_low
        (rw got.same_disk a.hint_in) (ground (arith, got.entry f.nxt_free)) in
    (g, k, run, back, restored f g k a got freed)
