-- ===== src/Fat/Table/Alloc.antt =====
-- `fat_alloc_cluster_num` and `fat_free_cluster` keep the counters and the table on disk right.
use buaa_os_mos_with_fat.Base.{
  ℕ, ◌+◌, ◌-◌, ◌≤◌, ◌<◌, ◌≡◌, ◌≢◌, refl, ◌==◌, arith, Run, ok, panic, ltb, lt→ltb, ltb→lt, ltb→ge,
  if◌then◌else◌, inl, inr, Bool-cases, Option, none, some, and_then, pure, assert-true,
}
use buaa_os_mos_with_fat.Base.Bitmap.{Words, update}
use buaa_os_mos_with_fat.Fat.Defs.{Super, Fat, first_data, eof_fat32, copy_out}
use buaa_os_mos_with_fat.Fat.Table.{set_nxt_free, set_entry, fat_alloc_cluster_num}
use buaa_os_mos_with_fat.Fat.Table.Count.{
  count_free, count_free-update, count_free_none, count_free_pos, first_free, FirstFree,
  first_free-FirstFree,
}
use buaa_os_mos_with_fat.Fat.Table.Mounted.{
  IsMounted, entry_clus, limit_lem, dirty_fat_lem, find_free_lem,
}

-- the entries that the driver gives out lie below this
abbrev pub entries : Super → ℕ
entries s = s.tot_clus - first_data s

-- `FSI_FreeCount` counts the free entries, and `FSI_NxtFree` is the first of them.
pub record Accurate (s : Super) (fat1 : Words) (free_count nxt_free : ℕ) : Type 0 where
  pub counted : free_count ≡ count_free fat1 (entries s)
  pub hint_low : 2 ≤ nxt_free
  pub hint_in : nxt_free < entries s
  pub hint_free : fat1 nxt_free ≡ 0
  pub none_below : (i : ℕ) → i < nxt_free → fat1 i ≢ 0

abbrev pub IsAccurate : Fat → Type 0
IsAccurate f = Accurate f.super f.fat1 f.free_count f.nxt_free

-- the table on disk is the one in the cache
abbrev pub Synced : Fat → Type 0
Synced f = (i : ℕ) → f.fat1_disk i ≡ f.fat1 i

-- the state once entry d has been written and its cluster with it
abbrev pub stored : ℕ → ℕ → Fat → Fat
stored d v f = copy_out (entry_clus f.super f.fat1_clus_no d) (set_entry d v f)

pub stored-Synced : (d v : ℕ) (f : Fat) → Synced f → Synced (stored d v f)
unfolding copy_out set_entry update
stored-Synced d v f s i = ground (arith, s i)

-- the state that `fat_alloc_cluster_num` leaves when it finds cluster i to hand out next
abbrev allocated : ℕ → Fat → Fat
allocated i f =
    let g : Fat = record f { free_count = f.free_count - 1 } in
    let h : Fat = stored f.nxt_free eof_fat32 g in record h { nxt_free = i }

next_found : Fat → Option ℕ
next_found f =
    first_free (update f.fat1 f.nxt_free eof_fat32) (entries f.super - f.nxt_free) f.nxt_free

abbrev finished : Fat → Option ℕ → Run Fat ℕ
finished f none = panic
finished f (some i) = ok f.nxt_free (allocated i f)

-- the state before `find_free` runs
abbrev taken : Fat → Fat
taken f =
    stored f.nxt_free eof_fat32 (let g : Fat = record f { free_count = f.free_count - 1 } in g)

finish_lem :
    (f : Fat) (o : Option ℕ)
    → and_then (and_then (ok o (taken f)) set_nxt_free) (λ _. pure f.nxt_free) ≡ finished f o
unfolding set_nxt_free copy_out set_entry
finish_lem f none = refl
finish_lem f (some i) = refl

up_to : (a b : ℕ) → a < b → a + (b - a) ≤ b
up_to a b h = omega arith

alloc_run :
    (f : Fat)
    → IsMounted f
    → IsAccurate f
    → fat_alloc_cluster_num f ≡ (if ltb 0 f.free_count then finished f (next_found f) else panic)
unfolding fat_alloc_cluster_num copy_out next_found
alloc_run f v a = elim (Bool-cases (ltb 0 f.free_count)) [
  | inl h ↦
      rw
        (
          h,
          assert-true f.ready f v.is_ready,
          dirty_fat_lem
              (set_entry f.nxt_free eof_fat32 (record f { free_count = f.free_count - 1 })) v
              f.nxt_free a.hint_in,
          limit_lem v,
          find_free_lem (taken f) v (entries f.super - f.nxt_free) f.nxt_free a.hint_low
              (up_to f.nxt_free (entries f.super) a.hint_in),
        )
        (finish_lem f _)
  | inr h ↦ rw (h, assert-true f.ready f v.is_ready)
]

-- What the table looks like once the first free entry is taken.
count_after :
    (f : Fat)
    → IsAccurate f
    → count_free (update f.fat1 f.nxt_free eof_fat32) (entries f.super) + 1 ≡ f.free_count
count_after f a = ground (
  arith,
  a.counted,
  a.hint_free,
  count_free-update f.fat1 f.nxt_free eof_fat32 (entries f.super) a.hint_in,
)

-- the table that `fat_alloc_cluster_num` leaves in the cache
abbrev after : Fat → Words
after f = update f.fat1 f.nxt_free eof_fat32

used_below : (f : Fat) → IsAccurate f → (i : ℕ) → i < f.nxt_free → after f i ≢ 0
unfolding update
used_below f a i h = ground (arith, a.none_below i)

all_used_from :
    (f : Fat)
    → IsAccurate f
    → FirstFree (after f) (entries f.super - f.nxt_free) f.nxt_free none
    → (i : ℕ) → i < entries f.super
    → after f i ≢ 0
all_used_from f a first i h = elim (Bool-cases (ltb i f.nxt_free)) [
  | inl low ↦ used_below f a i (ltb→lt i f.nxt_free low)
  | inr high ↦ first i (ltb→ge i f.nxt_free high) (omega (arith, ltb→ge i f.nxt_free high))
]

-- What `fat_alloc_cluster_num` has done when it returns cluster d.
pub record Allocated (f : Fat) (d : ℕ) (g : Fat) : Type 0 where
  pub same_disk : g.super ≡ f.super
  pub lowest : d ≡ f.nxt_free
  pub was_free : f.fat1 d ≡ 0
  pub entry : (i : ℕ) → g.fat1 i ≡ (if d == i then eof_fat32 else f.fat1 i)
  pub one_less : g.free_count + 1 ≡ f.free_count
  pub mounted : IsMounted g
  pub accurate : IsAccurate g
  pub synced : Synced g

below_next :
    (f : Fat) (k : ℕ)
    → IsAccurate f
    → ((j : ℕ) → f.nxt_free ≤ j → j < k → after f j ≢ 0)
    → (i : ℕ) → i < k
    → after f i ≢ 0
below_next f k a before i h = elim (Bool-cases (ltb i f.nxt_free)) [
  | inl low ↦ used_below f a i (ltb→lt i f.nxt_free low)
  | inr high ↦ before i (ltb→ge i f.nxt_free high) h
]

allocated-Accurate :
    (f : Fat) (k : ℕ)
    → IsAccurate f
    → FirstFree (after f) (entries f.super - f.nxt_free) f.nxt_free (some k)
    → Accurate f.super (after f) (f.free_count - 1) k
allocated-Accurate f k a (low, high, free, before) = record {
  counted = omega (arith, count_after f a);
  hint_low = omega (arith, a.hint_low);
  hint_in = omega (arith, a.hint_in);
  hint_free = free;
  none_below = below_next f k a before;
}

finished-Allocated :
    (f : Fat) (o : Option ℕ)
    → IsMounted f
    → IsAccurate f
    → Synced f
    → 1 < f.free_count
    → FirstFree (after f) (entries f.super - f.nxt_free) f.nxt_free o
    → (g : Fat) × (finished f o ≡ ok f.nxt_free g) × Allocated f f.nxt_free g
unfolding copy_out set_entry
finished-Allocated f none v a s h first = absurd (
    omega (
      arith,
      count_after f a,
      count_free_none (after f) (entries f.super) (all_used_from f a first),
    ))
finished-Allocated f (some k) v a s h first = (
  allocated k f,
  refl,
  record {
    same_disk = refl;
    lowest = refl;
    was_free = a.hint_free;
    entry = unfold update in λ i. refl;
    one_less = omega arith;
    mounted = v;
    accurate = allocated-Accurate f k a first;
    synced = stored-Synced f.nxt_free eof_fat32 f s;
  },
)

-- On a mounted disk with right counters, the table on disk equal to that in the cache, and at
-- least two free clusters, `fat_alloc_cluster_num` returns the first free cluster; it marks that entry, and no other, as the end of a chain, in the
-- cache and on disk, and leaves the counters right.
pub fat_alloc_cluster_num-Allocated :
    (f : Fat)
    → IsMounted f
    → IsAccurate f
    → Synced f
    → 1 < f.free_count
    → (g : Fat) × (fat_alloc_cluster_num f ≡ ok f.nxt_free g) × Allocated f f.nxt_free g
unfolding next_found
fat_alloc_cluster_num-Allocated f v a s h =
    rw (alloc_run f v a, lt→ltb 0 f.free_count (omega arith))
      (finished-Allocated f (next_found f) v a s h (first_free-FirstFree _ _ _))

finished-last :
    (f : Fat) (o : Option ℕ)
    → IsAccurate f
    → f.free_count ≡ 1
    → FirstFree (after f) (entries f.super - f.nxt_free) f.nxt_free o
    → finished f o ≡ panic
finished-last f none a h first = refl
finished-last f (some k) a h (low, high, free, before) = absurd (
    omega (
      arith,
      count_after f a,
      count_free_pos (after f) k (entries f.super) (omega (arith, a.hint_in)) free,
    ))

-- The last free cluster is never given out: on a mounted disk with right counters and at
-- most one free cluster `fat_alloc_cluster_num` panics.
pub fat_alloc_cluster_num-last :
    (f : Fat) → IsMounted f → IsAccurate f → f.free_count ≤ 1 → fat_alloc_cluster_num f ≡ panic
unfolding next_found
fat_alloc_cluster_num-last f v a h = elim (Bool-cases (ltb 0 f.free_count)) [
  | inl some_free ↦
      rw (alloc_run f v a, some_free)
        (finished-last f (next_found f) a (omega (arith, ltb→lt _ _ some_free))
          (first_free-FirstFree _ _ _))
  | inr no_free ↦ rw (alloc_run f v a, no_free)
]
