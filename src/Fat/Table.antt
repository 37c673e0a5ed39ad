-- ===== src/Fat/Table.antt =====
-- fs/fatfs.c: the allocation table `FAT1` with the counters of `fs_info`: which clusters are free,
-- and how they are given out and taken back.
pub mod Count
pub mod Mounted
pub mod Alloc
pub mod Free
use buaa_os_mos_with_fat.Base.{
  ℕ, zero, suc, ◌+◌, ◌-◌, ◌*◌, ◌/◌, ◌%◌, Bool, true, false, not, ◌||◌, ◌==◌, ltb, leb,
  if◌then◌else◌, Option, none, some, Error, no_mem, Run, ok, err, panic, Cmd, pure, fail, stop, get,
  modify, assert, ◌>>=◌, ◌>>◌, min,
}
use buaa_os_mos_with_fat.Base.Bitmap.{update}
use buaa_os_mos_with_fat.Fat.Defs.{
  Super, Fat, word, eof_fat32, root_sec, first_data, data_to_clusno, fat_clus_is_mapped, dirty_fat,
  align_with_page, fat_diskaddr, by2pg,
}

-- the cluster that `fat_clus_is_free` computes, by way of its first sector
abbrev pub clusno_of : Super → ℕ → ℕ
clusno_of s d = ((d - 2) * s.sect2clus + root_sec s) % word / s.sect2clus

unfoldable pub fat_clus_is_free : ℕ → Cmd Fat Bool
fat_clus_is_free d = do
  assert (leb 2 d)
  f ← get
  present ← fat_clus_is_mapped 0
  pure (if not present || leb f.super.tot_clus (clusno_of f.super d) then false else f.fat1 d == 0)

-- `FAT1[d] = v`
unfoldable pub set_entry : ℕ → ℕ → Fat → Fat
set_entry d v f = record f { fat1 = update f.fat1 d v }

unfoldable pub fat_free_cluster : ℕ → Cmd Fat (Unit {0})
unfolding set_entry
fat_free_cluster d f =
    if leb f.super.tot_clus (data_to_clusno f.super d)
    then ok tt f
    else (do
      assert f.ready
      modify (set_entry d 0)
      dirty_fat d
      modify λ (g : Fat). record g { free_count = g.free_count + 1; nxt_free = min g.nxt_free d })
        f

-- the loop of `fat_alloc_cluster_num`: the rounds left, and `i`
unfoldable pub find_free : ℕ → ℕ → Cmd Fat (Option ℕ)
find_free zero i = pure none
find_free (suc rounds) i = do
  free ← fat_clus_is_free i
  let rest = find_free rounds (i + 1)
  if free then pure (some i) else rest

-- `fat_super.TotClus - rootClus`, with `rootClus = Data2ClusNO(2)`
abbrev pub alloc_limit : Super → ℕ
alloc_limit s = (s.tot_clus + (word - data_to_clusno s 2)) % word

-- the assertion behind the loop, and the cluster that the loop found
unfoldable pub set_nxt_free : Option ℕ → Cmd Fat (Unit {0})
set_nxt_free none = stop
set_nxt_free (some i) = modify (λ f. record f { nxt_free = i })

unfoldable pub fat_alloc_cluster_num : Cmd Fat ℕ
unfolding find_free set_nxt_free set_entry
fat_alloc_cluster_num = do
  f ← get
  assert f.ready
  assert (ltb 0 f.free_count)
  modify (λ (g : Fat). record g { free_count = g.free_count - 1 })
  modify (set_entry f.nxt_free eof_fat32)
  dirty_fat f.nxt_free
  found ← find_free (alloc_limit f.super - f.nxt_free) f.nxt_free
  set_nxt_free found
  pure f.nxt_free

-- `syscall_mem_alloc` of the cluster's page; `granted` is the kernel's answer
unfoldable pub fat_map_cluster : (granted : Bool) → ℕ → Cmd Fat (Unit {0})
fat_map_cluster granted clusno = do
  present ← fat_clus_is_mapped clusno
  va ← fat_diskaddr clusno
  if present
      then pure tt
      else if granted
      then modify (λ f. record f {
        mapped = λ p. if p == align_with_page va / by2pg then true else f.mapped p;
        dirty = λ p. if p == align_with_page va / by2pg then false else f.dirty p;
      })
      else fail no_mem

-- on a failure the cluster is given back
unfoldable pub or_give_back : ℕ → Run Fat (Unit {0}) → Run Fat ℕ
or_give_back num (ok _ f) = ok num f
or_give_back num (err e f) = (fat_free_cluster num >> fail e) f
or_give_back num panic = panic

unfoldable pub fat_alloc_cluster : (granted : Bool) → Cmd Fat ℕ
unfolding or_give_back
fat_alloc_cluster granted = do
  num ← fat_alloc_cluster_num
  free ← fat_clus_is_free num
  assert (not free)
  f ← get
  λ g. or_give_back num (fat_map_cluster granted (data_to_clusno f.super num) g)
