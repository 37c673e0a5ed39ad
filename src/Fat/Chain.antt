-- ===== src/Fat/Chain.antt =====
-- fs/fatfs.c: the chain of a file's clusters in the allocation table. A loop that follows a chain
-- has as many rounds as it is told; where the source's loop has no bound, a chain that is not at its
-- end when they are over is a `panic`.
pub mod Linked
pub mod Cutting
pub mod Truncated
pub mod Given
pub mod Appended
pub mod Grown
pub mod Walk
use buaa_os_mos_with_fat.Base.{
  ℕ, zero, suc, ◌+◌, ◌-◌, ◌*◌, ◌/◌, ◌%◌, ◌^◌, Bool, true, false, not, ◌&&◌, ◌==◌, ltb, leb,
  if◌then◌else◌, Option, none, some, Error, no_mem, not_found, Run, ok, err, panic, Cmd, pure, fail,
  stop, get, modify, assert, ◌>>=◌, ◌>>◌,
}
use buaa_os_mos_with_fat.Base.Bitmap.{Words}
use buaa_os_mos_with_fat.Fat.Defs.{Fat, word, eof_fat32, by2clus, dirty_fat}
use buaa_os_mos_with_fat.Fat.Table.{set_entry, fat_free_cluster, fat_alloc_cluster}

-- the bytes of `ClusHI` and `ClusLO`, and `FileSize`
pub record FileEntry : Type 0 where
  pub hi1 : ℕ
  pub hi0 : ℕ
  pub lo1 : ℕ
  pub lo0 : ℕ
  pub file_size : ℕ

unfoldable pub file_get_data_clus_no : FileEntry → ℕ
file_get_data_clus_no e =
    (e.hi1 * 2 ^ 24 % word + e.hi0 % 2 ^ 8 * 2 ^ 16 + e.lo1 % 2 ^ 8 * 2 ^ 8 + e.lo0 % 2 ^ 8) % word

-- `memset(f->ClusHI, 0, 2); memset(f->ClusLO, 0, 2);`
unfoldable pub clear_clus : FileEntry → FileEntry
clear_clus e = record e { hi1 = 0; hi0 = 0; lo1 = 0; lo0 = 0 }

-- the cluster that `fat_total_clus` and `fat_walk_cluster` begin at: `none` is NULL, the root
unfoldable pub first_of : Option FileEntry → Fat → ℕ
unfolding file_get_data_clus_no
first_of none f = f.super.root_clus
first_of (some e) f = file_get_data_clus_no e

-- the loop of `fat_total_clus`: the rounds left, the cluster, and `i`
unfoldable pub total_loop : (rounds d i : ℕ) → Cmd Fat ℕ
total_loop zero d i f = if f.fat1 d == eof_fat32 then ok i f else panic
total_loop (suc rounds) d i f =
    let rest = total_loop rounds (f.fat1 d) (i + 1) f in
    if f.fat1 d == eof_fat32 then ok i f else rest

unfoldable pub fat_total_clus : (rounds : ℕ) → Option FileEntry → Cmd Fat ℕ
unfolding total_loop first_of
fat_total_clus rounds dir f = total_loop rounds (first_of dir f) 0 f

-- `FAT1[d] = fat_alloc_cluster(); dirty_Fat(d);`, where an error code lands in the table, too
unfoldable pub put_next : (d : ℕ) → Run Fat ℕ → Run Fat (Unit {0})
unfolding set_entry
put_next d (ok num f) = dirty_fat d (set_entry d num f)
put_next d (err e f) = dirty_fat d (set_entry d (word - 4) f)
put_next d Run.panic = panic

-- the loop of `fat_walk_cluster`: the rounds left, and the cluster
unfoldable pub walk_clusters : (granted alloc : Bool) (rounds d : ℕ) → Cmd Fat ℕ
unfolding put_next
walk_clusters granted alloc zero d = pure d
walk_clusters granted alloc (suc rounds) d = do
  f ← get
  if f.fat1 d == eof_fat32
      then if alloc then (λ g. put_next d (fat_alloc_cluster granted g)) else fail not_found
      else pure tt
  g ← get
  walk_clusters granted alloc rounds (g.fat1 d)

unfoldable pub fat_walk_cluster :
    (granted alloc : Bool) → Option FileEntry → (f_clus_no : ℕ) → Cmd Fat ℕ
unfolding walk_clusters first_of
fat_walk_cluster granted alloc file f_clus_no f =
    walk_clusters granted alloc f_clus_no (first_of file f) f

-- the first loop of `fat_file_truncate`: `tmp` and `dataClusNo`
unfoldable pub follow : Words → (rounds tmp d : ℕ) → ℕ × ℕ
follow t zero tmp d = (tmp, d)
follow t (suc rounds) tmp d = follow t rounds d (t d)

-- the second
unfoldable pub free_rest : (rounds d : ℕ) → Cmd Fat (Unit {0})
free_rest zero d = pure tt
free_rest (suc rounds) d = do f ← get; fat_free_cluster d; free_rest rounds (f.fat1 d)

-- `FAT1[tmp] = EOF_Fat32; dirty_Fat(tmp);`
unfoldable pub end_chain : ℕ → Cmd Fat (Unit {0})
unfolding set_entry
end_chain tmp = do modify (set_entry tmp eof_fat32); dirty_fat tmp

-- `newsize / BY2CLUS + 1`, or no cluster for an empty file
abbrev pub clusters_of : Fat → ℕ → ℕ
clusters_of f newsize = if newsize == 0 then 0 else newsize / by2clus f.super + 1

-- both loops: the clusters to keep, and those of the old size
unfoldable pub cut_chain : (d keep old : ℕ) → Cmd Fat (Unit {0})
unfolding follow end_chain free_rest
cut_chain d keep old f =
    let reached : ℕ × ℕ = follow f.fat1 keep d d in
    ((if ltb 0 keep then end_chain reached.0 else pure tt) >> free_rest (old - keep) reached.1) f

unfoldable pub fat_file_truncate : FileEntry → (newsize : ℕ) → Cmd Fat FileEntry
unfolding cut_chain clear_clus file_get_data_clus_no
fat_file_truncate e newsize = do
  assert (ltb 0 e.file_size && ltb e.file_size (2 ^ 31))
  f ← get
  cut_chain (file_get_data_clus_no e) (clusters_of f newsize) (e.file_size / by2clus f.super + 1)
  pure (
      let left : FileEntry = if newsize == 0 then clear_clus e else e in
      record left { file_size = newsize })
