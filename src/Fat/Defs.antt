-- ===== src/Fat/Defs.antt =====
-- fs/fatfs.c: the driver's globals, the numbers of clusters, and the cluster cache's addresses.
-- `int` and `u_int` values are their bit patterns, below 2 ^ 32.
use buaa_os_mos_with_fat.Base.{
  ℕ, ◌+◌, ◌-◌, ◌*◌, ◌/◌, ◌%◌, ◌^◌, Bool, ◌&&◌, not, ◌==◌, ltb, leb, if◌then◌else◌, ok, panic, Cmd,
  pure, get, modify, assert, ◌>>=◌, ◌>>◌,
}
use buaa_os_mos_with_fat.Base.Bitmap.{Words}

abbrev pub word : ℕ
word = 2 ^ 32

abbrev pub by2sect : ℕ
by2sect = 512

abbrev pub by2pg : ℕ
by2pg = 4096

-- FATDISKMAP, FATDISKMAX
abbrev pub fat_disk_map : ℕ
fat_disk_map = 0x5000_0000

abbrev pub fat_disk_max : ℕ
fat_disk_max = 0x800_0000

-- EOF_Fat32
abbrev pub eof_fat32 : ℕ
eof_fat32 = 0xfff_ffff

-- -E_INVAL as a `u_int`
abbrev pub minus_inval : ℕ
minus_inval = 2 ^ 32 - 3

-- The fields of `fat_super` that the driver computes with; `sect2clus` is SECT2CLUS, which
-- `fat_readBPB` sets to `FAT_SECPClus`.
pub record Super : Type 0 where
  pub sect2clus : ℕ
  pub num_of_reserved : ℕ
  pub num_of_fats : ℕ
  pub sec_per_fat : ℕ
  pub root_clus : ℕ
  pub tot_clus : ℕ

-- BY2CLUS
abbrev pub by2clus : Super → ℕ
by2clus s = by2sect * s.sect2clus

-- `rootSec` and `rootClus`, as each function computes them
abbrev pub root_sec : Super → ℕ
root_sec s = (s.num_of_reserved + s.num_of_fats * s.sec_per_fat) % word

abbrev pub first_data : Super → ℕ
first_data s = root_sec s / s.sect2clus

unfoldable pub is_data : Super → ℕ → Bool
is_data s clusno = leb (first_data s) clusno && ltb clusno s.tot_clus

unfoldable pub clusno_to_data : Super → ℕ → ℕ
unfolding is_data
clusno_to_data s clusno =
    if not (is_data s clusno)
    then minus_inval
    else (clusno + (word - first_data s) + s.root_clus) % word

unfoldable pub data_to_clusno : Super → ℕ → ℕ
data_to_clusno s data_clus_no = (data_clus_no + first_data s + (word - s.root_clus)) % word

unfoldable pub align_with_page : ℕ → ℕ
align_with_page va = va / by2pg * by2pg

unfoldable pub va_to_clusno : Super → ℕ → ℕ
va_to_clusno s va = (va + (word - fat_disk_map)) % word / by2clus s

-- The driver's state. `fat1` is the table behind `FAT1`, in the cache; `fat1_disk` is the same
-- region of the disk. `ready` says that `FAT1` and `fs_info` are set. `mapped` and `dirty` are the
-- page table bits PTE_V and PTE_DIRTY, by page number.
pub record Fat : Type 0 where
  pub super : Super
  pub ready : Bool
  pub fat1_clus_no : ℕ
  pub fat1 : Words
  pub fat1_disk : Words
  pub free_count : ℕ
  pub nxt_free : ℕ
  pub mapped : ℕ → Bool
  pub dirty : ℕ → Bool

-- the page of the cache in which the cluster lies; a panic where the address overflows
unfoldable pub fat_diskaddr : ℕ → Cmd Fat ℕ
fat_diskaddr clusno f =
    let offset = clusno * by2clus f.super % word in
    if leb fat_disk_max offset then panic else ok (fat_disk_map + offset) f

unfoldable pub va_is_mapped : ℕ → Fat → Bool
va_is_mapped va f = f.mapped (va / by2pg)

unfoldable pub va_is_dirty : ℕ → Fat → Bool
va_is_dirty va f = f.dirty (va / by2pg)

-- what `ide_write` of one cluster does to the table's region of the disk
unfoldable pub copy_out : ℕ → Fat → Fat
copy_out clusno f = record f {
  fat1_disk =
      λ i. if f.fat1_clus_no + i * 4 / by2clus f.super == clusno then f.fat1 i else f.fat1_disk i;
}

unfoldable pub write_cluster : ℕ → Cmd Fat (Unit {0})
unfolding fat_diskaddr va_is_mapped copy_out
write_cluster clusno = do
  va ← fat_diskaddr clusno
  f ← get
  assert (va_is_mapped va f)
  modify (copy_out clusno)

unfoldable pub dirty_fat : ℕ → Cmd Fat (Unit {0})
unfolding write_cluster
dirty_fat data_clus_no f =
    write_cluster ((f.fat1_clus_no + data_clus_no * 4 % word / by2clus f.super) % word) f

-- `fat_clus_is_mapped(clusno) != NULL`
unfoldable pub fat_clus_is_mapped : ℕ → Cmd Fat Bool
unfolding fat_diskaddr va_is_mapped
fat_clus_is_mapped clusno = do va ← fat_diskaddr clusno; f ← get; pure (va_is_mapped va f)
