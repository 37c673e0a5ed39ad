-- ===== src/Fat/Directory.antt =====
-- fs/fatfs.c: the slots of a directory: `fat_dir_lookup`, and the entries that
-- `fat_alloc_LongNameFile` writes.
pub mod Found
use Prim.Native.Nat.{bit_and, bit_or, bit_xor}
use buaa_os_mos_with_fat.Base.{
  ℕ, zero, suc, ◌+◌, ◌-◌, ◌*◌, ◌/◌, ◌%◌, ◌^◌, Bool, true, false, ◌&&◌, ◌||◌, ◌==◌, ◌!=◌,
  if◌then◌else◌, List, [], ◌∷◌, ◌++◌, Option, none, some, get_or, set, take, length,
}
use buaa_os_mos_with_fat.Base.Int.{ℤ, pos, negsuc}
use buaa_os_mos_with_fat.Base.Bitmap.{Words}
use buaa_os_mos_with_fat.Fat.Names.{CString, cmp_file_name, get_file_name, chk_sum}
use buaa_os_mos_with_fat.Fat.LongName.{
  Slot, attr, ldir_ord, last_long_entry, fill_file_ln, cmp_long_name,
}

-- ATTR_LONG_NAME
abbrev pub attr_long_name : ℕ
attr_long_name = 0x0f

abbrev pub is_zero : ℤ → Bool
is_zero (pos n) = n == 0
is_zero (negsuc n) = false

abbrev pub one_if : Bool → ℕ
one_if b = if b then 1 else 0

-- `check` once the code has seen a long entry; `outside` is what memory holds around the name
unfoldable pub next_check : CString → (outside : Words) → ℕ → Slot → ℕ
next_check name outside check s =
    let start =
      if bit_and (ldir_ord s) last_long_entry != 0
      then bit_xor (ldir_ord s) last_long_entry
      else check in
    (start + (2 ^ 32 - one_if (cmp_long_name s name outside))) % 2 ^ 32

-- The loop over the slots of one cluster, with `check`: the slot whose file is meant.
unfoldable pub scan_slots : CString → (outside : Words) → ℕ → List Slot → Option Slot
unfolding next_check
scan_slots name outside check [] = none
scan_slots name outside check (s ∷ rest) =
    if bit_and (attr s) attr_long_name != 0
    then scan_slots name outside (next_check name outside check s) rest
    else if is_zero (cmp_file_name (take 11 s) name) || check == 0
    then some s
    else scan_slots name outside check rest

-- the slot that was found, or else what the next clusters give
abbrev pub found_or : Option Slot → Option Slot → Option Slot
found_or next (some s) = some s
found_or next none = next

-- The loop of `fat_dir_lookup` over the clusters of the directory; `check` starts afresh in each.
unfoldable pub fat_dir_lookup : CString → (outside : Words) → List (List Slot) → Option Slot
unfolding scan_slots
fat_dir_lookup name outside [] = none
fat_dir_lookup name outside (cluster ∷ rest) =
    found_or (fat_dir_lookup name outside rest) (scan_slots name outside 1 cluster)

-- `needEntry`
abbrev pub need_entry : CString → ℕ
need_entry this = length this / 13 + 1

-- one long entry, written over the old contents of its slot
unfoldable pub long_entry : CString → ℕ → (ord mark : ℕ) → Slot → Slot
long_entry this sum ord mark old =
    fill_file_ln (set (set (set old 11 attr_long_name) 0 mark) 13 sum) this ord

-- The loop of `fat_alloc_LongNameFile` behind the first long entry: the numbers still to be
-- written, downwards, over the slots that follow.
unfoldable pub long_entries : CString → ℕ → ℕ → (ℕ → Slot) → ℕ → List Slot
long_entries this sum zero olds i = []
long_entries this sum (suc n) olds i =
    long_entry this sum (suc n) (suc n) (olds i) ∷ long_entries this sum n olds (i + 1)

-- all the long entries of a name, over the free slots `olds`
unfoldable pub name_entries : CString → ℕ → (ℕ → Slot) → List Slot
unfolding long_entry long_entries
name_entries this sum olds =
    long_entry this sum (need_entry this) (bit_or last_long_entry (need_entry this)) (olds 0)
    ∷ long_entries this sum (need_entry this - 1) olds 1
