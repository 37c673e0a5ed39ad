-- ===== src/Tests/Text.antt =====
-- File names of the FAT file system and dates of its entries.
use buaa_os_mos_with_fat.Base.{
  ℕ, ◌-◌, ◌*◌, ◌≡◌, ◌≢◌, ◌↔◌, refl, true, false, List, [], ◌∷◌, ◌++◌, none, some, replicate, drop,
  arith,
}
use buaa_os_mos_with_fat.Base.Bitmap.{Words}
use buaa_os_mos_with_fat.Base.Int.{pos}
use buaa_os_mos_with_fat.Fat.Names.{
  CString, get_file_name, cmp_file_name, chk_sum, fat_need_ln, fat_skip_slash, skip_root,
  cmp_short_entry,
}
use buaa_os_mos_with_fat.Fat.Names.Compare.{cmp_file_name_lem, AllBytes}
use buaa_os_mos_with_fat.Fat.Names.Checksum.{chk_sum-one_byte}
use buaa_os_mos_with_fat.Fat.LongName.{Slot, put_char, fill_file_ln, cmp_long_name, ord_of}
use buaa_os_mos_with_fat.Fat.LongName.Match.{same_text, cmp_long_name-fill}
use buaa_os_mos_with_fat.Fat.Directory.{name_entries, fat_dir_lookup}
use buaa_os_mos_with_fat.Fat.Directory.Found.{fat_dir_lookup-name_entries}
use buaa_os_mos_with_fat.Clock.{Stamps, mytime_2_utc_sec, utc_sec_2_mytime, day_index_of, set_time}
use buaa_os_mos_with_fat.Clock.RoundTrip.{mytime_2_utc_sec-utc_sec_2_mytime}
use buaa_os_mos_with_fat.Clock.Stamp.{Shows, local_time, set_time_lem}

-- "kern.c"
abbrev kern_c : CString
kern_c = 107 ∷ 101 ∷ 114 ∷ 110 ∷ 46 ∷ 99 ∷ []

-- the same, as the disk holds it
abbrev kern_c_disk : List ℕ
kern_c_disk = 75 ∷ 69 ∷ 82 ∷ 78 ∷ 32 ∷ 32 ∷ 32 ∷ 32 ∷ 99 ∷ 32 ∷ 32 ∷ []

kern_c-name : get_file_name kern_c ≡ kern_c_disk
unfolding get_file_name
kern_c-name = refl

kern_c-AllBytes : AllBytes kern_c
kern_c-AllBytes = ground arith

kern_c_disk-AllBytes : AllBytes kern_c_disk
kern_c_disk-AllBytes = ground arith

cmp_file_name_lem_example :
    (cmp_file_name kern_c_disk kern_c ≡ pos 0) ↔ (kern_c_disk ≡ get_file_name kern_c)
cmp_file_name_lem_example =
    cmp_file_name_lem kern_c_disk kern_c refl kern_c_disk-AllBytes kern_c-AllBytes

chk_sum-one_byte_example : chk_sum (65 ∷ 66 ∷ 67 ∷ []) ≢ chk_sum (65 ∷ 90 ∷ 67 ∷ [])
chk_sum-one_byte_example =
    chk_sum-one_byte (65 ∷ []) (67 ∷ []) 66 90 (omega arith) (omega arith) (omega arith)

-- a slot that the last long entry of a name is written to: its number is 1
abbrev slot : Slot
slot = 0x41 ∷ replicate 31 0

-- what memory holds around a name
abbrev noise : Words
noise = λ a. 7

cmp_long_name-fill_example :
    cmp_long_name (fill_file_ln slot kern_c 1) kern_c noise
    ≡ same_text 13 (drop ((1 - 1) * 13) kern_c) (drop ((1 - 1) * 13) kern_c)
cmp_long_name-fill_example =
    cmp_long_name-fill slot kern_c kern_c noise 1 refl kern_c-AllBytes kern_c-AllBytes (omega arith)
      (omega arith, omega arith) (omega arith, omega arith) (unfold ord_of in refl)

-- an entry with the number 0: its text is compared with what lies in front of the name
in_front : cmp_long_name (fill_file_ln (0 ∷ replicate 31 0) kern_c 1) kern_c noise ≡ false
unfolding cmp_long_name fill_file_ln put_char
in_front = refl

-- the short entry of a file "A"
abbrev other_file : Slot
other_file = 65 ∷ (replicate 10 32 ++ (32 ∷ replicate 20 0))

abbrev free_slot : Slot
free_slot = replicate 32 0

kern_c_missing :
    fat_dir_lookup kern_c noise
      ((other_file ∷ []) ∷ ((other_file ∷ []) ++ (free_slot ∷ free_slot ∷ [])) ∷ [])
    ≡ none
unfolding fat_dir_lookup cmp_file_name
kern_c_missing = refl

fat_dir_lookup-name_entries_example :
    fat_dir_lookup kern_c noise (
      (other_file ∷ [])
      ∷ ((other_file ∷ []) ++ (name_entries kern_c 7 (λ i. free_slot) ++ (kern_c_disk ∷ [])))
      ∷ [])
    ≡ some kern_c_disk
fat_dir_lookup-name_entries_example =
    fat_dir_lookup-name_entries kern_c noise ((other_file ∷ []) ∷ []) [] (other_file ∷ [])
      (free_slot ∷ free_slot ∷ []) 7 (λ i. free_slot) kern_c_disk [] kern_c-AllBytes (omega arith)
      (λ j. refl) refl kern_c_missing

-- "longfilename", and the short entry of a file "LONGFILE"
abbrev longfilename : CString
longfilename = 108 ∷ 111 ∷ 110 ∷ 103 ∷ 102 ∷ 105 ∷ 108 ∷ 101 ∷ 110 ∷ 97 ∷ 109 ∷ 101 ∷ []

abbrev longfile : Slot
longfile = 76 ∷ 79 ∷ 78 ∷ 71 ∷ 70 ∷ 73 ∷ 76 ∷ 69 ∷ 32 ∷ 32 ∷ 32 ∷ 32 ∷ []

mistaken :
    fat_dir_lookup longfilename noise
      ((longfile ∷ (name_entries longfilename 7 (λ i. free_slot) ++ (kern_c_disk ∷ []))) ∷ [])
    ≡ some longfile
unfolding fat_dir_lookup name_entries cmp_file_name
mistaken = refl

mytime_2_utc_sec-utc_sec_2_mytime_example :
    mytime_2_utc_sec false (utc_sec_2_mytime 951_782_400 false) false ≡ 951_782_400
mytime_2_utc_sec-utc_sec_2_mytime_example =
    mytime_2_utc_sec-utc_sec_2_mytime false 951_782_400 (omega arith)

abbrev no_stamps : Stamps
no_stamps = record { crt_date = 0; crt_time = 0; wrt_date = 0; wrt_time = 0 }

set_time_lem_example :
    let s = set_time 951_782_400 true no_stamps in
    Shows s.wrt_date s.wrt_time (local_time 951_782_400)
    × (s.crt_date ≡ s.wrt_date)
    × (s.crt_time ≡ s.wrt_time)
set_time_lem_example =
    set_time_lem 951_782_400 true no_stamps (unfold utc_sec_2_mytime in omega arith)

-- Sunday, 5 March 2000
sunday : day_index_of 2000 3 5 ≡ 7
unfolding day_index_of
sunday = refl

needs_long : fat_need_ln (replicate 9 b'a') ≡ true
unfolding fat_need_ln
needs_long = refl

-- "//a" and ":a"
slashes : fat_skip_slash (47 ∷ 47 ∷ 97 ∷ []) ≡ 97 ∷ []
unfolding fat_skip_slash
slashes = refl

root : skip_root (58 ∷ 97 ∷ []) ≡ 97 ∷ []
unfolding skip_root
root = refl

-- the six first characters and the extension agree
similar : cmp_short_entry kern_c kern_c_disk ≡ false
unfolding cmp_short_entry
similar = refl
