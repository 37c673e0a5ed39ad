-- ===== src/Fat/LongName.antt =====
-- fs/fatfs.c: long file names. A slot of a directory is 32 bytes, which the code reads as a
-- `struct Fat32_Dir` or as a `struct Fat32_LDIR`; both are packed.
pub mod Chars
pub mod Match
use Prim.Native.Nat.{bit_and, bit_xor}
use buaa_os_mos_with_fat.Base.{
  ℕ, zero, suc, ◌+◌, ◌-◌, ◌*◌, ◌/◌, ◌%◌, ◌^◌, Bool, true, false, ◌&&◌, ◌==◌, ◌!=◌, ltb,
  if◌then◌else◌, List, [], ◌∷◌, get_or, set, drop, length,
}
use buaa_os_mos_with_fat.Base.Bitmap.{Words}
use buaa_os_mos_with_fat.Fat.Names.{CString}

abbrev pub Slot : Type 0
Slot = List ℕ

-- `short` fields, little endian
abbrev pub read16 : Slot → ℕ → ℕ
read16 s o = get_or s o 0 + 256 * get_or s (o + 1) 0

abbrev pub write16 : ℕ → ℕ → Slot → Slot
write16 o v s = set (set s o (v % 256)) (o + 1) (v / 256)

-- the offset of the i-th character: `LDIR_Name1`, `LDIR_Name2`, `LDIR_Name3`
abbrev pub char_offset : ℕ → ℕ
char_offset i =
    if ltb i 5 then 1 + 2 * i else if ltb i 11 then 14 + 2 * (i - 5) else 28 + 2 * (i - 11)

-- `LDIR_Ord`, and `LDIR_Attr` or `Attr`
abbrev pub ldir_ord : Slot → ℕ
ldir_ord s = get_or s 0 0

abbrev pub attr : Slot → ℕ
attr s = get_or s 11 0

abbrev pub last_long_entry : ℕ
last_long_entry = 0x40

-- `(short)c` for a `char` c: the sign is extended
abbrev pub short_of : ℕ → ℕ
short_of c = if ltb c 128 then c else c + 0xff00

-- `getSubName`: the thirteen characters, as an array
unfoldable pub get_sub_name : Slot → ℕ → ℕ
get_sub_name s i = read16 s (char_offset i)

unfoldable pub put_char : ℕ → ℕ → Slot → Slot
put_char i v s = write16 (char_offset i) v s

-- The first loop of `fillFileLN`: `i` where it stops, and the slot.
unfoldable pub fill_chars : CString → ℕ → Slot → ℕ × Slot
fill_chars [] i s = (i, s)
fill_chars (c ∷ p) i s =
    if c != 0 && ltb i 13 then fill_chars p (i + 1) (put_char i (short_of c) s) else (i, s)

-- The second loop: the rounds left, and `i`.
unfoldable pub fill_rest : ℕ → ℕ → Slot → Slot
fill_rest zero i s = s
fill_rest (suc rounds) i s = fill_rest rounds (i + 1) (put_char i 0xffff s)

end_chars : ℕ × Slot → Slot
unfolding fill_rest
end_chars (i, s) = fill_rest (13 - (i + 1)) (i + 1) (if ltb i 13 then put_char i 0 s else s)

-- `fillFileLN` for a part number `ord` of the name, which is at least 1 and starts within it.
unfoldable pub fill_file_ln : Slot → CString → ℕ → Slot
unfolding fill_chars end_chars
fill_file_ln cur user_name ord = end_chars (fill_chars (drop ((ord - 1) * 13) user_name) 0 cur)

-- The loop of `cmpLongName` over the characters `tmp` and the bytes `p`, from `i` on.
unfoldable pub cmp_chars : (tmp : ℕ → ℕ) → (p : Words) → ℕ → ℕ → Bool
cmp_chars tmp p zero i = true
cmp_chars tmp p (suc rounds) i =
    if p i == 0 && tmp i == 0
    then true
    else if short_of (p i) != tmp i
    then false
    else cmp_chars tmp p rounds (i + 1)

-- the number of a long entry, without the mark of the last one
unfoldable pub ord_of : Slot → ℕ
ord_of cur =
    if bit_and (ldir_ord cur) last_long_entry != 0
    then bit_xor (ldir_ord cur) last_long_entry
    else ldir_ord cur

-- The byte at an offset from the name: a character, the terminator, or what memory holds around it.
unfoldable pub byte_of : CString → (outside : Words) → ℕ → ℕ
byte_of s outside o =
    if ltb o (length s) then get_or s o 0 else if o == length s then 0 else outside o

-- `p[i]` with `p = s + (ord - 1) * 13`, where `ord - 1` and addresses wrap around
unfoldable pub part_of : CString → (outside : Words) → (ord i : ℕ) → ℕ
unfolding byte_of
part_of s outside ord i = byte_of s outside (((ord + (2 ^ 32 - 1)) % 2 ^ 32 * 13 + i) % 2 ^ 32)

unfoldable pub cmp_long_name : Slot → CString → (outside : Words) → Bool
unfolding cmp_chars ord_of get_sub_name part_of
cmp_long_name cur s outside = cmp_chars (get_sub_name cur) (part_of s outside (ord_of cur)) 13 0
