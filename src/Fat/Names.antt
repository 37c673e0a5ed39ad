-- ===== src/Fat/Names.antt =====
-- fs/fatfs.c: 8.3 names and their checksum. A C string is the list of its bytes without the
-- terminator, which a read at the end of the list gives.
pub mod Short
pub mod Compare
pub mod Checksum
use buaa_os_mos_with_fat.Base.{
  ℕ, zero, suc, ◌+◌, ◌-◌, ◌*◌, ◌/◌, ◌%◌, Bool, true, false, not, ◌&&◌, ◌==◌, ◌!=◌, leb, ltb,
  if◌then◌else◌, List, [], ◌∷◌, get_or, set, replicate, drop,
}
use buaa_os_mos_with_fat.Base.Int.{ℤ, pos, sub_ℕ}

abbrev pub CString : Type 0
CString = List ℕ

-- the difference of two values of the signed type `char`, given as bytes
abbrev pub char_diff : ℕ → ℕ → ℤ
char_diff a b = sub_ℕ ((a + 128) % 256) ((b + 128) % 256)

-- the rounds of the loop that are left, and `i`
bytencmp_from : List ℕ → List ℕ → ℕ → ℕ → ℤ
bytencmp_from a b zero i = pos 0
bytencmp_from a b (suc rounds) i =
    if get_or a i 0 != get_or b i 0
    then char_diff (get_or a i 0) (get_or b i 0)
    else bytencmp_from a b rounds (i + 1)

unfoldable pub bytencmp : List ℕ → List ℕ → ℕ → ℤ
unfolding bytencmp_from
bytencmp a b n = bytencmp_from a b n 0

abbrev pub upper : ℕ → ℕ
upper c = if leb b'a' c && leb c b'z' then c - b'a' + b'A' else c

-- The first loop of `getFileName`: what is left of `user_name`, and `c1`.
base_loop : CString → ℕ → List ℕ → CString × List ℕ
base_loop [] i c1 = ([], c1)
base_loop (c ∷ u) i c1 =
    if c != b'.' && c != 0 && ltb i 8 then base_loop u (i + 1) (set c1 i (upper c)) else (c ∷ u, c1)

-- The second loop, from behind the dot.
ext_loop : CString → ℕ → List ℕ → List ℕ
ext_loop [] j c1 = c1
ext_loop (c ∷ u) j c1 = if c != 0 && ltb j 11 then ext_loop u (j + 1) (set c1 j c) else c1

extension : CString × List ℕ → List ℕ
extension ([], c1) = c1
extension (c ∷ u, c1) = if c == b'.' then ext_loop u 8 c1 else c1

-- What `getFileName` writes to `c1`.
unfoldable pub get_file_name : CString → List ℕ
unfolding base_loop ext_loop extension
get_file_name user_name = extension (base_loop user_name 0 (replicate 11 32))

unfoldable pub cmp_file_name : List ℕ → CString → ℤ
unfolding base_loop ext_loop extension bytencmp
cmp_file_name fs_name user_name =
    bytencmp fs_name (extension (base_loop user_name 0 (replicate 11 32))) 11

-- `cmpShortEntry`: the first six characters and the extension; `true` is its result 1.
differ_from : List ℕ → List ℕ → ℕ → ℕ → Bool
differ_from a b zero i = false
differ_from a b (suc rounds) i =
    if get_or a i 0 != get_or b i 0 then true else differ_from a b rounds (i + 1)

unfoldable pub cmp_short_entry : CString → List ℕ → Bool
unfolding differ_from get_file_name
cmp_short_entry user_name c1 =
    let tmp = get_file_name user_name in
    if differ_from tmp c1 6 0 then true else differ_from tmp c1 3 8

-- one round of `ChkSum`, on `unsigned char`
abbrev pub chksum_step : ℕ → ℕ → ℕ
chksum_step acc c = ((if acc % 2 == 1 then 0x80 else 0) + acc / 2 + c) % 256

unfoldable pub chksum_from : ℕ → List ℕ → ℕ
chksum_from acc [] = acc
chksum_from acc (c ∷ name) = chksum_from (chksum_step acc c) name

-- `ChkSum` reads the eleven bytes of the name.
unfoldable pub chk_sum : List ℕ → ℕ
unfolding chksum_from
chk_sum name = chksum_from 0 name

-- `fat_needLN`: the part before the dot has more than eight characters.
unfoldable pub dot_index : CString → ℕ
dot_index [] = 0
dot_index (c ∷ u) = if c != 0 && c != b'.' then suc (dot_index u) else 0

unfoldable pub fat_need_ln : CString → Bool
unfolding dot_index
fat_need_ln path = ltb 8 (dot_index path)

-- `fat_skip_slash`
unfoldable pub fat_skip_slash : CString → CString
fat_skip_slash [] = []
fat_skip_slash (c ∷ p) = if c == b'/' then fat_skip_slash p else c ∷ p

-- `skip_root`: past a ":" or past "FAT"
unfoldable pub skip_root : CString → CString
skip_root p =
    if get_or p 0 0 == b':'
    then drop 1 p
    else if get_or p 0 0 == b'F' && get_or p 1 0 == b'A' && get_or p 2 0 == b'T'
    then drop 3 p
    else p
