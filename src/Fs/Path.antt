-- ===== src/Fs/Path.antt =====
-- fs/fs.c: `dir_lookup`, and the evaluation of path names. A path is the list of its bytes without
-- the terminator. The root is `super->s_root`, from word 2 of block 1 on.
pub mod Resolve
use buaa_os_mos_with_fat.Base.{
  ℕ, zero, suc, ◌+◌, ◌*◌, ◌/◌, ◌%◌, ◌^◌, Bool, true, false, ◌&&◌, ◌==◌, ◌!=◌, leb, if◌then◌else◌,
  List, [], ◌∷◌, length, Option, none, some, Error, not_found, bad_path, Run, ok, err, panic, Cmd,
  pure, fail, ◌>>=◌, ◌>>◌,
}
use buaa_os_mos_with_fat.Base.Bitmap.{Words, update}
use buaa_os_mos_with_fat.Fs.Cache.{Server, block_words}
use buaa_os_mos_with_fat.Fs.File.{f_size, load, store, file_get_block}

-- '/'
abbrev pub slash : ℕ
slash = 47

-- FTYPE_DIR, MAXNAMELEN, FILE2BLK, and the words of a `struct File`
abbrev pub ftype_dir : ℕ
ftype_dir = 1

abbrev pub max_name_len : ℕ
max_name_len = 128

abbrev pub file2blk : ℕ
file2blk = 16

abbrev pub file_words : ℕ
file_words = 64

abbrev pub root : ℕ
root = block_words + 2

-- byte i of `f_name`
abbrev pub name_byte : Words → (f i : ℕ) → ℕ
name_byte cache f i = cache (f + i / 4) / 2 ^ (8 * (i % 4)) % 256

-- `strcmp(f->f_name, name) == 0`, from byte i on
unfoldable pub same_name : Words → (f i : ℕ) → List ℕ → Bool
same_name cache f i [] = name_byte cache f i == 0
same_name cache f i (c ∷ name) =
    let rest = same_name cache f (i + 1) name in if name_byte cache f i == c then rest else false

-- the entries of one block: the rounds that are left, and the entry
unfoldable pub find_entry : Words → List ℕ → ℕ → (f : ℕ) → Option ℕ
unfolding same_name
find_entry cache name zero f = none
find_entry cache name (suc rounds) f =
    let rest = find_entry cache name rounds (f + file_words) in
    if same_name cache f 0 name then some f else rest

-- `f_dir` of the entry is word 45
unfoldable pub enter : (dir : ℕ) → Option ℕ → Cmd Server ℕ → Cmd Server ℕ
unfolding update
enter dir none next = next
enter dir (some f) next = do store (f + 45) dir; pure f

-- the loop over the blocks
unfoldable pub scan_blocks : (granted : Bool) (dir : ℕ) → List ℕ → (rounds i : ℕ) → Cmd Server ℕ
unfolding file_get_block find_entry enter
scan_blocks granted dir name zero i = fail not_found
scan_blocks granted dir name (suc rounds) i = do
  blk ← file_get_block granted dir i
  λ s.
      enter dir (find_entry s.cache name file2blk (blk * block_words))
        (scan_blocks granted dir name rounds (i + 1)) s

unfoldable pub dir_lookup : (granted : Bool) (dir : ℕ) → List ℕ → Cmd Server ℕ
unfolding scan_blocks
dir_lookup granted dir name = do
  size ← load (f_size dir)
  scan_blocks granted dir name (size / 4096) 0

unfoldable pub skip_slash : List ℕ → List ℕ
skip_slash [] = []
skip_slash (c ∷ p) = if c == slash then skip_slash p else c ∷ p

-- the bytes up to the next slash, and those from it on
unfoldable pub first_elem : List ℕ → List ℕ
first_elem [] = []
first_elem (c ∷ p) = if c == slash then [] else c ∷ first_elem p

unfoldable pub after_elem : List ℕ → List ℕ
after_elem [] = []
after_elem (c ∷ p) = if c == slash then c ∷ p else after_elem p

-- What `walk_path` returns and stores: the code, `*pdir`, `*pfile` and `lastelem`.
pub record Walked : Type 0 where
  pub code : Option Error
  pub pdir : Option ℕ
  pub pfile : Option ℕ
  pub lastelem : Option (List ℕ)

abbrev pub arrived : Option ℕ → ℕ → Walked
arrived dir file = record { code = none; pdir = dir; pfile = some file; lastelem = none }

abbrev pub stopped : Error → Walked
stopped e = record { code = some e; pdir = none; pfile = none; lastelem = none }

abbrev pub missing : (dir : ℕ) → List ℕ → Walked
missing dir name = record {
  code = some not_found;
  pdir = some dir;
  pfile = none;
  lastelem = some name;
}

abbrev pub is_not_found : Error → Bool
is_not_found not_found = true
is_not_found _ = false

-- what follows the lookup in one round of the loop; `last` says that the path is at its end
unfoldable pub looked_up :
    (dir : ℕ) (name : List ℕ) (last : Bool)
    → (ℕ → Cmd Server Walked)
    → Run Server ℕ
    → Run Server Walked
looked_up dir name last next (ok file s) = next file s
looked_up dir name last next (err e s) =
    if is_not_found e && last then ok (missing dir name) s else ok (stopped e) s
looked_up dir name last next Run.panic = panic

-- one round of the loop; `f_type` is word 33
unfoldable pub walk_elem :
    (granted : Bool) (dir : ℕ) (name : List ℕ) (last : Bool)
    → (ℕ → Cmd Server Walked)
    → Cmd Server Walked
unfolding dir_lookup looked_up
walk_elem granted dir name last next s =
    if leb max_name_len (length name)
    then ok (stopped bad_path) s
    else if s.cache (dir + 33) != ftype_dir
    then ok (stopped not_found) s
    else looked_up dir name last next (dir_lookup granted dir name s)

abbrev pub is_end : List ℕ → Bool
is_end [] = true
is_end (c ∷ p) = false

-- the loop of `walk_path`: a round for each byte of the path is enough
unfoldable pub walk_loop : (granted : Bool) (rounds : ℕ) → List ℕ → Option ℕ → ℕ → Cmd Server Walked
unfolding walk_elem skip_slash first_elem after_elem
walk_loop granted rounds [] dir file s = ok (arrived dir file) s
walk_loop granted zero (c ∷ p) dir file s = panic
walk_loop granted (suc rounds) (c ∷ p) dir file s =
    let rest : List ℕ = skip_slash (after_elem (c ∷ p)) in
    walk_elem granted file (first_elem (c ∷ p)) (is_end rest)
      (λ found. walk_loop granted rounds rest (some file) found) s

unfoldable pub walk_path : (granted : Bool) → List ℕ → Cmd Server Walked
unfolding walk_loop skip_slash
walk_path granted path = walk_loop granted (length path) (skip_slash path) none root
