-- ===== src/Tests/Paths.antt =====
-- A root directory without entries, and paths with more slashes than they need.
use buaa_os_mos_with_fat.Base.{
  ℕ, ◌+◌, ◌≡◌, refl, true, false, ◌==◌, if◌then◌else◌, List, [], ◌∷◌, none, ok,
}
use buaa_os_mos_with_fat.Fs.Cache.{Server}
use buaa_os_mos_with_fat.Fs.Path.{
  root, missing, skip_slash, first_elem, after_elem, walk_path, walk_loop, walk_elem, looked_up,
  dir_lookup, scan_blocks,
}
use buaa_os_mos_with_fat.Fs.Path.Resolve.{components, split, resolve, walk_path-resolve}

-- the type of the root is FTYPE_DIR, and its size 0
abbrev empty_root : Server
empty_root = record {
  cache = λ w. if w == root + 33 then 1 else 0;
  disk = λ w. 0;
  mapped = λ b. true;
  dirty = λ b. false;
  super_set = true;
  bitmap_set = true;
}

-- "//a/"
abbrev path_a : List ℕ
path_a = b'/' ∷ b'/' ∷ b'a' ∷ b'/' ∷ []

-- "/a//b"
two_names : components (b'/' ∷ b'a' ∷ b'/' ∷ b'/' ∷ b'b' ∷ []) ≡ (b'a' ∷ []) ∷ (b'b' ∷ []) ∷ []
unfolding split
two_names = refl

no_a : walk_path false path_a empty_root ≡ ok (missing root (b'a' ∷ [])) empty_root
unfolding walk_path walk_loop walk_elem looked_up dir_lookup scan_blocks skip_slash first_elem
    after_elem
no_a = refl

walk_path-resolve_example :
    walk_path false path_a empty_root ≡ resolve false (components path_a) none root empty_root
walk_path-resolve_example = walk_path-resolve false path_a empty_root
