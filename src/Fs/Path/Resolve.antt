-- ===== src/Fs/Path/Resolve.antt =====
-- `walk_path` against an evaluation over the elements of the path, which a single pass finds.
use mathlib.Core.List.{append-nil, append_assoc}
use buaa_os_mos_with_fat.Base.{
  ℕ, zero, suc, ◌+◌, ◌≤◌, ◌≡◌, refl, Bool, true, false, ◌&&◌, ◌==◌, ◌!=◌, leb, ltb, if◌then◌else◌,
  List, [], ◌∷◌, ◌++◌, length, Option, none, some, Error, not_found, bad_path, Run, ok, err, panic,
  Cmd, arith, Bool-cases, inl, inr, sym, ap, ◌∙◌,
}
use buaa_os_mos_with_fat.Fs.Cache.{Server}
use buaa_os_mos_with_fat.Fs.Path.{
  slash, root, Walked, is_end, is_not_found, skip_slash, first_elem, after_elem, looked_up,
  dir_lookup, walk_elem, walk_loop, walk_path,
}

-- a name that is not empty comes before the others
abbrev pub push : List ℕ → List (List ℕ) → List (List ℕ)
push [] names = names
push (c ∷ name) names = (c ∷ name) ∷ names

-- the names between the slashes, `name` being the one that has begun
unfoldable pub split : (name : List ℕ) → List ℕ → List (List ℕ)
split name [] = push name []
split name (c ∷ p) = if c == slash then push name (split [] p) else split (name ++ (c ∷ [])) p

abbrev pub components : List ℕ → List (List ℕ)
components p = split [] p

abbrev is_last : List (List ℕ) → Bool
is_last [] = true
is_last (name ∷ names) = false

-- What a walk to the names should answer: at the end, the file and its directory; on the way, an
-- error alone, or, when the last name is not there, its directory and that name as well.
abbrev pub answer : (dir : Option ℕ) (file : ℕ) → Walked
answer dir file = record { code = none; pdir = dir; pfile = some file; lastelem = none }

abbrev pub refused : Error → Walked
refused e = record { code = some e; pdir = none; pfile = none; lastelem = none }

abbrev pub only_last_missing : (dir : ℕ) → List ℕ → Walked
only_last_missing dir name = record {
  code = some not_found;
  pdir = some dir;
  pfile = none;
  lastelem = some name;
}

-- after the lookup of a name in dir, the names behind it
unfoldable pub proceed :
    (dir : ℕ) (name : List ℕ)
    → List (List ℕ)
    → (ℕ → Cmd Server Walked)
    → Run Server ℕ
    → Run Server Walked
proceed dir name names next (ok file s) = next file s
proceed dir name [] next (err not_found s) = ok (only_last_missing dir name) s
proceed dir name [] next (err e s) = ok (refused e) s
proceed dir name (other ∷ names) next (err e s) = ok (refused e) s
proceed dir name names next Run.panic = panic

-- The names one after the other: a name has at most 127 bytes, and word 33 of a directory is 1.
unfoldable pub resolve : (granted : Bool) → List (List ℕ) → Option ℕ → ℕ → Cmd Server Walked
unfolding proceed
resolve granted [] dir file s = ok (answer dir file) s
resolve granted (name ∷ names) dir file s =
    if ltb 127 (length name)
    then ok (refused bad_path) s
    else if s.cache (file + 33) == 1
    then proceed file name names (resolve granted names (some file))
        (dir_lookup granted file name s)
    else ok (refused not_found) s

split_name :
    (name p : List ℕ) → split name p ≡ push (name ++ first_elem p) (split [] (after_elem p))
unfolding split first_elem after_elem
split_name name [] = ap (λ x. push x []) (sym (append-nil name))
split_name name (c ∷ p) = elim (Bool-cases (c == slash)) [
  | inl stop ↦ rw (stop, append-nil name, stop) refl
  | inr more ↦ rw more (
      split_name (name ++ (c ∷ [])) p
      ∙ ap (λ x. push x (split [] (after_elem p))) (append_assoc name (c ∷ []) (first_elem p)))
]

split-skip : (p : List ℕ) → split [] (skip_slash p) ≡ split [] p
unfolding split skip_slash
split-skip [] = refl
split-skip (c ∷ p) = elim (Bool-cases (c == slash)) [
  | inl stop ↦ rw stop (split-skip p)
  | inr more ↦ rw more (rw more refl)
]

-- a path that does not begin with a slash
abbrev Trimmed : List ℕ → Type 0
Trimmed [] = Unit {0}
Trimmed (c ∷ p) = (c == slash) ≡ false

skip_slash-Trimmed : (p : List ℕ) → Trimmed (skip_slash p)
unfolding skip_slash
skip_slash-Trimmed [] = tt
skip_slash-Trimmed (c ∷ p) = elim (Bool-cases (c == slash)) [
  | inl stop ↦ rw stop (skip_slash-Trimmed p)
  | inr more ↦ rw more more
]

-- the first name, and the others
split_first :
    (c : ℕ) (p : List ℕ)
    → (c == slash) ≡ false
    → split [] (c ∷ p) ≡ first_elem (c ∷ p) ∷ split [] (skip_slash (after_elem (c ∷ p)))
unfolding split first_elem after_elem
split_first c p more =
    rw more
      (split_name (c ∷ []) p ∙ ap (λ x. (c ∷ first_elem p) ∷ x) (sym (split-skip (after_elem p))))

is_end-split : (p : List ℕ) → Trimmed p → is_end p ≡ is_last (split [] p)
unfolding split
is_end-split [] t = refl
is_end-split (c ∷ p) more = ap is_last (sym (split_first c p more))

length-skip : (p : List ℕ) → length (skip_slash p) ≤ length p
unfolding skip_slash
length-skip [] = omega arith
length-skip (c ∷ p) = elim (Bool-cases (c == slash)) [
  | inl stop ↦ rw stop (omega (arith, length-skip p))
  | inr more ↦ rw more (omega arith)
]

length-after : (p : List ℕ) → length (after_elem p) ≤ length p
unfolding after_elem
length-after [] = omega arith
length-after (c ∷ p) = elim (Bool-cases (c == slash)) [
  | inl stop ↦ rw stop (omega arith)
  | inr more ↦ rw more (omega (arith, length-after p))
]

rest_short :
    (c : ℕ) (p : List ℕ)
    → (c == slash) ≡ false
    → length (skip_slash (after_elem (c ∷ p))) ≤ length p
unfolding after_elem
rest_short c p more = rw more (omega (arith, length-skip (after_elem p), length-after p))

looked_up_same :
    (dir : ℕ) (name : List ℕ) (last : Bool) (f g : ℕ → Cmd Server Walked) (r : Run Server ℕ)
    → ((i : ℕ) (s : Server) → f i s ≡ g i s)
    → looked_up dir name last f r ≡ looked_up dir name last g r
unfolding looked_up
looked_up_same dir name last f g (ok i s) same = same i s
looked_up_same dir name last f g (err e s) same = refl
looked_up_same dir name last f g Run.panic same = refl

never : (b : Bool) (x y : Run Server Walked) → (if b && false then x else y) ≡ y
never b x y = ground arith

looked_up-proceed :
    (dir : ℕ) (name : List ℕ) (names : List (List ℕ)) (f : ℕ → Cmd Server Walked) (r : Run Server ℕ)
    → looked_up dir name (is_last names) f r ≡ proceed dir name names f r
unfolding looked_up proceed
looked_up-proceed dir name names f (ok i s) = refl
looked_up-proceed dir name [] f (err not_found s) = refl
looked_up-proceed dir name [] f (err e s) = refl
looked_up-proceed dir name (other ∷ names) f (err e s) = never (is_not_found e) _ _
looked_up-proceed dir name names f Run.panic = refl

-- one element of the path, and one name
walk_elem-resolve :
    (granted : Bool) (dir : Option ℕ) (file : ℕ) (name : List ℕ) (names : List (List ℕ))
    (f : ℕ → Cmd Server Walked) (s : Server)
    → ((i : ℕ) (t : Server) → f i t ≡ resolve granted names (some file) i t)
    → walk_elem granted file name (is_last names) f s ≡ resolve granted (name ∷ names) dir file s
unfolding walk_elem resolve
walk_elem-resolve granted dir file name names f s same =
    let long : leb 128 (length name) ≡ ltb 127 (length name) = ground arith in
    ap
      (λ r.
        if leb 128 (length name)
        then ok (refused bad_path) s
        else if s.cache (file + 33) != 1
        then ok (refused not_found) s
        else r)
      (looked_up_same file name (is_last names) f (resolve granted names (some file))
          (dir_lookup granted file name s) same
        ∙ looked_up-proceed file name names (resolve granted names (some file))
            (dir_lookup granted file name s))
    ∙ turn (ltb 127 (length name)) (leb 128 (length name)) (s.cache (file + 33)) _ _ _ long
  where
    turn :
        (a b : Bool) (k : ℕ) (x y z : Run Server Walked)
        → b ≡ a
        → (if b then x else if k != 1 then y else z) ≡ (if a then x else if k == 1 then z else y)
    turn a b k x y z h = ground (arith, h)

resolve_names :
    (granted : Bool) (names others : List (List ℕ)) (dir : Option ℕ) (file : ℕ) (s : Server)
    → names ≡ others
    → resolve granted names dir file s ≡ resolve granted others dir file s
resolve_names granted names others dir file s same = ap (λ x. resolve granted x dir file s) same

walk_loop-resolve :
    (granted : Bool) (rounds : ℕ) (p : List ℕ) (dir : Option ℕ) (file : ℕ) (s : Server)
    → Trimmed p
    → length p ≤ rounds
    → walk_loop granted rounds p dir file s ≡ resolve granted (components p) dir file s
unfolding walk_loop resolve split
walk_loop-resolve granted rounds [] dir file s t h = refl
walk_loop-resolve granted zero (c ∷ p) dir file s t h = absurd (omega arith)
walk_loop-resolve granted (suc rounds) (c ∷ p) dir file s more h =
    let rest : List ℕ = skip_slash (after_elem (c ∷ p)) in
    ap
      (λ last.
        walk_elem granted file (first_elem (c ∷ p)) last
          (λ found. walk_loop granted rounds rest (some file) found) s)
      (is_end-split rest (skip_slash-Trimmed (after_elem (c ∷ p))))
    ∙ walk_elem-resolve granted dir file (first_elem (c ∷ p)) (split [] rest)
        (λ found. walk_loop granted rounds rest (some file) found) s
        (λ found t.
          walk_loop-resolve granted rounds rest (some file) found t
            (skip_slash-Trimmed (after_elem (c ∷ p))) (omega (arith, rest_short c p more)))
    ∙ resolve_names granted (first_elem (c ∷ p) ∷ split [] rest) (split [] (c ∷ p)) dir file s
        (sym (split_first c p more))

-- `walk_path` gets to the end of every path, and does what `dir_lookup` of its names, those between
-- the slashes that are not empty, one after the other from the root does: it stops with -E_BAD_PATH
-- at a name of more than 127 bytes, with -E_NOT_FOUND at a file that is no directory, and with the
-- error of a lookup that fails, and it tells the last directory and the last name if only that name
-- is missing.
pub walk_path-resolve :
    (granted : Bool) (path : List ℕ) (s : Server)
    → walk_path granted path s ≡ resolve granted (components path) none root s
unfolding walk_path
walk_path-resolve granted path s =
    walk_loop-resolve granted (length path) (skip_slash path) none root s (skip_slash-Trimmed path)
      (length-skip path)
    ∙ resolve_names granted (components (skip_slash path)) (components path) none root s
        (split-skip path)
