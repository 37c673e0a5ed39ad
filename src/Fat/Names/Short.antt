-- ===== src/Fat/Names/Short.antt =====
-- `getFileName` against a description of 8.3 names.
use buaa_os_mos_with_fat.Base.{
  ℕ, zero, suc, ◌+◌, ◌≡◌, refl, ◌||◌, ◌==◌, if◌then◌else◌, List, [], ◌∷◌, ◌++◌, length,
  length-append, set, arith, Bool-cases, inl, inr, ap, sym, ◌∙◌,
}
use mathlib.Core.List.{append_assoc}
use buaa_os_mos_with_fat.Fat.Names.{CString, upper, base_loop, ext_loop, extension, get_file_name}

-- a field of k bytes that holds the name, filled up with spaces
abbrev pub fill : ℕ → List ℕ → List ℕ
fill zero xs = []
fill (suc k) [] = 32 ∷ fill k []
fill (suc k) (x ∷ xs) = x ∷ fill k xs

-- at most k characters before a dot or the end, and what follows them
abbrev pub base_of : ℕ → CString → List ℕ
base_of zero u = []
base_of (suc k) [] = []
base_of (suc k) (c ∷ u) = if c == b'.' || c == 0 then [] else upper c ∷ base_of k u

abbrev pub rest_of : ℕ → CString → CString
rest_of zero u = u
rest_of (suc k) [] = []
rest_of (suc k) (c ∷ u) = if c == b'.' || c == 0 then c ∷ u else rest_of k u

-- at most k characters before the end
abbrev pub ext_of : ℕ → CString → List ℕ
ext_of zero u = []
ext_of (suc k) [] = []
ext_of (suc k) (c ∷ u) = if c == 0 then [] else c ∷ ext_of k u

-- the extension counts only behind a dot
abbrev pub after_dot : CString → List ℕ
after_dot [] = []
after_dot (c ∷ u) = if c == b'.' then ext_of 3 u else []

set-append : (xs ys : List ℕ) (x v : ℕ) → set (xs ++ x ∷ ys) (length xs) v ≡ xs ++ v ∷ ys
set-append [] ys x v = refl
set-append (z ∷ xs) ys x v = ap (λ l. z ∷ l) (set-append xs ys x v)

-- writing behind `done`
set_next :
    (done rest : List ℕ) (i v : ℕ)
    → length done ≡ i
    → set (done ++ 32 ∷ rest) i v ≡ (done ++ v ∷ []) ++ rest
set_next done rest i v l =
    rw (← l) (set-append done rest 32 v ∙ sym (append_assoc done (v ∷ []) rest))

length-snoc : (done : List ℕ) (v i : ℕ) → length done ≡ i → length (done ++ v ∷ []) ≡ i + 1
length-snoc done v i l = omega (arith, length-append done (v ∷ []))

ext_loop_lem :
    (u : CString) (k j : ℕ) (done : List ℕ)
    → j + k ≡ 11
    → length done ≡ j
    → ext_loop u j (done ++ fill k []) ≡ done ++ fill k (ext_of k u)
unfolding ext_loop
ext_loop_lem [] zero j done e l = refl
ext_loop_lem [] (suc k) j done e l = refl
ext_loop_lem (c ∷ u) zero j done e l = ground arith
ext_loop_lem (c ∷ u) (suc k) j done e l = ground (
  arith,
  set_next done (fill k []) j c l,
  ext_loop_lem u k (j + 1) (done ++ c ∷ []) (omega arith) (length-snoc done c j l),
  append_assoc done (c ∷ []) (fill k (ext_of k u)),
)

blank : List ℕ
blank = 32 ∷ 32 ∷ 32 ∷ []

base_loop_lem :
    (u : CString) (k i : ℕ) (done : List ℕ)
    → i + k ≡ 8
    → length done ≡ i
    → base_loop u i (done ++ (fill k [] ++ blank))
      ≡ (rest_of k u, done ++ (fill k (base_of k u) ++ blank))
unfolding base_loop
base_loop_lem [] zero i done e l = refl
base_loop_lem [] (suc k) i done e l = refl
base_loop_lem (c ∷ u) zero i done e l = ground arith
base_loop_lem (c ∷ u) (suc k) i done e l = ground (
  arith,
  set_next done (fill k [] ++ blank) i (upper c) l,
  base_loop_lem u k (i + 1) (done ++ upper c ∷ []) (omega arith) (length-snoc done _ i l),
  append_assoc done (upper c ∷ []) (fill k (base_of k u) ++ blank),
)

pub length-fill : (k : ℕ) (xs : List ℕ) → length (fill k xs) ≡ k
length-fill zero xs = refl
length-fill (suc k) [] = ap suc (length-fill k [])
length-fill (suc k) (x ∷ xs) = ap suc (length-fill k xs)

extension_lem :
    (u : CString) (done : List ℕ)
    → length done ≡ 8
    → extension (u, done ++ blank) ≡ done ++ fill 3 (after_dot u)
unfolding extension blank
extension_lem [] done l = refl
extension_lem (c ∷ u) done l = elim (Bool-cases (c == b'.')) [
  | inl dot ↦ rw dot (ext_loop_lem u 3 8 done refl l)
  | inr other ↦ rw other
]

-- `getFileName` writes eleven bytes: the part of the name before the first dot, in capitals, cut or
-- filled with spaces to eight, and then the extension, as it is spelled, cut or filled to three.
-- A dot beyond the first nine characters starts no extension.
pub get_file_name_lem :
    (u : CString) → get_file_name u ≡ fill 8 (base_of 8 u) ++ fill 3 (after_dot (rest_of 8 u))
unfolding get_file_name blank
get_file_name_lem u =
    rw (base_loop_lem u 8 0 [] refl refl)
      (extension_lem (rest_of 8 u) (fill 8 (base_of 8 u)) (length-fill 8 (base_of 8 u)))

pub length-get_file_name : (u : CString) → length (get_file_name u) ≡ 11
length-get_file_name u = rw (get_file_name_lem u) (
    omega (
      arith,
      length-append (fill 8 (base_of 8 u)) (fill 3 (after_dot (rest_of 8 u))),
      length-fill 8 (base_of 8 u),
      length-fill 3 (after_dot (rest_of 8 u)),
    ))
