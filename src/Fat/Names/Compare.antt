-- ===== src/Fat/Names/Compare.antt =====
-- The comparisons of names find exactly the entry that `getFileName` writes.
use buaa_os_mos_with_fat.Base.{
  ℕ, zero, suc, ◌+◌, ◌≤◌, ◌<◌, ◌≡◌, ◌↔◌, refl, ◌==◌, List, [], ◌∷◌, length, get_or, arith,
  Bool-cases, inl, inr, sym, ◌∙◌, ◌++◌, ◌||◌,
}
use buaa_os_mos_with_fat.Base.Int.{pos}
use buaa_os_mos_with_fat.Fat.Names.{
  CString, upper, char_diff, bytencmp_from, bytencmp, get_file_name, cmp_file_name,
}
use buaa_os_mos_with_fat.Fat.Names.Short.{
  length-get_file_name, base_of, rest_of, ext_of, after_dot, fill, get_file_name_lem,
}

abbrev pub AllBytes : List ℕ → Type 0
AllBytes [] = Unit {0}
AllBytes (x ∷ xs) = (x < 256) × AllBytes xs

pub get_or-lt : (xs : List ℕ) (i : ℕ) → AllBytes xs → get_or xs i 0 < 256
get_or-lt [] i h = omega arith
get_or-lt (x ∷ xs) zero h = h.0
get_or-lt (x ∷ xs) (suc i) h = get_or-lt xs i h.1

char_diff-zero : (a b : ℕ) → a < 256 → b < 256 → char_diff a b ≡ pos 0 → a ≡ b
char_diff-zero a b h k e = ground arith

bytencmp_from-zero :
    (a b : List ℕ) (rounds i j : ℕ)
    → AllBytes a
    → AllBytes b
    → bytencmp_from a b rounds i ≡ pos 0
    → i ≤ j
    → j < i + rounds
    → get_or a j 0 ≡ get_or b j 0
unfolding bytencmp_from
bytencmp_from-zero a b zero i j ha hb e p q = absurd (omega arith)
bytencmp_from-zero a b (suc rounds) i j ha hb e p q = ground (
  arith,
  char_diff-zero (get_or a i 0) (get_or b i 0) (get_or-lt a i ha) (get_or-lt b i hb),
  bytencmp_from-zero a b rounds (i + 1) j ha hb,
)

bytencmp_from_refl : (a : List ℕ) (rounds i : ℕ) → bytencmp_from a a rounds i ≡ pos 0
unfolding bytencmp_from
bytencmp_from_refl a zero i = refl
bytencmp_from_refl a (suc rounds) i = ground (arith, bytencmp_from_refl a rounds (i + 1))

-- lists of one length that agree at each index
eq_of_get_or :
    (a b : List ℕ)
    → length a ≡ length b
    → ((j : ℕ) → j < length a → get_or a j 0 ≡ get_or b j 0)
    → a ≡ b
eq_of_get_or [] [] l h = refl
eq_of_get_or [] (y ∷ b) l h = absurd (omega arith)
eq_of_get_or (x ∷ a) [] l h = absurd (omega arith)
eq_of_get_or (x ∷ a) (y ∷ b) l h =
    cc (h 0 (omega arith), eq_of_get_or a b (omega arith) (λ j p. h (suc j) (omega arith)))

-- `bytencmp` of two buffers of n bytes gives 0 exactly if they are equal.
pub bytencmp_lem :
    (a b : List ℕ) (n : ℕ)
    → length a ≡ n
    → length b ≡ n
    → AllBytes a
    → AllBytes b
    → (bytencmp a b n ≡ pos 0) ↔ (a ≡ b)
unfolding bytencmp
bytencmp_lem a b n la lb ha hb = (
  λ e.
      eq_of_get_or a b (la ∙ sym lb)
        (λ j p. bytencmp_from-zero a b n 0 j ha hb e (omega arith) (omega arith)),
  λ e. rw e (bytencmp_from_refl b n 0),
)

AllBytes-append : (xs ys : List ℕ) → AllBytes xs → AllBytes ys → AllBytes (xs ++ ys)
AllBytes-append [] ys h k = k
AllBytes-append (x ∷ xs) ys h k = (h.0, AllBytes-append xs ys h.1 k)

fill-AllBytes : (k : ℕ) (xs : List ℕ) → AllBytes xs → AllBytes (fill k xs)
fill-AllBytes zero xs h = tt
fill-AllBytes (suc k) [] h = (omega arith, fill-AllBytes k [] tt)
fill-AllBytes (suc k) (x ∷ xs) h = (h.0, fill-AllBytes k xs h.1)

upper-lt : (c : ℕ) → c < 256 → upper c < 256
upper-lt c h = ground arith

base_of-AllBytes : (k : ℕ) (u : CString) → AllBytes u → AllBytes (base_of k u)
base_of-AllBytes zero u h = tt
base_of-AllBytes (suc k) [] h = tt
base_of-AllBytes (suc k) (c ∷ u) h = elim (Bool-cases (c == b'.' || c == 0)) [
  | inl stop ↦ rw stop tt
  | inr go ↦ rw go (upper-lt c h.0, base_of-AllBytes k u h.1)
]

rest_of-AllBytes : (k : ℕ) (u : CString) → AllBytes u → AllBytes (rest_of k u)
rest_of-AllBytes zero u h = h
rest_of-AllBytes (suc k) [] h = tt
rest_of-AllBytes (suc k) (c ∷ u) h = elim (Bool-cases (c == b'.' || c == 0)) [
  | inl stop ↦ rw stop h
  | inr go ↦ rw go (rest_of-AllBytes k u h.1)
]

ext_of-AllBytes : (k : ℕ) (u : CString) → AllBytes u → AllBytes (ext_of k u)
ext_of-AllBytes zero u h = tt
ext_of-AllBytes (suc k) [] h = tt
ext_of-AllBytes (suc k) (c ∷ u) h = elim (Bool-cases (c == 0)) [
  | inl stop ↦ rw stop tt
  | inr go ↦ rw go (h.0, ext_of-AllBytes k u h.1)
]

after_dot-AllBytes : (u : CString) → AllBytes u → AllBytes (after_dot u)
after_dot-AllBytes [] h = tt
after_dot-AllBytes (c ∷ u) h = elim (Bool-cases (c == b'.')) [
  | inl dot ↦ rw dot (ext_of-AllBytes 3 u h.1)
  | inr other ↦ rw other tt
]

-- the bytes of a name that `getFileName` writes are the bytes of the user's
get_file_name-AllBytes : (u : CString) → AllBytes u → AllBytes (get_file_name u)
get_file_name-AllBytes u h = rw (get_file_name_lem u) (
    AllBytes-append (fill 8 (base_of 8 u)) (fill 3 (after_dot (rest_of 8 u)))
      (fill-AllBytes 8 (base_of 8 u) (base_of-AllBytes 8 u h))
      (fill-AllBytes 3 (after_dot (rest_of 8 u))
        (after_dot-AllBytes (rest_of 8 u) (rest_of-AllBytes 8 u h))))

-- `cmpFileName` finds an entry of the disk exactly if `getFileName` would have written it.
pub cmp_file_name_lem :
    (name : List ℕ) (u : CString)
    → length name ≡ 11
    → AllBytes name
    → AllBytes u
    → (cmp_file_name name u ≡ pos 0) ↔ (name ≡ get_file_name u)
unfolding cmp_file_name get_file_name
cmp_file_name_lem name u l h k =
    bytencmp_lem name (get_file_name u) 11 l (length-get_file_name u) h (get_file_name-AllBytes u k)
