-- ===== src/Clib/Strings.antt =====
-- lib/string.c: C strings. A string is the list of its bytes without the terminator, none of which
-- is 0; a read at the end of the list gives 0.
use buaa_os_mos_with_fat.Base.{
  ℕ, suc, ◌+◌, ◌<◌, ◌≡◌, ◌≢◌, ◌↔◌, refl, Bool, true, false, ◌==◌, ltb, if◌then◌else◌, List, [], ◌∷◌,
  Option, none, some, arith, Bool-cases, inl, inr,
}
use buaa_os_mos_with_fat.Base.Int.{ℤ, pos, negsuc}

unfoldable pub strlen : List ℕ → ℕ
strlen [] = 0
strlen (c ∷ s) = suc (strlen s)

-- the string from the character on
unfoldable pub strchr : List ℕ → ℕ → Option (List ℕ)
strchr [] c = none
strchr (x ∷ s) c = if x == c then some (x ∷ s) else strchr s c

-- `(u_int)` of a `char`, which is signed
abbrev u_int : ℕ → ℕ
u_int c = if ltb c 128 then c else c + 0xffff_ff00

abbrev compare_ends : ℕ → ℕ → ℤ
compare_ends c d =
    if ltb (u_int c) (u_int d) then negsuc 0 else if ltb (u_int d) (u_int c) then pos 1 else pos 0

unfoldable pub strcmp : List ℕ → List ℕ → ℤ
strcmp [] [] = pos 0
strcmp [] (d ∷ q) = compare_ends 0 d
strcmp (c ∷ p) [] = compare_ends c 0
strcmp (c ∷ p) (d ∷ q) = if c == d then strcmp p q else compare_ends c d

-- the bytes of a string
abbrev pub IsString : List ℕ → Type 0
IsString [] = Unit {0}
IsString (c ∷ s) = (0 < c) × (c < 256) × IsString s

ends_differ : (c d : ℕ) → c < 256 → d < 256 → c ≢ d → compare_ends c d ≢ pos 0
ends_differ c d h k ne e = ne (ground arith)

if_true : (b : Bool) (x y z : ℤ) → b ≡ true → (if b then x else y) ≡ z → x ≡ z
if_true true x y z h e = e
if_true false x y z h e = cc h

if_false : (b : Bool) (x y z : ℤ) → b ≡ false → (if b then x else y) ≡ z → y ≡ z
if_false true x y z h e = cc h
if_false false x y z h e = e

strcmp_sound : (p q : List ℕ) → IsString p → IsString q → strcmp p q ≡ pos 0 → p ≡ q
unfolding strcmp
strcmp_sound [] [] u v e = refl
strcmp_sound [] (d ∷ q) u (low, high, v) e =
    absurd (ends_differ 0 d (omega arith) high (omega arith) e)
strcmp_sound (c ∷ p) [] (low, high, u) v e =
    absurd (ends_differ c 0 high (omega arith) (omega arith) e)
strcmp_sound (c ∷ p) (d ∷ q) (cl, ch, u) (dl, dh, v) e = elim (Bool-cases (c == d)) [
  | inl same ↦
      let h : c ≡ d = ground arith in
      cc (h, strcmp_sound p q u v (if_true (c == d) (strcmp p q) (compare_ends c d) (pos 0) same e))
  | inr other ↦ absurd (
      ends_differ c d ch dh (ground arith)
        (if_false (c == d) (strcmp p q) (compare_ends c d) (pos 0) other e))
]

strcmp_refl : (p : List ℕ) → strcmp p p ≡ pos 0
unfolding strcmp
strcmp_refl [] = refl
strcmp_refl (c ∷ p) = let same : (c == c) ≡ true = ground arith in rw same (strcmp_refl p)

-- `strcmp` of two strings gives 0 exactly if they are equal.
pub strcmp_lem : (p q : List ℕ) → IsString p → IsString q → (strcmp p q ≡ pos 0) ↔ (p ≡ q)
strcmp_lem p q u v = (strcmp_sound p q u v, λ e. rw e (strcmp_refl q))
