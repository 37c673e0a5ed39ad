-- ===== src/User/Shell/Line.antt =====
-- Strings in memory, and the loops of `_gettoken` on them.
use buaa_os_mos_with_fat.Base.{
  ℕ, zero, suc, ◌+◌, ◌≤◌, ◌<◌, ◌≡◌, refl, true, false, not, ◌&&◌, ◌==◌, ◌!=◌, if◌then◌else◌, List,
  [], ◌∷◌, length, arith, Bool-cases, ◌⊎◌, inl, inr, sym, ap, ◌∙◌,
}
use buaa_os_mos_with_fat.Base.Bitmap.{Words, update, update_ne, update_here}
use buaa_os_mos_with_fat.User.Shell.{whitespace, specials, is_in, skip_blank, word_end}
use buaa_os_mos_with_fat.Clib.Strings.{strchr}
use mathlib.Core.Path.{subst}

-- the bytes of the string from s on, and the terminator
abbrev pub Line : Words → ℕ → List ℕ → Type 0
Line m s [] = m s ≡ 0
Line m s (c ∷ str) = (m s ≡ c) × (0 < c) × Line m (s + 1) str

pub same-Line :
    (m n : Words) (s : ℕ) (str : List ℕ)
    → ((x : ℕ) → s ≤ x → n x ≡ m x)
    → Line m s str
    → Line n s str
same-Line m n s [] same line = same s (omega arith) ∙ line
same-Line m n s (c ∷ str) same (here, pos, line) =
    (same s (omega arith) ∙ here, pos, same-Line m n (s + 1) str (λ x h. same x (omega arith)) line)

unfoldable pub drop_blank : List ℕ → List ℕ
drop_blank [] = []
drop_blank (c ∷ str) = if is_in whitespace c then drop_blank str else c ∷ str

-- the word that the string begins with, and what comes behind it
unfoldable pub word_of : List ℕ → List ℕ
word_of [] = []
word_of (c ∷ str) = if is_in specials c then [] else c ∷ word_of str

unfoldable pub behind : List ℕ → List ℕ
behind [] = []
behind (c ∷ str) = if is_in specials c then c ∷ str else behind str

-- What the loop over the spaces does to a line.
pub record Skipped (m : Words) (s : ℕ) (left : List ℕ) (t : ℕ) (n : Words) : Type 0 where
  pub up : s ≤ t
  pub line : Line n t left
  pub before : (x : ℕ) → x < s → n x ≡ m x
  pub cleared : (x : ℕ) → s ≤ x → x < t → n x ≡ 0
  pub after : (x : ℕ) → t ≤ x → n x ≡ m x

is_in-zero : is_in whitespace 0 ≡ false
unfolding is_in strchr
is_in-zero = refl

pub skip_blank-Skipped :
    (rounds s : ℕ) (m : Words) (str : List ℕ)
    → length str < rounds
    → Line m s str
    → Skipped m s (drop_blank str) (skip_blank rounds s m).0 (skip_blank rounds s m).1
unfolding skip_blank drop_blank
skip_blank-Skipped zero s m str h line = absurd (omega arith)
skip_blank-Skipped (suc rounds) s m [] h line =
    let stop : is_in whitespace (m s) ≡ false = ap (is_in whitespace) line ∙ is_in-zero in
    rw stop (record {
      up = omega arith;
      line = line;
      before = λ x g. refl;
      cleared = λ x g k. absurd (omega arith);
      after = λ x g. refl;
    })
skip_blank-Skipped (suc rounds) s m (c ∷ str) h (here, pos, line) =
    elim (Bool-cases (is_in whitespace c)) [
      | inl blank ↦
          let test : is_in whitespace (m s) ≡ true = ap (is_in whitespace) here ∙ blank in
          let v =
            skip_blank-Skipped rounds (s + 1) (update m s 0) str (omega arith)
              (same-Line m (update m s 0) (s + 1) str (λ x g. away m s x g) line) in
          rw (test, blank)
            (record {
              up = omega (arith, v.up);
              line = v.line;
              before = λ x g. v.before x (omega arith) ∙ below m s x g;
              cleared = λ x g k. elim (Bool-cases (x == s)) [
                | inl first ↦
                    let e : x ≡ s = ground arith in
                    v.before x (omega arith) ∙ ap (update m s 0) e ∙ update_here m s 0
                | inr next ↦ v.cleared x (ground arith) k
              ];
              after = λ x g. v.after x g ∙ away m s x (omega (arith, v.up));
            })
      | inr word ↦
          let test : is_in whitespace (m s) ≡ false = ap (is_in whitespace) here ∙ word in
          rw (test, word)
            (record {
              up = omega arith;
              line = (here, pos, line);
              before = λ x g. refl;
              cleared = λ x g k. absurd (omega arith);
              after = λ x g. refl;
            })
    ]
  where
    away : (w : Words) (i x : ℕ) → i + 1 ≤ x → update w i 0 x ≡ w x
    away w i x g = update_ne w i 0 x (λ e. omega arith)

    below : (w : Words) (i x : ℕ) → x < i → update w i 0 x ≡ w x
    below w i x g = update_ne w i 0 x (λ e. omega arith)

at_start :
    (m : Words) (s c : ℕ) (str : List ℕ)
    → m s ≡ c
    → 0 < c
    → Line m (s + 1) str
    → Line m (s + 0) (c ∷ str)
at_start m s c str here pos line =
    let e : s ≡ s + 0 = omega arith in subst (λ i. Line m i (c ∷ str)) e (here, pos, line)

one_more : (m : Words) (s n : ℕ) (str : List ℕ) → Line m (s + 1 + n) str → Line m (s + suc n) str
one_more m s n str line =
    let e : s + 1 + n ≡ s + suc n = omega arith in subst (λ i. Line m i str) e line

pub word_end_lem :
    (rounds s : ℕ) (m : Words) (str : List ℕ)
    → length str < rounds
    → Line m s str
    → (word_end rounds s m ≡ s + length (word_of str))
      × Line m (s + length (word_of str)) (behind str)
unfolding word_end word_of behind
word_end_lem zero s m str h line = absurd (omega arith)
word_end_lem (suc rounds) s m [] h line =
    let stop : (m s != 0 && not (is_in specials (m s))) ≡ false = ground (arith, line) in
    let e : s ≡ s + 0 = omega arith in (rw stop e, ap m (sym e) ∙ line)
word_end_lem (suc rounds) s m (c ∷ str) h (here, pos, line) = elim (Bool-cases (is_in specials c)) [
  | inl special ↦
      let stop : (m s != 0 && not (is_in specials (m s))) ≡ false = ground (arith, here, special) in
      let e : s ≡ s + 0 = omega arith in rw special (rw stop e, at_start m s c str here pos line)
  | inr inside ↦
      let on : (m s != 0 && not (is_in specials (m s))) ≡ true =
        ground (arith, here, pos, inside) in
      let e : s + 1 + length (word_of str) ≡ s + suc (length (word_of str)) = omega arith in
      let (end, rest) = word_end_lem rounds (s + 1) m str (omega arith) line in
      rw (inside, on) (end ∙ e, one_more m s (length (word_of str)) (behind str) rest)
]

pub length-word_of :
    (c : ℕ) (str : List ℕ) → is_in specials c ≡ false → 0 < length (word_of (c ∷ str))
unfolding word_of
length-word_of c str h = rw h (omega arith)

-- the bytes of a word, which need no terminator
abbrev Part : Words → ℕ → List ℕ → Type 0
Part m s [] = Unit
Part m s (c ∷ w) = (m s ≡ c) × (0 < c) × Part m (s + 1) w

word_of-Part : (m : Words) (s : ℕ) (str : List ℕ) → Line m s str → Part m s (word_of str)
unfolding word_of
word_of-Part m s [] line = tt
word_of-Part m s (c ∷ str) (here, pos, line) = elim (Bool-cases (is_in specials c)) [
  | inl special ↦ rw special tt
  | inr inside ↦ rw inside (here, pos, word_of-Part m (s + 1) str line)
]

-- A word is a line in another memory that has its bytes and a zero behind them.
Part-Line :
    (m n : Words) (s : ℕ) (w : List ℕ)
    → ((x : ℕ) → s ≤ x → x < s + length w → n x ≡ m x)
    → n (s + length w) ≡ 0
    → Part m s w
    → Line n s w
Part-Line m n s [] same zeroed part = let e : s ≡ s + 0 = omega arith in ap n e ∙ zeroed
Part-Line m n s (c ∷ w) same zeroed (here, pos, part) =
    let e : s + 1 + length w ≡ s + suc (length w) = omega arith in
    (
      same s (omega arith) (omega arith) ∙ here,
      pos,
      Part-Line m n (s + 1) w (λ x h k. same x (omega arith) (omega arith)) (ap n e ∙ zeroed) part,
    )

pub word-Line :
    (m n : Words) (s : ℕ) (str : List ℕ)
    → ((x : ℕ) → s ≤ x → x < s + length (word_of str) → n x ≡ m x)
    → n (s + length (word_of str)) ≡ 0
    → Line m s str
    → Line n s (word_of str)
word-Line m n s str same zeroed line =
    Part-Line m n s (word_of str) same zeroed (word_of-Part m s str line)

behind-special : (c : ℕ) (str : List ℕ) → is_in specials c ≡ true → behind (c ∷ str) ≡ c ∷ str
unfolding behind
behind-special c str h = rw h refl

behind-inside : (c : ℕ) (str : List ℕ) → is_in specials c ≡ false → behind (c ∷ str) ≡ behind str
unfolding behind
behind-inside c str h = rw h refl

behind-nil : (m : Words) (s : ℕ) → Line m s (behind []) → m s ≡ 0
unfolding behind
behind-nil m s line = line

-- What comes behind the word begins with the end of the line, or with a special character.
pub behind-stops :
    (m : Words) (s : ℕ) (str : List ℕ)
    → Line m s (behind str)
    → (m s ≡ 0) ⊎ (is_in specials (m s) ≡ true)
behind-stops m s [] line = inl (behind-nil m s line)
behind-stops m s (c ∷ str) line = elim (Bool-cases (is_in specials c)) [
  | inl special ↦
      let e : behind (c ∷ str) ≡ c ∷ str = behind-special c str special in
      inr (ap (is_in specials) (first m s c str (subst (Line m s) e line)) ∙ special)
  | inr inside ↦
      let e : behind (c ∷ str) ≡ behind str = behind-inside c str inside in
      behind-stops m s str (subst (Line m s) e line)
]
  where
    first : (m : Words) (s c : ℕ) (str : List ℕ) → Line m s (c ∷ str) → m s ≡ c
    first m s c str line = line.0

pub length-behind : (str : List ℕ) → length (behind str) ≤ length str
unfolding behind
length-behind [] = omega arith
length-behind (c ∷ str) = elim (Bool-cases (is_in specials c)) [
  | inl special ↦ rw special (omega arith)
  | inr inside ↦ rw inside (omega (arith, length-behind str))
]

pub length-behind_suc :
    (c : ℕ) (str : List ℕ) → is_in specials c ≡ false → length (behind (c ∷ str)) ≤ length str
length-behind_suc c str h = rw (behind-inside c str h) (length-behind str)

pub length-drop_blank : (str : List ℕ) → length (drop_blank str) ≤ length str
unfolding drop_blank
length-drop_blank [] = omega arith
length-drop_blank (c ∷ str) = elim (Bool-cases (is_in whitespace c)) [
  | inl blank ↦ rw blank (omega (arith, length-drop_blank str))
  | inr char ↦ rw char (omega arith)
]

-- no blank in front
abbrev pub Starts : List ℕ → Type 0
Starts [] = Unit
Starts (c ∷ str) = is_in whitespace c ≡ false

pub drop_blank-Starts : (str : List ℕ) → Starts (drop_blank str)
unfolding drop_blank
drop_blank-Starts [] = tt
drop_blank-Starts (c ∷ str) = elim (Bool-cases (is_in whitespace c)) [
  | inl blank ↦ rw blank (drop_blank-Starts str)
  | inr char ↦ rw char char
]
