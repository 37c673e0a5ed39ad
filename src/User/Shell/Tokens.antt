-- ===== src/User/Shell/Tokens.antt =====
-- The tokens of a line: one pass from its end, which has the word it is in and the tokens behind.
use buaa_os_mos_with_fat.Base.{
  ℕ, ◌≡◌, refl, true, false, if◌then◌else◌, List, [], ◌∷◌, arith, Bool-cases, inl, inr, ap,
}
use buaa_os_mos_with_fat.Base.Bitmap.{Words}
use buaa_os_mos_with_fat.Clib.Strings.{strchr}
use buaa_os_mos_with_fat.User.Shell.{symbols, specials, whitespace, is_in}
use buaa_os_mos_with_fat.User.Shell.Line.{Line, drop_blank, word_of, behind}

pub data Tok : Type 0 where
  word : List ℕ → Tok
  symbol : ℕ → Tok

-- A word in front of tokens, if it has a character.
unfoldable pub flush : List ℕ × List Tok → List Tok
flush ([], toks) = toks
flush (c ∷ str, toks) = word (c ∷ str) ∷ toks

unfoldable pub lex : List ℕ → List ℕ × List Tok
unfolding is_in flush
lex [] = ([], [])
lex (c ∷ str) =
    let rest : List ℕ × List Tok = lex str in
    if is_in symbols c
    then ([], symbol c ∷ flush rest)
    else if is_in specials c
    then ([], flush rest)
    else (c ∷ rest.0, rest.1)

-- The tokens of a whole line.
unfoldable pub tokens : List ℕ → List Tok
unfolding lex flush
tokens str = flush (lex str)

-- What a list of kinds and places says, if it says the tokens.
abbrev pub Says : Words → List (ℕ × ℕ) → List Tok → Type 0
Says m [] [] = Unit
Says m [] (tok ∷ toks) = ⊥
Says m (t ∷ out) [] = ⊥
Says m ((kind, p) ∷ out) (word str ∷ toks) = (kind ≡ b'w') × Line m p str × Says m out toks
Says m ((kind, p) ∷ out) (symbol c ∷ toks) = (kind ≡ c) × Says m out toks

-- a blank is a special character, and no symbol
pub blank-special : (c : ℕ) → is_in whitespace c ≡ true → is_in specials c ≡ true
unfolding is_in strchr
blank-special c h = ground arith

pub blank-symbols : (c : ℕ) → is_in whitespace c ≡ true → is_in symbols c ≡ false
unfolding is_in strchr
blank-symbols c h = ground arith

pub word-specials :
    (c : ℕ) → is_in whitespace c ≡ false → is_in symbols c ≡ false → is_in specials c ≡ false
unfolding is_in strchr
word-specials c h g = ground arith

pub symbol-specials : (c : ℕ) → is_in symbols c ≡ true → is_in specials c ≡ true
unfolding is_in strchr
symbol-specials c h = ground arith

word_of-lex : (str : List ℕ) → word_of str ≡ (lex str).0
unfolding word_of lex
word_of-lex [] = refl
word_of-lex (c ∷ str) = elim (Bool-cases (is_in symbols c)) [
  | inl sym ↦ rw (symbol-specials c sym, sym) refl
  | inr nosym ↦ elim (Bool-cases (is_in specials c)) [
    | inl special ↦ rw (nosym, special) refl
    | inr inside ↦ rw (nosym, inside) (ap (λ w. c ∷ w) (word_of-lex str))
  ]
]

tokens-behind : (str : List ℕ) → tokens (behind str) ≡ (lex str).1
unfolding behind tokens lex flush
tokens-behind [] = refl
tokens-behind (c ∷ str) = elim (Bool-cases (is_in symbols c)) [
  | inl sym ↦ rw (symbol-specials c sym, sym) refl
  | inr nosym ↦ elim (Bool-cases (is_in specials c)) [
    | inl special ↦ rw (nosym, special, nosym, special) refl
    | inr inside ↦ rw (nosym, inside) (tokens-behind str)
  ]
]

pub tokens-drop_blank : (str : List ℕ) → tokens (drop_blank str) ≡ tokens str
unfolding drop_blank tokens lex flush
tokens-drop_blank [] = refl
tokens-drop_blank (c ∷ str) = elim (Bool-cases (is_in whitespace c)) [
  | inl blank ↦ rw (blank, blank-symbols c blank, blank-special c blank) (tokens-drop_blank str)
  | inr char ↦ rw char refl
]

pub tokens-nil : tokens [] ≡ []
unfolding tokens lex flush
tokens-nil = refl

pub tokens-symbol :
    (c : ℕ) (str : List ℕ) → is_in symbols c ≡ true → tokens (c ∷ str) ≡ symbol c ∷ tokens str
unfolding tokens lex flush
tokens-symbol c str h = rw h refl

whole_word :
    (c : ℕ) (str : List ℕ)
    → is_in symbols c ≡ false
    → is_in specials c ≡ false
    → tokens (c ∷ str) ≡ word (lex (c ∷ str)).0 ∷ (lex (c ∷ str)).1
unfolding tokens lex flush
whole_word c str h g = rw (h, g) refl

pub tokens-word :
    (c : ℕ) (str : List ℕ)
    → is_in symbols c ≡ false
    → is_in specials c ≡ false
    → tokens (c ∷ str) ≡ word (word_of (c ∷ str)) ∷ tokens (behind (c ∷ str))
tokens-word c str h g = rw (tokens-behind (c ∷ str), word_of-lex (c ∷ str)) (whole_word c str h g)
