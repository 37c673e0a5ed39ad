-- ===== src/User/Shell/Gathered.antt =====
-- What the calls of `gettoken` return and leave, and one more token in front of it.
use buaa_os_mos_with_fat.Base.{
  ℕ, suc, ◌+◌, ◌<◌, ◌≡◌, refl, true, false, ◌==◌, if◌then◌else◌, List, [], ◌∷◌, length, arith,
  Bool-cases, ◌⊎◌, inl, inr, sym, ap, ◌∙◌,
}
use buaa_os_mos_with_fat.Base.Bitmap.{Words, update, update_ne, update_here}
use buaa_os_mos_with_fat.User.Shell.{
  symbols, specials, is_in, Lexer, token_at, get_token, next_token, gather, word_end, buf_size,
}
use buaa_os_mos_with_fat.User.Shell.Line.{Line, word_of, behind, Skipped, word-Line, behind-stops}
use buaa_os_mos_with_fat.User.Shell.Tokens.{Tok, word, symbol, Says}

-- The kinds and places that the calls return, and memory behind them, for the string at s in m.
pub record Gathered (s : ℕ) (m : Words) (toks : List Tok) (out : List (ℕ × ℕ)) (n : Words)
    : Type 0 where
  pub says : Says n out toks
  pub before : (x : ℕ) → x < s → n x ≡ m x
  pub cut : (m s ≡ 0) ⊎ (is_in specials (m s) ≡ true) → n s ≡ 0

-- the three tokens that stand at an address
abbrev pub at_end : Words → Lexer
at_end m = record { nc = 0; np1 = 0; np2 = 0; mem = m }

abbrev pub at_symbol : (t : ℕ) → Words → Lexer
at_symbol t m = record { nc = m t; np1 = t; np2 = t + 1; mem = update m t 0 }

abbrev pub at_word : (t e : ℕ) → Words → Lexer
at_word t e m = record { nc = b'w'; np1 = t; np2 = e; mem = m }

pub token_at-end : (t : ℕ) (m : Words) → m t ≡ 0 → token_at (t, m) ≡ at_end m
unfolding token_at
token_at-end t m h = rw h refl

pub token_at-symbol :
    (t : ℕ) (m : Words) → 0 < m t → is_in symbols (m t) ≡ true → token_at (t, m) ≡ at_symbol t m
unfolding token_at
token_at-symbol t m pos h = let nonzero : (m t == 0) ≡ false = ground arith in rw (nonzero, h) refl

pub token_at-word :
    (t : ℕ) (m : Words)
    → 0 < m t
    → is_in symbols (m t) ≡ false
    → token_at (t, m) ≡ at_word t (word_end buf_size t m) m
unfolding token_at
token_at-word t m pos h = let nonzero : (m t == 0) ≡ false = ground arith in rw (nonzero, h) refl

pub gather-end : (calls : ℕ) (m : Words) → gather (suc calls) (at_end m) ≡ ([], m)
unfolding gather next_token get_token
gather-end calls m = refl

pub gather-more :
    (calls : ℕ) (l : Lexer)
    → 0 < l.nc
    → gather (suc calls) l ≡ (
      (l.nc, l.np1) ∷ (gather calls (get_token l.np2 l.mem)).0,
      (gather calls (get_token l.np2 l.mem)).1,
    )
unfolding gather next_token
gather-more calls l pos =
    let nonzero : (l.nc == 0) ≡ false = ground arith in
    let rest : List (ℕ × ℕ) × Words = gather calls (next_token l) in
    let stop : List (ℕ × ℕ) × Words = ([], (next_token l).mem) in
    ap (λ b. if b then stop else ((l.nc, l.np1) ∷ rest.0, rest.1)) nonzero

pub end-Gathered : (m n : Words) (s t : ℕ) → Skipped m s [] t n → Gathered s m [] [] n
end-Gathered m n s t v = record {
  says = tt;
  before = λ x h. v.before x h;
  cut = λ stops. elim (Bool-cases (s == t)) [
    | inl same ↦ let e : s ≡ t = ground arith in ap n e ∙ v.line
    | inr less ↦ v.cleared s (omega arith) (ground (arith, v.up))
  ];
}

pub symbol-Gathered :
    (m n : Words) (s t c : ℕ) (str : List ℕ) (toks : List Tok) (out : List (ℕ × ℕ)) (n' : Words)
    → Skipped m s (c ∷ str) t n
    → Gathered (t + 1) (update n t 0) toks out n'
    → Gathered s m (symbol c ∷ toks) ((n t, t) ∷ out) n'
symbol-Gathered m n s t c str toks out n' v g = record {
  says = (v.line.0, g.says);
  before = λ x h.
      g.before x (omega (arith, v.up))
      ∙ update_ne n t 0 x (λ e. omega (arith, v.up))
      ∙ v.before x h;
  cut = λ stops. elim (Bool-cases (s == t)) [
    | inl same ↦
        let e : s ≡ t = ground arith in
        g.before s (omega arith) ∙ ap (update n t 0) e ∙ update_here n t 0
    | inr less ↦
        let below : s < t = ground (arith, v.up) in
        g.before s (omega arith)
        ∙ update_ne n t 0 s (λ e. omega arith)
        ∙ v.cleared s (omega arith) below
  ];
}

no_word :
    (m n : Words) (s t c : ℕ)
    → n t ≡ c
    → 0 < c
    → is_in specials c ≡ false
    → n t ≡ m t
    → s ≡ t
    → (m s ≡ 0) ⊎ (is_in specials (m s) ≡ true)
    → ⊥
no_word m n s t c here pos inside kept e (inl stop) =
    let first : m s ≡ c = ap m e ∙ sym kept ∙ here in omega arith
no_word m n s t c here pos inside kept e (inr special) =
    let first : m s ≡ c = ap m e ∙ sym kept ∙ here in
    cc (sym special ∙ ap (is_in specials) first ∙ inside)

pub word-Gathered :
    (m n : Words) (s t e c : ℕ) (str : List ℕ) (toks : List Tok) (out : List (ℕ × ℕ)) (n' : Words)
    → Skipped m s (c ∷ str) t n
    → is_in specials c ≡ false
    → t < e
    → e ≡ t + length (word_of (c ∷ str))
    → Line n e (behind (c ∷ str))
    → Gathered e n toks out n'
    → Gathered s m (word (word_of (c ∷ str)) ∷ toks) ((b'w', t) ∷ out) n'
word-Gathered m n s t e c str toks out n' v inside less end line g = record {
  says = (
    refl,
    word-Line n n' t (c ∷ str) (λ x h k. g.before x (omega arith))
        (ap n' (sym end) ∙ g.cut (behind-stops n e (c ∷ str) line)) v.line,
    g.says,
  );
  before = λ x h. g.before x (omega (arith, v.up)) ∙ v.before x h;
  cut = λ stops. elim (Bool-cases (s == t)) [
    | inl same ↦
        absurd (
          no_word m n s t c v.line.0 v.line.1 inside (v.after t (omega arith)) (ground arith) stops)
    | inr below ↦
        g.before s (omega (arith, v.up)) ∙ v.cleared s (omega arith) (ground (arith, v.up))
  ];
}
