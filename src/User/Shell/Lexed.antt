-- ===== src/User/Shell/Lexed.antt =====
-- `gettoken`, called until it returns 0, against the tokens of the line.
use buaa_os_mos_with_fat.Base.{
  ℕ, zero, suc, ◌+◌, ◌<◌, ◌≡◌, true, false, ◌==◌, if◌then◌else◌, List, [], ◌∷◌, length, arith,
  Bool-cases, inl, inr, sym, ap, ◌∙◌,
}
use buaa_os_mos_with_fat.Base.Bitmap.{Words, update, update_ne}
use mathlib.Core.Path.{subst}
use buaa_os_mos_with_fat.User.Shell.{
  symbols, specials, is_in, token_at, get_token, gather, skip_blank, word_end, buf_size,
}
use buaa_os_mos_with_fat.User.Shell.Line.{
  Line, drop_blank, behind, same-Line, Skipped, skip_blank-Skipped, word_end_lem, length-behind_suc,
  length-drop_blank, Starts, drop_blank-Starts, length-word_of,
}
use buaa_os_mos_with_fat.User.Shell.Tokens.{
  Tok, tokens, word-specials, tokens-drop_blank, tokens-nil, tokens-symbol, tokens-word,
}
use buaa_os_mos_with_fat.User.Shell.Gathered.{
  Gathered, at_symbol, at_word, token_at-end, token_at-symbol, token_at-word, gather-end,
  gather-more, end-Gathered, symbol-Gathered, word-Gathered,
}

get_token-skip : (s : ℕ) (m : Words) → 0 < s → get_token s m ≡ token_at (skip_blank buf_size s m)
unfolding get_token
get_token-skip s m pos =
    let nonzero : (s == 0) ≡ false = ground arith in
    ap
      (λ b.
        if b
        then record { nc = 0; np1 = 0; np2 = 0; mem = m }
        else token_at (skip_blank buf_size s m))
      nonzero

-- What the calls return, and leave in memory, on the lexer l.
abbrev Ends : (s : ℕ) → Words → List Tok → List (ℕ × ℕ) × Words → Type 0
Ends s m toks (out, n) = Gathered s m toks out n

abbrev Lexes : ℕ → Type 0
Lexes calls =
    (s : ℕ) (m : Words) (str : List ℕ)
    → 0 < s
    → length str < buf_size
    → length str < calls
    → Line m s str
    → Ends s m (tokens str) (gather calls (get_token s m))

one_round :
    (calls s : ℕ) (m : Words) (left : List ℕ) (t : ℕ) (n : Words)
    → Lexes calls
    → 0 < s
    → length left < buf_size
    → length left < suc calls
    → Starts left
    → Skipped m s left t n
    → Ends s m (tokens left) (gather (suc calls) (token_at (t, n)))
one_round calls s m [] t n ih pos short enough starts v =
    rw (token_at-end t n v.line, gather-end calls n, tokens-nil) (end-Gathered m n s t v)
one_round calls s m (c ∷ str) t n ih pos short enough starts v =
    elim (Bool-cases (is_in symbols c)) [
      | inl special ↦
          let here : is_in symbols (n t) ≡ true = ap (is_in symbols) v.line.0 ∙ special in
          let nonzero : 0 < n t = omega (arith, v.line.0, v.line.1) in
          let rest = ih (t + 1) (update n t 0) str (omega arith) (omega arith) (omega arith) (
            same-Line n (update n t 0) (t + 1) str (λ x h. update_ne n t 0 x (λ e. omega arith))
              v.line.2) in
          rw
            (
              tokens-symbol c str special,
              token_at-symbol t n nonzero here,
              gather-more calls (at_symbol t n) nonzero,
            )
            (symbol-Gathered m n s t c str (tokens str) _ _ v rest)
      | inr ordinary ↦
          let here : is_in symbols (n t) ≡ false = ap (is_in symbols) v.line.0 ∙ ordinary in
          let nonzero : 0 < n t = omega (arith, v.line.0, v.line.1) in
          let inside : is_in specials c ≡ false = word-specials c starts ordinary in
          let found = word_end_lem buf_size t n (c ∷ str) short v.line in
          let past : t < word_end buf_size t n =
            omega (arith, found.0, length-word_of c str inside) in
          let behind_here = subst (λ e. Line n e (behind (c ∷ str))) (sym found.0) found.1 in
          let rest =
            ih (word_end buf_size t n) n (behind (c ∷ str)) (omega arith)
              (omega (arith, length-behind_suc c str inside))
              (omega (arith, length-behind_suc c str inside)) behind_here in
          rw
            (
              tokens-word c str ordinary inside,
              token_at-word t n nonzero here,
              gather-more calls (at_word t (word_end buf_size t n) n) (omega arith),
            )
            (word-Gathered m n s t (word_end buf_size t n) c str _ _ _ v inside past found.0
              behind_here rest)
    ]

-- For a string of less than 1024 bytes at an address s that is not null, `gettoken`, told to begin
-- there and then called until it returns 0, returns the tokens of the string in their order: for a
-- special character the character itself, for a word 'w' and a place at which memory holds the word
-- as a string of its own when all calls are over. There are at most as many tokens as bytes, and
-- memory below s is as before.
pub gather-tokens :
    (calls s : ℕ) (m : Words) (str : List ℕ)
    → 0 < s
    → length str < buf_size
    → length str < calls
    → Line m s str
    → Ends s m (tokens str) (gather calls (get_token s m))
gather-tokens zero s m str pos short enough line = absurd (omega arith)
gather-tokens (suc calls) s m str pos short enough line =
    rw (sym (tokens-drop_blank str), get_token-skip s m pos)
      (one_round calls s m (drop_blank str) (skip_blank buf_size s m).0 (skip_blank buf_size s m).1
        (gather-tokens calls) pos (omega (arith, length-drop_blank str))
        (omega (arith, length-drop_blank str)) (drop_blank-Starts str)
        (skip_blank-Skipped buf_size s m str short line))
