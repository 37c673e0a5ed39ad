-- ===== src/User/Shell.antt =====
-- user/sh.c: the tokens of a command line. Memory is a function from addresses to bytes, and a null
-- pointer the address 0. A loop over a line has at most as many rounds as `buf` has bytes.
pub mod Line
pub mod Tokens
pub mod Gathered
pub mod Lexed
use buaa_os_mos_with_fat.Base.{
  ℕ, zero, suc, ◌+◌, Bool, true, false, not, ◌&&◌, ◌==◌, ◌!=◌, if◌then◌else◌, List, [], ◌∷◌, Option,
  none, some,
}
use buaa_os_mos_with_fat.Base.Bitmap.{Words, update}
use buaa_os_mos_with_fat.Clib.Strings.{strchr}

-- WHITESPACE, SYMBOLS and the size of `buf`
abbrev pub whitespace : List ℕ
whitespace = b' ' ∷ 9 ∷ 13 ∷ 10 ∷ []

abbrev pub symbols : List ℕ
symbols = b'<' ∷ b'|' ∷ b'>' ∷ b'&' ∷ b';' ∷ b'(' ∷ b')' ∷ []

abbrev pub specials : List ℕ
specials = b' ' ∷ 9 ∷ 13 ∷ 10 ∷ b'<' ∷ b'|' ∷ b'>' ∷ b'&' ∷ b';' ∷ b'(' ∷ b')' ∷ []

abbrev pub buf_size : ℕ
buf_size = 1024

abbrev pub found : Option (List ℕ) → Bool
found none = false
found (some rest) = true

-- `strchr(list, c) != 0`
unfoldable pub is_in : List ℕ → ℕ → Bool
unfolding strchr
is_in list c = found (strchr list c)

-- `while (strchr(WHITESPACE, *s)) *s++ = 0;`
unfoldable pub skip_blank : (rounds s : ℕ) → Words → ℕ × Words
unfolding is_in update
skip_blank zero s m = (s, m)
skip_blank (suc rounds) s m =
    let rest = skip_blank rounds (s + 1) (update m s 0) in
    if is_in whitespace (m s) then rest else (s, m)

-- `while (*s && !strchr(WHITESPACE SYMBOLS, *s)) s++;`
unfoldable pub word_end : (rounds s : ℕ) → Words → ℕ
unfolding is_in
word_end zero s m = s
word_end (suc rounds) s m =
    let rest = word_end rounds (s + 1) m in
    if m s != 0 && not (is_in specials (m s)) then rest else s

-- the static variables of `gettoken`, and memory
pub record Lexer : Type 0 where
  pub nc : ℕ
  pub np1 : ℕ
  pub np2 : ℕ
  pub mem : Words

-- `_gettoken` behind the spaces
unfoldable pub token_at : ℕ × Words → Lexer
unfolding word_end is_in update
token_at (s, m) =
    if m s == 0
    then record { nc = 0; np1 = 0; np2 = 0; mem = m }
    else if is_in symbols (m s)
    then record { nc = m s; np1 = s; np2 = s + 1; mem = update m s 0 }
    else record { nc = b'w'; np1 = s; np2 = word_end buf_size s m; mem = m }

-- `nc = _gettoken(s, &np1, &np2)`
unfoldable pub get_token : (s : ℕ) → Words → Lexer
unfolding skip_blank token_at
get_token s m =
    if s == 0
    then record { nc = 0; np1 = 0; np2 = 0; mem = m }
    else token_at (skip_blank buf_size s m)

-- What `gettoken(0, &t)` leaves; it returns `nc` and stores `np1`.
unfoldable pub next_token : Lexer → Lexer
unfolding get_token
next_token l = get_token l.np2 l.mem

-- The tokens that `gettoken` returns up to the 0, and what memory holds then: a caller like
-- `parsecmd`, which keeps them.
unfoldable pub gather : (calls : ℕ) → Lexer → List (ℕ × ℕ) × Words
unfolding next_token
gather zero l = ([], l.mem)
gather (suc calls) l =
    let rest : List (ℕ × ℕ) × Words = gather calls (next_token l) in
    if l.nc == 0 then ([], (next_token l).mem) else ((l.nc, l.np1) ∷ rest.0, rest.1)
