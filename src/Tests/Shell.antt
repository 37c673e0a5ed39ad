-- ===== src/Tests/Shell.antt =====
-- A command line.
use buaa_os_mos_with_fat.Base.{ℕ, ◌+◌, ◌==◌, if◌then◌else◌, ◌≡◌, refl, arith, List, [], ◌∷◌}
use buaa_os_mos_with_fat.Base.Bitmap.{Words}
use buaa_os_mos_with_fat.User.Shell.{get_token, gather}
use buaa_os_mos_with_fat.User.Shell.Tokens.{word, symbol, tokens}
use buaa_os_mos_with_fat.User.Shell.Gathered.{Gathered}
use buaa_os_mos_with_fat.User.Shell.Lexed.{gather-tokens}

-- " ls <a" at address 40
abbrev line : List ℕ
line = b' ' ∷ b'l' ∷ b's' ∷ b' ' ∷ b'<' ∷ b'a' ∷ []

abbrev string_at : ℕ → List ℕ → Words
string_at a [] x = 0
string_at a (c ∷ str) x = if x == a then c else string_at (a + 1) str x

abbrev memory : Words
memory = string_at 40 line

its_tokens : tokens line ≡ word (b'l' ∷ b's' ∷ []) ∷ symbol b'<' ∷ word (b'a' ∷ []) ∷ []
unfolding tokens
its_tokens = refl

gather-tokens_example :
    Gathered 40 memory
      (tokens line)
      (gather 7 (get_token 40 memory)).0
      (gather 7 (get_token 40 memory)).1
gather-tokens_example = gather-tokens 7 40 memory line (omega arith) (omega arith) (omega arith) (
  refl,
  omega arith,
  (
    refl,
    omega arith,
    (refl, omega arith, (refl, omega arith, (refl, omega arith, (refl, omega arith, refl)))),
  ),
)

three : (gather 7 (get_token 40 memory)).0 ≡ (b'w', 41) ∷ (b'<', 44) ∷ (b'w', 45) ∷ []
unfolding gather
three = refl
