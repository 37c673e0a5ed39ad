-- ===== src/Tests/Printing.antt =====
-- Formatted output of small formats.
use buaa_os_mos_with_fat.Base.{ℕ, ◌≡◌, refl, Bool, true, false, List, [], ◌∷◌, arith}
use buaa_os_mos_with_fat.Base.Bitmap.{Words}
use buaa_os_mos_with_fat.Clib.Print.{print_num, print_str, print_char}
use buaa_os_mos_with_fat.Clib.Print.Digits.{low_digits}
use buaa_os_mos_with_fat.Clib.Print.Field.{field}
use buaa_os_mos_with_fat.Clib.Print.Number.{read_from, print_num_lem, read-print_num}
use buaa_os_mos_with_fat.Clib.Format.{num, str, done, vprintfmt}
use buaa_os_mos_with_fat.Clib.Format.Rounds.{IsFinished, vprintfmt-IsFinished}
use buaa_os_mos_with_fat.Clib.Format.Decimal.{percent_d, ShowsSigned, vprintfmt-ShowsSigned}

abbrev stack : Words
stack i = 7

abbrev no_shift : ℕ → Bool
no_shift v = false

-- "-0042"
padded : print_num stack 42 10 true 5 false b'0' false ≡ 45 ∷ 48 ∷ 48 ∷ 52 ∷ 50 ∷ []
unfolding print_num
padded = refl

-- "%5s|%-3c" of "ab" and "x"
fields :
    vprintfmt stack no_shift
      (37 ∷ 53 ∷ 115 ∷ 124 ∷ 37 ∷ 45 ∷ 51 ∷ 99 ∷ [])
      (str (97 ∷ 98 ∷ []) ∷ num 120 ∷ [])
    ≡ done (32 ∷ 32 ∷ 32 ∷ 97 ∷ 98 ∷ 124 ∷ 120 ∷ 32 ∷ 32 ∷ [])
unfolding vprintfmt print_str print_char
fields = refl

print_num_lem_example :
    print_num stack 42 10 true 5 false b'0' false
    ≡ field true 5 false b'0' (low_digits 10 false 32 42)
print_num_lem_example = print_num_lem stack 42 10 true 5 false b'0' false

read-print_num_example : read_from 16 0 (print_num stack 48879 16 false 0 false b' ' true) ≡ 48879
read-print_num_example =
    read-print_num stack 48879 16 b' ' false true (omega arith) (omega arith) (omega arith)

vprintfmt-IsFinished_example : IsFinished (vprintfmt stack no_shift percent_d [])
vprintfmt-IsFinished_example = vprintfmt-IsFinished stack no_shift percent_d []

vprintfmt-ShowsSigned_example :
    (text : List ℕ) × (vprintfmt stack no_shift percent_d (num 4_294_967_290 ∷ []) ≡ done text)
    × ShowsSigned 4_294_967_290 text
vprintfmt-ShowsSigned_example = vprintfmt-ShowsSigned stack no_shift 4_294_967_290 (omega arith)
