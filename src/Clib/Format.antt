-- ===== src/Clib/Format.antt =====
-- lib/print.c: `vprintfmt`. A `long` has 32 bits and is its bit pattern. What C leaves undefined, a
-- missing argument or one of another type, is the outcome `undefined`.
pub mod Rounds
pub mod Decimal
use buaa_os_mos_with_fat.Base.{
  ℕ, zero, suc, ◌+◌, ◌-◌, ◌*◌, ◌%◌, ◌^◌, Bool, true, false, ◌&&◌, ◌||◌, ◌==◌, ◌!=◌, leb, ltb,
  if◌then◌else◌, List, [], ◌∷◌, ◌++◌, length, Option, none, some,
}
use buaa_os_mos_with_fat.Base.Bitmap.{Words}
use buaa_os_mos_with_fat.Clib.Print.{print_char, print_str, print_num}

-- the variable arguments
pub data Arg : Type 0 where
  num : ℕ → Arg
  str : List ℕ → Arg

pub data Printed : Type 0 where
  done : List ℕ → Printed
  undefined : Printed
  unfinished : Printed

abbrev pub before : List ℕ → Printed → Printed
before text (done rest) = done (text ++ rest)
before text Printed.undefined = Printed.undefined
before text Printed.unfinished = Printed.unfinished

-- the text up to a '%' or the end, and the format from there on
unfoldable pub scan_text : List ℕ → List ℕ × List ℕ
scan_text [] = ([], [])
scan_text (c ∷ f) =
    let (text, rest) = scan_text f in if c == b'%' then ([], c ∷ f) else (c ∷ text, rest)

-- `findFlag`: `padc`, `ladjust` and the rest of the format
unfoldable pub find_flag : List ℕ → ℕ → Bool → ℕ × Bool × List ℕ
find_flag [] padc ladjust = (padc, ladjust, [])
find_flag (c ∷ f) padc ladjust =
    let left = find_flag f b' ' true in
    let zeros = find_flag f b'0' ladjust in
    if c == b'-' then left else if c == b'0' then zeros else (padc, ladjust, c ∷ f)

unfoldable pub get_width : List ℕ → ℕ → ℕ × List ℕ
get_width [] width = (width, [])
get_width (c ∷ f) width =
    let rest = get_width f (10 * width + c - b'0') in
    if leb b'0' c && leb c b'9' then rest else (width, c ∷ f)

-- A width below zero acts like no width.
abbrev pub as_width : ℕ → ℕ
as_width v = if ltb v (2 ^ 31) then v else 0

unfoldable pub get_star : ℕ → List ℕ → List Arg → Option (ℕ × List ℕ × List Arg)
get_star width [] args = some (width, [], args)
get_star width (c ∷ f) [] = if c == b'*' then none else some (width, c ∷ f, [])
get_star width (c ∷ f) (num v ∷ args) =
    if c == b'*' then some (as_width v, f, args) else some (width, c ∷ f, num v ∷ args)
get_star width (c ∷ f) (str s ∷ args) =
    if c == b'*' then none else some (width, c ∷ f, str s ∷ args)

unfoldable pub get_long : List ℕ → Bool × List ℕ
get_long [] = (false, [])
get_long (c ∷ f) = if c == b'l' then (true, f) else (false, c ∷ f)

-- `~num + 1`
abbrev pub minus : ℕ → ℕ
minus v = (2 ^ 32 - v) % 2 ^ 32

-- `stack` is the memory under the buffer of `print_num`, and `shift_63` what the machine makes of
-- `num >> 63`, which is undefined on 32 bits.
module _ (stack : Words) (shift_63 : ℕ → Bool) where
  -- the conversions of a number
  unfoldable pub convert_num :
      ℕ → (long : Bool) (padc : ℕ) (ladjust : Bool) (width : ℕ) → ℕ → List ℕ
  convert_num c long padc ladjust width v =
      if c == b'd' || c == b'D'
      then (let neg = if long then shift_63 v else leb (2 ^ 31) v in
          print_num stack (if neg then minus v else v) 10 neg width ladjust padc false)
      else if c == b'c'
      then print_char (v % 2 ^ 8) width ladjust
      else print_num stack v
          (if c == b'b'
            then 2
            else if c == b'o' || c == b'O'
            then 8
            else if c == b'u' || c == b'U'
            then 10
            else 16)
          false width ladjust padc (c == b'X')

  abbrev pub takes_num : ℕ → Bool
  takes_num c =
      c == b'b'
      || c == b'd'
      || c == b'D'
      || c == b'o'
      || c == b'O'
      || c == b'u'
      || c == b'U'
      || c == b'x'
      || c == b'X'
      || c == b'c'

  -- the `switch` over the conversion
  unfoldable pub convert :
      ℕ
      → (long : Bool) (padc : ℕ) (ladjust : Bool) (width : ℕ) → List Arg
      → Option (List ℕ × List Arg)
  unfolding convert_num
  convert c long padc ladjust width [] =
      if takes_num c || c == b's' then none else some (c ∷ [], [])
  convert c long padc ladjust width (num v ∷ args) =
      if takes_num c
      then some (convert_num c long padc ladjust width v, args)
      else if c == b's'
      then none
      else some (c ∷ [], num v ∷ args)
  convert c long padc ladjust width (str s ∷ args) =
      if takes_num c
      then none
      else if c == b's'
      then some (print_str s width ladjust, args)
      else some (c ∷ [], str s ∷ args)

  -- at the end of the format nothing is printed
  unfoldable pub convert_next :
      (padc : ℕ) (ladjust : Bool) (width : ℕ)
      → List Arg
      → Bool × List ℕ
      → Option (List ℕ × List ℕ × List Arg)
  unfolding convert
  convert_next padc ladjust width args (long, []) = some ([], [], args)
  convert_next padc ladjust width args (long, c ∷ f) =
      elim (convert c long padc ladjust width args) [
        | none ↦ none
        | some (text, left) ↦ some (text, f, left)
      ]

  -- the part of the loop behind a '%': what is printed, the format and the arguments that are left
  unfoldable pub directive : List ℕ → List Arg → Option (List ℕ × List ℕ × List Arg)
  unfolding find_flag get_width get_star get_long convert_next
  directive f args =
      let (padc, ladjust, behind_flags) = find_flag f b' ' false in
      let (width, behind_width) = get_width behind_flags 0 in
      elim (get_star width behind_width args) [
        | none ↦ none
        | some (stars, behind_star, left) ↦
            convert_next padc ladjust stars left (get_long behind_star)
      ]

  -- the loop of `vprintfmt`, with the rounds left
  unfoldable pub format_loop : ℕ → List ℕ → List Arg → Printed
  unfolding scan_text directive
  format_loop zero f args = Printed.unfinished
  format_loop (suc rounds) f args =
      let (text, rest) = scan_text f in
      before text (elim rest [
        | [] ↦ done []
        | percent ∷ g ↦ elim (directive g args) [
          | none ↦ Printed.undefined
          | some (out, left, args') ↦ before out (format_loop rounds left args')
        ]
      ])

  -- `vprintfmt`; each round takes a '%' off the format.
  unfoldable pub vprintfmt : List ℕ → List Arg → Printed
  unfolding format_loop
  vprintfmt f args = format_loop (length f + 1) f args
