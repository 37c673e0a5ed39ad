-- ===== src/Clib/Format/Rounds.antt =====
-- `vprintfmt` gets to the end of its format.
use buaa_os_mos_with_fat.Base.{
  ℕ, zero, suc, ◌+◌, ◌-◌, ◌*◌, ◌≤◌, ◌<◌, Bool, true, false, ◌==◌, List, [], ◌∷◌, length, Option,
  none, some, arith, Bool-cases, inl, inr,
}
use buaa_os_mos_with_fat.Base.Bitmap.{Words}
use buaa_os_mos_with_fat.Clib.Format.{
  Arg, num, str, Printed, done, before, scan_text, find_flag, get_width, get_star, get_long,
  convert, convert_next, directive, format_loop, vprintfmt,
}

scan_text-le : (f : List ℕ) → length (scan_text f).1 ≤ length f
unfolding scan_text
scan_text-le [] = omega arith
scan_text-le (c ∷ f) = elim (Bool-cases (c == b'%')) [
  | inl h ↦ rw h (omega arith)
  | inr h ↦ rw h (omega (arith, scan_text-le f))
]

find_flag-le : (f : List ℕ) (padc : ℕ) (left : Bool) → length (find_flag f padc left).2 ≤ length f
unfolding find_flag
find_flag-le [] padc left = omega arith
find_flag-le (c ∷ f) padc left = ground (arith, find_flag-le f b' ' true, find_flag-le f b'0' left)

get_width-le : (f : List ℕ) (w : ℕ) → length (get_width f w).1 ≤ length f
unfolding get_width
get_width-le [] w = omega arith
get_width-le (c ∷ f) w = ground (arith, get_width-le f (10 * w + c - b'0'))

get_long-le : (f : List ℕ) → length (get_long f).1 ≤ length f
unfolding get_long
get_long-le [] = omega arith
get_long-le (c ∷ f) = ground arith

-- what is left of the format after a step, which may fail
abbrev Left {ℓ} : {A : Type ℓ} → Option (A × List ℕ × List Arg) → ℕ → Type 0
Left none n = Unit {0}
Left (some (x, f, args)) n = length f ≤ n

get_star-Left : (w : ℕ) (f : List ℕ) (args : List Arg) → Left (get_star w f args) (length f)
unfolding get_star
get_star-Left w [] args = omega arith
get_star-Left w (c ∷ f) [] = elim (Bool-cases (c == b'*')) [
  | inl h ↦ rw h tt
  | inr h ↦ rw h (omega arith)
]
get_star-Left w (c ∷ f) (num v ∷ args) = elim (Bool-cases (c == b'*')) [
  | inl h ↦ rw h (omega arith)
  | inr h ↦ rw h (omega arith)
]
get_star-Left w (c ∷ f) (str s ∷ args) = elim (Bool-cases (c == b'*')) [
  | inl h ↦ rw h tt
  | inr h ↦ rw h (omega arith)
]

Left-le {ℓ} :
    {A : Type ℓ} (o : Option (A × List ℕ × List Arg)) (m n : ℕ) → m ≤ n → Left o m → Left o n
Left-le none m n h v = tt
Left-le (some (x, f, args)) m n h v = omega arith

module _ (stack : Words) (shift_63 : ℕ → Bool) where
  after_convert :
      (o : Option (List ℕ × List Arg)) (f : List ℕ)
      → Left (elim o [ none ↦ none | some (text, left) ↦ some (text, f, left) ]) (length f)
  after_convert none f = tt
  after_convert (some (text, left)) f = omega arith

  convert_next-Left :
      (padc : ℕ) (ladjust : Bool) (w : ℕ) (args : List Arg) (l : Bool × List ℕ)
      → Left (convert_next stack shift_63 padc ladjust w args l) (length l.1)
  unfolding convert_next
  convert_next-Left padc ladjust w args (long, []) = omega arith
  convert_next-Left padc ladjust w args (long, c ∷ f) =
      Left-le _ (length f) (suc (length f)) (omega arith)
        (after_convert (convert stack shift_63 c long padc ladjust w args) f)

  after_star :
      (padc : ℕ) (ladjust : Bool) (o : Option (ℕ × List ℕ × List Arg)) (n : ℕ)
      → Left o n
      → Left
          (elim o [
            | none ↦ none
            | some (stars, behind_star, left) ↦
                convert_next stack shift_63 padc ladjust stars left (get_long behind_star)
          ])
          n
  after_star padc ladjust none n h = tt
  after_star padc ladjust (some (stars, behind, left)) n h =
      Left-le _ (length (get_long behind).1) n (omega (arith, get_long-le behind))
        (convert_next-Left padc ladjust stars left (get_long behind))

  directive-Left :
      (f : List ℕ) (args : List Arg) → Left (directive stack shift_63 f args) (length f)
  unfolding directive
  directive-Left f args =
      let g : List ℕ = (find_flag f b' ' false).2 in
      let w : ℕ × List ℕ = get_width g 0 in
      after_star (find_flag f b' ' false).0 (find_flag f b' ' false).1 (get_star w.0 w.1 args)
        (length f)
        (Left-le (get_star w.0 w.1 args) (length w.1) (length f)
          (omega (arith, find_flag-le f b' ' false, get_width-le g 0)) (get_star-Left w.0 w.1 args))

-- the outcomes of a loop that did not run out of rounds
abbrev pub IsFinished : Printed → Type 0
IsFinished (done text) = Unit {0}
IsFinished Printed.undefined = Unit {0}
IsFinished Printed.unfinished = ⊥

before-IsFinished : (text : List ℕ) (p : Printed) → IsFinished p → IsFinished (before text p)
before-IsFinished text (done t) h = tt
before-IsFinished text Printed.undefined h = tt
before-IsFinished text Printed.unfinished h = h

module _ (stack : Words) (shift_63 : ℕ → Bool) (rounds : ℕ) where
  abbrev Finishes : Type 0
  Finishes =
      (f : List ℕ) (args : List Arg)
      → length f < rounds
      → IsFinished (format_loop stack shift_63 rounds f args)

  after_directive :
      (o : Option (List ℕ × List ℕ × List Arg)) (n : ℕ)
      → n < rounds
      → Left o n
      → Finishes
      → IsFinished (elim o [
        | none ↦ Printed.undefined
        | some (out, left, args') ↦ before out (format_loop stack shift_63 rounds left args')
      ])
  after_directive none n h l go = tt
  after_directive (some (out, left, args)) n h l go =
      before-IsFinished out _ (go left args (omega arith))

  after_text :
      (rest : List ℕ) (args : List Arg) (n : ℕ)
      → length rest ≤ n
      → n < suc rounds
      → Finishes
      → IsFinished (elim rest [
        | [] ↦ done []
        | percent ∷ g ↦ elim (directive stack shift_63 g args) [
          | none ↦ Printed.undefined
          | some (out, left, args') ↦ before out (format_loop stack shift_63 rounds left args')
        ]
      ])
  after_text [] args n h l go = tt
  after_text (percent ∷ g) args n h l go =
      after_directive _ (length g) (omega arith) (directive-Left stack shift_63 g args) go

format_loop-IsFinished :
    (stack : Words) (shift_63 : ℕ → Bool) (rounds : ℕ) → Finishes stack shift_63 rounds
unfolding format_loop
format_loop-IsFinished stack shift_63 zero f args h = absurd (omega arith)
format_loop-IsFinished stack shift_63 (suc rounds) f args h = before-IsFinished (scan_text f).0 _ (
    after_text stack shift_63 rounds (scan_text f).1 args (length f) (scan_text-le f) h
      (format_loop-IsFinished stack shift_63 rounds))

-- `vprintfmt` gets to the end of every format, or to what C leaves undefined, whatever its
-- arguments.
pub vprintfmt-IsFinished :
    (stack : Words) (shift_63 : ℕ → Bool) (f : List ℕ) (args : List Arg)
    → IsFinished (vprintfmt stack shift_63 f args)
unfolding vprintfmt
vprintfmt-IsFinished stack shift_63 f args =
    format_loop-IsFinished stack shift_63 (length f + 1) f args (omega arith)
