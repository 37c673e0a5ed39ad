-- ===== src/Clib/Format/Decimal.antt =====
-- What `vprintfmt` prints for "%d".
use mathlib.Core.List.{append-nil}
use buaa_os_mos_with_fat.Base.{
  ℕ, ◌-◌, ◌^◌, ◌≤◌, ◌<◌, ◌≡◌, refl, Bool, true, false, leb, if◌then◌else◌, List, [], ◌∷◌, ◌++◌,
  length, replicate, rev, arith, Bool-cases, inl, inr, ap, ◌∙◌, leb→le,
}
use buaa_os_mos_with_fat.Base.Bitmap.{Words}
use buaa_os_mos_with_fat.Clib.Print.{print_num}
use buaa_os_mos_with_fat.Clib.Print.Digits.{low_digits}
use buaa_os_mos_with_fat.Clib.Print.Number.{
  read_from, read-low_digits, read-print_num, print_num_lem,
}
use buaa_os_mos_with_fat.Clib.Format.{num, done, vprintfmt, convert_num, minus}

-- "%d"
abbrev pub percent_d : List ℕ
percent_d = b'%' ∷ b'd' ∷ []

rev-snoc : (ds : List ℕ) (c : ℕ) → rev (ds ++ (c ∷ [])) ≡ c ∷ rev ds
rev-snoc [] c = refl
rev-snoc (x ∷ ds) c = rw (rev-snoc ds c) refl

-- A text that shows the 32-bit pattern v as a signed decimal number.
abbrev pub ShowsSigned : ℕ → List ℕ → Type 0
ShowsSigned v text =
    if leb (2 ^ 31) v
    then ((rest : List ℕ) × (text ≡ b'-' ∷ rest) × (read_from 10 0 rest ≡ 2 ^ 32 - v))
    else read_from 10 0 text ≡ v

minus_lem : (v : ℕ) → 2 ^ 31 ≤ v → v < 2 ^ 32 → minus v ≡ 2 ^ 32 - v
minus_lem v h l = omega arith

negative_field :
    (ds : List ℕ)
    → replicate (0 - length (ds ++ (b'-' ∷ []))) b' ' ++ rev (ds ++ (b'-' ∷ [])) ≡ b'-' ∷ rev ds
negative_field ds =
    let none_missing : 0 - length (ds ++ (b'-' ∷ [])) ≡ 0 = omega arith in
    rw (none_missing, rev-snoc ds b'-') refl

print_negative :
    (stack : Words) (u : ℕ)
    → u < 2 ^ 32
    → (rest : List ℕ) × (print_num stack u 10 true 0 false b' ' false ≡ b'-' ∷ rest)
      × (read_from 10 0 rest ≡ u)
print_negative stack u h = (
  rev (low_digits 10 false 32 u),
  print_num_lem stack u 10 true 0 false b' ' false ∙ negative_field (low_digits 10 false 32 u),
  read-low_digits 10 false 32 u (omega arith) (omega arith) h,
)

convert_num-ShowsSigned :
    (stack : Words) (shift_63 : ℕ → Bool) (v : ℕ)
    → v < 2 ^ 32
    → ShowsSigned v (convert_num stack shift_63 b'd' false b' ' false 0 v)
unfolding convert_num
convert_num-ShowsSigned stack shift_63 v h = elim (Bool-cases (leb (2 ^ 31) v)) [
  | inl neg ↦
      rw (neg, minus_lem v (leb→le _ _ neg) h)
        (print_negative stack (2 ^ 32 - v) (omega (arith, leb→le _ _ neg)))
  | inr nonneg ↦
      rw nonneg (read-print_num stack v 10 b' ' false false (omega arith) (omega arith) h)
]

-- "%d" prints an `int` as a signed decimal number: what stands behind the minus sign of a negative
-- one, or the whole text of another, is read back as its absolute value.
pub vprintfmt-ShowsSigned :
    (stack : Words) (shift_63 : ℕ → Bool) (v : ℕ)
    → v < 2 ^ 32
    → (text : List ℕ) × (vprintfmt stack shift_63 percent_d (num v ∷ []) ≡ done text)
      × ShowsSigned v text
unfolding vprintfmt
vprintfmt-ShowsSigned stack shift_63 v h = (
  convert_num stack shift_63 b'd' false b' ' false 0 v,
  ap done (append-nil _),
  convert_num-ShowsSigned stack shift_63 v h,
)
