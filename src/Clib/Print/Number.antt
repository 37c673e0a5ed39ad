-- ===== src/Clib/Print/Number.antt =====
-- `print_num` as a whole: the field that it prints, and the number that is read back from it.
use mathlib.Core.List.{append-nil}
use native.Mathlib.Nat.{mod-add-div', mul-div-le, mod-lt, zero-mul}
use buaa_os_mos_with_fat.Base.{
  ℕ, zero, suc, ◌+◌, ◌-◌, ◌*◌, ◌/◌, ◌%◌, ◌^◌, ◌≤◌, ◌<◌, ◌≡◌, refl, Bool, true, false, ◌==◌, ◌!=◌,
  leb, ltb, if◌then◌else◌, List, [], ◌∷◌, ◌++◌, length, length-append, get_or, rev, get_or-append,
  arith, Bool-cases, inl, inr, ap,
}
use buaa_os_mos_with_fat.Base.Bits.{pow_suc}
use buaa_os_mos_with_fat.Base.Bitmap.{Words}
use buaa_os_mos_with_fat.Clib.Print.{digit_char, put_digits, put_sign, pad, finish_num, print_num}
use buaa_os_mos_with_fat.Clib.Print.Digits.{
  low_digits, text_of, Holds, put_digits-Holds, put_sign-Holds,
}
use buaa_os_mos_with_fat.Clib.Print.Field.{field, left_field, right_field, sign_field}

len_fits : (w n : ℕ) → n ≤ (if ltb w n then n else w)
len_fits w n = ground arith

len_missing : (w n : ℕ) → (if ltb w n then n else w) - n ≡ w - n
len_missing w n = ground arith

signed_length : (ds : List ℕ) → length (ds ++ (b'-' ∷ [])) ≡ suc (length ds)
signed_length ds = omega (arith, length-append ds (b'-' ∷ []))

still_held :
    (ds : List ℕ) (buf : Words)
    → ((k : ℕ) → k < length (ds ++ (b'-' ∷ [])) → buf k ≡ get_or (ds ++ (b'-' ∷ [])) k 0)
    → (k : ℕ) → k < length ds
    → buf k ≡ get_or ds k 0
still_held ds buf held k h =
    ground (arith, held k, signed_length ds, get_or-append ds (b'-' ∷ []) k 0)

-- the padding between the sign and the number
finish_zeros :
    (width : ℕ) (ds : List ℕ) (buf : Words)
    → 0 < length ds
    → ((k : ℕ) → k < length (text_of true ds) → buf k ≡ get_or (text_of true ds) k 0)
    → finish_num true false width b'0' (length (text_of true ds), buf)
      ≡ field true width false b'0' ds
unfolding finish_num pad
finish_zeros width ds buf some_digits held =
    let m : ℕ = length ds in
    let len : ℕ = if ltb width (suc m) then suc m else width in
    let one_less : suc m - 1 ≡ m = omega arith in
    let missing : len - 1 - m ≡ width - suc m = ground arith in
    rw (signed_length ds, one_less, ← missing)
      (sign_field len ds buf (still_held ds buf held) (ground arith))

finish_text :
    (neg ladjust : Bool) (width padc : ℕ) (ds : List ℕ) (buf : Words)
    → 0 < length ds
    → ((k : ℕ) → k < length (text_of neg ds) → buf k ≡ get_or (text_of neg ds) k 0)
    → finish_num neg ladjust width padc (length (text_of neg ds), buf)
      ≡ field neg width ladjust padc ds
unfolding finish_num pad
finish_text true true width padc ds buf h held =
    rw (← len_missing width (length (ds ++ (b'-' ∷ [])))) (
      left_field _ (ds ++ (b'-' ∷ [])) buf held (omega (arith, signed_length ds))
        (len_fits width (length (ds ++ (b'-' ∷ [])))))
finish_text false true width padc ds buf h held =
    rw (← len_missing width (length ds)) (left_field _ ds buf held h (len_fits width (length ds)))
finish_text false false width padc ds buf h held =
    rw (← len_missing width (length ds))
      (right_field _ ds buf held h (len_fits width (length ds)) padc)
finish_text true false width padc ds buf h held = elim (Bool-cases (padc == b'0')) [
  | inl zeros ↦ let same : padc ≡ b'0' = ground arith in rw same (finish_zeros width ds buf h held)
  | inr other ↦
      rw (other, ← len_missing width (length (ds ++ (b'-' ∷ []))))
        (right_field _ (ds ++ (b'-' ∷ [])) buf held (omega (arith, signed_length ds))
          (len_fits width (length (ds ++ (b'-' ∷ [])))) padc)
]

finish_num_lem :
    (neg ladjust : Bool) (width padc : ℕ) (ds : List ℕ) (out : ℕ × Words)
    → 0 < length ds
    → Holds out (text_of neg ds)
    → finish_num neg ladjust width padc out ≡ field neg width ladjust padc ds
finish_num_lem neg ladjust width padc ds (n, buf) h (l, held) =
    rw l (finish_text neg ladjust width padc ds buf h (λ k p. held k (rw l p)))

low_digits_pos :
    (base : ℕ) (upcase : Bool) (rounds u : ℕ) → 0 < length (low_digits base upcase (suc rounds) u)
unfolding low_digits
low_digits_pos base upcase rounds u = omega arith

-- `print_num` writes its digits, with the sign before them, into a field of the given width or as
-- many bytes as they need, whatever the buffer held: on the left, with spaces behind, if it is told
-- to adjust them so, else on the right behind the padding, where zeros follow the sign.
pub print_num_lem :
    (stack : Words) (u base : ℕ) (neg : Bool) (width : ℕ) (ladjust : Bool) (padc : ℕ)
    (upcase : Bool)
    → print_num stack u base neg width ladjust padc upcase
      ≡ field neg width ladjust padc (low_digits base upcase 32 u)
unfolding print_num
print_num_lem stack u base neg width ladjust padc upcase =
    finish_num_lem neg ladjust width padc (low_digits base upcase 32 u)
      (put_sign neg (put_digits base upcase 32 u 0 stack)) (low_digits_pos base upcase 31 u)
      (put_sign-Holds neg (low_digits base upcase 32 u) (put_digits base upcase 32 u 0 stack)
        (put_digits-Holds base upcase 32 u stack))

-- a digit that is read, and a numeral from left to right
abbrev pub digit_value : ℕ → ℕ
digit_value c = if leb c b'9' then c - b'0' else if leb c b'Z' then c - 55 else c - 87

abbrev pub read_from : ℕ → ℕ → List ℕ → ℕ
read_from base acc [] = acc
read_from base acc (c ∷ xs) = read_from base (acc * base + digit_value c) xs

read_from-snoc :
    (base acc c : ℕ) (xs : List ℕ)
    → read_from base acc (xs ++ (c ∷ [])) ≡ read_from base acc xs * base + digit_value c
read_from-snoc base acc c [] = refl
read_from-snoc base acc c (x ∷ xs) = read_from-snoc base (acc * base + digit_value x) c xs

digit_value-char : (upcase : Bool) (t : ℕ) → t < 16 → digit_value (digit_char upcase t) ≡ t
digit_value-char true t h = ground arith
digit_value-char false t h = ground arith

pos_of : (base : ℕ) → 2 ≤ base → 0 < base
pos_of base h = omega arith

digit_small : (u base : ℕ) → 2 ≤ base → base ≤ 16 → u % base < 16
digit_small u base h k = omega (arith, mod-lt u (pos_of base h))

twice : (base q : ℕ) → 2 ≤ base → 2 * q ≤ base * q
twice base q h = grind arith

smaller : (u base p : ℕ) → 2 ≤ base → u < 2 * p → u / base < p
smaller u base p h l = omega (arith, twice base (u / base) h, mul-div-le u base)

whole_small : (u base : ℕ) → u / base ≡ 0 → 0 * base + u % base ≡ u
whole_small u base e =
    let whole : u % base + u / base * base ≡ u = mod-add-div' u base in
    omega (arith, whole, zero-mul base, ap (λ q. q * base) e)

pub read-low_digits :
    (base : ℕ) (upcase : Bool) (rounds u : ℕ)
    → 2 ≤ base
    → base ≤ 16
    → u < 2 ^ rounds
    → read_from base 0 (rev (low_digits base upcase rounds u)) ≡ u
unfolding low_digits
read-low_digits base upcase zero u h k l = omega arith
read-low_digits base upcase (suc rounds) u h k l = elim (Bool-cases (u / base != 0)) [
  | inl more ↦
      rw
        (
          more,
          read_from-snoc base 0 (digit_char upcase (u % base))
              (rev (low_digits base upcase rounds (u / base))),
          read-low_digits base upcase rounds (u / base) h k
              (smaller u base (2 ^ rounds) h (rw (← pow_suc rounds) l)),
          digit_value-char upcase (u % base) (digit_small u base h k),
        )
        (omega (arith, mod-add-div' u base))
  | inr last ↦
      rw (last, digit_value-char upcase (u % base) (digit_small u base h k))
        (whole_small u base (ground arith))
]

no_field : (ladjust : Bool) (padc : ℕ) (ds : List ℕ) → field false 0 ladjust padc ds ≡ rev ds
no_field true padc ds =
    let none_missing : 0 - length ds ≡ 0 = omega arith in rw none_missing (append-nil (rev ds))
no_field false padc ds = let none_missing : 0 - length ds ≡ 0 = omega arith in rw none_missing refl

-- For each 32-bit number and each base from 2 to 16, what `print_num` prints without sign and
-- width, read as a numeral of that base, is the number.
pub read-print_num :
    (stack : Words) (u base padc : ℕ) (ladjust upcase : Bool)
    → 2 ≤ base
    → base ≤ 16
    → u < 2 ^ 32
    → read_from base 0 (print_num stack u base false 0 ladjust padc upcase) ≡ u
read-print_num stack u base padc ladjust upcase h k l =
    rw (print_num_lem stack u base false 0 ladjust padc upcase) (
      rw (no_field ladjust padc (low_digits base upcase 32 u))
        (read-low_digits base upcase 32 u h k l))
