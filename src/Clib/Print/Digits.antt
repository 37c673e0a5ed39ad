-- ===== src/Clib/Print/Digits.antt =====
-- The digits and the sign in the buffer of `print_num`.
use buaa_os_mos_with_fat.Base.{
  ℕ, zero, suc, ◌+◌, ◌-◌, ◌/◌, ◌%◌, ◌<◌, ◌≡◌, refl, Bool, true, false, ◌&&◌, ◌==◌, ◌!=◌, leb, ltb,
  if◌then◌else◌, List, [], ◌∷◌, ◌++◌, length, length-append, get_or, get_or-append, arith,
  Bool-cases, inl, inr, ◌∙◌,
}
use buaa_os_mos_with_fat.Base.Bitmap.{Words, update}
use buaa_os_mos_with_fat.Clib.Print.{digit_char, put_digits, put_sign}

-- the digits of a number, the lowest first
unfoldable pub low_digits : (base : ℕ) (upcase : Bool) → ℕ → ℕ → List ℕ
low_digits base upcase zero u = []
low_digits base upcase (suc rounds) u =
    let rest = low_digits base upcase rounds (u / base) in
    digit_char upcase (u % base) ∷ (if u / base != 0 then rest else [])

-- the digits behind the sign, the last character first
abbrev pub text_of : Bool → List ℕ → List ℕ
text_of neg ds = if neg then ds ++ (b'-' ∷ []) else ds

-- the buffer from its start on, as far as the list goes
abbrev pub Holds : ℕ × Words → List ℕ → Type 0
Holds (n, buf) xs = (n ≡ length xs) × ((k : ℕ) → k < n → buf k ≡ get_or xs k 0)

-- What the loop over the digits has done.
pub record PutDigits (p : ℕ) (buf : Words) (ds : List ℕ) (out : ℕ × Words) : Type 0 where
  pub end : out.0 ≡ p + length ds
  pub at :
      (k : ℕ) → out.1 k ≡ (if leb p k && ltb k (p + length ds) then get_or ds (k - p) 0 else buf k)

pub get_or-cons :
    (c : ℕ) (ds : List ℕ) (n : ℕ)
    → get_or (c ∷ ds) n 0 ≡ (if n == 0 then c else get_or ds (n - 1) 0)
get_or-cons c ds zero = refl
get_or-cons c ds (suc n) = ground arith

put_next :
    (p k c : ℕ) (ds : List ℕ) (buf : Words)
    → (if leb (p + 1) k && ltb k (p + 1 + length ds)
        then get_or ds (k - (p + 1)) 0
        else update buf p c k)
      ≡ (if leb p k && ltb k (p + suc (length ds)) then get_or (c ∷ ds) (k - p) 0 else buf k)
unfolding update
put_next p k c ds buf =
    let same : k - p - 1 ≡ k - (p + 1) = omega arith in
    rw (get_or-cons c ds (k - p), same) (ground arith)

put_last :
    (p k c : ℕ) (buf : Words)
    → update buf p c k
      ≡ (if leb (p + 1) k && ltb k (p + 1 + 0) then get_or [] (k - (p + 1)) 0 else update buf p c k)
put_last p k c buf = ground arith

pub put_digits_lem :
    (base : ℕ) (upcase : Bool) (rounds u p : ℕ) (buf : Words)
    → PutDigits p buf (low_digits base upcase rounds u) (put_digits base upcase rounds u p buf)
unfolding low_digits put_digits
put_digits_lem base upcase zero u p buf = record { end = omega arith; at = λ k. ground arith }
put_digits_lem base upcase (suc rounds) u p buf = elim (Bool-cases (u / base != 0)) [
  | inl more ↦
      let c : ℕ = digit_char upcase (u % base) in
      let ds : List ℕ = low_digits base upcase rounds (u / base) in
      let v = put_digits_lem base upcase rounds (u / base) (p + 1) (update buf p c) in
      rw more (record { end = omega (arith, v.end); at = λ k. v.at k ∙ put_next p k c ds buf })
  | inr last ↦ rw last (record {
    end = omega arith;
    at = λ k.
        put_last p k (digit_char upcase (u % base)) buf
        ∙ put_next p k (digit_char upcase (u % base)) [] buf;
  })
]

first_at :
    (k : ℕ) (xs : List ℕ) (buf : Words)
    → k < length xs
    → (if leb 0 k && ltb k (0 + length xs) then get_or xs (k - 0) 0 else buf k) ≡ get_or xs k 0
first_at k xs buf h = let same : k - 0 ≡ k = omega arith in rw same (ground arith)

pub put_digits-Holds :
    (base : ℕ) (upcase : Bool) (rounds u : ℕ) (buf : Words)
    → Holds (put_digits base upcase rounds u 0 buf) (low_digits base upcase rounds u)
put_digits-Holds base upcase rounds u buf =
    let v = put_digits_lem base upcase rounds u 0 buf in
    let size : (put_digits base upcase rounds u 0 buf).0
        ≡ length (low_digits base upcase rounds u) =
      omega (arith, v.end) in
    (size, λ k p. v.at k ∙ first_at k (low_digits base upcase rounds u) buf (rw (← size) p))

sign_at :
    (n k : ℕ) (ds : List ℕ) (buf : Words)
    → n ≡ length ds
    → (k < n → buf k ≡ get_or ds k 0)
    → k < n + 1
    → update buf n b'-' k ≡ get_or (ds ++ (b'-' ∷ [])) k 0
unfolding update
sign_at n k ds buf l h p =
    rw (get_or-append ds (b'-' ∷ []) k 0, get_or-cons b'-' [] (k - length ds)) (ground (arith, h))

-- the sign is the next character
pub put_sign-Holds :
    (neg : Bool) (ds : List ℕ) (out : ℕ × Words)
    → Holds out ds
    → Holds (put_sign neg out) (text_of neg ds)
unfolding put_sign update
put_sign-Holds true ds (n, buf) (l, h) =
    (omega (arith, length-append ds (b'-' ∷ [])), λ k p. sign_at n k ds buf l (h k) p)
put_sign-Holds false ds (n, buf) v = v
