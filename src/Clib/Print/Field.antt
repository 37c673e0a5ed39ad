-- ===== src/Clib/Print/Field.antt =====
-- What `print_num` prints: the number in its field.
use buaa_os_mos_with_fat.Base.{
  ℕ, ◌+◌, ◌-◌, ◌≤◌, ◌<◌, ◌≡◌, Bool, ◌&&◌, ◌==◌, leb, if◌then◌else◌, List, ◌∷◌, ◌++◌, length,
  length-append, length-replicate, get_or, replicate, rev, length-rev, get_or-append,
  get_or-replicate, get_or-rev, arith, ap, ◌∙◌,
}
use buaa_os_mos_with_fat.Base.Bitmap.{Words, update}
use buaa_os_mos_with_fat.Clib.Print.{fill_loop, swap_loop, bytes}
use buaa_os_mos_with_fat.Clib.Print.Digits.{text_of, get_or-cons}
use buaa_os_mos_with_fat.Clib.Print.Buffer.{fill_loop_lem, swap_loop_lem, bytes_eq}

-- The field that shows the digits ds, which are given from the lowest on: the sign and the number,
-- with spaces behind them if the field is adjusted to the left, else with the padding before them;
-- zeros stand between the sign and the number.
abbrev pub field : (neg : Bool) (width : ℕ) (ladjust : Bool) (padc : ℕ) → List ℕ → List ℕ
field neg width ladjust padc ds =
    let text = text_of neg ds in
    let missing = width - length text in
    if ladjust
    then rev text ++ replicate missing b' '
    else if neg && padc == b'0'
    then b'-' ∷ replicate missing b'0' ++ rev ds
    else replicate missing padc ++ rev text

from_start :
    (n : ℕ) (buf : Words) (xs : List ℕ)
    → length xs ≡ n
    → ((k : ℕ) → k < n → buf k ≡ get_or xs k 0)
    → bytes n 0 buf ≡ xs
from_start n buf xs l h = bytes_eq n 0 buf xs l (λ k p. ap buf (omega arith) ∙ h k p)

start : (e k : ℕ) → 0 + e - k ≡ e - k
start e k = omega arith

same_index : (len n k : ℕ) → k < len → n ≤ len → len - n ≤ k → n - 1 - (k - (len - n)) ≡ len - 1 - k
same_index len n k p h q = omega arith

reversed_at :
    (rounds e : ℕ) (buf : Words) (k : ℕ)
    → e < rounds
    → swap_loop rounds 0 e buf k ≡ (if leb k e then buf (e - k) else buf k)
reversed_at rounds e buf k h =
    rw (swap_loop_lem rounds 0 e buf k (omega arith)) (ground (arith, ap buf (start e k)))

-- the three ways to fill a field of `len` bytes with a text
module _ (len : ℕ) (text : List ℕ) (buf : Words)
    (held : (k : ℕ) → k < length text → buf k ≡ get_or text k 0) (some_text : 0 < length text)
    (fits : length text ≤ len) where
  abbrev n : ℕ
  n = length text

  left_at :
      (k : ℕ)
      → k < len
      → swap_loop len 0 (n - 1) (fill_loop (len - n) n b' ' buf) k
        ≡ get_or (rev text ++ replicate (len - n) b' ') k 0
  left_at k p =
      rw
        (
          reversed_at len (n - 1) (fill_loop (len - n) n b' ' buf) k (omega arith),
          get_or-append (rev text) (replicate (len - n) b' ') k 0,
          length-rev text,
          fill_loop_lem (len - n) n b' ' buf (n - 1 - k),
          fill_loop_lem (len - n) n b' ' buf k,
        )
        (ground (
          arith,
          held (n - 1 - k),
          get_or-rev text k 0,
          get_or-replicate {A = ℕ} (len - n) (k - n) b' ' 0,
        ))

  pub left_field :
      bytes len 0 (swap_loop len 0 (n - 1) (fill_loop (len - n) n b' ' buf))
      ≡ rev text ++ replicate (len - n) b' '
  left_field =
      from_start len _ _
        (omega (
          arith,
          length-append (rev text) (replicate (len - n) b' '),
          length-rev text,
          length-replicate {A = ℕ} (len - n) b' ',
        ))
        left_at

  right_at :
      (c k : ℕ)
      → k < len
      → swap_loop len 0 (len - 1) (fill_loop (len - n) n c buf) k
        ≡ get_or (replicate (len - n) c ++ rev text) k 0
  right_at c k p =
      rw
        (
          reversed_at len (len - 1) (fill_loop (len - n) n c buf) k (omega arith),
          get_or-append (replicate (len - n) c) (rev text) k 0,
          length-replicate {A = ℕ} (len - n) c,
          fill_loop_lem (len - n) n c buf (len - 1 - k),
          fill_loop_lem (len - n) n c buf k,
        )
        (ground (
          arith,
          held (len - 1 - k),
          get_or-rev text (k - (len - n)) 0,
          same_index len n k p fits,
          get_or-replicate {A = ℕ} (len - n) k c 0,
        ))

  pub right_field :
      (c : ℕ)
      → bytes len 0 (swap_loop len 0 (len - 1) (fill_loop (len - n) n c buf))
        ≡ replicate (len - n) c ++ rev text
  right_field c =
      from_start len _ _
        (omega (
          arith,
          length-append (replicate (len - n) c) (rev text),
          length-rev text,
          length-replicate {A = ℕ} (len - n) c,
        ))
        (right_at c)

back_index :
    (len m k : ℕ)
    → k < len
    → m < len
    → 0 < k
    → len - 1 - m ≤ k - 1
    → m - 1 - (k - 1 - (len - 1 - m)) ≡ len - 1 - k
back_index len m k p h q r = omega arith

module _ (len : ℕ) (ds : List ℕ) (buf : Words)
    (held : (k : ℕ) → k < length ds → buf k ≡ get_or ds k 0) (fits : length ds < len) where
  abbrev m : ℕ
  m = length ds

  abbrev zeros : Words
  zeros = fill_loop (len - 1 - m) m b'0' buf

  sign_at :
      (k : ℕ)
      → k < len
      → swap_loop len 0 (len - 1) (update zeros (len - 1) b'-') k
        ≡ get_or (b'-' ∷ replicate (len - 1 - m) b'0' ++ rev ds) k 0
  unfolding update
  sign_at k p =
      rw
        (
          reversed_at len (len - 1) (update zeros (len - 1) b'-') k (omega arith),
          get_or-cons b'-' (replicate (len - 1 - m) b'0' ++ rev ds) k,
          get_or-append (replicate (len - 1 - m) b'0') (rev ds) (k - 1) 0,
          length-replicate {A = ℕ} (len - 1 - m) b'0',
          fill_loop_lem (len - 1 - m) m b'0' buf (len - 1 - k),
          fill_loop_lem (len - 1 - m) m b'0' buf k,
        )
        (ground (
          arith,
          held (len - 1 - k),
          get_or-rev ds (k - 1 - (len - 1 - m)) 0,
          back_index len m k p fits,
          get_or-replicate {A = ℕ} (len - 1 - m) (k - 1) b'0' 0,
        ))

  pub sign_field :
      bytes len 0 (swap_loop len 0 (len - 1) (update zeros (len - 1) b'-'))
      ≡ b'-' ∷ replicate (len - 1 - m) b'0' ++ rev ds
  sign_field =
      from_start len _ _
        (omega (
          arith,
          length-append (replicate (len - 1 - m) b'0') (rev ds),
          length-rev ds,
          length-replicate {A = ℕ} (len - 1 - m) b'0',
        ))
        sign_at
