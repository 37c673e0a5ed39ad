-- ===== src/Clib/Print.antt =====
-- lib/print.c: formatted output. The output is the list of the bytes that the callback `out` is
-- given. A buffer in memory is a function of its index; `stack` is what the memory held before.
pub mod Buffer
pub mod Digits
pub mod Field
pub mod Number
use buaa_os_mos_with_fat.Base.{
  ℕ, zero, suc, ◌+◌, ◌-◌, ◌/◌, ◌%◌, Bool, true, false, not, ◌&&◌, ◌==◌, ◌!=◌, leb, ltb,
  if◌then◌else◌, List, [], ◌∷◌, ◌++◌, length, replicate,
}
use buaa_os_mos_with_fat.Base.Bitmap.{Words, update}

-- the loops that write `rounds` spaces
unfoldable pub spaces : (rounds : ℕ) → List ℕ
spaces zero = []
spaces (suc rounds) = b' ' ∷ spaces rounds

unfoldable pub print_char : ℕ → ℕ → Bool → List ℕ
unfolding spaces
print_char c width ladjust =
    let n = if ltb width 1 then 1 else width in
    if ladjust then c ∷ spaces (n - 1) else spaces (n - 1) ++ (c ∷ [])

unfoldable pub print_str : List ℕ → ℕ → Bool → List ℕ
unfolding spaces
print_str s width ladjust =
    let n = if ltb width (length s) then length s else width in
    if ladjust then s ++ spaces (n - length s) else spaces (n - length s) ++ s

abbrev pub digit_char : Bool → ℕ → ℕ
digit_char upcase t = if leb t 9 then b'0' + t else if upcase then b'A' + t - 10 else b'a' + t - 10

-- The loop over the digits: the rounds left, `u`, `p` and the buffer.
unfoldable pub put_digits : (base : ℕ) (upcase : Bool) → ℕ → ℕ → ℕ → Words → ℕ × Words
unfolding update
put_digits base upcase zero u p buf = (p, buf)
put_digits base upcase (suc rounds) u p buf =
    let next = update buf p (digit_char upcase (u % base)) in
    let rest = put_digits base upcase rounds (u / base) (p + 1) next in
    if u / base != 0 then rest else (p + 1, next)

unfoldable pub put_sign : Bool → ℕ × Words → ℕ × Words
unfolding update
put_sign neg (p, buf) = if neg then (p + 1, update buf p b'-') else (p, buf)

-- `for (; i < …; i++) buf[i] = padc;`
unfoldable pub fill_loop : ℕ → ℕ → ℕ → Words → Words
unfolding update
fill_loop zero i padc buf = buf
fill_loop (suc rounds) i padc buf = fill_loop rounds (i + 1) padc (update buf i padc)

-- the padding, for the length `n` of the number and the length `len` of the field
unfoldable pub pad : (neg ladjust : Bool) (n len padc : ℕ) → Words → Words
unfolding fill_loop update
pad neg ladjust n len padc buf =
    if neg && not ladjust && padc == b'0'
    then update (fill_loop (len - 1 - (n - 1)) (n - 1) padc buf) (len - 1) b'-'
    else fill_loop (len - n) n (if ladjust then b' ' else padc) buf

abbrev pub swapped : ℕ → ℕ → Words → Words
swapped begin end buf = update (update buf begin (buf end)) end (buf begin)

-- `while (end > begin)`: the rounds left, `begin` and `end`
unfoldable pub swap_loop : ℕ → ℕ → ℕ → Words → Words
unfolding update
swap_loop zero begin end buf = buf
swap_loop (suc rounds) begin end buf =
    let rest = swap_loop rounds (begin + 1) (end - 1) (swapped begin end buf) in
    if ltb begin end then rest else buf

-- the bytes that `out(data, buf, length)` is given
unfoldable pub bytes : ℕ → ℕ → Words → List ℕ
bytes zero i buf = []
bytes (suc n) i buf = buf i ∷ bytes n (i + 1) buf

-- the part of `print_num` behind the sign
unfoldable pub finish_num : (neg ladjust : Bool) (width padc : ℕ) → ℕ × Words → List ℕ
unfolding pad swap_loop bytes
finish_num neg ladjust width padc (n, buf) =
    let len = if ltb width n then n else width in
    bytes len 0
      (swap_loop len 0 (if ladjust then n - 1 else len - 1) (pad neg ladjust n len padc buf))

-- `print_num`; a 32-bit number has at most 32 digits.
unfoldable pub print_num :
    (stack : Words) (u base : ℕ) (neg : Bool) (width : ℕ) (ladjust : Bool) (padc : ℕ)
    (upcase : Bool)
    → List ℕ
unfolding put_digits put_sign finish_num
print_num stack u base neg width ladjust padc upcase =
    finish_num neg ladjust width padc (put_sign neg (put_digits base upcase 32 u 0 stack))
