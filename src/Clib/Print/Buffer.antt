-- ===== src/Clib/Print/Buffer.antt =====
-- The loops of `print_num` over its buffer.
use buaa_os_mos_with_fat.Base.{
  ℕ, zero, suc, ◌+◌, ◌-◌, ◌≤◌, ◌<◌, ◌≡◌, refl, ◌&&◌, ◌==◌, leb, ltb, if◌then◌else◌, List, [], ◌∷◌,
  length, get_or, arith, Bool-cases, inl, inr, ap, ◌∙◌, ltb→lt, ltb→ge,
}
use buaa_os_mos_with_fat.Base.Bitmap.{Words, update}
use buaa_os_mos_with_fat.Clib.Print.{fill_loop, swapped, swap_loop, bytes}

pub fill_loop_lem :
    (rounds i c : ℕ) (buf : Words) (k : ℕ)
    → fill_loop rounds i c buf k ≡ (if leb i k && ltb k (i + rounds) then c else buf k)
unfolding fill_loop update
fill_loop_lem zero i c buf k = ground arith
fill_loop_lem (suc rounds) i c buf k =
    ground (arith, fill_loop_lem rounds (i + 1) c (update buf i c) k)

swapped_lem :
    (b e : ℕ) (buf : Words) (k : ℕ)
    → swapped b e buf k ≡ (if e == k then buf b else if b == k then buf e else buf k)
unfolding update
swapped_lem b e buf k = refl

inner_lem :
    (b e k : ℕ) (buf : Words)
    → b < e
    → (if leb (b + 1) k && leb k (e - 1)
        then swapped b e buf (b + 1 + (e - 1) - k)
        else swapped b e buf k)
      ≡ (if leb b k && leb k e then buf (b + e - k) else buf k)
unfolding update
inner_lem b e k buf h =
    let same : b + 1 + (e - 1) - k ≡ b + e - k = omega arith in
    let low : b + e - b ≡ e = omega arith in let high : b + e - e ≡ b = omega arith in ground arith

stop_lem :
    (b e k : ℕ) (buf : Words)
    → e ≤ b
    → buf k ≡ (if leb b k && leb k e then buf (b + e - k) else buf k)
stop_lem b e k buf h = let high : e + e - e ≡ e = omega arith in ground arith

-- The exchanges reverse the bytes from `begin` to `end`, and touch no other byte.
pub swap_loop_lem :
    (rounds b e : ℕ) (buf : Words) (k : ℕ)
    → e < b + rounds
    → swap_loop rounds b e buf k ≡ (if leb b k && leb k e then buf (b + e - k) else buf k)
unfolding swap_loop
swap_loop_lem zero b e buf k h = ground arith
swap_loop_lem (suc rounds) b e buf k h = elim (Bool-cases (ltb b e)) [
  | inl more ↦
      rw (more, swap_loop_lem rounds (b + 1) (e - 1) (swapped b e buf) k (omega arith))
        (inner_lem b e k buf (ltb→lt b e more))
  | inr done ↦ rw done (stop_lem b e k buf (ltb→ge b e done))
]

pub bytes_eq :
    (n i : ℕ) (buf : Words) (xs : List ℕ)
    → length xs ≡ n
    → ((k : ℕ) → k < n → buf (i + k) ≡ get_or xs k 0)
    → bytes n i buf ≡ xs
unfolding bytes
bytes_eq zero i buf [] l h = refl
bytes_eq zero i buf (x ∷ xs) l h = absurd (omega arith)
bytes_eq (suc n) i buf [] l h = absurd (omega arith)
bytes_eq (suc n) i buf (x ∷ xs) l h =
    let first : buf i ≡ x = ap buf (omega arith) ∙ h 0 (omega arith) in
    rw
      (
        first,
        bytes_eq n (i + 1) buf xs (omega arith)
            (λ k p. ap buf (omega arith) ∙ h (suc k) (omega arith)),
      )
      refl
