-- ===== src/Fat/Table/Count.antt =====
-- How many entries of a table are free, and where the first free one stands.
use buaa_os_mos_with_fat.Base.{
  ℕ, zero, suc, ◌+◌, ◌≤◌, ◌<◌, ◌≡◌, ◌≢◌, refl, inl, inr, Bool-cases, ◌==◌, if◌then◌else◌, Option,
  none, some, arith,
}
use buaa_os_mos_with_fat.Base.Bitmap.{Words, update}

abbrev pub one_if_free : ℕ → ℕ
one_if_free v = if v == 0 then 1 else 0

-- the free entries among the first n
unfoldable pub count_free : Words → ℕ → ℕ
count_free m zero = 0
count_free m (suc n) = one_if_free (m n) + count_free m n

count_free_past : (m : Words) (d v n : ℕ) → n ≤ d → count_free (update m d v) n ≡ count_free m n
unfolding count_free update
count_free_past m d v zero h = refl
count_free_past m d v (suc n) h = ground (arith, count_free_past m d v n)

-- Writing one entry changes the count by that entry.
pub count_free-update :
    (m : Words) (d v n : ℕ)
    → d < n
    → count_free (update m d v) n + one_if_free (m d) ≡ count_free m n + one_if_free v
unfolding count_free update
count_free-update m d v zero h = absurd (omega arith)
count_free-update m d v (suc n) h =
    ground (arith, count_free-update m d v n, count_free_past m d v n)

pub count_free_none : (m : Words) (n : ℕ) → ((i : ℕ) → i < n → m i ≢ 0) → count_free m n ≡ 0
unfolding count_free
count_free_none m zero h = refl
count_free_none m (suc n) h = ground (arith, h n, count_free_none m n (λ i p. h i (omega arith)))

pub count_free_pos : (m : Words) (k n : ℕ) → k < n → m k ≡ 0 → 0 < count_free m n
unfolding count_free
count_free_pos m k zero h free = absurd (omega arith)
count_free_pos m k (suc n) h free = ground (arith, count_free_pos m k n)

-- the first free entry from i on, among `rounds` entries
unfoldable pub first_free : Words → ℕ → ℕ → Option ℕ
first_free m zero i = none
first_free m (suc rounds) i = if m i == 0 then some i else first_free m rounds (i + 1)

abbrev pub FirstFree : Words → ℕ → ℕ → Option ℕ → Type 0
FirstFree m rounds i none = (j : ℕ) → i ≤ j → j < i + rounds → m j ≢ 0
FirstFree m rounds i (some k) =
    (i ≤ k) × (k < i + rounds) × (m k ≡ 0) × ((j : ℕ) → i ≤ j → j < k → m j ≢ 0)

FirstFree-step :
    (m : Words) (rounds i : ℕ) (o : Option ℕ)
    → m i ≢ 0
    → FirstFree m rounds (i + 1) o
    → FirstFree m (suc rounds) i o
FirstFree-step m rounds i none used all = λ j p q. ground (arith, all j)
FirstFree-step m rounds i (some k) used (low, high, free, before) =
    (omega arith, omega arith, free, λ j p q. ground (arith, before j))

pub first_free-FirstFree : (m : Words) (rounds i : ℕ) → FirstFree m rounds i (first_free m rounds i)
unfolding first_free
first_free-FirstFree m zero i = λ j p q. absurd (omega arith)
first_free-FirstFree m (suc rounds) i = elim (Bool-cases (m i == 0)) [
  | inl free ↦ rw free (omega arith, omega arith, ground arith, λ j p q. absurd (omega arith))
  | inr used ↦
      rw used (FirstFree-step m rounds i _ (ground arith) (first_free-FirstFree m rounds (i + 1)))
]
