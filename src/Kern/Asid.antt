-- ===== src/Kern/Asid.antt =====
-- kern/env.c: address space identifiers, `asid_alloc` and `asid_free` over `asid_bitmap`.
use buaa_os_mos_with_fat.Base.{
  ℕ, zero, suc, ◌+◌, ◌≤◌, ◌<◌, ◌≡◌, inl, inr, true, false, Bool-cases, arith, ◌==◌, if◌then◌else◌,
  no_free_env, Run, ok, err, Cmd, refl, ap,
}
use buaa_os_mos_with_fat.Base.Bitmap.{
  Words, test_bit, set_bit, clear_bit, test_bit-set, test_bit-clear,
}

-- NASID
abbrev pub nasid : ℕ
nasid = 64

-- the rounds of the loop that are left, and `i`
asid_scan : ℕ → ℕ → Cmd Words ℕ
asid_scan zero i b = err no_free_env b
asid_scan (suc rounds) i b =
    let rest = asid_scan rounds (i + 1) b in if test_bit b i then rest else ok i (set_bit b i)

pub asid_alloc : Cmd Words ℕ
unfolding asid_scan
asid_alloc b = asid_scan nasid 0 b

pub asid_free : ℕ → Words → Words
asid_free i b = clear_bit b i

-- What a call that looks from `i` on for `rounds` numbers may return.
abbrev pub Scanned : ℕ → ℕ → Words → Run Words ℕ → Type 0
Scanned rounds i b (ok a b') =
    (i ≤ a)
    × (a < i + rounds)
    × (test_bit b a ≡ false)
    × ((j : ℕ) → i ≤ j → j < a → test_bit b j ≡ true)
    × ((j : ℕ) → test_bit b' j ≡ (if a == j then true else test_bit b j))
Scanned rounds i b (err e b') =
    (e ≡ no_free_env) × (b' ≡ b) × ((j : ℕ) → i ≤ j → j < i + rounds → test_bit b j ≡ true)
Scanned rounds i b Run.panic = ⊥

Scanned-step :
    (rounds i : ℕ) (b : Words) (r : Run Words ℕ)
    → test_bit b i ≡ true
    → Scanned rounds (i + 1) b r
    → Scanned (suc rounds) i b r
Scanned-step rounds i b (ok a b') used (low, high, free, before, after) =
    (omega arith, omega arith, free, λ j p q. ground (arith, before j), after)
Scanned-step rounds i b (err e b') used (code, same, all) =
    (code, same, λ j p q. ground (arith, all j))
Scanned-step rounds i b Run.panic used h = h

asid_scan-Scanned : (rounds i : ℕ) (b : Words) → Scanned rounds i b (asid_scan rounds i b)
unfolding asid_scan
asid_scan-Scanned zero i b = (refl, refl, λ j p q. absurd (omega arith))
asid_scan-Scanned (suc rounds) i b = elim (Bool-cases (test_bit b i)) [
  | inl used ↦ rw used (Scanned-step rounds i b _ used (asid_scan-Scanned rounds (i + 1) b))
  | inr free ↦
      rw free
        (omega arith, omega arith, free, λ j p q. absurd (omega arith), λ j. test_bit-set b i j)
]

-- `asid_alloc` returns the smallest identifier below NASID that is not in use, marks that one and
-- no other, and fails with -E_NO_FREE_ENV, changing nothing, exactly if all 64 are in use.
pub asid_alloc-smallest : (b : Words) → Scanned nasid 0 b (asid_alloc b)
unfolding asid_alloc
asid_alloc-smallest b = asid_scan-Scanned nasid 0 b

-- After `asid_free(i)` identifier i is free and the others are as they were.
pub asid_free_lem :
    (i j : ℕ) (b : Words) → test_bit (asid_free i b) j ≡ (if i == j then false else test_bit b j)
unfolding asid_free
asid_free_lem i j b = test_bit-clear b i j

only_free :
    (i : ℕ) (b : Words)
    → i < nasid
    → ((j : ℕ) → j < nasid → test_bit b j ≡ true)
    → (r : Run Words ℕ) → Scanned nasid 0 (asid_free i b) r
    → (b' : Words) × (r ≡ ok i b')
only_free i b h full (ok a b') (low, high, free, before, after) =
    let hit : a ≡ i = ground (arith, asid_free_lem i a b, full a) in (b', ap (λ k. ok k b') hit)
only_free i b h full (err e b') (code, same, all) =
    absurd (ground (arith, all i, asid_free_lem i i b))
only_free i b h full Run.panic no_way = absurd no_way

-- When all 64 identifiers are in use, an identifier that is freed is the one `asid_alloc` gives
-- next.
pub asid_alloc-free :
    (i : ℕ) (b : Words)
    → i < nasid
    → ((j : ℕ) → j < nasid → test_bit b j ≡ true)
    → (b' : Words) × (asid_alloc (asid_free i b) ≡ ok i b')
asid_alloc-free i b h full = only_free i b h full _ (asid_alloc-smallest (asid_free i b))
