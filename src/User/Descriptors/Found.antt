-- ===== src/User/Descriptors/Found.antt =====
-- The descriptor that `fd_alloc` finds.
use buaa_os_mos_with_fat.Base.{
  ℕ, zero, suc, ◌+◌, ◌-◌, ◌/◌, ◌^◌, ◌≤◌, ◌<◌, ◌≡◌, refl, Bool, true, false, ◌&&◌, ◌==◌, leb,
  if◌then◌else◌, max_open, Run, ok, err, arith, Bool-cases, inl, inr, ap, ◌∙◌,
}
use buaa_os_mos_with_fat.User.Descriptors.{
  Tables, maxfd, index2fd, fd2num, num2fd, fd_scan, fd_alloc, fd_lookup,
}

-- the descriptor has its page
abbrev pub used : Tables → ℕ → Bool
used t i = t.dir_valid (index2fd i / 2 ^ 22) && t.page_valid (index2fd i / 4096)

-- once the page of the descriptor is there
unfoldable pub opened : ℕ → Tables → Tables
opened i t = record {
  dir_valid = λ d. if d == index2fd i / 2 ^ 22 then true else t.dir_valid d;
  page_valid = λ p. if p == index2fd i / 4096 then true else t.page_valid p;
}

-- What a search from descriptor i on for `rounds` descriptors may return.
abbrev pub Free : (rounds i : ℕ) → Tables → Run Tables ℕ → Type 0
Free rounds i t (ok fd n) =
    (n ≡ t)
    × (i ≤ fd2num fd)
    × (fd2num fd < i + rounds)
    × (num2fd (fd2num fd) ≡ fd)
    × (used t (fd2num fd) ≡ false)
    × ((j : ℕ) → i ≤ j → j < fd2num fd → used t j ≡ true)
    × (fd_lookup (fd2num fd) (opened (fd2num fd) t) ≡ ok fd (opened (fd2num fd) t))
Free rounds i t (err e n) =
    (e ≡ max_open) × (n ≡ t) × ((j : ℕ) → i ≤ j → j < i + rounds → used t j ≡ true)
Free rounds i t Run.panic = ⊥

fd2num-index2fd : (i : ℕ) → fd2num (index2fd i) ≡ i
unfolding fd2num
fd2num-index2fd i = omega arith

num2fd_lem : (i : ℕ) → num2fd i ≡ index2fd i
unfolding num2fd
num2fd_lem i = omega arith

fd_lookup-opened :
    (i : ℕ) (t : Tables) → i < maxfd → fd_lookup i (opened i t) ≡ ok (index2fd i) (opened i t)
unfolding fd_lookup opened
fd_lookup-opened i t h = rw (small, same (index2fd i / 2 ^ 22), same (index2fd i / 4096)) refl
  where
    small : leb maxfd i ≡ false
    small = ground arith

    same : (k : ℕ) → (k == k) ≡ true
    same k = ground arith

Free-here :
    (rounds i : ℕ) (t : Tables) (k : ℕ)
    → i < maxfd
    → used t i ≡ false
    → k ≡ i
    → num2fd k ≡ index2fd i
    → (i ≤ k)
      × (k < i + suc rounds)
      × (used t k ≡ false)
      × ((j : ℕ) → i ≤ j → j < k → used t j ≡ true)
      × (fd_lookup k (opened k t) ≡ ok (index2fd i) (opened k t))
Free-here rounds i t k low out same back = (
  omega arith,
  omega arith,
  ap (used t) same ∙ out,
  λ j h g. absurd (omega arith),
  rw same (fd_lookup-opened i t low),
)

found :
    (rounds i : ℕ) (t : Tables)
    → i < maxfd
    → used t i ≡ false
    → Free (suc rounds) i t (ok (index2fd i) t)
found rounds i t low out =
    let num : fd2num (index2fd i) ≡ i = fd2num-index2fd i in
    let back : num2fd (fd2num (index2fd i)) ≡ index2fd i = ap num2fd num ∙ num2fd_lem i in
    let (a, b, c, d, e) = Free-here rounds i t (fd2num (index2fd i)) low out num back in
    (refl, a, b, back, c, d, e)

Free-next :
    (rounds i : ℕ) (t : Tables) (r : Run Tables ℕ)
    → used t i ≡ true
    → Free rounds (i + 1) t r
    → Free (suc rounds) i t r
Free-next rounds i t (ok fd n) busy (same, low, high, back, out, before, finds) =
    (same, omega arith, omega arith, back, out, λ j h g. earlier j h g, finds)
  where
    earlier : (j : ℕ) → i ≤ j → j < fd2num fd → used t j ≡ true
    earlier j h g = elim (Bool-cases (j == i)) [
      | inl here ↦ let e : j ≡ i = ground arith in ap (used t) e ∙ busy
      | inr later ↦ before j (ground arith) g
    ]
Free-next rounds i t (err e n) busy (code, same, all) = (code, same, λ j h g. each j h g)
  where
    each : (j : ℕ) → i ≤ j → j < i + suc rounds → used t j ≡ true
    each j h g = elim (Bool-cases (j == i)) [
      | inl here ↦ let e : j ≡ i = ground arith in ap (used t) e ∙ busy
      | inr later ↦ all j (ground arith) (omega arith)
    ]
Free-next rounds i t Run.panic busy no_way = no_way

fd_scan-Free :
    (rounds i : ℕ) (t : Tables) → i + rounds < maxfd → Free rounds i t (fd_scan rounds i t)
unfolding fd_scan
fd_scan-Free zero i t h = (refl, refl, λ j p q. absurd (omega arith))
fd_scan-Free (suc rounds) i t h = elim (Bool-cases (t.dir_valid (index2fd i / 2 ^ 22))) [
  | inr no_table ↦ rw no_table (found rounds i t (omega arith) (ground arith))
  | inl table ↦ elim (Bool-cases (t.page_valid (index2fd i / 4096))) [
    | inr no_page ↦ rw (table, no_page) (found rounds i t (omega arith) (ground arith))
    | inl page ↦
        rw (table, page)
          (Free-next rounds i t _ (ground arith) (fd_scan-Free rounds (i + 1) t (omega arith)))
  ]
]

-- `fd_alloc` returns the address of the lowest descriptor without a page, of the first 31, from
-- which `fd2num` and `num2fd` lead to its number and back, and which `fd_lookup` finds once the page
-- is there; it fails with -E_MAX_OPEN if these 31 have pages, also when descriptor 31, the last, has
-- none: that one is never given out. It changes nothing.
pub fd_alloc-Free : (t : Tables) → Free (maxfd - 1) 0 t (fd_alloc t)
unfolding fd_alloc
fd_alloc-Free t = fd_scan-Free (maxfd - 1) 0 t (omega arith)
