-- ===== src/Kern/Pages/Map.antt =====
-- `page_lookup`, `page_insert` and `page_remove` implement a map from user addresses to entries.
use buaa_os_mos_with_fat.Base.{
  ℕ, ◌+◌, ◌*◌, ◌<◌, ◌≡◌, ◌≢◌, refl, true, false, List, [], ◌∷◌, Option, none, some, ok, arith,
  Bool-cases, inl, inr, ◌∙◌, lt→ltb,
}
use buaa_os_mos_with_fat.Base.Bitmap.{Words}
use buaa_os_mos_with_fat.Kern.Pages.{
  Mem, is_valid, ppn, pdx, ptx, pde_at, table_slot, walk, page_of, page_lookup,
}
use buaa_os_mos_with_fat.Kern.Pages.Space.{
  user_entries, pde, valid_entry, view, Tables, view_present, view_absent,
}

abbrev pub AllPages : (ℕ → Type 0) → List ℕ → Type 0
AllPages P [] = Unit {0}
AllPages P (p ∷ rest) = P p × AllPages P rest

-- neither the directory nor a page table of it
abbrev pub IsSpare : Words → ℕ → ℕ → Type 0
IsSpare m dir p =
    (p ≢ dir) × ((k : ℕ) → k < user_entries → is_valid (pde m dir k) ≡ true → ppn (pde m dir k) ≢ p)

-- A directory whose tables and pages exist; the pages that it maps are counted, and those on the
-- free list are spare.
pub record IsSpace (m : Mem) (dir : ℕ) : Type 0 where
  pub tables : Tables m.words dir
  pub table_real :
      (k : ℕ)
      → k < user_entries
      → is_valid (pde m.words dir k) ≡ true
      → ppn (pde m.words dir k) < m.npage
  pub page_real :
      (k l e : ℕ) → k < user_entries → l < 1024 → view m.words dir k l ≡ some e → ppn e < m.npage
  pub page_held :
      (k l e : ℕ) → k < user_entries → l < 1024 → view m.words dir k l ≡ some e → 0 < m.ref (ppn e)
  pub free_real : AllPages (λ p. p < m.npage) m.free
  pub free_spare : AllPages (λ p. IsSpare m.words dir p) m.free

-- the place of the entry for `va`, if its table exists
abbrev pub slot_of : Mem → (dir va : ℕ) → ℕ
slot_of m dir va = ppn (m.words (pde_at dir va)) * 1024 + ptx va

abbrev pub found : ℕ → Option ℕ → Option (ℕ × ℕ)
found slot none = none
found slot (some e) = some (ppn e, slot)

pub ptx_small : (va : ℕ) → ptx va < 1024
ptx_small va = omega arith

found_valid : (slot e : ℕ) → is_valid e ≡ true → found slot (valid_entry e) ≡ some (ppn e, slot)
found_valid slot e h = rw h refl

found_invalid : (slot e : ℕ) → is_valid e ≡ false → found slot (valid_entry e) ≡ none
found_invalid slot e h = rw h refl

pub valid_some : (e : ℕ) → is_valid e ≡ true → valid_entry e ≡ some e
valid_some e h = rw h refl

module _ (m : Mem) (dir va : ℕ) (v : IsSpace m dir) (user : pdx va < user_entries) where
  walk_present :
      is_valid (pde m.words dir (pdx va)) ≡ true → walk dir va m ≡ ok (some (slot_of m dir va)) m
  unfolding walk table_slot
  walk_present there = rw (there, lt→ltb _ _ (v.table_real (pdx va) user there)) refl

  walk_absent : is_valid (pde m.words dir (pdx va)) ≡ false → walk dir va m ≡ ok none m
  unfolding walk
  walk_absent absent = rw absent refl

  page_of_present :
      is_valid (pde m.words dir (pdx va)) ≡ true
      → page_of (some (slot_of m dir va)) m
        ≡ ok (found (slot_of m dir va) (valid_entry (m.words (slot_of m dir va)))) m
  unfolding page_of
  page_of_present there = elim (Bool-cases (is_valid (m.words (slot_of m dir va)))) [
    | inl valid ↦
        rw
          (
            valid,
            lt→ltb _ _ (
                v.page_real (pdx va) (ptx va) (m.words (slot_of m dir va)) user (ptx_small va)
                  (view_present m.words dir (pdx va) (ptx va) there ∙ valid_some _ valid)),
          )
          refl
    | inr invalid ↦ rw invalid refl
  ]

  -- On a well-formed address space `page_lookup` returns the page, and the place, of the entry that
  -- the space has for the address, if it has one, and changes nothing.
  pub page_lookup_lem :
      page_lookup dir va m ≡ ok (found (slot_of m dir va) (view m.words dir (pdx va) (ptx va))) m
  unfolding page_lookup
  page_lookup_lem = elim (Bool-cases (is_valid (pde m.words dir (pdx va)))) [
    | inl there ↦
        rw
          (
            walk_present there,
            page_of_present there,
            view_present m.words dir (pdx va) (ptx va) there,
          )
          refl
    | inr absent ↦
        rw (walk_absent absent, view_absent m.words dir (pdx va) (ptx va) absent)
          (unfold page_of in refl)
  ]
