-- ===== src/Kern/Pages/Space.antt =====
-- What a page directory maps: the valid entry for each pair of indices, which a write to a page
-- table changes at one place and a new page table nowhere.
use mathlib.Core.Bool.{false≢true}
use buaa_os_mos_with_fat.Base.{
  ℕ, ◌+◌, ◌*◌, ◌/◌, ◌<◌, ◌≡◌, ◌≢◌, refl, Bool, true, false, ◌&&◌, ◌==◌, if◌then◌else◌, Option, none,
  some, arith, Bool-cases, inl, inr, sym, ap, ◌∙◌,
}
use buaa_os_mos_with_fat.Base.Bitmap.{Words, update, update_ne}
use buaa_os_mos_with_fat.Kern.Pages.{is_valid, ppn}

-- the entries of the directory that user addresses go through: PDX(UTOP)
abbrev pub user_entries : ℕ
user_entries = 509

abbrev pub pde : Words → (dir i : ℕ) → ℕ
pde m dir i = m (dir * 1024 + i)

abbrev pub valid_entry : ℕ → Option ℕ
valid_entry e = if is_valid e then some e else none

unfoldable pub view : Words → (dir i j : ℕ) → Option ℕ
view m dir i j =
    if is_valid (pde m dir i) then valid_entry (m (ppn (pde m dir i) * 1024 + j)) else none

pub view_absent : (m : Words) (dir k l : ℕ) → is_valid (pde m dir k) ≡ false → view m dir k l ≡ none
unfolding view
view_absent m dir k l absent = rw absent refl

pub view_present :
    (m : Words) (dir k l : ℕ)
    → is_valid (pde m dir k) ≡ true
    → view m dir k l ≡ valid_entry (m (ppn (pde m dir k) * 1024 + l))
unfolding view
view_present m dir k l there = rw there refl

-- The page tables of user addresses are pages of their own.
pub record Tables (m : Words) (dir : ℕ) : Type 0 where
  pub apart : (i : ℕ) → i < user_entries → is_valid (pde m dir i) ≡ true → ppn (pde m dir i) ≢ dir
  pub own :
      (i k : ℕ)
      → i < user_entries
      → k < user_entries
      → is_valid (pde m dir i) ≡ true
      → is_valid (pde m dir k) ≡ true
      → ppn (pde m dir i) ≡ ppn (pde m dir k)
      → i ≡ k

pub place_ne : (a b i j : ℕ) → a ≢ b → i < 1024 → j < 1024 → a * 1024 + i ≢ b * 1024 + j
place_ne a b i j ne h k e = ne (omega arith)

pub place_page : (a i : ℕ) → i < 1024 → (a * 1024 + i) / 1024 ≡ a
place_page a i h = omega arith

pub update_in_page :
    (m : Words) (a j l v : ℕ)
    → update m (a * 1024 + j) v (a * 1024 + l) ≡ (if l == j then v else m (a * 1024 + l))
unfolding update
update_in_page m a j l v = ground arith

pub same_eq : (i : ℕ) → (i == i) ≡ true
same_eq i = ground arith

pub not_same : (k i : ℕ) → (k == i) ≡ false → k ≢ i
not_same k i h e = ground arith

if_entry :
    (b : Bool) (v w : ℕ)
    → valid_entry (if b then v else w) ≡ (if b then valid_entry v else valid_entry w)
if_entry true v w = refl
if_entry false v w = refl

-- a write to the table of entry i
module _ (m : Words) (dir i j v : ℕ) (t : Tables m dir) (low : i < user_entries) (small : j < 1024)
    (present : is_valid (pde m dir i) ≡ true) where
  abbrev slot : ℕ
  slot = ppn (pde m dir i) * 1024 + j

  pub pde-write : (k : ℕ) → k < user_entries → pde (update m slot v) dir k ≡ pde m dir k
  pde-write k h =
      update_ne m slot v (dir * 1024 + k)
        (place_ne (ppn (pde m dir i)) dir j k (t.apart i low present) small (omega arith))

  other_slot :
      (k l : ℕ)
      → k < user_entries
      → l < 1024
      → is_valid (pde m dir k) ≡ true
      → update m slot v (ppn (pde m dir k) * 1024 + l)
        ≡ (if k == i && l == j then v else m (ppn (pde m dir k) * 1024 + l))
  other_slot k l h s there = elim (Bool-cases (k == i)) [
    | inl same ↦
        let e : k ≡ i = ground arith in
        rw (e, same_eq i, update_in_page m (ppn (pde m dir i)) j l v) refl
    | inr other ↦ rw other (
        update_ne m slot v (ppn (pde m dir k) * 1024 + l) (
          place_ne (ppn (pde m dir i)) (ppn (pde m dir k)) j l
            (λ e. not_same k i other (sym (t.own i k low h present there e))) small s))
  ]

  -- an entry that is missing is not the one that is written to
  missing_ne : (k : ℕ) → is_valid (pde m dir k) ≡ false → (k == i) ≡ false
  missing_ne k absent = elim (Bool-cases (k == i)) [
    | inl same ↦
        let e : k ≡ i = ground arith in
        absurd (false≢true (sym absent ∙ ap (λ x. is_valid (pde m dir x)) e ∙ present))
    | inr other ↦ other
  ]

  pub view-write :
      (k l : ℕ)
      → k < user_entries
      → l < 1024
      → view (update m slot v) dir k l
        ≡ (if k == i && l == j then valid_entry v else view m dir k l)
  unfolding view
  view-write k l h s = elim (Bool-cases (is_valid (pde m dir k))) [
    | inl there ↦
        rw (pde-write k h, there, other_slot k l h s there)
          (if_entry (k == i && l == j) v (m (ppn (pde m dir k) * 1024 + l)))
    | inr absent ↦ rw (pde-write k h, absent, missing_ne k absent) refl
  ]

  pub write-Tables : Tables (update m slot v) dir
  write-Tables = record {
    apart = λ k h there e.
        t.apart k h (ap is_valid (sym (pde-write k h)) ∙ there) (ap ppn (sym (pde-write k h)) ∙ e);
    own = λ k l h g there that e.
        t.own k l h g (ap is_valid (sym (pde-write k h)) ∙ there)
          (ap is_valid (sym (pde-write l g)) ∙ that)
          (ap ppn (sym (pde-write k h)) ∙ e ∙ ap ppn (pde-write l g));
  }
