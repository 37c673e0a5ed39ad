-- ===== src/Tests/Pages.antt =====
-- An address space with one page table (page 2) that maps page 3 at index 1022; pages 4 and 5 are free.
use mathlib.Core.Bool.{false≢true}
use buaa_os_mos_with_fat.Base.{
  ℕ, ◌+◌, ◌*◌, ◌^◌, ◌<◌, ◌≡◌, refl, true, ◌==◌, if◌then◌else◌, [], ◌∷◌, some, arith, ok, Bool-cases,
  inl, inr, sym, ap, ◌∙◌,
}
use buaa_os_mos_with_fat.Base.Bitmap.{Words}
use buaa_os_mos_with_fat.Kern.Pages.{Mem, is_valid, ppn, page_lookup, page_remove, page_insert}
use buaa_os_mos_with_fat.Kern.Pages.Entry.{is_valid_zero}
use buaa_os_mos_with_fat.Kern.Pages.Space.{user_entries, pde, valid_entry, view, view_present}
use buaa_os_mos_with_fat.Kern.Pages.Map.{IsSpace, IsSpare, found, slot_of, page_lookup_lem}
use buaa_os_mos_with_fat.Kern.Pages.Remove.{Removed, some_present, page_remove-Removed}
use buaa_os_mos_with_fat.Kern.Pages.Insert.{Outcome}
use buaa_os_mos_with_fat.Kern.Pages.Replace.{page_insert-Outcome}

-- the entries of the table 2 and of the page 3, both valid
abbrev table_word : ℕ
table_word = 2 * 2 ^ 12 + 2 ^ 9 + 2 ^ 10

abbrev page_word : ℕ
page_word = 3 * 2 ^ 12 + 2 ^ 9

-- page 1 is the directory
abbrev mem_words : Words
mem_words w = if w == 1024 then table_word else if w == 3070 then page_word else 0

abbrev pub mem : Mem
mem = record {
  npage = 6;
  free = 4 ∷ 5 ∷ [];
  ref = λ p. if p == 4 then 0 else if p == 5 then 0 else 1;
  words = mem_words;
  flushes = [];
}

pde_lem : (k : ℕ) → k < user_entries → pde mem_words 1 k ≡ (if k == 0 then table_word else 0)
pde_lem k h = ground arith

only_zero : (k : ℕ) → k < user_entries → is_valid (pde mem_words 1 k) ≡ true → k ≡ 0
only_zero k h v = elim (Bool-cases (k == 0)) [
  | inl here ↦ ground arith
  | inr away ↦ absurd (
      false≢true (
        sym is_valid_zero
        ∙ ap is_valid (sym (pde_lem k h ∙ ap (λ b. if b then table_word else 0) away))
        ∙ v))
]

page_of_zero :
    (k : ℕ) → k < user_entries → is_valid (pde mem_words 1 k) ≡ true → ppn (pde mem_words 1 k) ≡ 2
page_of_zero k h v = let e : k ≡ 0 = only_zero k h v in rw e refl

table_lem : (l : ℕ) → l < 1024 → mem_words (2 * 1024 + l) ≡ (if l == 1022 then page_word else 0)
table_lem l h = ground arith

page_entry : (e : ℕ) → valid_entry page_word ≡ some e → ppn e ≡ 3
unfolding is_valid
page_entry e g = let f : page_word ≡ e = cc g in rw (sym f) refl

no_entry : (e : ℕ) → valid_entry 0 ≡ some e → ppn e ≡ 3
unfolding is_valid
no_entry e g = cc g

entry_lem :
    (l e : ℕ) → l < 1024 → valid_entry (if l == 1022 then page_word else 0) ≡ some e → ppn e ≡ 3
entry_lem l e h = elim (Bool-cases (l == 1022)) [
  | inl here ↦ rw here (page_entry e)
  | inr away ↦ rw away (no_entry e)
]

word_lem : (k l e : ℕ) → k < user_entries → l < 1024 → view mem_words 1 k l ≡ some e → ppn e ≡ 3
word_lem k l e h s here =
    let there : is_valid (pde mem_words 1 k) ≡ true = (some_present mem_words 1 k l e here).0 in
    let table : ppn (pde mem_words 1 k) ≡ 2 = page_of_zero k h there in
    let word : valid_entry (mem_words (2 * 1024 + l)) ≡ some e =
      ap (λ q. valid_entry (mem_words (q * 1024 + l))) (sym table)
      ∙ sym (view_present mem_words 1 k l there)
      ∙ here in
    entry_lem l e s (ap valid_entry (sym (table_lem l s)) ∙ word)

pub space : IsSpace mem 1
space = record {
  tables = record {
    apart = λ i h v e. omega (arith, page_of_zero i h v);
    own = λ i k h g v w e. only_zero i h v ∙ sym (only_zero k g w);
  };
  table_real = λ k h v. rw (page_of_zero k h v) (omega arith);
  page_real = λ k l e h s here. rw (word_lem k l e h s here) (omega arith);
  page_held = λ k l e h s here. rw (word_lem k l e h s here) (omega arith);
  free_real = (omega arith, (omega arith, tt));
  free_spare = (spare 4 (omega arith), (spare 5 (omega arith), tt));
}
  where
    spare : (p : ℕ) → 2 < p → IsSpare mem_words 1 p
    spare p h = (λ e. omega arith, λ k g v e. omega (arith, page_of_zero k g v))

page_lookup_lem_example :
    page_lookup 1 4186112 mem ≡ ok (found (slot_of mem 1 4186112) (view mem.words 1 0 1022)) mem
page_lookup_lem_example = page_lookup_lem mem 1 4186112 space (omega arith)

page_remove-Removed_example :
    (n : Mem) × (page_remove 1 7 4186112 mem ≡ ok tt n) × Removed 1 4186112 mem n
page_remove-Removed_example = page_remove-Removed mem 1 7 4186112 space (omega arith)

-- the address is in the second table, which is missing
page_insert-Outcome_example : Outcome 1 5 4194304 1024 mem (page_insert 1 7 5 4194304 1024 mem)
page_insert-Outcome_example = page_insert-Outcome mem 1 7 5 4194304 1024 space (omega arith)
