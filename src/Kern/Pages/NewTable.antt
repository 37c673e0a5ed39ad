-- ===== src/Kern/Pages/NewTable.antt =====
-- A new page table is empty: the directory maps what it mapped before.
use Prim.Native.Nat.{bit_or}
use buaa_os_mos_with_fat.Base.{
  ℕ, ◌+◌, ◌*◌, ◌/◌, ◌^◌, ◌<◌, ◌≡◌, ◌≢◌, refl, true, false, ◌==◌, if◌then◌else◌, none, some, arith,
  Bool-cases, ◌⊎◌, inl, inr, sym, ap, ◌∙◌,
}
use buaa_os_mos_with_fat.Base.Bitmap.{Words, update, update_ne}
use buaa_os_mos_with_fat.Kern.Pages.{is_valid, ppn, pte_v, pte_d}
use buaa_os_mos_with_fat.Kern.Pages.Entry.{ppn_new_table, is_valid_new_table, is_valid_zero}
use buaa_os_mos_with_fat.Kern.Pages.Space.{
  user_entries, pde, valid_entry, view, Tables, place_ne, place_page, update_in_page, same_eq,
  view_present, view_absent,
}

abbrev pub table_entry : ℕ → ℕ
table_entry p = bit_or (bit_or (p * 2 ^ 12) pte_v) pte_d

abbrev pub zeroed : ℕ → Words → Words
zeroed p m w = if w / 1024 == p then 0 else m w

ne_test : (a b : ℕ) → a ≢ b → (a == b) ≡ false
ne_test a b h = ground arith

zeroed_else :
    (m : Words) (p a l : ℕ) → l < 1024 → a ≢ p → zeroed p m (a * 1024 + l) ≡ m (a * 1024 + l)
zeroed_else m p a l h ne = rw (place_page a l h, ne_test a p ne) refl

zeroed_here : (m : Words) (p l : ℕ) → l < 1024 → zeroed p m (p * 1024 + l) ≡ 0
zeroed_here m p l h = rw (place_page p l h, same_eq p) refl

module _ (m : Words) (dir i p : ℕ) (t : Tables m dir) (low : i < user_entries) (other : p ≢ dir)
    (fresh : (k : ℕ) → k < user_entries → is_valid (pde m dir k) ≡ true → ppn (pde m dir k) ≢ p)
    (absent : is_valid (pde m dir i) ≡ false) where
  abbrev pub after : Words
  after = update (zeroed p m) (dir * 1024 + i) (table_entry p)

  pub pde-after :
      (k : ℕ) → k < user_entries → pde after dir k ≡ (if k == i then table_entry p else pde m dir k)
  pde-after k h =
      update_in_page (zeroed p m) dir i k (table_entry p)
      ∙ ap (λ x. if k == i then table_entry p else x)
          (zeroed_else m p dir k (omega arith) (λ e. other (sym e)))

  pub here_valid : is_valid (pde after dir i) ≡ true
  here_valid = rw (pde-after i low, same_eq i) (is_valid_new_table p)

  pub here_page : ppn (pde after dir i) ≡ p
  here_page = rw (pde-after i low, same_eq i) (ppn_new_table p)

  else_pde : (k : ℕ) → k < user_entries → (k == i) ≡ false → pde after dir k ≡ pde m dir k
  else_pde k h ne = pde-after k h ∙ ap (λ b. if b then table_entry p else pde m dir k) ne

  -- a table is the new one or an old one
  which :
      (k : ℕ)
      → k < user_entries
      → is_valid (pde after dir k) ≡ true
      → ((k ≡ i) × (ppn (pde after dir k) ≡ p))
        ⊎ ((is_valid (pde m dir k) ≡ true) × (ppn (pde after dir k) ≡ ppn (pde m dir k)))
  which k h there = elim (Bool-cases (k == i)) [
    | inl same ↦
        let e : k ≡ i = ground arith in inl (e, ap (λ x. ppn (pde after dir x)) e ∙ here_page)
    | inr ne ↦ inr (ap is_valid (sym (else_pde k h ne)) ∙ there, ap ppn (else_pde k h ne))
  ]

  pub after-Tables : Tables after dir
  after-Tables = record {
    apart = λ k h there. elim (which k h there) [
      | inl (e, new) ↦ λ f. other (sym new ∙ f)
      | inr (old, page) ↦ λ f. t.apart k h old (sym page ∙ f)
    ];
    own = λ k l h g there that e. elim (which k h there) [
      | inl (k_new, k_page) ↦ elim (which l g that) [
        | inl (l_new, l_page) ↦ k_new ∙ sym l_new
        | inr (l_old, l_page) ↦ absurd (fresh l g l_old (sym l_page ∙ sym e ∙ k_page))
      ]
      | inr (k_old, k_page) ↦ elim (which l g that) [
        | inl (l_new, l_page) ↦ absurd (fresh k h k_old (sym k_page ∙ e ∙ l_page))
        | inr (l_old, l_page) ↦ t.own k l h g k_old l_old (sym k_page ∙ e ∙ l_page)
      ]
    ];
  }

  new_word : (l : ℕ) → l < 1024 → after (ppn (pde after dir i) * 1024 + l) ≡ 0
  new_word l s =
      ap (λ q. after (q * 1024 + l)) here_page
      ∙ update_ne (zeroed p m) (dir * 1024 + i) (table_entry p) (p * 1024 + l)
          (place_ne dir p i l (λ e. other (sym e)) (omega arith) s)
      ∙ zeroed_here m p l s

  old_word :
      (k l : ℕ)
      → k < user_entries
      → l < 1024
      → (k == i) ≡ false
      → is_valid (pde m dir k) ≡ true
      → after (ppn (pde after dir k) * 1024 + l) ≡ m (ppn (pde m dir k) * 1024 + l)
  old_word k l h s ne old =
      ap (λ q. after (ppn q * 1024 + l)) (else_pde k h ne)
      ∙ update_ne (zeroed p m) (dir * 1024 + i) (table_entry p) (ppn (pde m dir k) * 1024 + l)
          (place_ne dir (ppn (pde m dir k)) i l (λ e. t.apart k h old (sym e)) (omega arith) s)
      ∙ zeroed_else m p (ppn (pde m dir k)) l s (fresh k h old)

  view-after_new : (l : ℕ) → l < 1024 → view after dir i l ≡ view m dir i l
  view-after_new l s =
      view_present after dir i l here_valid
      ∙ ap valid_entry (new_word l s)
      ∙ ap (λ b. if b then some 0 else none) is_valid_zero
      ∙ sym (view_absent m dir i l absent)

  pub view-after : (k l : ℕ) → k < user_entries → l < 1024 → view after dir k l ≡ view m dir k l
  view-after k l h s = elim (Bool-cases (k == i)) [
    | inl same ↦ let e : k ≡ i = ground arith in rw e (view-after_new l s)
    | inr ne ↦ elim (Bool-cases (is_valid (pde m dir k))) [
      | inl old ↦
          view_present after dir k l (ap is_valid (else_pde k h ne) ∙ old)
          ∙ ap valid_entry (old_word k l h s ne old)
          ∙ sym (view_present m dir k l old)
      | inr missing ↦
          view_absent after dir k l (ap is_valid (else_pde k h ne) ∙ missing)
          ∙ sym (view_absent m dir k l missing)
    ]
  ]
