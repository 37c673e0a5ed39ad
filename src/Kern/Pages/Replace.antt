-- ===== src/Kern/Pages/Replace.antt =====
-- The whole of `page_insert`: over nothing, over the same page and over another page.
use buaa_os_mos_with_fat.Base.{
  ℕ, ◌-◌, ◌<◌, ◌≡◌, refl, true, false, ◌==◌, ◌!=◌, Option, none, some, ok, and_then, and_then_assoc,
  Bool-cases, Option-cases, inl, inr, sym, ap, ◌∙◌,
}
use buaa_os_mos_with_fat.Base.Bitmap.{Words}
use buaa_os_mos_with_fat.Kern.Pages.{
  Mem, is_valid, ppn, pdx, ptx, entry_of, set_word, set_ref, tlb_invalidate, walk, page_of,
  page_lookup, put_page, replace_page, page_insert,
}
use buaa_os_mos_with_fat.Kern.Pages.Space.{user_entries, pde, view, Tables, write-Tables, pde-write}
use buaa_os_mos_with_fat.Kern.Pages.Map.{IsSpace, found, slot_of, page_lookup_lem, ptx_small}
use buaa_os_mos_with_fat.Kern.Pages.Remove.{
  removed, removed-words, some_present, page_remove_run, removed-map,
}
use buaa_os_mos_with_fat.Kern.Pages.Insert.{Inserted, Outcome, written-Inserted}
use buaa_os_mos_with_fat.Kern.Pages.Put.{Outcome-ok, Removed-Inserted, put_there, put_page-Outcome}

module _ (m : Mem) (dir asid va : ℕ) (v : IsSpace m dir) (user : pdx va < user_entries) (e : ℕ)
    (here : view m.words dir (pdx va) (ptx va) ≡ some e) where
  there : is_valid (pde m.words dir (pdx va)) ≡ true
  there = (some_present m.words dir (pdx va) (ptx va) e here).0

  abbrev out : Mem
  out = removed asid va (ppn e) (slot_of m dir va) m

  out-pde : (k : ℕ) → k < user_entries → pde out.words dir k ≡ pde m.words dir k
  out-pde k low =
      ap (λ w. pde w dir k) (removed-words asid va (ppn e) (slot_of m dir va) m)
      ∙ pde-write m.words dir (pdx va) (ptx va) 0 v.tables user (ptx_small va) there k low

  same_words_Tables : (w x : Words) → w ≡ x → Tables x dir → Tables w dir
  same_words_Tables w x same t = rw same t

  out-Tables : Tables out.words dir
  out-Tables =
      same_words_Tables out.words _ (removed-words asid va (ppn e) (slot_of m dir va) m)
        (write-Tables m.words dir (pdx va) (ptx va) 0 v.tables user (ptx_small va) there)

  out-npage : out.npage ≡ m.npage
  unfolding tlb_invalidate set_word set_ref
  out-npage = elim (Bool-cases ((set_ref (ppn e) (m.ref (ppn e) - 1) m).ref (ppn e) == 0)) [
    | inl last ↦ rw last refl
    | inr more ↦ rw more refl
  ]

  pub replace_other :
      (pp perm : ℕ)
      → (ppn e != pp) ≡ true
      → (n : Mem) × (replace_page dir asid pp va perm (some (ppn e, slot_of m dir va)) m ≡ ok tt n)
        × Inserted dir pp va perm m.words n.words
  unfolding replace_page
  replace_other pp perm other =
      let (n, put, done) =
        put_there dir asid pp va perm out out-Tables user
          (ap is_valid (out-pde (pdx va) user) ∙ there)
          (rw (out-pde (pdx va) user, out-npage) (v.table_real (pdx va) user there)) in
      (
        n,
        rw (other, page_remove_run m dir asid va v user e here) put,
        Removed-Inserted dir pp va perm m out n.words (removed-map m dir asid va v user e here)
            done,
      )

  pub replace_same :
      (pp perm : ℕ)
      → (ppn e != pp) ≡ false
      → (n : Mem) × (replace_page dir asid pp va perm (some (ppn e, slot_of m dir va)) m ≡ ok tt n)
        × Inserted dir pp va perm m.words n.words
  unfolding replace_page set_word tlb_invalidate
  replace_same pp perm same = (
    set_word (slot_of m dir va) (entry_of pp perm) (tlb_invalidate asid va m),
    rw same refl,
    written-Inserted m.words dir pp va perm v.tables user there,
  )

-- `page_lookup` is the first half of `page_insert`
insert_found :
    (m : Mem) (dir asid pp va perm : ℕ) (o : Option (ℕ × ℕ))
    → page_lookup dir va m ≡ ok o m
    → page_insert dir asid pp va perm m ≡ replace_page dir asid pp va perm o m
unfolding page_lookup page_insert
insert_found m dir asid pp va perm o looked =
    sym (and_then_assoc (walk dir va m) page_of (replace_page dir asid pp va perm))
    ∙ ap (λ r. and_then r (replace_page dir asid pp va perm)) looked

module _ (m : Mem) (dir asid pp va perm : ℕ) (v : IsSpace m dir)
    (user : pdx va < user_entries) where
  looked :
      (o : Option ℕ)
      → view m.words dir (pdx va) (ptx va) ≡ o
      → page_insert dir asid pp va perm m
        ≡ replace_page dir asid pp va perm (found (slot_of m dir va) o) m
  looked o h =
      insert_found m dir asid pp va perm (found (slot_of m dir va) o)
        (page_lookup_lem m dir va v user ∙ ap (λ x. ok (found (slot_of m dir va) x) m) h)

  insert_nothing :
      view m.words dir (pdx va) (ptx va) ≡ none
      → page_insert dir asid pp va perm m ≡ put_page dir asid pp va perm m
  unfolding replace_page
  insert_nothing h = looked none h

  insert_over :
      (e : ℕ)
      → view m.words dir (pdx va) (ptx va) ≡ some e
      → page_insert dir asid pp va perm m
        ≡ replace_page dir asid pp va perm (some (ppn e, slot_of m dir va)) m
  insert_over e h = looked (some e) h

  -- On a well-formed address space `page_insert` either makes the entry for the address the page
  -- with the flags and PTE_V, leaving the entries for the other user addresses, or fails with
  -- -E_NO_MEM, which it does only when no page is free and with memory as it was.
  pub page_insert-Outcome : Outcome dir pp va perm m (page_insert dir asid pp va perm m)
  page_insert-Outcome = elim (Option-cases (view m.words dir (pdx va) (ptx va))) [
    | inl nothing ↦ rw (insert_nothing nothing) (
        put_page-Outcome dir asid pp va perm m v.tables user (v.table_real (pdx va) user)
          v.free_real v.free_spare)
    | inr (e, here) ↦ elim (Bool-cases (ppn e != pp)) [
      | inl other ↦
          let (n, run, done) = replace_other m dir asid va v user e here pp perm other in
          Outcome-ok dir pp va perm m n _ (insert_over e here ∙ run) done
      | inr same ↦
          let (n, run, done) = replace_same m dir asid va v user e here pp perm same in
          Outcome-ok dir pp va perm m n _ (insert_over e here ∙ run) done
    ]
  ]
