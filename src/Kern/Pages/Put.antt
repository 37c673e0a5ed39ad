-- ===== src/Kern/Pages/Put.antt =====
-- Steps 2 to 4 of `page_insert`, with a table that is there and with a new one.
use buaa_os_mos_with_fat.Base.{
  ℕ, ◌<◌, ◌≡◌, refl, true, false, ◌&&◌, ◌==◌, if◌then◌else◌, List, [], ◌∷◌, none, some, no_mem, Run,
  ok, err, Bool-cases, ◌⊎◌, inl, inr, ap, ◌∙◌,
}
use buaa_os_mos_with_fat.Base.Bitmap.{Words}
use buaa_os_mos_with_fat.Kern.Pages.{
  Mem, is_valid, ppn, pdx, ptx, entry_of, pde_at, set_word, set_ref, tlb_invalidate, new_table,
  zero_page, walk_create, put_page,
}
use buaa_os_mos_with_fat.Kern.Pages.Space.{user_entries, pde, view, Tables}
use buaa_os_mos_with_fat.Kern.Pages.NewTable.{here_valid, here_page, after-Tables, view-after}
use buaa_os_mos_with_fat.Kern.Pages.Map.{IsSpare, AllPages, slot_of}
use buaa_os_mos_with_fat.Kern.Pages.Remove.{Removed}
use buaa_os_mos_with_fat.Kern.Pages.Insert.{
  Inserted, Outcome, written-Inserted, tabled, walk_new, walk_full, slot_real, entered, put_after,
  put_fails,
}

-- a result that is known to be a success
pub Outcome-ok :
    (dir pp va perm : ℕ) (m n : Mem) (r : Run Mem (Unit {0}))
    → r ≡ ok tt n
    → Inserted dir pp va perm m.words n.words
    → Outcome dir pp va perm m r
Outcome-ok dir pp va perm m n r h done = rw h done

Outcome-full :
    (dir pp va perm : ℕ) (m n : Mem) (r : Run Mem (Unit {0}))
    → r ≡ err no_mem n
    → m.free ≡ []
    → n.words ≡ m.words
    → Outcome dir pp va perm m r
Outcome-full dir pp va perm m n r h full same = rw h (refl, full, same)

-- what is inserted into a space with the same map is inserted into the space
same-Inserted :
    (dir pp va perm : ℕ) (w x y : Words)
    → ((k l : ℕ) → k < user_entries → l < 1024 → view x dir k l ≡ view w dir k l)
    → Inserted dir pp va perm x y
    → Inserted dir pp va perm w y
same-Inserted dir pp va perm w x y same done = record {
  map = λ k l low small.
      done.map k l low small
      ∙ ap (λ z. if k == pdx va && l == ptx va then some (entry_of pp perm) else z)
          (same k l low small);
}

-- the entry is overwritten whatever `page_remove` left there
pub Removed-Inserted :
    (dir pp va perm : ℕ) (m n : Mem) (y : Words)
    → Removed dir va m n
    → Inserted dir pp va perm n.words y
    → Inserted dir pp va perm m.words y
Removed-Inserted dir pp va perm m n y gone done = record {
  map = λ k l low small. done.map k l low small ∙ over k l low small;
}
  where
    over :
        (k l : ℕ)
        → k < user_entries
        → l < 1024
        → (if k == pdx va && l == ptx va then some (entry_of pp perm) else view n.words dir k l)
          ≡ (if k == pdx va && l == ptx va then some (entry_of pp perm) else view m.words dir k l)
    over k l low small = elim (Bool-cases (k == pdx va && l == ptx va)) [
      | inl here ↦ rw here refl
      | inr away ↦
          rw away (gone.map k l low small ∙ ap (λ b. if b then none else view m.words dir k l) away)
    ]

flushed-words : (asid va : ℕ) (m : Mem) → (tlb_invalidate asid va m).words ≡ m.words
unfolding tlb_invalidate
flushed-words asid va m = refl

flushed-npage : (asid va : ℕ) (m : Mem) → (tlb_invalidate asid va m).npage ≡ m.npage
unfolding tlb_invalidate
flushed-npage asid va m = refl

flushed-free : (asid va : ℕ) (m : Mem) → (tlb_invalidate asid va m).free ≡ m.free
unfolding tlb_invalidate
flushed-free asid va m = refl

walk_there :
    (n : Mem) (dir va : ℕ)
    → is_valid (pde n.words dir (pdx va)) ≡ true
    → ppn (pde n.words dir (pdx va)) < n.npage
    → walk_create dir va n ≡ ok (slot_of n dir va) n
unfolding walk_create
walk_there n dir va there real = rw there (slot_real n dir va real)

List-cases : (x : List ℕ) → (x ≡ []) ⊎ ((p : ℕ) × (rest : List ℕ) × (x ≡ p ∷ rest))
List-cases [] = inl refl
List-cases (p ∷ rest) = inr (p, rest, refl)

first_page :
    (P : ℕ → Type 0) (free : List ℕ) (p : ℕ) (rest : List ℕ)
    → free ≡ p ∷ rest
    → AllPages P free
    → P p
first_page P free p rest first = rw first (λ all. all.0)

module _ (dir asid pp va perm : ℕ) (m : Mem) (t : Tables m.words dir)
    (user : pdx va < user_entries) where
  -- on a table that is there
  pub put_there :
      is_valid (pde m.words dir (pdx va)) ≡ true
      → ppn (pde m.words dir (pdx va)) < m.npage
      → (n : Mem) × (put_page dir asid pp va perm m ≡ ok tt n)
        × Inserted dir pp va perm m.words n.words
  unfolding tlb_invalidate set_word set_ref
  put_there there real = (
    entered dir pp va perm (tlb_invalidate asid va m),
    put_after m (tlb_invalidate asid va m) dir asid pp va perm
        (walk_there (tlb_invalidate asid va m) dir va there real),
    written-Inserted m.words dir pp va perm t user there,
  )

  -- on a new table
  put_new :
      (p : ℕ) (rest : List ℕ)
      → is_valid (pde m.words dir (pdx va)) ≡ false
      → m.free ≡ p ∷ rest
      → p < m.npage
      → IsSpare m.words dir p
      → (n : Mem) × (put_page dir asid pp va perm m ≡ ok tt n)
        × Inserted dir pp va perm m.words n.words
  unfolding tlb_invalidate set_word set_ref new_table zero_page
  put_new p rest absent first real (other, fresh) =
      let f : Mem = tlb_invalidate asid va m in
      let n : Mem = tabled dir va p rest f in
      let page : ppn (n.words (pde_at dir va)) ≡ p =
        here_page m.words dir (pdx va) p t user other fresh absent in
      (
        entered dir pp va perm n,
        put_after m n dir asid pp va perm
            (walk_new f dir va p rest absent first real (rw page real)),
        same-Inserted dir pp va perm m.words n.words _
            (view-after m.words dir (pdx va) p t user other fresh absent)
            (written-Inserted n.words dir pp va perm
              (after-Tables m.words dir (pdx va) p t user other fresh absent) user
              (here_valid m.words dir (pdx va) p t user other fresh absent)),
      )

  put_full :
      is_valid (pde m.words dir (pdx va)) ≡ false
      → m.free ≡ []
      → put_page dir asid pp va perm m ≡ err no_mem (tlb_invalidate asid va m)
  unfolding tlb_invalidate
  put_full absent full =
      put_fails m (tlb_invalidate asid va m) dir asid pp va perm
        (walk_full (tlb_invalidate asid va m) dir va absent (flushed-free asid va m ∙ full))

  pub put_page-Outcome :
      (is_valid (pde m.words dir (pdx va)) ≡ true → ppn (pde m.words dir (pdx va)) < m.npage)
      → AllPages (λ p. p < m.npage) m.free
      → AllPages (λ p. IsSpare m.words dir p) m.free
      → Outcome dir pp va perm m (put_page dir asid pp va perm m)
  put_page-Outcome table_real real spare = elim (Bool-cases (is_valid (pde m.words dir (pdx va)))) [
    | inl there ↦
        let (n, e, done) = put_there there (table_real there) in
        Outcome-ok dir pp va perm m n _ e done
    | inr absent ↦ elim (List-cases m.free) [
      | inl full ↦
          Outcome-full dir pp va perm m (tlb_invalidate asid va m) _ (put_full absent full) full
            (flushed-words asid va m)
      | inr (p, rest, first) ↦
          let (n, e, done) =
            put_new p rest absent first (first_page _ m.free p rest first real)
              (first_page _ m.free p rest first spare) in
          Outcome-ok dir pp va perm m n _ e done
    ]
  ]
