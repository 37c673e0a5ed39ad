-- ===== src/Kern/Pages/Remove.antt =====
-- `page_remove` takes one address out of the map.
use buaa_os_mos_with_fat.Base.{
  ℕ, ◌+◌, ◌-◌, ◌*◌, ◌<◌, ◌≡◌, refl, Bool, true, false, ◌&&◌, ◌==◌, if◌then◌else◌, ◌∷◌, Option, none,
  some, ok, arith, Bool-cases, Option-cases, inl, inr, ap, ◌∙◌, lt→ltb,
}
use buaa_os_mos_with_fat.Base.Bitmap.{Words, update}
use buaa_os_mos_with_fat.Kern.Pages.{
  Mem, is_valid, ppn, pdx, ptx, set_word, set_ref, page_free, page_decref, tlb_invalidate,
  drop_page, page_remove,
}
use buaa_os_mos_with_fat.Kern.Pages.Entry.{is_valid_zero}
use buaa_os_mos_with_fat.Kern.Pages.Space.{user_entries, pde, view, view-write}
use buaa_os_mos_with_fat.Kern.Pages.Map.{IsSpace, slot_of, page_lookup_lem, ptx_small}

-- the state once a reference to the page is gone
abbrev pub dropped : ℕ → Mem → Mem
dropped p m =
    let d : Mem = set_ref p (m.ref p - 1) m in
    if d.ref p == 0 then record d { free = p ∷ d.free } else d

page_decref_lem : (p : ℕ) (m : Mem) → 0 < m.ref p → page_decref p m ≡ ok tt (dropped p m)
unfolding page_decref page_free
page_decref_lem p m h = elim (Bool-cases ((set_ref p (m.ref p - 1) m).ref p == 0)) [
  | inl last ↦ rw (lt→ltb 0 (m.ref p) h, last) refl
  | inr more ↦ rw (lt→ltb 0 (m.ref p) h, more) refl
]

dropped-words : (p : ℕ) (m : Mem) → (dropped p m).words ≡ m.words
unfolding set_ref
dropped-words p m = elim (Bool-cases ((set_ref p (m.ref p - 1) m).ref p == 0)) [
  | inl last ↦ rw last refl
  | inr more ↦ rw more refl
]

-- the state that `page_remove` leaves when it takes the entry out
abbrev pub removed : (asid va p slot : ℕ) → Mem → Mem
removed asid va p slot m = tlb_invalidate asid va (set_word slot 0 (dropped p m))

pub removed-words :
    (asid va p slot : ℕ) (m : Mem) → (removed asid va p slot m).words ≡ update m.words slot 0
unfolding tlb_invalidate set_word
removed-words asid va p slot m = ap (λ w. update w slot 0) (dropped-words p m)

if_some :
    (b : Bool) (x : Option ℕ) (e : ℕ) → (if b then x else none) ≡ some e → (b ≡ true) × (x ≡ some e)
if_some true x e h = (refl, h)
if_some false x e h = cc h

some_same : (a e : ℕ) → some a ≡ some e → a ≡ e
some_same a e h = cc h

pub some_present :
    (w : Words) (dir k l e : ℕ)
    → view w dir k l ≡ some e
    → (is_valid (pde w dir k) ≡ true) × (w (ppn (pde w dir k) * 1024 + l) ≡ e)
unfolding view
some_present w dir k l e h =
    let (there, entry) = if_some (is_valid (pde w dir k)) _ e h in
    let x : ℕ = w (ppn (pde w dir k) * 1024 + l) in
    (there, some_same x e (if_some (is_valid x) (some x) e entry).1)

-- What `page_remove` has done to the map.
pub record Removed (dir va : ℕ) (m n : Mem) : Type 0 where
  pub map :
      (k l : ℕ)
      → k < user_entries
      → l < 1024
      → view n.words dir k l ≡ (if k == pdx va && l == ptx va then none else view m.words dir k l)

module _ (m : Mem) (dir asid va : ℕ) (v : IsSpace m dir) (user : pdx va < user_entries) where
  pub page_remove_run :
      (e : ℕ)
      → view m.words dir (pdx va) (ptx va) ≡ some e
      → page_remove dir asid va m ≡ ok tt (removed asid va (ppn e) (slot_of m dir va) m)
  unfolding page_remove drop_page
  page_remove_run e h =
      rw
        (
          page_lookup_lem m dir va v user,
          h,
          page_decref_lem (ppn e) m (v.page_held (pdx va) (ptx va) e user (ptx_small va) h),
        )
        refl

  page_remove-none : view m.words dir (pdx va) (ptx va) ≡ none → page_remove dir asid va m ≡ ok tt m
  unfolding page_remove drop_page
  page_remove-none h = rw (page_lookup_lem m dir va v user, h) refl

  none_there :
      view m.words dir (pdx va) (ptx va) ≡ none
      → (k l : ℕ)
      → view m.words dir k l ≡ (if k == pdx va && l == ptx va then none else view m.words dir k l)
  none_there h k l = elim (Bool-cases (k == pdx va && l == ptx va)) [
    | inl here ↦
        let e : k ≡ pdx va = ground arith in
        let f : l ≡ ptx va = ground arith in
        rw here (ap (λ x. view m.words dir x l) e ∙ ap (λ x. view m.words dir (pdx va) x) f ∙ h)
    | inr away ↦ rw away refl
  ]

  pub removed-map :
      (e : ℕ)
      → view m.words dir (pdx va) (ptx va) ≡ some e
      → Removed dir va m (removed asid va (ppn e) (slot_of m dir va) m)
  removed-map e h = record {
    map = λ k l low small.
        let (there, entry) = some_present m.words dir (pdx va) (ptx va) e h in
        ap (λ w. view w dir k l) (removed-words asid va (ppn e) (slot_of m dir va) m)
        ∙ view-write m.words dir (pdx va) (ptx va) 0 v.tables user (ptx_small va) there k l low
            small
        ∙ ap (λ x. if k == pdx va && l == ptx va then x else view m.words dir k l)
            (ap (λ b. if b then some 0 else none) is_valid_zero);
  }

  -- On a well-formed address space `page_remove` succeeds, takes the entry for the address out, if
  -- there is one, and leaves the entries for the other user addresses.
  pub page_remove-Removed : (n : Mem) × (page_remove dir asid va m ≡ ok tt n) × Removed dir va m n
  page_remove-Removed = elim (Option-cases (view m.words dir (pdx va) (ptx va))) [
    | inl nothing ↦
        (m, page_remove-none nothing, record { map = λ k l low small. none_there nothing k l })
    | inr (e, h) ↦
        (removed asid va (ppn e) (slot_of m dir va) m, page_remove_run e h, removed-map e h)
  ]
