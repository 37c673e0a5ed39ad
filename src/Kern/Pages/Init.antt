-- ===== src/Kern/Pages/Init.antt =====
-- `page_init`: which pages are free when the kernel starts. `freemem` is the kernel's address of the
-- first memory that is not in use.
use buaa_os_mos_with_fat.Base.{
  ℕ, zero, suc, ◌+◌, ◌-◌, ◌*◌, ◌/◌, ◌%◌, ◌^◌, ◌≤◌, ◌<◌, ◌≡◌, refl, false, ◌&&◌, ◌==◌, leb, ltb,
  if◌then◌else◌, List, [], ◌∷◌, ok, panic, Cmd, arith, ap, ◌∙◌,
}
use mathlib.Core.Path.{subst}
use buaa_os_mos_with_fat.Base.Bitmap.{update}
use buaa_os_mos_with_fat.Kern.Pages.{Mem, set_ref}

abbrev pub ulim : ℕ
ulim = 0x8000_0000

-- `for (i = 0; i < tmp; i++) pages[i].pp_ref = 1;`: the rounds left, and `i`
unfoldable pub mark_used : (rounds i : ℕ) → Mem → Mem
unfolding set_ref
mark_used zero i m = m
mark_used (suc rounds) i m = mark_used rounds (i + 1) (set_ref i 1 m)

-- `for (; i < npage; i++)`
unfoldable pub mark_free : (rounds i : ℕ) → Mem → Mem
unfolding set_ref
mark_free zero i m = m
mark_free (suc rounds) i m =
    mark_free rounds (i + 1) (let n : Mem = set_ref i 0 m in record n { free = i ∷ n.free })

-- ROUND(freemem, BY2PG)
abbrev pub rounded : ℕ → ℕ
rounded freemem = (freemem + 4095) % 2 ^ 32 / 4096 * 4096

-- It returns the new `freemem`; `PADDR` panics below the kernel's addresses.
unfoldable pub page_init : (freemem : ℕ) → Cmd Mem ℕ
unfolding mark_used mark_free
page_init freemem m =
    let used : ℕ = (rounded freemem - ulim) / 4096 in
    if ltb (rounded freemem) ulim
    then panic
    else ok (rounded freemem)
        (mark_free (m.npage - used) used (mark_used used 0 (record m { free = [] })))

-- how often a page is on the list
unfoldable pub count_of : ℕ → List ℕ → ℕ
count_of p [] = 0
count_of p (q ∷ free) = if q == p then suc (count_of p free) else count_of p free

used-ref :
    (rounds i p : ℕ) (m : Mem)
    → (mark_used rounds i m).ref p ≡ (if leb i p && ltb p (i + rounds) then 1 else m.ref p)
unfolding mark_used set_ref update
used-ref zero i p m = ground arith
used-ref (suc rounds) i p m = used-ref rounds (i + 1) p (set_ref i 1 m) ∙ ground arith

used-free :
    (rounds i : ℕ) (m : Mem)
    → ((mark_used rounds i m).free ≡ m.free) × ((mark_used rounds i m).npage ≡ m.npage)
unfolding mark_used set_ref
used-free zero i m = (refl, refl)
used-free (suc rounds) i m = used-free rounds (i + 1) (set_ref i 1 m)

free-ref :
    (rounds i p : ℕ) (m : Mem)
    → (mark_free rounds i m).ref p ≡ (if leb i p && ltb p (i + rounds) then 0 else m.ref p)
unfolding mark_free set_ref update
free-ref zero i p m = ground arith
free-ref (suc rounds) i p m =
    free-ref rounds (i + 1) p (let n : Mem = set_ref i 0 m in record n { free = i ∷ n.free })
    ∙ ground arith

free-count :
    (rounds i p : ℕ) (m : Mem)
    → count_of p (mark_free rounds i m).free
      ≡ count_of p m.free + (if leb i p && ltb p (i + rounds) then 1 else 0)
unfolding mark_free set_ref count_of
free-count zero i p m = ground arith
free-count (suc rounds) i p m =
    free-count rounds (i + 1) p (let n : Mem = set_ref i 0 m in record n { free = i ∷ n.free })
    ∙ ground arith

-- The pages when the kernel starts, of which those from `used` on are free.
pub record Started (npage used : ℕ) (m : Mem) : Type 0 where
  pub in_use : (p : ℕ) → p < used → (m.ref p ≡ 1) × (count_of p m.free ≡ 0)
  pub listed : (p : ℕ) → used ≤ p → p < npage → (m.ref p ≡ 0) × (count_of p m.free ≡ 1)
  pub no_other : (p : ℕ) → npage ≤ p → count_of p m.free ≡ 0

-- the pages behind both loops
abbrev marked : (used : ℕ) → Mem → Mem
marked used m = mark_free (m.npage - used) used (mark_used used 0 (record m { free = [] }))

marked-ref :
    (used p : ℕ) (m : Mem)
    → (marked used m).ref p ≡ (
        if leb used p && ltb p (used + (m.npage - used))
        then 0
        else if leb 0 p && ltb p (0 + used)
        then 1
        else m.ref p)
marked-ref used p m =
    free-ref (m.npage - used) used p (mark_used used 0 (record m { free = [] }))
    ∙ ap (λ x. if leb used p && ltb p (used + (m.npage - used)) then 0 else x)
        (used-ref used 0 p (record m { free = [] }))

marked-count :
    (used p : ℕ) (m : Mem)
    → count_of p (marked used m).free
      ≡ (if leb used p && ltb p (used + (m.npage - used)) then 1 else 0)
marked-count used p m =
    let kept : count_of p (mark_used used 0 (record m { free = [] })).free ≡ 0 =
      ap (count_of p) (used-free used 0 (record m { free = [] })).0 ∙ none p in
    free-count (m.npage - used) used p (mark_used used 0 (record m { free = [] }))
    ∙ ap (λ x. x + (if leb used p && ltb p (used + (m.npage - used)) then 1 else 0)) kept
    ∙ plain (if leb used p && ltb p (used + (m.npage - used)) then 1 else 0)
  where
    none : (p : ℕ) → count_of p [] ≡ 0
    none p = unfold count_of in refl

    plain : (x : ℕ) → 0 + x ≡ x
    plain x = omega arith

marked-Started : (used : ℕ) (m : Mem) → used ≤ m.npage → Started m.npage used (marked used m)
marked-Started used m h = record {
  in_use = λ p low. (ground (arith, marked-ref used p m), ground (arith, marked-count used p m));
  listed =
      λ p low high. (ground (arith, marked-ref used p m), ground (arith, marked-count used p m));
  no_other = λ p past. ground (arith, marked-count used p m);
}

used_pages :
    (freemem used : ℕ)
    → ulim ≤ freemem
    → freemem + 4095 < 2 ^ 32
    → used ≡ (rounded freemem - ulim) / 4096
    → used ≡ (freemem - ulim + 4095) / 4096
used_pages freemem used low small e = omega (arith, e)

-- When `freemem` is an address of the kernel in or right behind the memory of the machine,
-- `page_init` gives every page one of two states: the pages that lie, if only in part, below
-- `freemem` have a reference and are not on the free list; all further ones have none and are on
-- the list once. Nothing else is on the list.
pub page_init-Started :
    (freemem : ℕ) (m : Mem)
    → ulim ≤ freemem
    → freemem ≤ ulim + m.npage * 4096
    → freemem + 4095 < 2 ^ 32
    → (v : Mem) × (page_init freemem m ≡ ok (rounded freemem) v)
      × Started m.npage ((freemem - ulim + 4095) / 4096) v
unfolding page_init
page_init-Started freemem m low high small =
    let used : ℕ = (rounded freemem - ulim) / 4096 in
    let kernel : ltb (rounded freemem) ulim ≡ false = ground arith in
    let e : used ≡ (freemem - ulim + 4095) / 4096 = used_pages freemem used low small refl in
    (
      marked used m,
      ap (λ b. if b then panic else ok (rounded freemem) (marked used m)) kernel,
      subst (λ k. Started m.npage k (marked used m)) e (marked-Started used m (omega arith)),
    )
