-- ===== src/Kern/Pages.antt =====
-- kern/pmap.c: physical pages and two-level page tables. A page is its number; memory is an array
-- of words, 1024 to a page, and a page directory is the page that holds it. `flushes` are the
-- values given to `tlb_out`, the last first.
pub mod Entry
pub mod Space
pub mod NewTable
pub mod Map
pub mod Remove
pub mod Insert
pub mod Put
pub mod Replace
pub mod Init
use Prim.Native.Nat.{bit_and, bit_or}
use buaa_os_mos_with_fat.Base.{
  ℕ, zero, suc, ◌+◌, ◌-◌, ◌*◌, ◌/◌, ◌%◌, ◌^◌, Bool, true, false, not, ◌&&◌, ◌==◌, ◌!=◌, ltb,
  if◌then◌else◌, List, [], ◌∷◌, Option, none, some, Error, no_mem, Run, ok, err, panic, Cmd, pure,
  fail, get, modify, assert, ◌>>=◌, ◌>>◌,
}
use buaa_os_mos_with_fat.Base.Bitmap.{Words, update}

-- `pp_ref` of a page, `page_free_list`, and the words of memory
pub record Mem : Type 0 where
  pub npage : ℕ
  pub free : List ℕ
  pub ref : ℕ → ℕ
  pub words : Words
  pub flushes : List ℕ

-- PTE_V and PTE_D
abbrev pub pte_v : ℕ
pte_v = 2 ^ 9

abbrev pub pte_d : ℕ
pte_d = 2 ^ 10

abbrev pub pdx : ℕ → ℕ
pdx va = va / 2 ^ 22 % 1024

abbrev pub ptx : ℕ → ℕ
ptx va = va / 2 ^ 12 % 1024

abbrev pub ppn : ℕ → ℕ
ppn pa = pa / 2 ^ 12

unfoldable pub is_valid : ℕ → Bool
is_valid pte = bit_and pte pte_v != 0

-- `page2pa(pp) | perm | PTE_V`
unfoldable pub entry_of : (pp perm : ℕ) → ℕ
entry_of pp perm = bit_or (bit_or (pp * 2 ^ 12) perm) pte_v

unfoldable pub zero_page : ℕ → Mem → Mem
zero_page p m = record m { words = λ w. if w / 1024 == p then 0 else m.words w }

unfoldable pub set_word : ℕ → ℕ → Mem → Mem
unfolding update
set_word w v m = record m { words = update m.words w v }

unfoldable pub set_ref : ℕ → ℕ → Mem → Mem
unfolding update
set_ref p r m = record m { ref = update m.ref p r }

-- `page_alloc`, whose `page2kva` panics beyond the end of memory
unfoldable pub take_first : List ℕ → Cmd Mem ℕ
unfolding zero_page
take_first [] m = err no_mem m
take_first (p ∷ rest) m =
    if ltb p m.npage then ok p (zero_page p (record m { free = rest })) else panic

unfoldable pub page_alloc : Cmd Mem ℕ
unfolding take_first
page_alloc m = take_first m.free m

unfoldable pub page_free : ℕ → Cmd Mem (Unit {0})
page_free p m = if m.ref p == 0 then ok tt (record m { free = p ∷ m.free }) else panic

unfoldable pub page_decref : ℕ → Cmd Mem (Unit {0})
unfolding page_free set_ref
page_decref p m =
    if ltb 0 (m.ref p)
    then (let dropped = set_ref p (m.ref p - 1) m in
        if dropped.ref p == 0 then page_free p dropped else ok tt dropped)
    else panic

-- `tlb_invalidate`
unfoldable pub tlb_invalidate : (asid va : ℕ) → Mem → Mem
tlb_invalidate asid va m = record m {
  flushes = bit_or (va / 2 ^ 12 * 2 ^ 12) (asid * 2 ^ 6) ∷ m.flushes;
}

-- the word of the directory entry
abbrev pub pde_at : (dir va : ℕ) → ℕ
pde_at dir va = dir * 1024 + pdx va

-- a new page for a page table
unfoldable pub new_table : (dir va p : ℕ) → Mem → Mem
unfolding set_word set_ref
new_table dir va p m =
    set_ref p 1 (set_word (pde_at dir va) (bit_or (bit_or (p * 2 ^ 12) pte_v) pte_d) m)

-- the pointer to the entry; `KADDR` panics beyond the end of memory
unfoldable pub table_slot : (dir va : ℕ) → Cmd Mem ℕ
table_slot dir va m =
    let table = ppn (m.words (pde_at dir va)) in
    if ltb table m.npage then ok (table * 1024 + ptx va) m else panic

-- `pgdir_walk` with `create`
unfoldable pub walk_create : (dir va : ℕ) → Cmd Mem ℕ
unfolding page_alloc new_table table_slot
walk_create dir va m =
    if is_valid (m.words (pde_at dir va))
    then table_slot dir va m
    else (do p ← page_alloc; modify (new_table dir va p); table_slot dir va) m

-- `pgdir_walk` without: `none` is the null pointer
unfoldable pub walk : (dir va : ℕ) → Cmd Mem (Option ℕ)
unfolding table_slot
walk dir va m =
    if is_valid (m.words (pde_at dir va))
    then (do slot ← table_slot dir va; pure (some slot)) m
    else ok none m

-- the page of an entry that is valid, with the pointer to it; `pa2page` panics beyond the end
unfoldable pub page_of : Option ℕ → Cmd Mem (Option (ℕ × ℕ))
page_of none m = ok none m
page_of (some slot) m =
    if is_valid (m.words slot)
    then (if ltb (ppn (m.words slot)) m.npage
        then ok (some (ppn (m.words slot), slot)) m
        else panic)
    else ok none m

unfoldable pub page_lookup : (dir va : ℕ) → Cmd Mem (Option (ℕ × ℕ))
unfolding walk page_of
page_lookup dir va = do slot ← walk dir va; page_of slot

unfoldable pub drop_page : (asid va : ℕ) → Option (ℕ × ℕ) → Cmd Mem (Unit {0})
unfolding page_decref set_word tlb_invalidate
drop_page asid va none = pure tt
drop_page asid va (some (pp, slot)) = do
  page_decref pp
  modify (set_word slot 0)
  modify (tlb_invalidate asid va)

unfoldable pub page_remove : (dir asid va : ℕ) → Cmd Mem (Unit {0})
unfolding page_lookup drop_page
page_remove dir asid va = do found ← page_lookup dir va; drop_page asid va found

-- Steps 2 to 4 of `page_insert`; `pp_ref` is an `u_short`.
unfoldable pub put_page : (dir asid pp va perm : ℕ) → Cmd Mem (Unit {0})
unfolding tlb_invalidate walk_create set_word set_ref entry_of
put_page dir asid pp va perm = do
  modify (tlb_invalidate asid va)
  slot ← walk_create dir va
  modify (set_word slot (entry_of pp perm))
  modify (λ m. set_ref pp ((m.ref pp + 1) % 2 ^ 16) m)

-- what stands at `va` already: nothing, the same page, or another
unfoldable pub replace_page : (dir asid pp va perm : ℕ) → Option (ℕ × ℕ) → Cmd Mem (Unit {0})
unfolding page_remove put_page tlb_invalidate set_word entry_of
replace_page dir asid pp va perm none = put_page dir asid pp va perm
replace_page dir asid pp va perm (some (old, slot)) =
    if old != pp
    then (do page_remove dir asid va; put_page dir asid pp va perm)
    else (do modify (tlb_invalidate asid va); modify (set_word slot (entry_of pp perm)))

unfoldable pub page_insert : (dir asid pp va perm : ℕ) → Cmd Mem (Unit {0})
unfolding walk page_of replace_page
page_insert dir asid pp va perm = do
  slot ← walk dir va
  found ← page_of slot
  replace_page dir asid pp va perm found
