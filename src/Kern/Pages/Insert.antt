-- ===== src/Kern/Pages/Insert.antt =====
-- `page_insert` puts one address into the map, over what stood there.
use buaa_os_mos_with_fat.Base.{
  ℕ, ◌+◌, ◌*◌, ◌%◌, ◌^◌, ◌<◌, ◌≡◌, refl, true, false, ◌&&◌, ◌==◌, if◌then◌else◌, List, [], ◌∷◌,
  some, no_mem, Run, ok, err, ap, ◌∙◌, lt→ltb,
}
use buaa_os_mos_with_fat.Base.Bitmap.{Words, update}
use buaa_os_mos_with_fat.Kern.Pages.{
  Mem, is_valid, ppn, pdx, ptx, entry_of, pde_at, set_word, set_ref, take_first, page_alloc,
  tlb_invalidate, new_table, zero_page, table_slot, walk_create, put_page,
}
use buaa_os_mos_with_fat.Kern.Pages.Entry.{is_valid-entry_of}
use buaa_os_mos_with_fat.Kern.Pages.Space.{user_entries, pde, view, Tables, view-write}
use buaa_os_mos_with_fat.Kern.Pages.NewTable.{table_entry, zeroed}
use buaa_os_mos_with_fat.Kern.Pages.Map.{slot_of, ptx_small, valid_some}

-- What `page_insert` has done to the map when it succeeds.
pub record Inserted (dir pp va perm : ℕ) (m : Words) (n : Words) : Type 0 where
  pub map :
      (k l : ℕ)
      → k < user_entries
      → l < 1024
      → view n dir k l
        ≡ (if k == pdx va && l == ptx va then some (entry_of pp perm) else view m dir k l)

-- What `page_insert` may return: it fails only without a free page, and then the map is as it was.
abbrev pub Outcome : (dir pp va perm : ℕ) → Mem → Run Mem (Unit {0}) → Type 0
Outcome dir pp va perm m (ok _ n) = Inserted dir pp va perm m.words n.words
Outcome dir pp va perm m (err e n) = (e ≡ no_mem) × (m.free ≡ []) × (n.words ≡ m.words)
Outcome dir pp va perm m Run.panic = ⊥

module _ (w : Words) (dir pp va perm : ℕ) (t : Tables w dir) (user : pdx va < user_entries) where
  -- the entry is written to a table that is there
  pub written-Inserted :
      is_valid (pde w dir (pdx va)) ≡ true
      → Inserted dir pp va perm w
          (update w (ppn (pde w dir (pdx va)) * 1024 + ptx va) (entry_of pp perm))
  written-Inserted there = record {
    map = λ k l low small.
        view-write w dir (pdx va) (ptx va) (entry_of pp perm) t user (ptx_small va) there k l low
          small
        ∙ ap (λ x. if k == pdx va && l == ptx va then x else view w dir k l)
            (valid_some (entry_of pp perm) (is_valid-entry_of pp perm));
  }

-- the state in which a new page p is the table
abbrev pub tabled : (dir va p : ℕ) → List ℕ → Mem → Mem
tabled dir va p rest m = new_table dir va p (zero_page p (record m { free = rest }))

pub tabled-words :
    (dir va p : ℕ) (rest : List ℕ) (m : Mem)
    → (tabled dir va p rest m).words
      ≡ update (zeroed p m.words) (dir * 1024 + pdx va) (table_entry p)
unfolding new_table zero_page set_word set_ref
tabled-words dir va p rest m = refl

pub tabled-npage :
    (dir va p : ℕ) (rest : List ℕ) (m : Mem) → (tabled dir va p rest m).npage ≡ m.npage
unfolding new_table zero_page set_word set_ref
tabled-npage dir va p rest m = refl

pub alloc_first :
    (free : List ℕ) (m : Mem) (p : ℕ) (rest : List ℕ)
    → free ≡ p ∷ rest
    → p < m.npage
    → take_first free m ≡ ok p (zero_page p (record m { free = rest }))
unfolding take_first
alloc_first free m p rest first real = rw (first, lt→ltb p m.npage real) refl

pub alloc_none : (free : List ℕ) (m : Mem) → free ≡ [] → take_first free m ≡ err no_mem m
unfolding take_first
alloc_none free m none_left = rw none_left refl

pub slot_real :
    (n : Mem) (dir va : ℕ)
    → ppn (n.words (pde_at dir va)) < n.npage
    → table_slot dir va n ≡ ok (slot_of n dir va) n
unfolding table_slot
slot_real n dir va real = rw (lt→ltb _ _ real) refl

pub walk_new :
    (m : Mem) (dir va p : ℕ) (rest : List ℕ)
    → is_valid (pde m.words dir (pdx va)) ≡ false
    → m.free ≡ p ∷ rest
    → p < m.npage
    → ppn ((tabled dir va p rest m).words (pde_at dir va)) < (tabled dir va p rest m).npage
    → walk_create dir va m ≡ ok (slot_of (tabled dir va p rest m) dir va) (tabled dir va p rest m)
unfolding walk_create page_alloc
walk_new m dir va p rest absent first real there =
    rw (absent, alloc_first m.free m p rest first real)
      (slot_real (tabled dir va p rest m) dir va there)

pub walk_full :
    (m : Mem) (dir va : ℕ)
    → is_valid (pde m.words dir (pdx va)) ≡ false
    → m.free ≡ []
    → walk_create dir va m ≡ err no_mem m
unfolding walk_create page_alloc
walk_full m dir va absent none_left = rw (absent, alloc_none m.free m none_left) refl

-- the last two steps of `put_page`
abbrev pub entered : (dir pp va perm : ℕ) → Mem → Mem
entered dir pp va perm n =
    let k : Mem = set_word (slot_of n dir va) (entry_of pp perm) n in
    set_ref pp ((k.ref pp + 1) % 2 ^ 16) k

pub entered-words :
    (dir pp va perm : ℕ) (n : Mem)
    → (entered dir pp va perm n).words ≡ update n.words (slot_of n dir va) (entry_of pp perm)
unfolding set_word set_ref
entered-words dir pp va perm n = refl

pub put_after :
    (m n : Mem) (dir asid pp va perm : ℕ)
    → walk_create dir va (tlb_invalidate asid va m) ≡ ok (slot_of n dir va) n
    → put_page dir asid pp va perm m ≡ ok tt (entered dir pp va perm n)
unfolding put_page
put_after m n dir asid pp va perm walked = rw walked refl

pub put_fails :
    (m n : Mem) (dir asid pp va perm : ℕ)
    → walk_create dir va (tlb_invalidate asid va m) ≡ err no_mem n
    → put_page dir asid pp va perm m ≡ err no_mem n
unfolding put_page
put_fails m n dir asid pp va perm walked = rw walked refl
