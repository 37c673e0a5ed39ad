-- ===== src/Kern/Syscalls/Mapping.antt =====
-- `sys_mem_map`: a page of one address space becomes a page of another.
use buaa_os_mos_with_fat.Base.{
  ℕ, ◌<◌, ◌≡◌, refl, true, false, leb, [], Option, none, some, inval, no_mem, Run, ok, err, arith,
  Option-cases, ◌⊎◌, inl, inr, ap,
}
use buaa_os_mos_with_fat.Kern.Pages.{Mem, pdx, ptx, ppn}
use buaa_os_mos_with_fat.Kern.Pages.Space.{user_entries, view}
use buaa_os_mos_with_fat.Kern.Pages.Map.{IsSpace, found, slot_of, page_lookup_lem}
use buaa_os_mos_with_fat.Kern.Pages.Insert.{Inserted, Outcome}
use buaa_os_mos_with_fat.Kern.Pages.Replace.{page_insert-Outcome}
use buaa_os_mos_with_fat.Kern.Env.{Kernel, with_mem, on_mem, envid2env}
use buaa_os_mos_with_fat.Kern.Syscalls.{
  utop, is_illegal_va, refuse_if, insert_at, lookup_at, map_found, share_page, sys_mem_map,
}

-- the entry of environment e for an address
abbrev pub entry_at : Kernel → (e va : ℕ) → Option ℕ
entry_at k e va = view k.mem.words (k.envs e).pgdir (pdx va) (ptx va)

-- What sharing the page at srcva of environment s with d may return.
abbrev pub Shared : Kernel → (s srcva d dstva perm : ℕ) → Run Kernel (Unit {0}) → Type 0
Shared k s srcva d dstva perm (ok _ t) =
    (x : ℕ) × (entry_at k s srcva ≡ some x)
    × Inserted (k.envs d).pgdir (ppn x) dstva perm k.mem.words t.mem.words
    × (t.envs ≡ k.envs)
Shared k s srcva d dstva perm (err code t) =
    (t.mem.words ≡ k.mem.words)
    × (((code ≡ inval) × (entry_at k s srcva ≡ none)) ⊎ ((code ≡ no_mem) × (k.mem.free ≡ [])))
Shared k s srcva d dstva perm Run.panic = ⊥

user_address : (va : ℕ) → is_illegal_va va ≡ false → pdx va < user_entries
unfolding is_illegal_va
user_address va legal =
    let below : leb utop va ≡ false = ground arith in
    let small : va < utop = ground arith in omega arith

inserted-Shared :
    (k : Kernel) (s srcva d dstva perm x : ℕ) (r : Run Mem (Unit {0}))
    → entry_at k s srcva ≡ some x
    → Outcome (k.envs d).pgdir (ppn x) dstva perm k.mem r
    → Shared k s srcva d dstva perm (with_mem k r)
unfolding with_mem
inserted-Shared k s srcva d dstva perm x (ok _ m) here done = (x, here, done, refl)
inserted-Shared k s srcva d dstva perm x (err e m) here (code, full, same) =
    (same, inr (code, full))
inserted-Shared k s srcva d dstva perm x Run.panic here no_way = no_way

module _ (k : Kernel) (s srcva d dstva perm : ℕ) (src : IsSpace k.mem (k.envs s).pgdir)
    (dst : IsSpace k.mem (k.envs d).pgdir) (src_legal : is_illegal_va srcva ≡ false)
    (dst_legal : is_illegal_va dstva ≡ false) where
  lookup_at_lem :
      lookup_at s srcva k ≡ ok (found (slot_of k.mem (k.envs s).pgdir srcva) (entry_at k s srcva)) k
  unfolding lookup_at on_mem with_mem
  lookup_at_lem =
      ap (with_mem k)
        (page_lookup_lem k.mem (k.envs s).pgdir srcva src (user_address srcva src_legal))

  share_page-Shared : Shared k s srcva d dstva perm (share_page s srcva d dstva perm k)
  unfolding share_page map_found insert_at on_mem
  share_page-Shared = elim (Option-cases (entry_at k s srcva)) [
    | inl nothing ↦ rw (lookup_at_lem, nothing) (refl, inl (refl, nothing))
    | inr (x, here) ↦
        rw (lookup_at_lem, here)
          (inserted-Shared k s srcva d dstva perm x _ here (
            page_insert-Outcome k.mem (k.envs d).pgdir (k.envs d).asid (ppn x) dstva perm dst
              (user_address dstva dst_legal)))
  ]

-- `sys_mem_map` between two environments that the caller may name, with well-formed address spaces
-- and legal addresses, either enters the page that the source has at its address, with the flags,
-- at the address of the destination, and leaves the other entries of the destination and all
-- environments; or fails, with memory as it was, with -E_INVAL if the source has no page there, or
-- with -E_NO_MEM if no page is free.
pub sys_mem_map-Shared :
    (k : Kernel) (srcid s srcva dstid d dstva perm : ℕ)
    → envid2env srcid true k ≡ ok s k
    → envid2env dstid true k ≡ ok d k
    → IsSpace k.mem (k.envs s).pgdir
    → IsSpace k.mem (k.envs d).pgdir
    → is_illegal_va srcva ≡ false
    → is_illegal_va dstva ≡ false
    → Shared k s srcva d dstva perm (sys_mem_map srcid srcva dstid dstva perm k)
unfolding sys_mem_map refuse_if
sys_mem_map-Shared k srcid s srcva dstid d dstva perm is_s is_d src dst src_legal dst_legal =
    rw (src_legal, dst_legal, is_s, is_d)
      (share_page-Shared k s srcva d dstva perm src dst src_legal dst_legal)
