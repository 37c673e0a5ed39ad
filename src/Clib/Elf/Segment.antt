-- ===== src/Clib/Elf/Segment.antt =====
-- The whole of a segment in memory.
use buaa_os_mos_with_fat.Base.{
  ℕ, zero, suc, ◌+◌, ◌-◌, ◌*◌, ◌/◌, ◌%◌, ◌≤◌, ◌<◌, ◌≡◌, refl, true, false, ◌!=◌, leb, ltb,
  if◌then◌else◌, Run, ok, arith, Bool-cases, ◌⊎◌, inl, inr, sym, ap, ◌∙◌, and_then,
}
use Prim.Native.Nat.{bit_and}
use buaa_os_mos_with_fat.Base.Bitmap.{Words}
use buaa_os_mos_with_fat.Clib.Elf.{
  Phdr, by2pg, word, perm_of, load_first, load_content, load_rest, start, elf_load_seg,
}
use buaa_os_mos_with_fat.Clib.Elf.Place.{Image, place}
use buaa_os_mos_with_fat.Clib.Elf.Filled.{want, Filled}
use buaa_os_mos_with_fat.Clib.Elf.Loaded.{loops-Filled, untouched, first_page, offset}

-- What `elf_load_seg` has done to memory.
pub record Loaded (bin : Words) (ph : Phdr) (old new : Image) : Type 0 where
  pub content :
      (a : ℕ)
      → ph.p_vaddr ≤ a
      → a < ph.p_vaddr + ph.p_memsz
      → (new.present (a / by2pg) ≡ true)
        × (new.perm (a / by2pg) ≡ (if bit_and ph.p_flags 2 != 0 then 1536 else 512))
        × (new.byte a ≡ (if ltb a (ph.p_vaddr + ph.p_filesz) then bin (a - ph.p_vaddr) else 0))
  pub kept :
      (a : ℕ)
      → (a / by2pg < ph.p_vaddr / by2pg)
        ⊎ ((ph.p_vaddr + ph.p_memsz + (by2pg - 1)) / by2pg ≤ a / by2pg)
      → (new.present (a / by2pg) ≡ old.present (a / by2pg)) × (new.byte a ≡ old.byte a)

want_from :
    (bin : Words) (va filesz a : ℕ)
    → va ≤ a
    → want bin va filesz a ≡ (if ltb a (va + filesz) then bin (a - va) else 0)
want_from bin va filesz a low = ap (λ b. if b then bin (a - va) else 0) (ground arith)

module _ (bin : Words) (va filesz memsz perm : ℕ) (old : Image) (fits : va + memsz + by2pg ≤ word)
    (smaller : filesz ≤ memsz) where
  -- a segment that is there up to the end of its last page
  abbrev Whole : Image → Type 0
  Whole n =
      (hi : ℕ) × Filled bin va filesz perm old n hi
      × (hi % by2pg ≡ 0)
      × (va + memsz ≤ hi)
      × (hi < va + memsz + by2pg)

  abbrev run : Run Image (Unit {0})
  run = and_then (load_first (place bin) va filesz perm old) (λ _ s.
      and_then
        (load_content (place bin) va filesz perm (filesz / by2pg + 1) (start (place bin) va filesz)
          s)
        (λ j. load_rest (place bin) va filesz memsz perm (memsz / by2pg + 1) j))

  run_from :
      (i : ℕ) (m : Image)
      → load_first (place bin) va filesz perm old ≡ ok tt m
      → start (place bin) va filesz ≡ i
      → run
        ≡ and_then
            (load_content (place bin) va filesz perm (filesz / by2pg + 1) i m)
            (λ j. load_rest (place bin) va filesz memsz perm (memsz / by2pg + 1) j)
  run_from i m first from = rw first (
      ap
        (λ x.
          and_then (load_content (place bin) va filesz perm (filesz / by2pg + 1) x m)
            (λ j. load_rest (place bin) va filesz memsz perm (memsz / by2pg + 1) j))
        from)

  content_stop :
      (rounds i : ℕ) (m : Image)
      → ltb i filesz ≡ false
      → load_content (place bin) va filesz perm rounds i m ≡ ok i m
  unfolding load_content
  content_stop zero i m stop = rw stop refl
  content_stop (suc rounds) i m stop = rw stop refl

  rest_stop :
      (rounds i : ℕ) (m : Image)
      → ltb i memsz ≡ false
      → load_rest (place bin) va filesz memsz perm rounds i m ≡ ok tt m
  unfolding load_rest
  rest_stop zero i m stop = rw stop refl
  rest_stop (suc rounds) i m stop = rw stop refl

  loops_stop :
      (i : ℕ) (m : Image)
      → ltb i filesz ≡ false
      → ltb i memsz ≡ false
      → and_then
          (load_content (place bin) va filesz perm (filesz / by2pg + 1) i m)
          (λ j. load_rest (place bin) va filesz memsz perm (memsz / by2pg + 1) j)
        ≡ ok tt m
  loops_stop i m no_more no_rest =
      rw (content_stop (filesz / by2pg + 1) i m no_more) (rest_stop (memsz / by2pg + 1) i m no_rest)

  from_page :
      (offset bin va filesz memsz perm old fits smaller != 0) ≡ false
      → (n : Image) × (run ≡ ok tt n) × Whole n
  unfolding load_first
  from_page whole =
      let (n, done, hi, v, al, up, low) =
        loops-Filled bin va filesz memsz perm old fits smaller 0 old (ground arith, ground arith)
          (omega arith) (inl refl)
          (untouched bin va filesz memsz perm old fits smaller (va + 0) (ground arith)) in
      (n, rw whole done, (hi, v, al, up, ground (arith, low)))

  inside_page :
      (offset bin va filesz memsz perm old fits smaller != 0) ≡ true
      → by2pg - offset bin va filesz memsz perm old fits smaller ≤ filesz
      → (n : Image) × (run ≡ ok tt n) × Whole n
  inside_page inner enough =
      let (m, first, w) = first_page bin va filesz memsz perm old fits smaller inner in
      let i : ℕ = by2pg - (va - va / by2pg * by2pg) in
      let e : va / by2pg * by2pg + by2pg ≡ va + i = omega arith in
      let from : start (place bin) va filesz ≡ i = rw inner (ground arith) in
      let (n, done, hi, v, al, up, low) =
        loops-Filled bin va filesz memsz perm old fits smaller i m (omega arith, omega arith)
          (omega arith) (inr e) (rw (sym e) w) in
      (n, run_from i m first from ∙ done, (hi, v, al, up, ground (arith, low)))

  one_page :
      (offset bin va filesz memsz perm old fits smaller != 0) ≡ true
      → filesz < by2pg - offset bin va filesz memsz perm old fits smaller
      → filesz ≡ memsz
      → (n : Image) × (run ≡ ok tt n) × Whole n
  one_page inner short all =
      let (m, first, w) = first_page bin va filesz memsz perm old fits smaller inner in
      let from : start (place bin) va filesz ≡ filesz = rw inner (ground arith) in
      let no_more : ltb filesz filesz ≡ false = ground arith in
      let no_rest : ltb filesz memsz ≡ false = ground arith in
      (
        m,
        run_from filesz m first from ∙ loops_stop filesz m no_more no_rest,
        (va / by2pg * by2pg + by2pg, w, omega arith, omega arith, ground arith),
      )

  -- the content of a first page is not lost
  abbrev Kept : Type 0
  Kept = (va % by2pg ≡ 0) ⊎ ((by2pg ≤ va % by2pg + filesz) ⊎ (filesz ≡ memsz))

  run-Whole : Kept → (n : Image) × (run ≡ ok tt n) × Whole n
  run-Whole kept = elim (Bool-cases (offset bin va filesz memsz perm old fits smaller != 0)) [
    | inr whole ↦ from_page whole
    | inl inner ↦
        elim (Bool-cases (leb (by2pg - offset bin va filesz memsz perm old fits smaller) filesz)) [
          | inl enough ↦ inside_page inner (ground arith)
          | inr short ↦ one_page inner (ground arith) (ground (arith, kept))
        ]
  ]

-- A segment that ends a page before the top of the address space, with a content that is not larger
-- and that fills its first page or is all of it where the segment begins inside a page: when each
-- call of `map_page` gives a fresh page, `elf_load_seg` succeeds, the bytes of the content stand
-- where the segment says, zeros behind them up to its end, on pages that are valid and can be
-- written exactly if its flags have bit 1, and the pages that it does not touch are as they were.
pub elf_load_seg-Loaded :
    (bin : Words) (ph : Phdr) (old : Image)
    → ph.p_vaddr + ph.p_memsz + by2pg ≤ word
    → ph.p_filesz ≤ ph.p_memsz
    → (ph.p_vaddr % by2pg ≡ 0)
      ⊎ ((by2pg ≤ ph.p_vaddr % by2pg + ph.p_filesz) ⊎ (ph.p_filesz ≡ ph.p_memsz))
    → (new : Image) × (elf_load_seg (place bin) ph old ≡ ok tt new) × Loaded bin ph old new
unfolding elf_load_seg perm_of
elf_load_seg-Loaded bin ph old fits smaller kept =
    let (n, done, (hi, v, al, up, low)) =
      run-Whole bin ph.p_vaddr ph.p_filesz ph.p_memsz (perm_of ph.p_flags) old fits smaller kept in
    (
      n,
      done,
      record {
        content = λ a above below.
            let (p, q, b) = v.inside a (omega arith) (omega arith) in
            (p, q, b ∙ want_from bin ph.p_vaddr ph.p_filesz a above);
        kept = λ a away. v.outside a (far hi a away al low);
      },
    )
  where
    far :
        (hi a : ℕ)
        → (a / by2pg < ph.p_vaddr / by2pg)
          ⊎ ((ph.p_vaddr + ph.p_memsz + (by2pg - 1)) / by2pg ≤ a / by2pg)
        → hi % by2pg ≡ 0
        → hi < ph.p_vaddr + ph.p_memsz + by2pg
        → (a < ph.p_vaddr / by2pg * by2pg) ⊎ (hi ≤ a)
    far hi a (inl before) al low = inl (omega arith)
    far hi a (inr after) al low = inr (omega arith)
