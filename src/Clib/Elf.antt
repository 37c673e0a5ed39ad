-- ===== src/Clib/Elf.antt =====
-- lib/elfloader.c: `elf_load_seg`, over any state and any `map_page`. A place in the binary is its
-- offset from `bin`, and `none` the null pointer; `u_long` and `size_t` have 32 bits.
pub mod Place
pub mod Filled
pub mod Loaded
pub mod Segment
use Prim.Native.Nat.{bit_and, bit_or}
use buaa_os_mos_with_fat.Base.{
  ℕ, zero, suc, ◌+◌, ◌-◌, ◌*◌, ◌/◌, ◌%◌, ◌^◌, min, Bool, true, false, ◌==◌, ◌!=◌, ltb,
  if◌then◌else◌, Option, none, some, Run, ok, err, panic, Cmd, pure, stop, ◌>>=◌, ◌>>◌,
}

abbrev pub by2pg : ℕ
by2pg = 4096

abbrev pub word : ℕ
word = 2 ^ 32

-- the fields of `Elf32_Phdr` that are read
pub record Phdr : Type 0 where
  pub p_vaddr : ℕ
  pub p_filesz : ℕ
  pub p_memsz : ℕ
  pub p_flags : ℕ

-- PTE_V, and PTE_D if the segment has PF_W
unfoldable pub perm_of : ℕ → ℕ
perm_of flags = if bit_and flags 2 != 0 then bit_or (2 ^ 9) (2 ^ 10) else 2 ^ 9

-- `map_page(data, va, offset, perm, src, len)`
abbrev pub Mapper : Type 0 → Type 0
Mapper S = (va offset perm : ℕ) → Option ℕ → (len : ℕ) → Cmd S (Unit {0})

module _ {S : Type 0} (map_page : Mapper S) where
  -- Step 1, the loop over the content: the rounds left, and `i`, which it returns
  unfoldable pub load_content : (va bin_size perm rounds i : ℕ) → Cmd S ℕ
  load_content va bin_size perm zero i s = if ltb i bin_size then panic else ok i s
  load_content va bin_size perm (suc rounds) i s =
      if ltb i bin_size
      then (do
        map_page ((va + i) % word) 0 perm (some i) (min (bin_size - i) by2pg)
        load_content va bin_size perm rounds ((i + by2pg) % word))
          s
      else ok i s

  -- Step 2
  unfoldable pub load_rest : (va bin_size sgsize perm rounds i : ℕ) → Cmd S (Unit {0})
  load_rest va bin_size sgsize perm zero i s = if ltb i sgsize then panic else ok tt s
  load_rest va bin_size sgsize perm (suc rounds) i s =
      if ltb i sgsize
      then (do
        map_page ((va + i) % word) 0 perm none (min ((bin_size + (word - i)) % word) by2pg)
        load_rest va bin_size sgsize perm rounds ((i + by2pg) % word))
          s
      else ok tt s

  -- the part of the first page, if the segment does not begin with a page
  unfoldable pub load_first : (va bin_size perm : ℕ) → Cmd S (Unit {0})
  load_first va bin_size perm s =
      let offset : ℕ = va - va / by2pg * by2pg in
      if offset != 0
      then map_page va offset perm (some 0) (min bin_size (by2pg - offset)) s
      else ok tt s

  -- `offset ? MIN(bin_size, BY2PG - offset) : 0`
  abbrev pub start : (va bin_size : ℕ) → ℕ
  start va bin_size =
      let offset : ℕ = va - va / by2pg * by2pg in
      if offset != 0 then min bin_size (by2pg - offset) else 0

  unfoldable pub elf_load_seg : Phdr → Cmd S (Unit {0})
  unfolding perm_of load_first load_content load_rest
  elf_load_seg ph = do
    load_first ph.p_vaddr ph.p_filesz (perm_of ph.p_flags)
    i ←
        load_content ph.p_vaddr ph.p_filesz (perm_of ph.p_flags) (ph.p_filesz / by2pg + 1)
          (start ph.p_vaddr ph.p_filesz)
    load_rest ph.p_vaddr ph.p_filesz ph.p_memsz (perm_of ph.p_flags) (ph.p_memsz / by2pg + 1) i
