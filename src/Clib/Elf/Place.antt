-- ===== src/Clib/Elf/Place.antt =====
-- A mapper that gives each page fresh memory: zeros, and the bytes of the binary that it is told to
-- copy. What memory holds is by address; which pages are there, by page.
use buaa_os_mos_with_fat.Base.{
  ℕ, ◌+◌, ◌-◌, ◌*◌, ◌/◌, Bool, true, ◌&&◌, ◌==◌, leb, ltb, if◌then◌else◌, Option, none, some, ok,
}
use buaa_os_mos_with_fat.Base.Bitmap.{Words}
use buaa_os_mos_with_fat.Clib.Elf.{by2pg, Mapper}

pub record Image : Type 0 where
  pub present : ℕ → Bool
  pub perm : ℕ → ℕ
  pub byte : ℕ → ℕ

-- byte k of a page of which `len` bytes from `offset` on are copied
unfoldable pub filled : Words → (offset : ℕ) → Option ℕ → (len k : ℕ) → ℕ
filled bin offset none len k = 0
filled bin offset (some src) len k =
    if leb offset k && ltb k (offset + len) then bin (src + (k - offset)) else 0

unfoldable pub place : Words → Mapper Image
unfolding filled
place bin va offset perm src len m = ok tt (record {
  present = λ p. if p == va / by2pg then true else m.present p;
  perm = λ p. if p == va / by2pg then perm else m.perm p;
  byte = λ a.
      if a / by2pg == va / by2pg
      then filled bin offset src len (a - va / by2pg * by2pg)
      else m.byte a;
})
