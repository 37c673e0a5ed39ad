-- ===== src/Clib/Elf/Filled.antt =====
-- What memory holds when the pages of a segment are there up to an address.
use buaa_os_mos_with_fat.Base.{
  ℕ, ◌+◌, ◌-◌, ◌*◌, ◌/◌, ◌%◌, ◌≤◌, ◌<◌, ◌≡◌, refl, true, false, ◌&&◌, ◌==◌, leb, ltb, if◌then◌else◌,
  Option, ok, arith, Bool-cases, ◌⊎◌, inl, inr, ◌∙◌,
}
use buaa_os_mos_with_fat.Base.Bitmap.{Words}
use buaa_os_mos_with_fat.Clib.Elf.{by2pg}
use buaa_os_mos_with_fat.Clib.Elf.Place.{Image, filled, place}

-- what memory should hold at an address
abbrev pub want : Words → (va filesz a : ℕ) → ℕ
want bin va filesz a = if leb va a && ltb a (va + filesz) then bin (a - va) else 0

-- What stands in the pages from that of va up to the address hi, which begins a page.
pub record Filled (bin : Words) (va filesz perm : ℕ) (old new : Image) (hi : ℕ) : Type 0 where
  pub inside :
      (a : ℕ)
      → va / by2pg * by2pg ≤ a
      → a < hi
      → (new.present (a / by2pg) ≡ true)
        × (new.perm (a / by2pg) ≡ perm)
        × (new.byte a ≡ want bin va filesz a)
  pub outside :
      (a : ℕ)
      → (a < va / by2pg * by2pg) ⊎ (hi ≤ a)
      → (new.present (a / by2pg) ≡ old.present (a / by2pg)) × (new.byte a ≡ old.byte a)

-- one page, from `lo` on
module _ (bin : Words) (perm lo offset len : ℕ) (src : Option ℕ) (m : Image)
    (begins : lo % by2pg ≡ 0) (va : ℕ) (page : va / by2pg ≡ lo / by2pg) where
  abbrev placed : Image
  placed = record {
    present = λ p. if p == va / by2pg then true else m.present p;
    perm = λ p. if p == va / by2pg then perm else m.perm p;
    byte = λ a.
        if a / by2pg == va / by2pg
        then filled bin offset src len (a - va / by2pg * by2pg)
        else m.byte a;
  }

  placed-run : place bin va offset perm src len m ≡ ok tt placed
  unfolding place
  placed-run = refl

  placed-here :
      (a : ℕ)
      → lo ≤ a
      → a < lo + by2pg
      → (placed.present (a / by2pg) ≡ true)
        × (placed.perm (a / by2pg) ≡ perm)
        × (placed.byte a ≡ filled bin offset src len (a - lo))
  placed-here a low high =
      let here : (a / by2pg == va / by2pg) ≡ true = ground (arith, page) in
      let first : va / by2pg * by2pg ≡ lo = omega arith in rw (here, first) (refl, refl, refl)

  placed-else :
      (a : ℕ)
      → (a < lo) ⊎ (lo + by2pg ≤ a)
      → (placed.present (a / by2pg) ≡ m.present (a / by2pg))
        × (placed.perm (a / by2pg) ≡ m.perm (a / by2pg))
        × (placed.byte a ≡ m.byte a)
  placed-else a away =
      let other : (a / by2pg == va / by2pg) ≡ false = ground (arith, page, away) in
      rw other (refl, refl, refl)

-- a page more
module _ (bin : Words) (va filesz perm : ℕ) (old m : Image) (hi : ℕ) (begins : hi % by2pg ≡ 0)
    (above : va / by2pg * by2pg ≤ hi) (v : Filled bin va filesz perm old m hi) where
  pub more :
      (at offset len : ℕ) (src : Option ℕ)
      → at / by2pg ≡ hi / by2pg
      → ((a : ℕ)
          → hi ≤ a
          → a < hi + by2pg
          → filled bin offset src len (a - hi) ≡ want bin va filesz a)
      → (n : Image) × (place bin at offset perm src len m ≡ ok tt n)
        × Filled bin va filesz perm old n (hi + by2pg)
  more at offset len src page same =
      let n : Image = placed bin perm hi offset len src m begins at page in
      (
        n,
        placed-run bin perm hi offset len src m begins at page,
        record {
          inside = λ a low high. elim (Bool-cases (ltb a hi)) [
            | inl before ↦
                let (p, q, b) =
                  placed-else bin perm hi offset len src m begins at page a (inl (ground arith)) in
                let (p', q', b') = v.inside a low (ground arith) in (p ∙ p', q ∙ q', b ∙ b')
            | inr after ↦
                let (p, q, b) =
                  placed-here bin perm hi offset len src m begins at page a (ground arith) high in
                (p, q, b ∙ same a (ground arith) high)
          ];
          outside = λ a away.
              let far : (a < hi) ⊎ (hi + by2pg ≤ a) = beyond a away in
              let (p, q, b) = placed-else bin perm hi offset len src m begins at page a far in
              let (p', b') = v.outside a (nearer a away) in (p ∙ p', b ∙ b');
        },
      )
    where
      beyond : (a : ℕ) → (a < va / by2pg * by2pg) ⊎ (hi + by2pg ≤ a) → (a < hi) ⊎ (hi + by2pg ≤ a)
      beyond a (inl low) = inl (omega arith)
      beyond a (inr high) = inr high

      nearer :
          (a : ℕ)
          → (a < va / by2pg * by2pg) ⊎ (hi + by2pg ≤ a)
          → (a < va / by2pg * by2pg) ⊎ (hi ≤ a)
      nearer a (inl low) = inl low
      nearer a (inr high) = inr (omega arith)
