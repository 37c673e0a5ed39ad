-- ===== src/Clib/Elf/Loaded.antt =====
-- `elf_load_seg` with the mapper of fresh pages.
use buaa_os_mos_with_fat.Base.{
  ℕ, zero, suc, ◌+◌, ◌-◌, ◌*◌, ◌/◌, ◌%◌, ◌≤◌, ◌<◌, ◌≡◌, refl, min, true, false, ◌&&◌, ◌!=◌, leb,
  ltb, none, some, ok, arith, Bool-cases, ◌⊎◌, inl, inr, sym, ap, ◌∙◌, and_then,
}
use buaa_os_mos_with_fat.Base.Bitmap.{Words}
use buaa_os_mos_with_fat.Clib.Elf.{by2pg, word, load_first, load_content, load_rest}
use buaa_os_mos_with_fat.Clib.Elf.Place.{Image, filled, place}
use buaa_os_mos_with_fat.Clib.Elf.Filled.{want, Filled, more}

pub want_in :
    (bin : Words) (va filesz a : ℕ) → va ≤ a → a < va + filesz → want bin va filesz a ≡ bin (a - va)
want_in bin va filesz a low high =
    let test : (leb va a && ltb a (va + filesz)) ≡ true = ground arith in rw test refl

want_out : (bin : Words) (va filesz a : ℕ) → (a < va) ⊎ (va + filesz ≤ a) → want bin va filesz a ≡ 0
want_out bin va filesz a out =
    let test : (leb va a && ltb a (va + filesz)) ≡ false = ground (arith, out) in rw test refl

filled_in :
    (bin : Words) (offset src len k : ℕ)
    → offset ≤ k
    → k < offset + len
    → filled bin offset (some src) len k ≡ bin (src + (k - offset))
unfolding filled
filled_in bin offset src len k low high =
    let test : (leb offset k && ltb k (offset + len)) ≡ true = ground arith in rw test refl

filled_out :
    (bin : Words) (offset src len k : ℕ)
    → (k < offset) ⊎ (offset + len ≤ k)
    → filled bin offset (some src) len k ≡ 0
unfolding filled
filled_out bin offset src len k out =
    let test : (leb offset k && ltb k (offset + len)) ≡ false = ground (arith, out) in rw test refl

module _ (bin : Words) (va filesz memsz perm : ℕ) (old : Image) (fits : va + memsz + by2pg ≤ word)
    (smaller : filesz ≤ memsz) where
  -- a page of content in the middle of the segment
  content_page :
      (i a : ℕ)
      → va + i ≤ a
      → a < va + i + by2pg
      → filled bin 0 (some i) (min (filesz - i) by2pg) (a - (va + i)) ≡ want bin va filesz a
  content_page i a low high = elim (Bool-cases (ltb a (va + filesz))) [
    | inl inside ↦
        filled_in bin 0 i (min (filesz - i) by2pg) (a - (va + i)) (omega arith) (ground arith)
        ∙ ap bin (omega arith)
        ∙ sym (want_in bin va filesz a (omega arith) (ground arith))
    | inr beyond ↦
        filled_out bin 0 i (min (filesz - i) by2pg) (a - (va + i)) (inr (ground arith))
        ∙ sym (want_out bin va filesz a (inr (ground arith)))
  ]

  -- the address of the next page, which does not wrap
  next : (i : ℕ) → i < memsz → (i + by2pg) % word ≡ i + by2pg
  next i h = omega arith

  at_page : (i : ℕ) → i < memsz → (va + i) % word ≡ va + i
  at_page i h = omega arith

  abbrev pub Aligned : ℕ → Type 0
  Aligned i = ((va + i) % by2pg ≡ 0) × (va / by2pg * by2pg ≤ va + i)

  Filled-next :
      (n : Image) (i : ℕ)
      → Filled bin va filesz perm old n (va + i + by2pg)
      → Filled bin va filesz perm old n (va + (i + by2pg))
  Filled-next n i v = let e : va + i + by2pg ≡ va + (i + by2pg) = omega arith in rw (sym e) v

  pub content-Filled :
      (rounds i : ℕ) (m : Image)
      → Aligned i
      → filesz ≤ i + rounds * by2pg
      → Filled bin va filesz perm old m (va + i)
      → (j : ℕ) × (n : Image) × (load_content (place bin) va filesz perm rounds i m ≡ ok j n)
        × Filled bin va filesz perm old n (va + j)
        × Aligned j
        × (filesz ≤ j)
        × ((j ≡ i) ⊎ (j < filesz + by2pg))
  unfolding load_content
  content-Filled zero i m (a, b) enough v =
      let stop : ltb i filesz ≡ false = ground arith in
      (i, m, rw stop refl, v, (a, b), omega arith, inl refl)
  content-Filled (suc rounds) i m (a, b) enough v = elim (Bool-cases (ltb i filesz)) [
    | inr stop ↦ (i, m, rw stop refl, v, (a, b), ground arith, inl refl)
    | inl on ↦
        let low : i < memsz = ground arith in
        let (n, run, w) =
          more bin va filesz perm old m (va + i) a b v ((va + i) % word) 0 (min (filesz - i) by2pg)
            (some i) (ap (λ x. x / by2pg) (at_page i low)) (content_page i) in
        let (j, o, rest, x, al, done, bound) =
          content-Filled rounds (i + by2pg) n (omega arith, omega arith) (omega arith)
            (Filled-next n i w) in
        (j, o, rw (on, run, next i low) rest, x, al, done, inr (ground (arith, bound)))
  ]

  pub rest-Filled :
      (rounds i : ℕ) (m : Image)
      → Aligned i
      → filesz ≤ i
      → memsz ≤ i + rounds * by2pg
      → Filled bin va filesz perm old m (va + i)
      → (j : ℕ) × (n : Image) × (load_rest (place bin) va filesz memsz perm rounds i m ≡ ok tt n)
        × Filled bin va filesz perm old n (va + j)
        × Aligned j
        × (memsz ≤ j)
        × ((j ≡ i) ⊎ (j < memsz + by2pg))
  unfolding load_rest filled
  rest-Filled zero i m (a, b) above enough v =
      let stop : ltb i memsz ≡ false = ground arith in
      (i, m, rw stop refl, v, (a, b), omega arith, inl refl)
  rest-Filled (suc rounds) i m (a, b) above enough v = elim (Bool-cases (ltb i memsz)) [
    | inr stop ↦ (i, m, rw stop refl, v, (a, b), ground arith, inl refl)
    | inl on ↦
        let low : i < memsz = ground arith in
        let (n, run, w) =
          more bin va filesz perm old m (va + i) a b v ((va + i) % word) 0
            (min ((filesz + (word - i)) % word) by2pg) none (ap (λ x. x / by2pg) (at_page i low))
            (λ x h g. sym (want_out bin va filesz x (inr (omega arith)))) in
        let (j, o, rest, x, al, done, bound) =
          rest-Filled rounds (i + by2pg) n (omega arith, omega arith) (omega arith) (omega arith)
            (Filled-next n i w) in
        (j, o, rw (on, run, next i low) rest, x, al, done, inr (ground (arith, bound)))
  ]

  -- the loops one after the other
  pub loops-Filled :
      (i : ℕ) (m : Image)
      → Aligned i
      → i ≤ by2pg
      → ((i ≡ 0) ⊎ (va / by2pg * by2pg + by2pg ≡ va + i))
      → Filled bin va filesz perm old m (va + i)
      → (n : Image) × (and_then
            (load_content (place bin) va filesz perm (filesz / by2pg + 1) i m)
            (λ j. load_rest (place bin) va filesz memsz perm (memsz / by2pg + 1) j)
          ≡ ok tt n)
        × (hi : ℕ) × Filled bin va filesz perm old n hi
        × (hi % by2pg ≡ 0)
        × (va + memsz ≤ hi)
        × ((hi ≡ va + i) ⊎ (hi < va + memsz + by2pg))
  loops-Filled i m al small first v =
      let (j, n, run, w, al', done, bound) =
        content-Filled (filesz / by2pg + 1) i m al (omega arith) v in
      let (l, o, run', x, (a, b), done', bound') =
        rest-Filled (memsz / by2pg + 1) j n al' done (omega arith) w in
      (o, rw run run', va + l, x, a, omega arith, ended j l bound bound')
    where
      ended :
          (j l : ℕ)
          → (j ≡ i) ⊎ (j < filesz + by2pg)
          → (l ≡ j) ⊎ (l < memsz + by2pg)
          → (va + l ≡ va + i) ⊎ (va + l < va + memsz + by2pg)
      ended j l b (inr c) = inr (omega arith)
      ended j l (inr b) (inl c) = inr (omega arith)
      ended j l (inl b) (inl c) = inl (omega arith)

  pub untouched : (hi : ℕ) → hi ≡ va / by2pg * by2pg → Filled bin va filesz perm old old hi
  untouched hi e = record {
    inside = λ a low high. absurd (omega arith);
    outside = λ a away. (refl, refl);
  }

  abbrev pub offset : ℕ
  offset = va - va / by2pg * by2pg

  -- the first page, when the segment begins inside it
  pub first_page :
      (offset != 0) ≡ true
      → (n : Image) × (load_first (place bin) va filesz perm old ≡ ok tt n)
        × Filled bin va filesz perm old n (va / by2pg * by2pg + by2pg)
  unfolding load_first
  first_page inner =
      let (n, run, w) =
        more bin va filesz perm old old (va / by2pg * by2pg) (omega arith) (omega arith)
          (untouched (va / by2pg * by2pg) refl) va offset (min filesz (by2pg - offset)) (some 0)
          (omega arith) (λ a low high. bytes a low high) in
      (n, rw inner run, w)
    where
      bytes :
          (a : ℕ)
          → va / by2pg * by2pg ≤ a
          → a < va / by2pg * by2pg + by2pg
          → filled bin offset (some 0) (min filesz (by2pg - offset)) (a - va / by2pg * by2pg)
            ≡ want bin va filesz a
      bytes a low high = elim (Bool-cases (leb va a && ltb a (va + filesz))) [
        | inl inside ↦
            filled_in bin offset 0 (min filesz (by2pg - offset)) (a - va / by2pg * by2pg)
              (ground arith) (ground arith)
            ∙ ap bin (ground arith)
            ∙ sym (want_in bin va filesz a (ground arith) (ground arith))
        | inr out ↦
            filled_out bin offset 0 (min filesz (by2pg - offset)) (a - va / by2pg * by2pg)
              (apart a out low)
            ∙ sym (want_out bin va filesz a (outside a out))
      ]
        where
          outside :
              (x : ℕ) → (leb va x && ltb x (va + filesz)) ≡ false → (x < va) ⊎ (va + filesz ≤ x)
          outside x out = elim (Bool-cases (leb va x)) [
            | inl above ↦ inr (ground arith)
            | inr below ↦ inl (ground arith)
          ]

          apart :
              (x : ℕ)
              → (leb va x && ltb x (va + filesz)) ≡ false
              → va / by2pg * by2pg ≤ x
              → (x - va / by2pg * by2pg < offset)
                ⊎ (offset + min filesz (by2pg - offset) ≤ x - va / by2pg * by2pg)
          apart x out h = elim (Bool-cases (leb va x)) [
            | inl above ↦ inr (ground arith)
            | inr below ↦ inl (ground arith)
          ]
