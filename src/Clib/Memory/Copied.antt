-- ===== src/Clib/Memory/Copied.antt =====
-- `memcpy` copies ranges that do not overlap, whatever their alignment.
use buaa_os_mos_with_fat.Base.{
  ℕ, zero, suc, ◌+◌, ◌-◌, ◌%◌, ◌≤◌, ◌<◌, ◌≡◌, ◌⊎◌, inl, inr, refl, ◌&&◌, ◌!=◌, leb, ltb,
  if◌then◌else◌, arith, Bool-cases, ap, ◌∙◌, ltb→lt, ltb→ge, leb→le, some, none,
}
use buaa_os_mos_with_fat.Base.Bitmap.{Words, update}
use buaa_os_mos_with_fat.Clib.Memory.{
  Copying, copy_byte, copy_word, copy_bytes, copy_to_aligned, copy_words, memcpy,
}

-- the n bytes from src on and those from dst on have none in common
abbrev pub Apart : (dst src n : ℕ) → Type 0
Apart dst src n = (src + n ≤ dst) ⊎ (dst + n ≤ src)

-- How far a copy of n bytes of the memory m, from src to dst, has come.
pub record Progress (dst src n : ℕ) (m : Words) (s : Copying) : Type 0 where
  pub started : dst ≤ s.dst
  pub not_past : s.dst ≤ dst + n
  pub in_step : s.src ≡ src + (s.dst - dst)
  pub copied : (a : ℕ) → s.mem a ≡ (if leb dst a && ltb a s.dst then m (src + (a - dst)) else m a)

here : (s : Copying) → s.mem (s.src + (s.dst - s.dst)) ≡ s.mem s.src
here s = ap s.mem (omega arith)

module _ (dst src n : ℕ) (m : Words) (apart : Apart dst src n) where
  -- the source is as it was
  source : (s : Copying) → Progress dst src n m s → (k : ℕ) → src ≤ k → k < src + n → s.mem k ≡ m k
  source s v k low high = elim apart [
    | inl before ↦ ground (arith, v.copied k)
    | inr behind ↦ ground (arith, v.copied k, v.not_past)
  ]

  -- a byte that the next step writes
  fetched :
      (s : Copying)
      → Progress dst src n m s
      → (a : ℕ) → s.dst ≤ a
      → a < dst + n
      → s.mem (s.src + (a - s.dst)) ≡ m (src + (a - dst))
  fetched s v a low high =
      let place : s.src + (a - s.dst) ≡ src + (a - dst) = omega (arith, v.in_step, v.started) in
      rw place (source s v (src + (a - dst)) (omega arith) (omega (arith, v.started)))

  copy_byte-Progress :
      (s : Copying) → Progress dst src n m s → s.dst < dst + n → Progress dst src n m (copy_byte s)
  unfolding copy_byte update
  copy_byte-Progress s v h = record {
    started = omega (arith, v.started);
    not_past = omega arith;
    in_step = omega (arith, v.started, v.in_step);
    copied = λ a. ground (arith, v.copied a, v.started, fetched s v a, here s);
  }

  -- the state behind a word
  abbrev behind : Copying → Copying
  behind s = record {
    dst = s.dst + 4;
    src = s.src + 4;
    mem = λ a. if leb s.dst a && ltb a (s.dst + 4) then s.mem (s.src + (a - s.dst)) else s.mem a;
  }

  behind-Progress :
      (s : Copying) → Progress dst src n m s → s.dst + 4 ≤ dst + n → Progress dst src n m (behind s)
  behind-Progress s v h = record {
    started = omega (arith, v.started);
    not_past = omega arith;
    in_step = omega (arith, v.started, v.in_step);
    copied = λ a. ground (arith, v.copied a, v.started, fetched s v a);
  }

  copy_word-behind : (s : Copying) → s.dst % 4 ≡ 0 → s.src % 4 ≡ 0 → copy_word s ≡ some (behind s)
  unfolding copy_word
  copy_word-behind s d c = rw (d, c) refl

  copy_bytes-Progress :
      (rounds : ℕ) (s : Copying)
      → Progress dst src n m s
      → Progress dst src n m (copy_bytes rounds (dst + n) s)
  unfolding copy_bytes
  copy_bytes-Progress zero s v = v
  copy_bytes-Progress (suc rounds) s v = elim (Bool-cases (ltb s.dst (dst + n))) [
    | inl more ↦
        rw more
          (copy_bytes-Progress rounds (copy_byte s) (copy_byte-Progress s v (ltb→lt _ _ more)))
    | inr done ↦ rw done v
  ]

  -- with a round for each byte the loop gets to the end
  copy_bytes-all :
      (rounds : ℕ) (s : Copying)
      → s.dst ≤ dst + n
      → dst + n ≤ s.dst + rounds
      → (copy_bytes rounds (dst + n) s).dst ≡ dst + n
  unfolding copy_bytes copy_byte
  copy_bytes-all zero s h l = omega arith
  copy_bytes-all (suc rounds) s h l = elim (Bool-cases (ltb s.dst (dst + n))) [
    | inl more ↦
        rw more (copy_bytes-all rounds (copy_byte s) (omega (arith, ltb→lt _ _ more)) (omega arith))
    | inr done ↦ rw done (omega (arith, ltb→ge _ _ done))
  ]

  copy_to_aligned-Progress :
      (rounds : ℕ) (s : Copying)
      → Progress dst src n m s
      → Progress dst src n m (copy_to_aligned rounds (dst + n) s)
  unfolding copy_to_aligned
  copy_to_aligned-Progress zero s v = v
  copy_to_aligned-Progress (suc rounds) s v =
      elim (Bool-cases (s.dst % 4 != 0 && ltb s.dst (dst + n))) [
        | inl more ↦
            rw more (
              copy_to_aligned-Progress rounds (copy_byte s) (copy_byte-Progress s v (ground arith)))
        | inr done ↦ rw done v
      ]

  -- it stops at an aligned `dst` or at the end
  copy_to_aligned-stops :
      (rounds : ℕ) (s : Copying)
      → dst + n ≤ s.dst + rounds
      → (copy_to_aligned rounds (dst + n) s).dst + 4 ≤ dst + n
      → (copy_to_aligned rounds (dst + n) s).dst % 4 ≡ 0
  unfolding copy_to_aligned copy_byte
  copy_to_aligned-stops zero s l = λ h. absurd (omega arith)
  copy_to_aligned-stops (suc rounds) s l =
      elim (Bool-cases (s.dst % 4 != 0 && ltb s.dst (dst + n))) [
        | inl more ↦ rw more (copy_to_aligned-stops rounds (copy_byte s) (omega arith))
        | inr done ↦ rw done (λ h. ground arith)
      ]

  in_line :
      (s : Copying) → Progress dst src n m s → src % 4 ≡ dst % 4 → s.dst % 4 ≡ 0 → s.src % 4 ≡ 0
  in_line s v alike h = omega (arith, v.in_step, v.started)

  -- no word of the loop is misaligned
  copy_words-Progress :
      (rounds : ℕ) (s : Copying)
      → Progress dst src n m s
      → src % 4 ≡ dst % 4
      → (s.dst + 4 ≤ dst + n → s.dst % 4 ≡ 0)
      → (t : Copying) × (copy_words rounds (dst + n) s ≡ some t) × Progress dst src n m t
  unfolding copy_words
  copy_words-Progress zero s v alike aligned = (s, refl, v)
  copy_words-Progress (suc rounds) s v alike aligned =
      elim (Bool-cases (leb (s.dst + 4) (dst + n))) [
        | inl more ↦
            let room = leb→le _ _ more in
            let zero_dst = aligned room in
            let next : s.dst + 4 + 4 ≤ dst + n → (s.dst + 4) % 4 ≡ 0 = λ h. omega arith in
            rw (more, copy_word-behind s zero_dst (in_line s v alike zero_dst))
              (copy_words-Progress rounds (behind s) (behind-Progress s v room) alike next)
        | inr done ↦ rw done (s, refl, v)
      ]

  -- the last loop ends the copy
  finished :
      (s : Copying)
      → Progress dst src n m s
      → (a : ℕ)
      → (copy_bytes n (dst + n) s).mem a
        ≡ (if leb dst a && ltb a (dst + n) then m (src + (a - dst)) else m a)
  finished s v a =
      let w = copy_bytes-Progress n s v in
      let all = copy_bytes-all n s v.not_past (omega (arith, v.started)) in
      ap (λ (x : ℕ). x) (w.copied a) ∙ rw all refl

-- What a copy of n bytes leaves: each of them, and all else as it was.
abbrev pub IsCopy : (dst src n : ℕ) → (m v : Words) → Type 0
IsCopy dst src n m v =
    (a : ℕ) → v a ≡ (if leb dst a && ltb a (dst + n) then m (src + (a - dst)) else m a)

copy_words-IsCopy :
    (dst src n : ℕ) (m : Words)
    → Apart dst src n
    → (s : Copying) → Progress dst src n m s
    → src % 4 ≡ dst % 4
    → (s.dst + 4 ≤ dst + n → s.dst % 4 ≡ 0)
    → (v : Words) × (elim (copy_words n (dst + n) s) [
      | some t ↦ some (copy_bytes n (dst + n) t).mem
      | none ↦ none
    ]
        ≡ some v)
      × IsCopy dst src n m v
copy_words-IsCopy dst src n m apart s v alike aligned =
    let (t, run, w) = copy_words-Progress dst src n m apart n s v alike aligned in
    rw run ((copy_bytes n (dst + n) t).mem, refl, finished dst src n m apart t w)

-- `memcpy` of n bytes between ranges that do not overlap, however the two addresses are aligned,
-- comes to its end without a word access at an address that is no multiple of 4, copies each of
-- the bytes and changes no other byte.
pub memcpy_lem :
    (dst src n : ℕ) (m : Words)
    → Apart dst src n
    → (v : Words) × (memcpy dst src n m ≡ some v) × IsCopy dst src n m v
unfolding memcpy
memcpy_lem dst src n m apart =
    let start : Copying = record { dst = dst; src = src; mem = m } in
    let begun : Progress dst src n m start = record {
      started = omega arith;
      not_past = omega arith;
      in_step = omega arith;
      copied = λ b. ground arith;
    } in
    elim (Bool-cases (src % 4 != dst % 4)) [
      | inl skew ↦
          rw skew ((copy_bytes n (dst + n) start).mem, refl, finished dst src n m apart start begun)
      | inr even ↦ rw even (
          copy_words-IsCopy dst src n m apart (copy_to_aligned n (dst + n) start)
            (copy_to_aligned-Progress dst src n m apart n start begun) (ground arith)
            (copy_to_aligned-stops dst src n m apart n start (omega arith)))
    ]
