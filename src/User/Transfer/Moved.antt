-- ===== src/User/Transfer/Moved.antt =====
-- Bytes that have come into memory, and one transfer after another.
use buaa_os_mos_with_fat.Base.{
  ℕ, ◌+◌, ◌-◌, ◌≤◌, ◌<◌, ◌≡◌, refl, ltb, min, arith, Bool-cases, ◌⊎◌, inl, inr, sym, ap, ◌∙◌,
}
use buaa_os_mos_with_fat.Base.Bitmap.{Words}
use buaa_os_mos_with_fat.User.Transfer.{World}
use mathlib.Core.Path.{subst}

-- What a read of m bytes from `offset` on into buf has done.
pub record Moved (content : Words) (w : World) (buf offset m : ℕ) (v : World) : Type 0 where
  pub taken : (i : ℕ) → i < m → v.mem (buf + i) ≡ content (offset + i)
  pub kept : (x : ℕ) → (x < buf) ⊎ (buf + m ≤ x) → v.mem x ≡ w.mem x

pub nothing-Moved : (content : Words) (w : World) (buf offset : ℕ) → Moved content w buf offset 0 w
nothing-Moved content w buf offset = record {
  taken = λ i h. absurd (omega arith);
  kept = λ x h. refl;
}

-- one transfer after another
Moved-trans :
    (content : Words) (w u v : World) (buf offset m k : ℕ)
    → Moved content w buf offset m u
    → Moved content u (buf + m) (offset + m) k v
    → Moved content w buf offset (m + k) v
Moved-trans content w u v buf offset m k p q = record {
  taken = λ i h. elim (Bool-cases (ltb i m)) [
    | inl first ↦ q.kept (buf + i) (inl (ground arith)) ∙ p.taken i (ground arith)
    | inr second ↦
        let later : m ≤ i = ground arith in
        let e : buf + m + (i - m) ≡ buf + i = omega arith in
        let g : offset + m + (i - m) ≡ offset + i = omega arith in
        ap v.mem (sym e) ∙ q.taken (i - m) (omega arith) ∙ ap content g
  ];
  kept = λ x h. q.kept x (beyond x h) ∙ p.kept x (short x h);
}
  where
    beyond : (x : ℕ) → (x < buf) ⊎ (buf + (m + k) ≤ x) → (x < buf + m) ⊎ (buf + m + k ≤ x)
    beyond x (inl below) = inl (omega arith)
    beyond x (inr above) = inr (omega arith)

    short : (x : ℕ) → (x < buf) ⊎ (buf + (m + k) ≤ x) → (x < buf) ⊎ (buf + m ≤ x)
    short x (inl below) = inl below
    short x (inr above) = inr (omega arith)

pub joined :
    (content : Words) (w u v : World) (buf offset tot m total : ℕ)
    → tot + m ≤ total
    → Moved content w (buf + tot) (offset + tot) m u
    → Moved content u (buf + (tot + m)) (offset + (tot + m)) (total - (tot + m)) v
    → Moved content w (buf + tot) (offset + tot) (total - tot) v
joined content w u v buf offset tot m total h p q =
    let a : buf + (tot + m) ≡ buf + tot + m = omega arith in
    let b : offset + (tot + m) ≡ offset + tot + m = omega arith in
    let c : m + (total - (tot + m)) ≡ total - tot = omega arith in
    subst (λ k. Moved content w (buf + tot) (offset + tot) k v) c
      (Moved-trans content w u v (buf + tot) (offset + tot) m (total - (tot + m)) p (
        subst (λ x. Moved content u x (offset + tot + m) (total - (tot + m)) v) a
          (subst (λ x. Moved content u (buf + (tot + m)) x (total - (tot + m)) v) b q)))

-- Nothing came although something was asked for: all has been read.
pub ended :
    (size n offset tot total m : ℕ)
    → total ≡ min n (size - offset)
    → tot ≤ total
    → tot < n
    → m ≡ 0
    → ((0 < n - tot) → offset + tot < size → 0 < m)
    → tot ≡ total
ended size n offset tot total m e few some none progress =
    elim (Bool-cases (ltb (offset + tot) size)) [
      | inl more ↦ let m_pos = progress (omega arith) (ground arith) in absurd (omega arith)
      | inr past ↦ ground arith
    ]
