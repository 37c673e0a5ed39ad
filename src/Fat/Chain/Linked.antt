-- ===== src/Fat/Chain/Linked.antt =====
-- The clusters of a chain, and what holds of them.
use buaa_os_mos_with_fat.Base.{
  ℕ, zero, suc, ◌-◌, ◌≤◌, ◌<◌, ◌≡◌, ◌≢◌, refl, Bool, true, false, ◌==◌, if◌then◌else◌, List, [],
  ◌∷◌, length, take, drop, arith, Bool-cases, inl, inr, sym, ap, ◌∙◌,
}
use mathlib.Core.Path.{subst}
use buaa_os_mos_with_fat.Base.Bitmap.{Words, update, update_here, update_ne}
use buaa_os_mos_with_fat.Fat.Defs.{eof_fat32}
use buaa_os_mos_with_fat.Fat.Chain.{follow}

abbrev pub is_on : ℕ → List ℕ → Bool
is_on i [] = false
is_on i (c ∷ cs) = if c == i then true else is_on i cs

-- From cluster d on, the table links the clusters of the list, each once and each an entry below n,
-- up to the mark of the end.
abbrev pub Chain : Words → (n d : ℕ) → List ℕ → Type 0
Chain t n d [] = d ≡ eof_fat32
Chain t n d (c ∷ cs) = (d ≡ c) × (2 ≤ c) × (c < n) × (is_on c cs ≡ false) × Chain t n (t c) cs

pub same-Chain :
    (t u : Words) (n d : ℕ) (cs : List ℕ)
    → ((i : ℕ) → is_on i cs ≡ true → u i ≡ t i)
    → Chain t n d cs
    → Chain u n d cs
same-Chain t u n d [] same chain = chain
same-Chain t u n d (c ∷ cs) same (here, low, high, once, chain) = (
  here,
  low,
  high,
  once,
  subst (λ x. Chain u n x cs) (sym (same c (ground arith)))
      (same-Chain t u n (t c) cs (λ i h. same i (ground (arith, h))) chain),
)

pub other_on : (c i : ℕ) (cs : List ℕ) → is_on c cs ≡ false → is_on i cs ≡ true → (c == i) ≡ false
other_on c i cs off on = elim (Bool-cases (c == i)) [
  | inl same ↦ let e : c ≡ i = ground arith in cc (sym on ∙ ap (λ x. is_on x cs) (sym e) ∙ off)
  | inr other ↦ other
]

-- the next cluster, or the mark of the end
pub Chain-nonzero : (t : Words) (n d : ℕ) (cs : List ℕ) → Chain t n d cs → d ≢ 0
Chain-nonzero t n d [] chain = λ e. omega arith
Chain-nonzero t n d (c ∷ cs) chain = λ e. omega (arith, chain.0, chain.1)

pub Chain-used :
    (t : Words) (n d i : ℕ) (cs : List ℕ) → Chain t n d cs → is_on i cs ≡ true → t i ≢ 0
Chain-used t n d i [] chain on = absurd (cc on)
Chain-used t n d i (c ∷ cs) (here, low, high, once, chain) on = elim (Bool-cases (c == i)) [
  | inl same ↦
      let e : i ≡ c = ground arith in λ z. Chain-nonzero t n (t c) cs chain (ap t (sym e) ∙ z)
  | inr other ↦ Chain-used t n (t c) i cs chain (ground (arith, on, other))
]

pub is_on-drop : (i k : ℕ) (cs : List ℕ) → is_on i cs ≡ false → is_on i (drop k cs) ≡ false
is_on-drop i zero cs h = h
is_on-drop i (suc k) [] h = h
is_on-drop i (suc k) (c ∷ cs) h = is_on-drop i k cs (ground (arith, h))

pub is_on-take : (i k : ℕ) (cs : List ℕ) → is_on i cs ≡ false → is_on i (take k cs) ≡ false
is_on-take i zero cs h = refl
is_on-take i (suc k) [] h = h
is_on-take i (suc k) (c ∷ cs) h =
    let tail = is_on-take i k cs (ground (arith, h)) in ground (arith, h, tail)

-- a cluster that is kept is none of the others
pub take-drop_apart :
    (t : Words) (n d i k : ℕ) (cs : List ℕ)
    → Chain t n d cs
    → is_on i (take k cs) ≡ true
    → is_on i (drop k cs) ≡ false
take-drop_apart t n d i zero cs chain on = absurd (cc on)
take-drop_apart t n d i (suc k) [] chain on = absurd (cc on)
take-drop_apart t n d i (suc k) (c ∷ cs) (here, low, high, once, chain) on =
    elim (Bool-cases (c == i)) [
      | inl same ↦
          let e : c ≡ i = ground arith in is_on-drop i k cs (ap (λ x. is_on x cs) (sym e) ∙ once)
      | inr other ↦ take-drop_apart t n (t c) i k cs chain (ground (arith, on, other))
    ]

pub length-drop : (k : ℕ) (cs : List ℕ) → length (drop k cs) ≡ length cs - k
length-drop zero cs = omega arith
length-drop (suc k) [] = omega arith
length-drop (suc k) (c ∷ cs) = omega (arith, length-drop k cs)

-- What the first loop of `fat_file_truncate` finds: the last cluster to keep, and the next one.
pub record Cut (t : Words) (n d : ℕ) (cs : List ℕ) (k tmp next : ℕ) : Type 0 where
  pub rest : Chain t n next (drop k cs)
  pub kept : Chain (update t tmp eof_fat32) n d (take k cs)
  pub on : is_on tmp cs ≡ true
  pub ends : is_on tmp (drop k cs) ≡ false
  pub low : 2 ≤ tmp
  pub high : tmp < n

here-Cut :
    (t : Words) (n d c : ℕ) (cs : List ℕ) → Chain t n d (c ∷ cs) → Cut t n d (c ∷ cs) 1 d (t d)
here-Cut t n d c cs (here, low, high, once, chain) = record {
  rest = subst (λ x. Chain t n (t x) cs) (sym here) chain;
  kept = (here, low, high, refl, ap (update t d eof_fat32) (sym here) ∙ update_here t d eof_fat32);
  on = ground (arith, here);
  ends = ap (λ x. is_on x cs) here ∙ once;
  low = omega arith;
  high = omega arith;
}

there-Cut :
    (t : Words) (n d c k tmp next : ℕ) (cs : List ℕ)
    → Chain t n d (c ∷ cs)
    → Cut t n (t d) cs (suc k) tmp next
    → Cut t n d (c ∷ cs) (suc (suc k)) tmp next
there-Cut t n d c k tmp next cs (here, low, high, once, chain) v =
    let other : c ≢ tmp = λ g. cc (sym v.on ∙ ap (λ x. is_on x cs) (sym g) ∙ once) in
    let e : t d ≡ update t tmp eof_fat32 c =
      ap t here ∙ sym (update_ne t tmp eof_fat32 c (λ g. other (sym g))) in
    record {
      rest = v.rest;
      kept = (
        here,
        low,
        high,
        is_on-take c (suc k) cs once,
        subst (λ x. Chain (update t tmp eof_fat32) n x (take (suc k) cs)) e v.kept,
      );
      on = ground (arith, v.on);
      ends = v.ends;
      low = v.low;
      high = v.high;
    }

pub follow-Cut :
    (t : Words) (n tmp d k : ℕ) (cs : List ℕ)
    → k < length cs
    → Chain t n d cs
    → Cut t n d cs (suc k) (follow t (suc k) tmp d).0 (follow t (suc k) tmp d).1
unfolding follow
follow-Cut t n tmp d k [] h chain = absurd (omega arith)
follow-Cut t n tmp d zero (c ∷ cs) h chain = here-Cut t n d c cs chain
follow-Cut t n tmp d (suc k) (c ∷ cs) h (here, low, high, once, chain) =
    there-Cut t n d c k _ _ cs (here, low, high, once, chain)
      (follow-Cut t n d (t d) k cs (omega arith) (subst (λ x. Chain t n (t x) cs) (sym here) chain))
