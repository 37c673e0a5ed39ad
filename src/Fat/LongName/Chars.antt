-- ===== src/Fat/LongName/Chars.antt =====
-- What `fillFileLN` writes, `cmpLongName` accepts, and no other text.
use buaa_os_mos_with_fat.Base.{
  ℕ, zero, suc, ◌+◌, ◌-◌, ◌/◌, ◌%◌, ◌≤◌, ◌<◌, ◌≡◌, ◌≢◌, refl, ◌&&◌, ◌==◌, ◌!=◌, ltb, leb,
  if◌then◌else◌, [], ◌∷◌, get_or, set, length, length-set, get_or-set, arith, min, Bool-cases, inl,
  inr, ap, sym, ◌∙◌,
}
use buaa_os_mos_with_fat.Fat.Names.{CString}
use buaa_os_mos_with_fat.Fat.LongName.{
  Slot, read16, write16, char_offset, short_of, get_sub_name, put_char, fill_chars, fill_rest,
  ldir_ord, attr,
}

get_or-write16 :
    (s : Slot) (o v j : ℕ)
    → o + 1 < length s
    → get_or (write16 o v s) j 0
      ≡ (if o + 1 == j then v / 256 else if o == j then v % 256 else get_or s j 0)
get_or-write16 s o v j h = ground (
  arith,
  get_or-set (set s o (v % 256)) (o + 1) j (v / 256) 0,
  get_or-set s o j (v % 256) 0,
  length-set s o (v % 256),
)

read16-write16 :
    (s : Slot) (o v k : ℕ)
    → o + 1 < length s
    → o + 1 ≢ k
    → o ≢ k + 1
    → read16 (write16 o v s) k ≡ (if o == k then v else read16 s k)
read16-write16 s o v k h p q =
    ground (arith, get_or-write16 s o v k h, get_or-write16 s o v (k + 1) h)

pub length-put_char : (s : Slot) (i v : ℕ) → length (put_char i v s) ≡ length s
unfolding put_char
length-put_char s i v = omega (
  arith,
  length-set (set s (char_offset i) (v % 256)) (char_offset i + 1) (v / 256),
  length-set s (char_offset i) (v % 256),
)

-- the fields of two characters do not overlap
offset_fits : (i : ℕ) → i < 13 → char_offset i + 1 < 32
offset_fits i h = ground arith

offset_apart : (i j : ℕ) → i < 13 → j < 13 → char_offset i + 1 ≢ char_offset j
offset_apart i j h k = ground arith

offset-injective : (i j : ℕ) → i < 13 → j < 13 → char_offset i ≡ char_offset j → i ≡ j
offset-injective i j h k = ground arith

-- they leave `LDIR_Ord` and `LDIR_Attr` alone
pub offset_ne :
    (i : ℕ) → i < 13 → (char_offset i ≢ 0) × (char_offset i ≢ 11) × (char_offset i + 1 ≢ 11)
offset_ne i h = (ground arith, ground arith, ground arith)

put_else :
    (s : Slot) (o v k : ℕ)
    → o + 1 < length s
    → o ≢ k
    → o + 1 ≢ k
    → get_or (write16 o v s) k 0 ≡ get_or s k 0
put_else s o v k h p q = ground (arith, get_or-write16 s o v k h)

read16-write16_index :
    (s : Slot) (o k i j v : ℕ)
    → o + 1 < length s
    → o + 1 ≢ k
    → o ≢ k + 1
    → (o ≡ k → i ≡ j)
    → (i ≡ j → o ≡ k)
    → read16 (write16 o v s) k ≡ (if i == j then v else read16 s k)
read16-write16_index s o k i j v h p q to from =
    rw (read16-write16 s o v k h p q) (ground (arith, to, from))

pub get_sub_name-put :
    (s : Slot) (i j v : ℕ)
    → length s ≡ 32
    → i < 13
    → j < 13
    → get_sub_name (put_char i v s) j ≡ (if i == j then v else get_sub_name s j)
unfolding get_sub_name put_char
get_sub_name-put s i j v l h k =
    read16-write16_index s (char_offset i) (char_offset j) i j v (rw l (offset_fits i h))
      (offset_apart i j h k) (λ e. offset_apart j i k h (sym e)) (offset-injective i j h k)
      (ap char_offset)

-- a byte outside the characters
pub get_or-put :
    (s : Slot) (i v k : ℕ)
    → length s ≡ 32
    → i < 13
    → char_offset i ≢ k
    → char_offset i + 1 ≢ k
    → get_or (put_char i v s) k 0 ≡ get_or s k 0
unfolding put_char
get_or-put s i v k l h p q = put_else s (char_offset i) v k (rw l (offset_fits i h)) p q

-- the length of the text, up to a terminator
abbrev pub text_len : CString → ℕ
text_len [] = 0
text_len (c ∷ p) = if c == 0 then 0 else suc (text_len p)

-- What a loop has done that wrote the characters from i to n.
pub record Wrote (s : Slot) (i n : ℕ) (val : ℕ → ℕ) (s' : Slot) : Type 0 where
  pub size : length s' ≡ 32
  pub chars :
      (j : ℕ)
      → j < 13
      → get_sub_name s' j ≡ (if leb i j && ltb j n then val j else get_sub_name s j)
  pub mark : ldir_ord s' ≡ ldir_ord s
  pub kind : attr s' ≡ attr s

Wrote-none : (s : Slot) (i : ℕ) (val : ℕ → ℕ) → length s ≡ 32 → Wrote s i i val s
Wrote-none s i val l = record { size = l; chars = λ j h. ground arith; mark = refl; kind = refl }

Wrote-next :
    (s : Slot) (i n v : ℕ) (val val' : ℕ → ℕ) (s' : Slot)
    → length s ≡ 32
    → i < 13
    → i < n
    → val i ≡ v
    → ((j : ℕ) → i < j → val j ≡ val' j)
    → Wrote (put_char i v s) (i + 1) n val' s'
    → Wrote s i n val s'
Wrote-next s i n v val val' s' l h k e agree w = record {
  size = w.size;
  chars = λ j p. ground (arith, w.chars j, get_sub_name-put s i j v l h, agree j);
  mark = w.mark ∙ get_or-put s i v 0 l h (offset_ne i h).0 (omega arith);
  kind = w.kind ∙ get_or-put s i v 11 l h (offset_ne i h).1 (offset_ne i h).2;
}

-- the character at j of the text p that is written from i on
abbrev pub text_at : CString → ℕ → ℕ → ℕ
text_at p i j = short_of (get_or p (j - i) 0)

text_at-tail : (c : ℕ) (p : CString) (i j : ℕ) → i < j → text_at (c ∷ p) i j ≡ text_at p (i + 1) j
text_at-tail c p i j h =
    let e : j - i ≡ suc (j - (i + 1)) = omega arith in ap (λ n. short_of (get_or (c ∷ p) n 0)) e

text_at-head : (c : ℕ) (p : CString) (i : ℕ) → text_at (c ∷ p) i i ≡ short_of c
text_at-head c p i = let e : i - i ≡ 0 = omega arith in ap (λ n. short_of (get_or (c ∷ p) n 0)) e

pub fill_chars-Wrote :
    (p : CString) (i : ℕ) (s : Slot)
    → length s ≡ 32
    → i ≤ 13
    → Wrote s i (fill_chars p i s).0 (text_at p i) (fill_chars p i s).1
      × ((fill_chars p i s).0 ≡ min 13 (i + text_len p))
unfolding fill_chars
fill_chars-Wrote [] i s l h = (Wrote-none s i (text_at [] i) l, omega arith)
fill_chars-Wrote (c ∷ p) i s l h = elim (Bool-cases (c != 0 && ltb i 13)) [
  | inl go ↦
      let (w, e) =
        fill_chars-Wrote p (i + 1) (put_char i (short_of c) s)
          (length-put_char s i (short_of c) ∙ l) (ground arith) in
      rw go (
        Wrote-next s i _ (short_of c) (text_at (c ∷ p) i) (text_at p (i + 1)) _ l (ground arith)
            (ground arith) (text_at-head c p i) (text_at-tail c p i) w,
        ground arith,
      )
  | inr stop ↦ rw stop (Wrote-none s i (text_at (c ∷ p) i) l, ground arith)
]

pub fill_rest-Wrote :
    (rounds i : ℕ) (s : Slot)
    → length s ≡ 32
    → i + rounds ≤ 13
    → Wrote s i (i + rounds) (λ j. 0xffff) (fill_rest rounds i s)
unfolding fill_rest
fill_rest-Wrote zero i s l h =
    let e : i + 0 ≡ i = omega arith in rw e (Wrote-none s i (λ j. 0xffff) l)
fill_rest-Wrote (suc rounds) i s l h =
    let e : i + suc rounds ≡ i + 1 + rounds = omega arith in
    Wrote-next s i (i + suc rounds) 0xffff (λ j. 0xffff) (λ j. 0xffff) _ l (omega arith)
      (omega arith) refl (λ j p. refl)
      (rw e (
        fill_rest-Wrote rounds (i + 1) (put_char i 0xffff s) (length-put_char s i 0xffff ∙ l)
          (omega arith)))
