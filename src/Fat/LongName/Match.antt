-- ===== src/Fat/LongName/Match.antt =====
-- `cmpLongName` accepts what `fillFileLN` writes, and no other text.
use buaa_os_mos_with_fat.Base.{
  ℕ, zero, suc, ◌+◌, ◌-◌, ◌*◌, ◌%◌, ◌^◌, ◌≤◌, ◌<◌, ◌≡◌, ◌≢◌, refl, Bool, true, false, ◌&&◌, ◌==◌,
  ◌!=◌, ltb, if◌then◌else◌, [], ◌∷◌, get_or, drop, length, arith, min, Bool-cases, inl, inr, ap,
  sym, ◌∙◌,
}
use buaa_os_mos_with_fat.Base.Bitmap.{Words}
use buaa_os_mos_with_fat.Fat.Names.{CString}
use buaa_os_mos_with_fat.Fat.Names.Compare.{AllBytes, get_or-lt}
use buaa_os_mos_with_fat.Fat.LongName.{
  Slot, ldir_ord, attr, short_of, get_sub_name, put_char, fill_file_ln, end_chars, cmp_chars,
  ord_of, cmp_long_name, byte_of, part_of,
}
use buaa_os_mos_with_fat.Fat.LongName.Chars.{
  text_len, text_at, Wrote, fill_chars-Wrote, fill_rest-Wrote, get_sub_name-put, length-put_char,
  get_or-put, offset_ne,
}

-- the thirteen characters of a long entry: the text, its terminator, and 0xffff
abbrev pub ln_char : CString → ℕ → ℕ
ln_char p j =
    if ltb j (text_len p) then short_of (get_or p j 0) else if j == text_len p then 0 else 0xffff

pub record Filled (s : Slot) (p : CString) (s' : Slot) : Type 0 where
  pub size : length s' ≡ 32
  pub chars : (j : ℕ) → j < 13 → get_sub_name s' j ≡ ln_char p j
  pub mark : ldir_ord s' ≡ ldir_ord s
  pub kind : attr s' ≡ attr s

end_chars-Filled :
    (p : CString) (s : Slot) (n : ℕ) (s' : Slot)
    → Wrote s 0 n (text_at p 0) s'
    → n ≡ min 13 (text_len p)
    → Filled s p (end_chars (n, s'))
unfolding end_chars
end_chars-Filled p s n s' w e = elim (Bool-cases (ltb n 13)) [
  | inl short ↦
      let l = length-put_char s' n 0 ∙ w.size in
      let r = fill_rest-Wrote (13 - (n + 1)) (n + 1) (put_char n 0 s') l (ground arith) in
      rw short (record {
        size = r.size;
        chars = λ j h. ground (arith, r.chars j, w.chars j, get_sub_name-put s' n j 0 w.size);
        mark =
            r.mark
            ∙ get_or-put s' n 0 0 w.size (ground arith) (offset_ne n (ground arith)).0 (omega arith)
            ∙ w.mark;
        kind =
            r.kind
            ∙ get_or-put s' n 0 11 w.size (ground arith) (offset_ne n (ground arith)).1
                (offset_ne n (ground arith)).2
            ∙ w.kind;
      })
  | inr full ↦
      let none_left : 13 - (n + 1) ≡ 0 = ground arith in
      rw (full, none_left)
        (record {
          size = w.size;
          chars = λ j h. ground (arith, w.chars j);
          mark = w.mark;
          kind = w.kind;
        })
]

pub fill_file_ln-Filled :
    (s : Slot) (u : CString) (ord : ℕ)
    → length s ≡ 32
    → Filled s (drop ((ord - 1) * 13) u) (fill_file_ln s u ord)
unfolding fill_file_ln
fill_file_ln-Filled s u ord l =
    let (w, e) = fill_chars-Wrote (drop ((ord - 1) * 13) u) 0 s l (omega arith) in
    end_chars-Filled (drop ((ord - 1) * 13) u) s _ _ w (e ∙ ap (min 13) (omega arith))

-- two texts that agree up to the terminator, or in their first k characters
abbrev pub same_text : ℕ → CString → CString → Bool
same_text zero p q = true
same_text (suc k) p q =
    if get_or q 0 0 == 0 && get_or p 0 0 == 0
    then true
    else if get_or q 0 0 != get_or p 0 0
    then false
    else same_text k (drop 1 p) (drop 1 q)

ln_char-drop : (p : CString) (j : ℕ) → get_or p 0 0 ≢ 0 → ln_char p (suc j) ≡ ln_char (drop 1 p) j
ln_char-drop [] j h = absurd (h refl)
ln_char-drop (c ∷ p) j h = ground arith

ord_of-mark : (s t : Slot) → ldir_ord s ≡ ldir_ord t → ord_of s ≡ ord_of t
unfolding ord_of
ord_of-mark s t e = rw e

ln_char-zero : (p : CString) → ln_char p 0 ≡ short_of (get_or p 0 0)
ln_char-zero [] = refl
ln_char-zero (c ∷ p) = ground arith

drop-AllBytes : (n : ℕ) (p : CString) → AllBytes p → AllBytes (drop n p)
drop-AllBytes zero p h = h
drop-AllBytes (suc n) [] h = tt
drop-AllBytes (suc n) (c ∷ p) h = drop-AllBytes n p h.1

-- one round, with the rest of the comparison on both sides
cmp_round :
    (a b t : ℕ) (x y : Bool)
    → a < 256
    → b < 256
    → t ≡ short_of a
    → (a ≢ 0 → a ≡ b → x ≡ y)
    → (if b == 0 && t == 0 then true else if short_of b != t then false else x)
      ≡ (if b == 0 && a == 0 then true else if b != a then false else y)
cmp_round a b t x y h k e rest = ground (arith, rest)

length-drop_one : (q : CString) → length (drop 1 q) ≡ length q - 1
length-drop_one [] = refl
length-drop_one (c ∷ q) = omega arith

get_or-drop_one : (q : CString) (j : ℕ) → get_or (drop 1 q) j 0 ≡ get_or q (suc j) 0
get_or-drop_one [] j = refl
get_or-drop_one (c ∷ q) j = refl

some_left : (q : CString) → get_or q 0 0 ≢ 0 → 0 < length q
some_left [] h = absurd (h refl)
some_left (c ∷ q) h = omega arith

-- the bytes from i on are those of the text q, up to its terminator
abbrev Shows : CString → Words → ℕ → Type 0
Shows q p i = (j : ℕ) → j ≤ length q → p (i + j) ≡ get_or q j 0

Shows-next :
    (q : CString) (p : Words) (i : ℕ) → 0 < length q → Shows q p i → Shows (drop 1 q) p (i + 1)
Shows-next q p i some h j l =
    ap p (omega arith) ∙ h (suc j) (omega (arith, length-drop_one q)) ∙ sym (get_or-drop_one q j)

cmp_chars_lem :
    (tmp : ℕ → ℕ) (bytes : Words) (rounds i : ℕ) (p q : CString)
    → AllBytes p
    → AllBytes q
    → ((j : ℕ) → j < rounds → tmp (i + j) ≡ ln_char p j)
    → Shows q bytes i
    → cmp_chars tmp bytes rounds i ≡ same_text rounds p q
unfolding cmp_chars
cmp_chars_lem tmp bytes zero i p q hp hq h g = refl
cmp_chars_lem tmp bytes (suc rounds) i p q hp hq h g =
    let first : bytes i ≡ get_or q 0 0 = ap bytes (omega arith) ∙ g 0 (omega arith) in
    let later : Bool = cmp_chars tmp bytes rounds (i + 1) in
    ap (λ b. if b == 0 && tmp i == 0 then true else if short_of b != tmp i then false else later)
      first
    ∙ cmp_round (get_or p 0 0) (get_or q 0 0) (tmp i) later _ (get_or-lt p 0 hp) (get_or-lt q 0 hq)
        (ap tmp (omega arith) ∙ h 0 (omega arith) ∙ ln_char-zero p)
        λ some same.
          cmp_chars_lem tmp bytes rounds (i + 1) (drop 1 p) (drop 1 q) (drop-AllBytes 1 p hp)
            (drop-AllBytes 1 q hq)
            (λ j l. ap tmp (omega arith) ∙ h (suc j) (omega arith) ∙ ln_char-drop p j some)
            (Shows-next q bytes i (some_left q (λ e. some (same ∙ e))) g)

zero_plus : (j : ℕ) → 0 + j ≡ j
zero_plus j = omega arith

get_or-drop : (n : ℕ) (w : CString) (j : ℕ) → get_or (drop n w) j 0 ≡ get_or w (n + j) 0
get_or-drop zero w j = ap (λ k. get_or w k 0) (omega arith)
get_or-drop (suc n) [] j = refl
get_or-drop (suc n) (c ∷ w) j =
    let e : suc n + j ≡ suc (n + j) = omega arith in rw e (get_or-drop n w j)

length-drop : (n : ℕ) (w : CString) → length (drop n w) ≡ length w - n
length-drop zero w = omega arith
length-drop (suc n) [] = omega arith
length-drop (suc n) (c ∷ w) = length-drop n w ∙ omega arith

byte_of-inside :
    (w : CString) (outside : Words) (o : ℕ) → o ≤ length w → byte_of w outside o ≡ get_or w o 0
unfolding byte_of
byte_of-inside w outside o h = elim (Bool-cases (ltb o (length w))) [
  | inl less ↦ rw less refl
  | inr not_less ↦
      let end : o ≡ length w = ground arith in
      let test : (o == length w) ≡ true = ground arith in
      rw (not_less, test) (sym (ap (λ k. get_or w k 0) end ∙ get_or-length w))
]
  where
    get_or-length : (v : CString) → get_or v (length v) 0 ≡ 0
    get_or-length [] = refl
    get_or-length (c ∷ v) = get_or-length v

-- a part that starts within the name
abbrev pub IsPart : (ord : ℕ) → CString → Type 0
IsPart ord w = (1 ≤ ord) × ((ord - 1) * 13 ≤ length w)

part_of-Shows :
    (w : CString) (outside : Words) (ord : ℕ)
    → IsPart ord w
    → length w < 2 ^ 32
    → Shows (drop ((ord - 1) * 13) w) (part_of w outside ord) 0
unfolding part_of
part_of-Shows w outside ord (low, starts) small j l =
    let inside : (ord - 1) * 13 + j ≤ length w = omega (arith, length-drop ((ord - 1) * 13) w) in
    let place : ((ord + (2 ^ 32 - 1)) % 2 ^ 32 * 13 + (0 + j)) % 2 ^ 32 ≡ (ord - 1) * 13 + j =
      omega arith in
    ap (byte_of w outside) place
    ∙ byte_of-inside w outside ((ord - 1) * 13 + j) inside
    ∙ sym (get_or-drop ((ord - 1) * 13) w j)

-- `cmpLongName` on an entry that `fillFileLN` filled with the part number `ord` of the name u: when
-- that part starts within u and within the name w, it accepts w exactly if w has the same text
-- there, whatever memory holds around w.
pub cmp_long_name-fill :
    (s : Slot) (u w : CString) (outside : Words) (ord : ℕ)
    → length s ≡ 32
    → AllBytes u
    → AllBytes w
    → length w < 2 ^ 32
    → IsPart ord u
    → IsPart ord w
    → ord_of s ≡ ord
    → cmp_long_name (fill_file_ln s u ord) w outside
      ≡ same_text 13 (drop ((ord - 1) * 13) u) (drop ((ord - 1) * 13) w)
unfolding cmp_long_name
cmp_long_name-fill s u w outside ord l hu hw small _ starts e =
    let f = fill_file_ln-Filled s u ord l in
    rw (ord_of-mark (fill_file_ln s u ord) s f.mark ∙ e) (
      cmp_chars_lem (get_sub_name (fill_file_ln s u ord)) (part_of w outside ord) 13 0
        (drop ((ord - 1) * 13) u) (drop ((ord - 1) * 13) w) (drop-AllBytes _ u hu)
        (drop-AllBytes _ w hw)
        (λ j h. ap (get_sub_name (fill_file_ln s u ord)) (zero_plus j) ∙ f.chars j h)
        (part_of-Shows w outside ord starts small))

pub same_text_refl : (k : ℕ) (p : CString) → same_text k p p ≡ true
same_text_refl zero p = refl
same_text_refl (suc k) p = ground (arith, same_text_refl k (drop 1 p))
