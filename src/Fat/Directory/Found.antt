-- ===== src/Fat/Directory/Found.antt =====
-- A file that was created under a long name is found under that name.
use Prim.Native.Nat.{bit_and, bit_or, bit_xor}
use buaa_os_mos_with_fat.Base.{
  ℕ, zero, suc, ◌+◌, ◌-◌, ◌*◌, ◌/◌, ◌^◌, ◌≤◌, ◌<◌, ◌≡◌, refl, Bool, true, false, ◌&&◌, ◌||◌, ◌==◌,
  ◌!=◌, if◌then◌else◌, List, [], ◌∷◌, ◌++◌, Option, none, some, set, drop, take, length, length-set,
  get_or-set, arith, each_below, test_of-each_below, ◌⊎◌, inl, inr, ap, ◌∙◌,
}
use buaa_os_mos_with_fat.Base.Bitmap.{Words}
use buaa_os_mos_with_fat.Fat.Names.{CString, cmp_file_name}
use buaa_os_mos_with_fat.Fat.Names.Compare.{AllBytes}
use buaa_os_mos_with_fat.Fat.LongName.{Slot, attr, ldir_ord, cmp_long_name, ord_of}
use buaa_os_mos_with_fat.Fat.LongName.Match.{
  IsPart, cmp_long_name-fill, same_text_refl, fill_file_ln-Filled,
}
use buaa_os_mos_with_fat.Fat.Directory.{
  attr_long_name, is_zero, next_check, scan_slots, found_or, fat_dir_lookup, long_entry,
  long_entries, name_entries,
}

-- the mark of the last entry, on numbers below 64
abbrev is_mark : ℕ → Bool
is_mark n = bit_xor (bit_or 64 n) 64 == n && bit_and (bit_or 64 n) 64 == 64 && bit_and n 64 == 0

mark_table : each_below is_mark 64 ≡ true
mark_table = refl

marked :
    (n : ℕ)
    → n < 64
    → (bit_xor (bit_or 64 n) 64 ≡ n) × (bit_and (bit_or 64 n) 64 ≡ 64) × (bit_and n 64 ≡ 0)
marked n h = ground (arith, test_of-each_below is_mark 64 n h mark_table)

-- the three fields that are set before the characters
header : (old : Slot) (mark sum : ℕ) → Slot
header old mark sum = set (set (set old 11 attr_long_name) 0 mark) 13 sum

record Header (mark : ℕ) (s : Slot) : Type 0 where
  size : length s ≡ 32
  ord : ldir_ord s ≡ mark
  kind : attr s ≡ attr_long_name

header-Header : (old : Slot) (mark sum : ℕ) → length old ≡ 32 → Header mark (header old mark sum)
unfolding header
header-Header old mark sum l =
    let a = set old 11 attr_long_name in
    let b = set a 0 mark in
    record {
      size = length-set b 13 sum ∙ length-set a 0 mark ∙ length-set old 11 attr_long_name ∙ l;
      ord = ground (
        arith,
        get_or-set b 13 0 sum 0,
        get_or-set a 0 0 mark 0,
        length-set old 11 attr_long_name,
      );
      kind = ground (
        arith,
        get_or-set b 13 11 sum 0,
        get_or-set a 0 11 mark 0,
        get_or-set old 11 11 attr_long_name 0,
      );
    }

-- What the lookup sees of a long entry that was written for `name`.
record Entry (name : CString) (mark : ℕ) (s : Slot) : Type 0 where
  ord : ldir_ord s ≡ mark
  kind : attr s ≡ attr_long_name
  accepted : (outside : Words) → cmp_long_name s name outside ≡ true

ord_of_header :
    (n mark : ℕ) (s : Slot)
    → n < 64
    → (mark ≡ n) ⊎ (mark ≡ bit_or 64 n)
    → ldir_ord s ≡ mark
    → ord_of s ≡ n
unfolding ord_of
ord_of_header n mark s h (inl e) o = rw (o, e) (ground (arith, marked n h))
ord_of_header n mark s h (inr e) o = rw (o, e) (ground (arith, marked n h))

long_entry-Entry :
    (name : CString) (sum n mark : ℕ) (old : Slot)
    → AllBytes name
    → length name < 2 ^ 32
    → n < 64
    → IsPart n name
    → (mark ≡ n) ⊎ (mark ≡ bit_or 64 n)
    → length old ≡ 32
    → Entry name mark (long_entry name sum n mark old)
unfolding long_entry header
long_entry-Entry name sum n mark old b small h starts m l =
    let k = header-Header old mark sum l in
    let f = fill_file_ln-Filled (header old mark sum) name n k.size in
    record {
      ord = f.mark ∙ k.ord;
      kind = f.kind ∙ k.kind;
      accepted = λ outside.
          cmp_long_name-fill (header old mark sum) name name outside n k.size b b small starts
            starts (ord_of_header n mark _ h m k.ord)
          ∙ same_text_refl 13 (drop ((n - 1) * 13) name);
    }

-- where a scan that finds nothing has been past a slot
passed :
    (long match : Bool) (s : Slot) (x y : Option Slot)
    → (if long then x else if match then some s else y) ≡ none
    → ((long ≡ true) × (x ≡ none)) ⊎ ((long ≡ false) × (match ≡ false) × (y ≡ none))
passed true match s x y h = inl (refl, h)
passed false true s x y h = absurd (cc h)
passed false false s x y h = inr (refl, refl, h)

found_or-none : (next r : Option Slot) → found_or next r ≡ none → (r ≡ none) × (next ≡ none)
found_or-none next none h = (refl, h)
found_or-none next (some s) h = absurd (cc h)

module _ (name : CString) (outside : Words) where
  next_check-plain :
      (n check : ℕ) (s : Slot)
      → n < 64
      → suc check < 64
      → Entry name n s
      → next_check name outside (suc check) s ≡ check
  unfolding next_check
  next_check-plain n check s h k e = rw (e.ord, e.accepted outside) (ground (arith, marked n h))

  next_check-last :
      (n check : ℕ) (s : Slot)
      → suc n < 64
      → Entry name (bit_or 64 (suc n)) s
      → next_check name outside check s ≡ n
  unfolding next_check
  next_check-last n check s h e = rw (e.ord, e.accepted outside) (ground (arith, marked (suc n) h))

  scan-long :
      (check mark : ℕ) (s : Slot) (rest : List Slot)
      → Entry name mark s
      → scan_slots name outside check (s ∷ rest)
        ≡ scan_slots name outside (next_check name outside check s) rest
  unfolding scan_slots
  scan-long check mark s rest e = rw e.kind refl

  scan-short :
      (s : Slot) (rest : List Slot)
      → bit_and (attr s) attr_long_name ≡ 0
      → scan_slots name outside 0 (s ∷ rest) ≡ some s
  unfolding scan_slots
  scan-short s rest e = rw e (ground arith)

  -- behind slots that do not match, the scan goes on with some `check`
  scan-past :
      (front xs : List Slot) (check : ℕ)
      → scan_slots name outside check (front ++ xs) ≡ none
      → (c : ℕ) × ((ys : List Slot)
          → scan_slots name outside check (front ++ ys) ≡ scan_slots name outside c ys)
  unfolding scan_slots
  scan-past [] xs check h = (check, λ ys. refl)
  scan-past (s ∷ front) xs check h =
      elim (passed (bit_and (attr s) attr_long_name != 0)
        (is_zero (cmp_file_name (take 11 s) name) || check == 0) s _ _ h) [
          | inl (long, left) ↦ rw long (scan-past front xs (next_check name outside check s) left)
          | inr (short, other, left) ↦ rw (short, other) (scan-past front xs check left)
        ]

  -- the clusters before do not match, so the one that changes decides
  lookup-past :
      (earlier later : List (List Slot)) (old new : List Slot) (r : Slot)
      → fat_dir_lookup name outside (earlier ++ (old ∷ later)) ≡ none
      → (scan_slots name outside 1 old ≡ none → scan_slots name outside 1 new ≡ some r)
      → fat_dir_lookup name outside (earlier ++ (new ∷ later)) ≡ some r
  unfolding fat_dir_lookup
  lookup-past [] later old new r h g =
      ap (found_or (fat_dir_lookup name outside later)) (g (found_or-none _ _ h).0)
  lookup-past (cluster ∷ earlier) later old new r h g =
      let (here, left) = found_or-none _ _ h in
      ap (found_or (fat_dir_lookup name outside (earlier ++ (new ∷ later)))) here
      ∙ lookup-past earlier later old new r left g

  module _ (sum : ℕ) (olds : ℕ → Slot) (short : Slot) (rest : List Slot) (bytes : AllBytes name)
      (sizes : (j : ℕ) → length (olds j) ≡ 32) (is_short : bit_and (attr short) attr_long_name ≡ 0)
      (few : length name < 819) where
    scan-entries :
        (m i : ℕ)
        → m < 64
        → (m - 1) * 13 ≤ length name
        → scan_slots name outside m (long_entries name sum m olds i ++ (short ∷ rest)) ≡ some short
    unfolding long_entries
    scan-entries zero i h starts = scan-short short rest is_short
    scan-entries (suc m) i h starts =
        let entry =
          long_entry-Entry name sum (suc m) (suc m) (olds i) bytes (omega arith) h
            (omega arith, starts) (inl refl) (sizes i) in
        scan-long (suc m) (suc m) _ _ entry
        ∙ ap
            (λ c.
              scan_slots name outside c (long_entries name sum m olds (i + 1) ++ (short ∷ rest)))
            (next_check-plain (suc m) m _ h h entry)
        ∙ scan-entries m (i + 1) (omega arith) (omega arith)

    scan-name :
        (check n : ℕ)
        → suc n < 64
        → n * 13 ≤ length name
        → scan_slots name outside check (
            long_entry name sum (suc n) (bit_or 64 (suc n)) (olds 0)
            ∷ (long_entries name sum n olds 1 ++ (short ∷ rest)))
          ≡ some short
    scan-name check n h starts =
        let entry =
          long_entry-Entry name sum (suc n) (bit_or 64 (suc n)) (olds 0) bytes (omega arith) h
            (omega arith, omega arith) (inr refl) (sizes 0) in
        scan-long check (bit_or 64 (suc n)) _ _ entry
        ∙ ap (λ c. scan_slots name outside c (long_entries name sum n olds 1 ++ (short ∷ rest)))
            (next_check-last n check _ h entry)
        ∙ scan-entries n 1 (omega arith) (omega arith)

    -- `check` may have any value before the entries
    scan_slots-name_entries :
        (check : ℕ)
        → scan_slots name outside check (name_entries name sum olds ++ (short ∷ rest)) ≡ some short
    unfolding name_entries
    scan_slots-name_entries check =
        let n : ℕ = length name / 13 in
        let one_more : n + 1 ≡ suc n = omega arith in
        let one_less : n + 1 - 1 ≡ n = omega arith in
        rw (one_less, one_more) (scan-name check n (omega arith) (omega arith))

-- A name of fewer than 819 bytes that `fat_dir_lookup` does not find in a directory is found once
-- the slots that `fat_alloc_LongNameFile` fills for it, whatever they held before and whatever
-- checksum they carry, and behind them the short entry, stand in one of its clusters in place of
-- what was there from some slot on: `fat_dir_lookup` returns that short entry, whatever stands in
-- the slots and the clusters before and behind.
pub fat_dir_lookup-name_entries :
    (name : CString) (outside : Words) (earlier later : List (List Slot)) (front held : List Slot)
    (sum : ℕ) (olds : ℕ → Slot) (short : Slot) (rest : List Slot)
    → AllBytes name
    → length name < 819
    → ((j : ℕ) → length (olds j) ≡ 32)
    → bit_and (attr short) attr_long_name ≡ 0
    → fat_dir_lookup name outside (earlier ++ ((front ++ held) ∷ later)) ≡ none
    → fat_dir_lookup name outside
        (earlier ++ ((front ++ (name_entries name sum olds ++ (short ∷ rest))) ∷ later))
      ≡ some short
fat_dir_lookup-name_entries name outside earlier later front held sum olds short rest b few sizes
      is_short not_there =
    lookup-past name outside earlier later (front ++ held) _ short not_there λ none_here.
      let (check, past) = scan-past name outside front held 1 none_here in
      past (name_entries name sum olds ++ (short ∷ rest))
      ∙ scan_slots-name_entries name outside sum olds short rest b sizes is_short few check
