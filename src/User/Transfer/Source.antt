-- ===== src/User/Transfer/Source.antt =====
-- What `readn` relies on in a device, and that `file_read` provides it.
use buaa_os_mos_with_fat.Base.{
  ℕ, ◌+◌, ◌-◌, ◌%◌, ◌^◌, ◌≤◌, ◌<◌, ◌≡◌, refl, Bool, true, false, ◌!=◌, ltb, if◌then◌else◌, min,
  arith, Bool-cases, ◌⊎◌, inl, inr, sym, ap, ◌∙◌, ok, Cmd,
}
use buaa_os_mos_with_fat.Base.Bitmap.{Words}
use buaa_os_mos_with_fat.User.Descriptors.{fd2data}
use buaa_os_mos_with_fat.User.Transfer.{World, copy, read_part, file_read_fat, file_read}

-- m bytes of the content from `offset` on now stand at buf, and nothing else has changed.
pub record Took (content : Words) (w : World) (buf offset m : ℕ) (v : World) : Type 0 where
  pub same_tables : v.tables ≡ w.tables
  pub same_fd : (a : ℕ) → v.fd a ≡ w.fd a
  pub same_size : (a : ℕ) → (v.f_size a ≡ w.f_size a) × (v.fat_size a ≡ w.fat_size a)
  pub taken : (i : ℕ) → i < m → v.mem (buf + i) ≡ content (offset + i)
  pub kept : (x : ℕ) → (x < buf) ⊎ (buf + m ≤ x) → v.mem x ≡ w.mem x

-- A device that holds `size` bytes of content for the descriptor: where memory from lo up to hi is a
-- buffer, a read gives at most what is asked for and what is left, and something if it can.
pub record IsSource (dev_read : (fd buf n offset : ℕ) → Cmd World ℕ) (Holds : World → Type 0)
    (fd lo hi size : ℕ) (content : Words) : Type 0 where
  pub reads :
      (w : World) (buf n offset : ℕ)
      → Holds w
      → lo ≤ buf
      → buf + n ≤ hi
      → offset + n < 2 ^ 32
      → (m : ℕ) × (v : World) × (dev_read fd buf n offset w ≡ ok m v)
        × (m ≤ min n (size - offset))
        × ((0 < n) → offset < size → 0 < m)
        × Took content w buf offset m v
        × Holds v
  pub moves :
      (w v : World)
      → ((x : ℕ) → v.mem x ≡ w.mem x)
      → ((a : ℕ)
          → ((v.fd a).fd_fat ≡ (w.fd a).fd_fat)
            × (v.f_size a ≡ w.f_size a)
            × (v.fat_size a ≡ w.fat_size a))
      → Holds w
      → Holds v

-- The pages of the file are in memory, with its size in the descriptor.
pub record Mapped (fd size : ℕ) (content : Words) (w : World) : Type 0 where
  pub sized : (if (w.fd fd).fd_fat != 0 then w.fat_size fd else w.f_size fd) ≡ size
  pub bytes : (i : ℕ) → i < size → w.mem (fd2data fd + i) ≡ content i

copy_in : (dst src n : ℕ) (m : Words) (i : ℕ) → i < n → copy dst src n m (dst + i) ≡ m (src + i)
unfolding copy
copy_in dst src n m i h =
    let inside : ltb (dst + i) dst ≡ false = ground arith in
    let e : dst + i - dst ≡ i = omega arith in
    let small : ltb i n ≡ true = ground arith in rw (inside, e, small) refl

copy_out :
    (dst src n : ℕ) (m : Words) (x : ℕ) → (x < dst) ⊎ (dst + n ≤ x) → copy dst src n m x ≡ m x
unfolding copy
copy_out dst src n m x h = ground (arith, h)

file_read-part :
    (fd buf n offset size : ℕ) (content : Words) (w : World)
    → Mapped fd size content w
    → file_read fd buf n offset w ≡ read_part size fd buf n offset w
unfolding file_read file_read_fat
file_read-part fd buf n offset size content w h = elim (Bool-cases ((w.fd fd).fd_fat != 0)) [
  | inl fat ↦ let e : w.fat_size fd ≡ size = sym (if-true _ _ _ fat) ∙ h.sized in rw (fat, e) refl
  | inr plain ↦
      let e : w.f_size fd ≡ size = sym (if-false _ _ _ plain) ∙ h.sized in rw (plain, e) refl
]
  where
    if-true : (b : Bool) (x y : ℕ) → b ≡ true → (if b then x else y) ≡ x
    if-true b x y e = rw e refl

    if-false : (b : Bool) (x y : ℕ) → b ≡ false → (if b then x else y) ≡ y
    if-false b x y e = rw e refl

-- what is read when `count` bytes are there
abbrev after_read : (fd buf offset count : ℕ) → World → World
after_read fd buf offset count w = record w { mem = copy buf (fd2data fd + offset) count w.mem }

read_part_lem :
    (size fd buf n offset : ℕ) (w : World)
    → offset + n < 2 ^ 32
    → offset ≤ size
    → read_part size fd buf n offset w
      ≡ ok (min n (size - offset)) (after_read fd buf offset (min n (size - offset)) w)
unfolding read_part
read_part_lem size fd buf n offset w small inside =
    let test : ltb size offset ≡ false = ground arith in
    let e : (if ltb size ((offset + n) % 2 ^ 32) then size - offset else n)
        ≡ min n (size - offset) =
      ground arith in
    rw (test, e) refl

read_part-past :
    (size fd buf n offset : ℕ) (w : World)
    → size < offset
    → read_part size fd buf n offset w ≡ ok 0 w
unfolding read_part
read_part-past size fd buf n offset w past =
    let test : ltb size offset ≡ true = ground arith in rw test refl

after_read-Took :
    (fd lo hi size : ℕ) (content : Words) (w : World) (buf offset m : ℕ)
    → Mapped fd size content w
    → offset + m ≤ size
    → Took content w buf offset m (after_read fd buf offset m w)
after_read-Took fd lo hi size content w buf offset m h inside = record {
  same_tables = refl;
  same_fd = λ a. refl;
  same_size = λ a. (refl, refl);
  taken = λ i g.
      let e : fd2data fd + offset + i ≡ fd2data fd + (offset + i) = omega arith in
      copy_in buf (fd2data fd + offset) m w.mem i g
      ∙ ap w.mem e
      ∙ h.bytes (offset + i) (omega arith);
  kept = copy_out buf (fd2data fd + offset) m w.mem;
}

after_read-Mapped :
    (fd size : ℕ) (content : Words) (w : World) (buf offset m : ℕ)
    → (buf + m ≤ fd2data fd) ⊎ (fd2data fd + size ≤ buf)
    → Mapped fd size content w
    → Mapped fd size content (after_read fd buf offset m w)
after_read-Mapped fd size content w buf offset m apart h = record {
  sized = h.sized;
  bytes = λ i g.
      copy_out buf (fd2data fd + offset) m w.mem (fd2data fd + i)
        (beside buf m (fd2data fd) size i apart g)
      ∙ h.bytes i g;
}
  where
    beside :
        (buf m pages size i : ℕ)
        → (buf + m ≤ pages) ⊎ (pages + size ≤ buf)
        → i < size
        → (pages + i < buf) ⊎ (buf + m ≤ pages + i)
    beside buf m pages size i (inl below) g = inr (omega arith)
    beside buf m pages size i (inr above) g = inl (omega arith)

file_reads :
    (fd lo hi size : ℕ) (content : Words)
    → (hi ≤ fd2data fd) ⊎ (fd2data fd + size ≤ lo)
    → (w : World) (buf n offset : ℕ) → Mapped fd size content w
    → lo ≤ buf
    → buf + n ≤ hi
    → offset + n < 2 ^ 32
    → (m : ℕ) × (v : World) × (file_read fd buf n offset w ≡ ok m v)
      × (m ≤ min n (size - offset))
      × ((0 < n) → offset < size → 0 < m)
      × Took content w buf offset m v
      × Mapped fd size content v
file_reads fd lo hi size content apart w buf n offset h low high small =
    elim (Bool-cases (ltb size offset)) [
      | inl past ↦
          let beyond : size < offset = ground arith in
          (
            0,
            w,
            file_read-part fd buf n offset size content w h
                ∙ read_part-past size fd buf n offset w beyond,
            omega arith,
            (λ p q. omega arith),
            nothing-Took content w buf offset,
            h,
          )
      | inr within ↦
          let inside : offset ≤ size = ground arith in
          let m : ℕ = min n (size - offset) in
          (
            m,
            after_read fd buf offset m w,
            file_read-part fd buf n offset size content w h
                ∙ read_part_lem size fd buf n offset w small inside,
            omega arith,
            (λ p q. omega arith),
            after_read-Took fd lo hi size content w buf offset m h (omega arith),
            after_read-Mapped fd size content w buf offset m (beside_pages m (omega arith) apart) h,
          )
    ]
  where
    nothing-Took : (content : Words) (w : World) (buf offset : ℕ) → Took content w buf offset 0 w
    nothing-Took content w buf offset = record {
      same_tables = refl;
      same_fd = λ a. refl;
      same_size = λ a. (refl, refl);
      taken = λ i g. absurd (omega arith);
      kept = λ x g. refl;
    }

    beside_pages :
        (m : ℕ)
        → m ≤ n
        → (hi ≤ fd2data fd) ⊎ (fd2data fd + size ≤ lo)
        → (buf + m ≤ fd2data fd) ⊎ (fd2data fd + size ≤ buf)
    beside_pages m few (inl below) = inl (omega arith)
    beside_pages m few (inr above) = inr (omega arith)

-- `file_read` is such a device where the pages of the file are in memory with its size in the
-- descriptor, on either file system, for a buffer that does not overlap these pages.
pub file_read-IsSource :
    (fd lo hi size : ℕ) (content : Words)
    → (hi ≤ fd2data fd) ⊎ (fd2data fd + size ≤ lo)
    → IsSource file_read (Mapped fd size content) fd lo hi size content
file_read-IsSource fd lo hi size content apart = record {
  reads = λ w buf n offset h low high small.
      file_reads fd lo hi size content apart w buf n offset h low high small;
  moves = λ w v mem keep h. record {
    sized =
        fat_same (w.fd fd).fd_fat (v.fd fd).fd_fat (w.f_size fd) (v.f_size fd) (w.fat_size fd)
          (v.fat_size fd) size (keep fd) h.sized;
    bytes = λ i g. mem (fd2data fd + i) ∙ h.bytes i g;
  };
}
  where
    fat_same :
        (a b x y p q size : ℕ)
        → (b ≡ a) × (y ≡ x) × (q ≡ p)
        → (if a != 0 then p else x) ≡ size
        → (if b != 0 then q else y) ≡ size
    fat_same a b x y p q size (e, f, g) h = rw (e, f, g) h
