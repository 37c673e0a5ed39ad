-- ===== src/Fs/Opens/Allocated.antt =====
-- The numbers of open files lead back to their entries.
use buaa_os_mos_with_fat.Base.{
  ℕ, zero, suc, ◌+◌, ◌%◌, ◌^◌, ◌≤◌, ◌<◌, ◌≡◌, ◌≢◌, refl, Bool, true, false, ◌||◌, ◌==◌, ◌!=◌,
  if◌then◌else◌, no_mem, max_open, inval, Run, ok, err, arith, Bool-cases, ◌⊎◌, inl, inr, ap,
}
use buaa_os_mos_with_fat.Base.Bitmap.{update, update_here}
use buaa_os_mos_with_fat.Fs.Opens.{
  Table, maxopen, serve_init, give, open_scan, open_alloc, open_lookup, share,
}

-- the number of an entry is its index below, and a counter above
abbrev pub IsNumbered : Table → Type 0
IsNumbered t = (i : ℕ) → i < maxopen → (t.o_fileid i % maxopen ≡ i) × (t.o_fileid i < 2 ^ 32)

-- What has happened to the table when entry i is given out under the number id.
pub record Given (t : Table) (i id : ℕ) (n : Table) : Type 0 where
  pub index : i < maxopen
  pub unused : t.refs i ≤ 1
  pub new_id : id ≡ (t.o_fileid i + maxopen) % 2 ^ 32
  pub numbered : IsNumbered n
  pub finds : open_lookup id (share i n) ≡ ok i (share i n)
  pub old_id : open_lookup (t.o_fileid i) (share i n) ≡ err inval (share i n)
  pub others : (j : ℕ) → j ≢ i → (n.o_fileid j ≡ t.o_fileid j) × (n.refs j ≡ t.refs j)
  pub cleared : (w : ℕ) → n.pages i w ≡ 0

lookup_ok :
    (t : Table) (i id : ℕ)
    → id % maxopen ≡ i
    → t.refs i ≢ 1
    → t.o_fileid i ≡ id
    → open_lookup id t ≡ ok i t
unfolding open_lookup
lookup_ok t i id index shared own =
    let test : (t.refs (id % maxopen) == 1 || t.o_fileid (id % maxopen) != id) ≡ false =
      rw index (ground arith) in
    rw test (ap (λ x. ok x t) index)

lookup_err :
    (t : Table) (i id : ℕ) → id % maxopen ≡ i → t.o_fileid i ≢ id → open_lookup id t ≡ err inval t
unfolding open_lookup
lookup_err t i id index own =
    let test : (t.refs (id % maxopen) == 1 || t.o_fileid (id % maxopen) != id) ≡ true =
      rw index (ground arith) in
    rw test refl

module _ (t n : Table) (i : ℕ) (v : IsNumbered t) (low : i < maxopen) (free : t.refs i ≤ 1)
    (ids : (j : ℕ)
      → n.o_fileid j ≡ (if j == i then (t.o_fileid i + maxopen) % 2 ^ 32 else t.o_fileid j))
    (held : n.refs i ≡ 1) (rest : (j : ℕ) → j ≢ i → n.refs j ≡ t.refs j)
    (blank : (w : ℕ) → n.pages i w ≡ 0) where
  abbrev id : ℕ
  id = (t.o_fileid i + maxopen) % 2 ^ 32

  id_index : id % maxopen ≡ i
  id_index = let (a, b) = v i low in omega arith

  own_id : n.o_fileid i ≡ id
  own_id = ground (arith, ids i)

  shared_refs : (share i n).refs i ≢ 1
  unfolding share
  shared_refs e = omega (arith, update_here n.refs i (n.refs i + 1))

  shared_id : (share i n).o_fileid i ≡ id
  unfolding share
  shared_id = own_id

  pub Given-id : Given t i id n
  Given-id = record {
    index = low;
    unused = free;
    new_id = refl;
    numbered = λ j h. ground (arith, ids j, v j h, id_index);
    finds = lookup_ok (share i n) i id id_index shared_refs shared_id;
    old_id =
        lookup_err (share i n) i (t.o_fileid i) (v i low).0
          (λ e. let (a, b) = v i low in omega (arith, shared_id));
    others = λ j ne. (ground (arith, ids j), rest j ne);
    cleared = blank;
  }

-- What a search from entry i on for `rounds` entries may return.
abbrev pub Opened : (granted : Bool) → (rounds i : ℕ) → Table → Run Table (ℕ × ℕ) → Type 0
Opened granted rounds i t (ok (a, id) n) =
    Given t a id n × (i ≤ a) × ((j : ℕ) → i ≤ j → j < a → 1 < t.refs j)
Opened granted rounds i t (err e n) =
    (n ≡ t)
    × (((e ≡ max_open) × ((j : ℕ) → i ≤ j → j < i + rounds → 1 < t.refs j))
        ⊎ ((e ≡ no_mem)
            × (granted ≡ false)
            × (a : ℕ) × (i ≤ a)
            × (a < i + rounds)
            × (t.refs a ≡ 0)
            × ((j : ℕ) → i ≤ j → j < a → 1 < t.refs j)))
Opened granted rounds i t Run.panic = ⊥

Opened-next :
    (granted : Bool) (rounds i : ℕ) (t : Table) (r : Run Table (ℕ × ℕ))
    → 1 < t.refs i
    → Opened granted rounds (i + 1) t r
    → Opened granted (suc rounds) i t r
Opened-next granted rounds i t (ok (a, id) n) busy (given, low, before) =
    (given, omega arith, λ j h g. ground (arith, before j))
Opened-next granted rounds i t (err e n) busy (same, inl (code, all)) =
    (same, inl (code, λ j h g. ground (arith, all j)))
Opened-next granted rounds i t (err e n) busy
      (same, inr (code, no_page, a, low, high, free, before)) =
    (
      same,
      inr (code, no_page, a, omega arith, omega arith, free, λ j h g. ground (arith, before j)),
    )
Opened-next granted rounds i t Run.panic busy no_way = no_way

module _ (granted : Bool) (rounds i : ℕ) (t : Table) (v : IsNumbered t) (low : i < maxopen) where
  given_new :
      t.refs i ≡ 0 → Opened granted rounds i t (give i (record t { refs = update t.refs i 1 }))
  unfolding give update
  given_new empty = (
    Given-id t _ i v low (omega arith) (λ j. ground arith) (ground arith) (λ j ne. ground arith)
        (λ w. ground arith),
    omega arith,
    λ j h g. absurd (omega arith),
  )

  given_again : t.refs i ≡ 1 → Opened granted rounds i t (give i t)
  unfolding give update
  given_again one = (
    Given-id t _ i v low (omega arith) (λ j. ground arith) one (λ j ne. refl) (λ w. ground arith),
    omega arith,
    λ j h g. absurd (omega arith),
  )

open_scan-Opened :
    (granted : Bool) (rounds i : ℕ) (t : Table)
    → IsNumbered t
    → i + rounds ≤ maxopen
    → Opened granted rounds i t (open_scan granted rounds i t)
unfolding open_scan
open_scan-Opened granted zero i t v h = (refl, inl (refl, λ j p q. absurd (omega arith)))
open_scan-Opened granted (suc rounds) i t v h = elim (Bool-cases (t.refs i == 0)) [
  | inl empty ↦ elim (Bool-cases granted) [
    | inl yes_page ↦
        rw (empty, yes_page) (given_new true (suc rounds) i t v (omega arith) (ground arith))
    | inr no_page ↦
        rw (empty, no_page)
          (
            refl,
            inr (
              refl,
              refl,
              i,
              omega arith,
              omega arith,
              ground arith,
              λ j p q. absurd (omega arith),
            ),
          )
  ]
  | inr full ↦ elim (Bool-cases (t.refs i == 1)) [
    | inl one ↦ rw (full, one) (given_again granted (suc rounds) i t v (omega arith) (ground arith))
    | inr more ↦
        rw (full, more)
          (Opened-next granted rounds i t _ (ground arith)
            (open_scan-Opened granted rounds (i + 1) t v (omega arith)))
  ]
]

-- On a table whose numbers end in their indices, `open_alloc` gives out the first entry whose page
-- no client has, under a new number, with a cleared page: once the client has the page,
-- `open_lookup` of the new number finds the entry, and of the number before fails with -E_INVAL;
-- the other entries stay. It fails, changing nothing, with -E_MAX_OPEN if clients have all pages,
-- and with -E_NO_MEM if that entry needs a page and the kernel has none.
pub open_alloc-Opened :
    (granted : Bool) (t : Table) → IsNumbered t → Opened granted maxopen 0 t (open_alloc granted t)
unfolding open_alloc
open_alloc-Opened granted t v = open_scan-Opened granted maxopen 0 t v (omega arith)

pub serve_init-IsNumbered : (t : Table) → IsNumbered (serve_init t)
unfolding serve_init
serve_init-IsNumbered t i h = (omega arith, omega arith)
