-- ===== src/User/Transfer/Advanced.antt =====
-- `advance` moves the offset of its descriptor, and nothing else.
use buaa_os_mos_with_fat.Base.{
  ℕ, ◌+◌, ◌%◌, ◌^◌, ◌<◌, ◌≡◌, refl, true, ◌==◌, ltb, arith, Bool-cases, inl, inr, ◌∙◌, ok,
}
use buaa_os_mos_with_fat.User.Transfer.{World, set_offset, advance}

-- only the offset of the descriptor may have changed
pub record Advanced (fd offset : ℕ) (v u : World) : Type 0 where
  pub same_tables : u.tables ≡ v.tables
  pub now_at : (u.fd fd).fd_offset ≡ offset
  pub same_dev : (u.fd fd).fd_dev_id ≡ (v.fd fd).fd_dev_id
  pub same_mode : (u.fd fd).fd_omode ≡ (v.fd fd).fd_omode
  pub same_mem : (x : ℕ) → u.mem x ≡ v.mem x
  pub same_file :
      (a : ℕ)
      → ((u.fd a).fd_fat ≡ (v.fd a).fd_fat)
        × (u.f_size a ≡ v.f_size a)
        × (u.fat_size a ≡ v.fat_size a)

same_number : (k : ℕ) → (k == k) ≡ true
same_number k = ground arith

set_offset-Advanced : (fd offset : ℕ) (v : World) → Advanced fd offset v (set_offset fd offset v)
unfolding set_offset
set_offset-Advanced fd offset v = record {
  same_tables = refl;
  now_at = rw (same_number fd) refl;
  same_dev = rw (same_number fd) refl;
  same_mode = rw (same_number fd) refl;
  same_mem = λ x. refl;
  same_file = λ a. elim (Bool-cases (a == fd)) [
    | inl same ↦ rw same (refl, refl, refl)
    | inr other ↦ rw other (refl, refl, refl)
  ];
}

-- What `advance` does when the descriptor was at `offset`.
pub advance-Advanced :
    (v : World) (fd m offset : ℕ)
    → (v.fd fd).fd_offset ≡ offset
    → offset + m < 2 ^ 32
    → (u : World) × (advance fd m v ≡ ok m u) × Advanced fd (offset + m) v u
unfolding advance
advance-Advanced v fd m offset at_offset small = elim (Bool-cases (ltb 0 m)) [
  | inl some ↦
      let e : ((v.fd fd).fd_offset + m) % 2 ^ 32 ≡ offset + m = omega (arith, at_offset) in
      (set_offset fd (offset + m) v, rw (some, e) refl, set_offset-Advanced fd (offset + m) v)
  | inr none ↦ (
    v,
    rw none refl,
    record {
      same_tables = refl;
      now_at = at_offset ∙ ground arith;
      same_dev = refl;
      same_mode = refl;
      same_mem = λ x. refl;
      same_file = λ a. (refl, refl, refl);
    },
  )
]
