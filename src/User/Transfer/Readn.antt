-- ===== src/User/Transfer/Readn.antt =====
-- `readn` reads what is there, however many bytes the device gives at a time.
use Prim.Native.Nat.{bit_and}
use buaa_os_mos_with_fat.Base.{
  ℕ, zero, suc, ◌+◌, ◌-◌, ◌^◌, ◌≤◌, ◌<◌, ◌≡◌, refl, true, false, ◌==◌, ltb, min, List, arith,
  Bool-cases, inl, inr, ap, ◌∙◌, Run, ok,
}
use buaa_os_mos_with_fat.Base.Bitmap.{Words}
use buaa_os_mos_with_fat.User.Descriptors.{fd_lookup}
use buaa_os_mos_with_fat.User.Transfer.{
  World, Fd, Dev, dev_lookup, advance, read, readn_loop, readn,
}
use buaa_os_mos_with_fat.User.Transfer.Source.{IsSource}
use buaa_os_mos_with_fat.User.Transfer.Advanced.{advance-Advanced}
use mathlib.Core.Path.{subst}
use buaa_os_mos_with_fat.User.Transfer.Moved.{Moved, nothing-Moved, joined, ended}

-- Descriptor fdnum is open for reading at an offset, and its device holds something.
pub record IsReady (devtab : List Dev) (dev : Dev) (Holds : World → Type 0) (fdnum fd offset : ℕ)
    (w : World) : Type 0 where
  pub looked : fd_lookup fdnum w.tables ≡ ok fd w.tables
  pub known : (v : World) → dev_lookup devtab (w.fd fd).fd_dev_id v ≡ ok dev v
  pub readable : (bit_and (w.fd fd).fd_omode 3 == 1) ≡ false
  pub at_offset : (w.fd fd).fd_offset ≡ offset
  pub holds : Holds w

module _ (devtab : List Dev) (dev : Dev) (Holds : World → Type 0) (fdnum fd lo hi size : ℕ)
    (content : Words) (source : IsSource dev.dev_read Holds fd lo hi size content) where
  abbrev Ready : ℕ → World → Type 0
  Ready = IsReady devtab dev Holds fdnum fd

  read_run :
      (w v : World) (buf n offset m : ℕ)
      → Ready offset w
      → dev.dev_read fd buf n offset w ≡ ok m v
      → read devtab fdnum buf n w ≡ advance fd m v
  unfolding read
  read_run w v buf n offset m r run = rw (r.looked, r.known w, r.readable, r.at_offset, run) refl

  -- one call of `read`
  read_lem :
      (w : World) (buf n offset : ℕ)
      → Ready offset w
      → lo ≤ buf
      → buf + n ≤ hi
      → offset + n < 2 ^ 32
      → (m : ℕ) × (u : World) × (read devtab fdnum buf n w ≡ ok m u)
        × (m ≤ min n (size - offset))
        × ((0 < n) → offset < size → 0 < m)
        × Moved content w buf offset m u
        × Ready (offset + m) u
  read_lem w buf n offset r low high small =
      let (m, v, run, few, some, took, holds) =
        source.reads w buf n offset r.holds low high small in
      let (u, advanced, adv) =
        advance-Advanced v fd m offset
          (ap (λ (d : Fd). d.fd_offset) (took.same_fd fd) ∙ r.at_offset) (omega (arith, few)) in
      let same_id : (u.fd fd).fd_dev_id ≡ (w.fd fd).fd_dev_id =
        adv.same_dev ∙ ap (λ (d : Fd). d.fd_dev_id) (took.same_fd fd) in
      let same_mode : (u.fd fd).fd_omode ≡ (w.fd fd).fd_omode =
        adv.same_mode ∙ ap (λ (d : Fd). d.fd_omode) (took.same_fd fd) in
      let tables_then : u.tables ≡ w.tables = adv.same_tables ∙ took.same_tables in
      (
        m,
        u,
        read_run w v buf n offset m r run ∙ advanced,
        few,
        some,
        record {
          taken = λ i h. adv.same_mem (buf + i) ∙ took.taken i h;
          kept = λ x h. adv.same_mem x ∙ took.kept x h;
        },
        record {
          looked = rw tables_then r.looked;
          known = λ x. ap (λ id. dev_lookup devtab id x) same_id ∙ r.known x;
          readable = ap (λ k. bit_and k 3 == 1) same_mode ∙ r.readable;
          at_offset = adv.now_at;
          holds = source.moves v u adv.same_mem adv.same_file holds;
        },
      )

  -- What the loop leaves when it has read up to `total` bytes.
  abbrev Done : (w : World) (buf tot offset total : ℕ) → Run World ℕ → Type 0
  Done w buf tot offset total run =
      (v : World) × (run ≡ ok total v)
      × Moved content w (buf + tot) (offset + tot) (total - tot) v
      × Ready (offset + total) v

  readn_stop :
      (rounds tot buf n : ℕ) (w : World)
      → ltb tot n ≡ false
      → readn_loop devtab rounds tot fdnum buf n w ≡ ok tot w
  unfolding readn_loop
  readn_stop zero tot buf n w h = rw h refl
  readn_stop (suc rounds) tot buf n w h = rw h refl

  readn_end :
      (rounds tot buf n : ℕ) (w u : World)
      → ltb tot n ≡ true
      → read devtab fdnum (buf + tot) (n - tot) w ≡ ok 0 u
      → readn_loop devtab (suc rounds) tot fdnum buf n w ≡ ok tot u
  unfolding readn_loop
  readn_end rounds tot buf n w u h run = rw (h, run) refl

  readn_more :
      (rounds tot buf n m : ℕ) (w u : World)
      → ltb tot n ≡ true
      → read devtab fdnum (buf + tot) (n - tot) w ≡ ok m u
      → (m == 0) ≡ false
      → readn_loop devtab (suc rounds) tot fdnum buf n w
        ≡ readn_loop devtab rounds (tot + m) fdnum buf n u
  unfolding readn_loop
  readn_more rounds tot buf n m w u h run some = rw (h, run, some) refl

  stopped :
      (w u : World) (buf tot offset total : ℕ) (run : Run World ℕ)
      → tot ≡ total
      → run ≡ ok tot u
      → Moved content w (buf + tot) (offset + tot) 0 u
      → Ready (offset + tot) u
      → Done w buf tot offset total run
  stopped w u buf tot offset total run e same moved ready =
      let none : 0 ≡ total - tot = omega arith in
      (
        u,
        same ∙ ap (λ k. ok k u) e,
        subst (λ k. Moved content w (buf + tot) (offset + tot) k u) none moved,
        subst (λ k. Ready (offset + k) u) e ready,
      )

  readn_loop-Done :
      (rounds tot buf n offset total : ℕ) (w : World)
      → total ≡ min n (size - offset)
      → Ready (offset + tot) w
      → tot ≤ total
      → n ≤ tot + rounds
      → lo ≤ buf
      → buf + n ≤ hi
      → offset + n < 2 ^ 32
      → Done w buf tot offset total (readn_loop devtab rounds tot fdnum buf n w)
  readn_loop-Done zero tot buf n offset total w e r few enough low high small =
      let full : ltb tot n ≡ false = ground arith in
      stopped w w buf tot offset total _ (omega arith) (readn_stop zero tot buf n w full)
        (nothing-Moved content w (buf + tot) (offset + tot)) r
  readn_loop-Done (suc rounds) tot buf n offset total w e r few enough low high small =
      elim (Bool-cases (ltb tot n)) [
        | inr full ↦
            stopped w w buf tot offset total _ (ground arith)
              (readn_stop (suc rounds) tot buf n w full)
              (nothing-Moved content w (buf + tot) (offset + tot)) r
        | inl some ↦
            let rest : tot < n = ground arith in
            let (m, u, run, at_most, progress, moved, ready) =
              read_lem w (buf + tot) (n - tot) (offset + tot) r (omega arith) (omega arith)
                (omega arith) in
            elim (Bool-cases (m == 0)) [
              | inl nothing ↦
                  let none : m ≡ 0 = ground arith in
                  let here : offset + tot + m ≡ offset + tot = omega arith in
                  stopped w u buf tot offset total _
                    (ended size n offset tot total m e few rest none progress)
                    (readn_end rounds tot buf n w u some (run ∙ ap (λ k. ok k u) none))
                    (subst (λ k. Moved content w (buf + tot) (offset + tot) k u) none moved)
                    (subst (λ k. Ready k u) here ready)
              | inr something ↦
                  let on : offset + tot + m ≡ offset + (tot + m) = omega arith in
                  let m_pos : 0 < m = ground arith in
                  let (v, more, moved_on, ready_then) =
                    readn_loop-Done rounds (tot + m) buf n offset total u e
                      (subst (λ k. Ready k u) on ready) (omega (arith, at_most)) (omega arith) low
                      high small in
                  (
                    v,
                    readn_more rounds tot buf n m w u some run something ∙ more,
                    joined content w u v buf offset tot m total (omega (arith, at_most)) moved
                        moved_on,
                    ready_then,
                  )
            ]
      ]

  -- Of a descriptor that is open for reading at an offset, on a device that gives between one byte
  -- and all that are asked for and left, `readn` into the device's kind of buffer returns n, or as
  -- many bytes as there are behind the offset if these are fewer; they stand in the buffer in their
  -- order, no other memory changes, and the descriptor is open behind them.
  pub readn-Moved :
      (w : World) (buf n offset : ℕ)
      → Ready offset w
      → lo ≤ buf
      → buf + n ≤ hi
      → offset + n < 2 ^ 32
      → (v : World) × (readn devtab fdnum buf n w ≡ ok (min n (size - offset)) v)
        × Moved content w buf offset (min n (size - offset)) v
        × Ready (offset + min n (size - offset)) v
  unfolding readn
  readn-Moved w buf n offset r low high small =
      let start : offset ≡ offset + 0 = omega arith in
      let (v, run, moved, ready) =
        readn_loop-Done n 0 buf n offset (min n (size - offset)) w refl
          (subst (λ k. Ready k w) start r) (omega arith) (omega arith) low high small in
      (v, run, from_start w v buf offset (min n (size - offset)) moved, ready)
    where
      from_start :
          (w v : World) (buf offset k : ℕ)
          → Moved content w (buf + 0) (offset + 0) (k - 0) v
          → Moved content w buf offset k v
      from_start w v buf offset k moved =
          let a : buf + 0 ≡ buf = omega arith in
          let b : offset + 0 ≡ offset = omega arith in
          let c : k - 0 ≡ k = omega arith in
          subst (λ x. Moved content w x offset k v) a
            (subst (λ x. Moved content w (buf + 0) x k v) b
              (subst (λ x. Moved content w (buf + 0) (offset + 0) x v) c moved))
