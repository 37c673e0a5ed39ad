-- ===== src/User/Pipe/Fifo.antt =====
-- A pipe is a queue of at most 32 bytes, however its two ends interleave.
use buaa_os_mos_with_fat.Base.{
  ap, ℕ, ◌+◌, ◌%◌, ◌^◌, ◌≤◌, ◌<◌, ◌≡◌, ◌≢◌, refl, Bool, true, false, arith,
}
use buaa_os_mos_with_fat.Base.Bitmap.{Words, update}
use buaa_os_mos_with_fat.User.Pipe.{
  Pipe, Reader, Writer, System, by2pipe, returned, first, first_check, each, wait, check, copy,
  advance, written, each_byte, full, full_check, store, publish, read_next, read_effect, write_next,
  write_effect, got_next, out_next, sent_next, in_next, reader_moves, writer_moves, Step, reads,
  writes, calls_read, calls_write, Reach, start, later,
}

-- the reader has seen a byte; it has copied it
abbrev holds : Reader → Bool
holds (copy i n) = true
holds (advance i n) = true
holds _ = false

abbrev has_copied : Reader → Bool
has_copied (advance i n) = true
has_copied _ = false

-- the writer has seen room; it has stored its byte
abbrev has_room : Writer → Bool
has_room (store wbuf i n) = true
has_room (publish wbuf i n) = true
has_room _ = false

abbrev has_stored : Writer → Bool
has_stored (publish wbuf i n) = true
has_stored _ = false

-- What holds at every point, as long as the positions have not wrapped.
record Inv (p : Pipe) (r : Reader) (w : Writer) (sent got : Words) (ins outs : ℕ) : Type 0 where
  rpos : p.p_rpos ≡ outs
  wpos : p.p_wpos ≡ ins
  order : outs ≤ ins
  bounded : ins ≤ outs + 32
  ready : holds r ≡ true → outs < ins
  room : has_room w ≡ true → ins < outs + 32
  held : (k : ℕ) → outs ≤ k → k < ins → p.p_buf (k % 32) ≡ sent k
  stored : has_stored w ≡ true → p.p_buf (ins % 32) ≡ sent ins
  same : (k : ℕ) → k < outs → got k ≡ sent k
  copied : has_copied r ≡ true → got outs ≡ sent outs

module _ (p : Pipe) (w : Writer) (sent got : Words) (ins outs : ℕ) (small : ins < 2 ^ 32) where
  -- a move of the reader that touches nothing
  reader_goes :
      (r t : Reader)
      → Inv p r w sent got ins outs
      → (holds t ≡ true → outs < ins)
      → has_copied t ≡ false
      → Inv p t w sent got ins outs
  reader_goes r t v ready none = record {
    rpos = v.rpos;
    wpos = v.wpos;
    order = v.order;
    bounded = v.bounded;
    ready = ready;
    room = v.room;
    held = v.held;
    stored = v.stored;
    same = v.same;
    copied = λ e. ground arith;
  }

  reader_copies :
      (i n : ℕ)
      → Inv p (copy i n) w sent got ins outs
      → Inv p (advance i n) w sent (update got outs (p.p_buf (p.p_rpos % 32))) ins outs
  unfolding update
  reader_copies i n v = record {
    rpos = v.rpos;
    wpos = v.wpos;
    order = v.order;
    bounded = v.bounded;
    ready = v.ready;
    room = v.room;
    held = v.held;
    stored = v.stored;
    same = λ k h. ground (arith, v.same k);
    copied = λ e. ground (arith, ap (λ x. p.p_buf (x % 32)) v.rpos, v.held outs, v.ready);
  }

  reader_advances :
      (i n : ℕ)
      → Inv p (advance i n) w sent got ins outs
      → Inv
          (record p { p_rpos = (p.p_rpos + 1) % 2 ^ 32 })
          (each (i + 1) n)
          w
          sent
          got
          ins
          (outs + 1)
  reader_advances i n v = record {
    rpos = omega (arith, v.rpos, v.ready refl);
    wpos = v.wpos;
    order = omega (arith, v.ready refl);
    bounded = omega (arith, v.bounded);
    ready = λ e. ground arith;
    room = λ e. ground (arith, v.room);
    held = λ k h l. v.held k (omega arith) l;
    stored = v.stored;
    same = λ k h. ground (arith, v.same k, v.copied);
    copied = λ e. ground arith;
  }

  reader-Inv :
      (closed : Bool) (r : Reader)
      → Inv p r w sent got ins outs
      → Inv
          (read_effect r p)
          (read_next closed r p)
          w
          sent
          (got_next r (record {
            pipe = p;
            reader = r;
            writer = w;
            sent = sent;
            got = got;
            count_in = ins;
            count_out = outs;
          }))
          ins
          (out_next r outs)
  unfolding read_effect read_next update
  reader-Inv closed (returned x) v = v
  reader-Inv closed (first n) v = reader_goes _ _ v (λ e. ground arith) (ground arith)
  reader-Inv closed (first_check n) v = reader_goes _ _ v (λ e. ground arith) (ground arith)
  reader-Inv closed (each i n) v = reader_goes _ _ v (λ e. ground arith) (ground arith)
  reader-Inv closed (wait i n) v =
      reader_goes _ _ v (λ e. ground (arith, v.rpos, v.wpos)) (ground arith)
  reader-Inv closed (check i n) v = reader_goes _ _ v (λ e. ground arith) (ground arith)
  reader-Inv closed (copy i n) v = reader_copies i n v
  reader-Inv closed (advance i n) v = reader_advances i n v

module _ (p : Pipe) (r : Reader) (sent got : Words) (ins outs : ℕ) where
  writer_goes :
      (w t : Writer)
      → Inv p r w sent got ins outs
      → (has_room t ≡ true → ins < outs + 32)
      → has_stored t ≡ false
      → Inv p r t sent got ins outs
  writer_goes w t v room none = record {
    rpos = v.rpos;
    wpos = v.wpos;
    order = v.order;
    bounded = v.bounded;
    ready = v.ready;
    room = room;
    held = v.held;
    stored = λ e. ground arith;
    same = v.same;
    copied = v.copied;
  }

  -- the slot of the next byte is none of those that hold one
  free_slot : (k : ℕ) → outs ≤ k → k < ins → ins < outs + 32 → k % 32 ≢ ins % 32
  free_slot k h l room e = omega arith

  writer_stores :
      (wbuf : Words) (i n : ℕ)
      → Inv p r (store wbuf i n) sent got ins outs
      → Inv
          (record p { p_buf = update p.p_buf (p.p_wpos % 32) (wbuf i) })
          r
          (publish wbuf i n)
          (update sent ins (wbuf i))
          got
          ins
          outs
  unfolding update
  writer_stores wbuf i n v = record {
    rpos = v.rpos;
    wpos = v.wpos;
    order = v.order;
    bounded = v.bounded;
    ready = v.ready;
    room = v.room;
    held = λ k h l. ground (arith, v.held k h l, v.wpos, free_slot k h l (v.room refl));
    stored = λ e. ground (arith, v.wpos);
    same = λ k h. ground (arith, v.same k h, v.order);
    copied = λ e. ground (arith, v.copied e, v.ready);
  }

  writer_publishes :
      (wbuf : Words) (i n : ℕ)
      → ins + 1 < 2 ^ 32
      → Inv p r (publish wbuf i n) sent got ins outs
      → Inv
          (record p { p_wpos = (p.p_wpos + 1) % 2 ^ 32 })
          r
          (each_byte wbuf (i + 1) n)
          sent
          got
          (ins + 1)
          outs
  writer_publishes wbuf i n small v = record {
    rpos = v.rpos;
    wpos = omega (arith, v.wpos);
    order = omega (arith, v.order);
    bounded = omega (arith, v.room refl);
    ready = λ e. ground (arith, v.ready);
    room = λ e. ground arith;
    held = λ k h l. ground (arith, v.held k, v.stored);
    stored = λ e. ground arith;
    same = v.same;
    copied = v.copied;
  }

  writer-Inv :
      (closed : Bool) (w : Writer)
      → in_next w ins < 2 ^ 32
      → Inv p r w sent got ins outs
      → Inv
          (write_effect w p)
          r
          (write_next closed w p)
          (sent_next w (record {
            pipe = p;
            reader = r;
            writer = w;
            sent = sent;
            got = got;
            count_in = ins;
            count_out = outs;
          }))
          got
          (in_next w ins)
          outs
  unfolding write_effect write_next update
  writer-Inv closed (written x) small v = v
  writer-Inv closed (each_byte wbuf i n) small v =
      writer_goes _ _ v (λ e. ground arith) (ground arith)
  writer-Inv closed (full wbuf i n) small v =
      writer_goes _ _ v (λ e. ground (arith, v.rpos, v.wpos, v.order)) (ground arith)
  writer-Inv closed (full_check wbuf i n) small v =
      writer_goes _ _ v (λ e. ground arith) (ground arith)
  writer-Inv closed (store wbuf i n) small v = writer_stores wbuf i n v
  writer-Inv closed (publish wbuf i n) small v = writer_publishes wbuf i n small v

abbrev SystemInv : System → Type 0
SystemInv s = Inv s.pipe s.reader s.writer s.sent s.got s.count_in s.count_out

in_next-le : (w : Writer) (k : ℕ) → k ≤ in_next w k
in_next-le (written x) k = omega arith
in_next-le (each_byte wbuf i n) k = omega arith
in_next-le (full wbuf i n) k = omega arith
in_next-le (full_check wbuf i n) k = omega arith
in_next-le (store wbuf i n) k = omega arith
in_next-le (publish wbuf i n) k = omega arith

Step-Inv :
    {s t : System}
    → Step s t
    → t.count_in < 2 ^ 32
    → (s.count_in < 2 ^ 32 → SystemInv s)
    → SystemInv t
unfolding reader_moves writer_moves
Step-Inv {s} (reads closed) small v =
    reader-Inv s.pipe s.writer s.sent s.got s.count_in s.count_out small closed s.reader (v small)
Step-Inv {s} (writes closed) small v =
    writer-Inv s.pipe s.reader s.sent s.got s.count_in s.count_out closed s.writer small
      (v (omega (arith, small, in_next-le s.writer s.count_in)))
Step-Inv {s} (calls_read r n e) small v =
    reader_goes s.pipe s.writer s.sent s.got s.count_in s.count_out small s.reader (first n)
      (v small) (λ f. ground arith) refl
Step-Inv {s} (calls_write r wbuf n e) small v =
    writer_goes s.pipe s.reader s.sent s.got s.count_in s.count_out s.writer (each_byte wbuf 0 n)
      (v small) (λ f. ground arith) refl

Reach-Inv : {buf : Words} {s : System} → Reach buf s → s.count_in < 2 ^ 32 → SystemInv s
Reach-Inv start small = record {
  rpos = refl;
  wpos = refl;
  order = omega arith;
  bounded = omega arith;
  ready = λ e. ground arith;
  room = λ e. ground arith;
  held = λ k h l. absurd (omega arith);
  stored = λ e. ground arith;
  same = λ k h. absurd (omega arith);
  copied = λ e. ground arith;
}
Reach-Inv (later reach step) small = Step-Inv step small (Reach-Inv reach)

-- What a queue of 32 bytes promises of the bytes that went in and came out.
pub record IsFifo (s : System) : Type 0 where
  pub none_invented : s.count_out ≤ s.count_in
  pub bounded : s.count_in ≤ s.count_out + by2pipe
  pub in_order : (k : ℕ) → k < s.count_out → s.got k ≡ s.sent k

-- However a reader and a writer interleave on a new pipe, whatever `_pipe_is_closed` says and
-- however often they call: the bytes that came out are the first that went in, in their order, and
-- at most 32 are on the way, as long as fewer than 2 ^ 32 bytes went in.
pub Reach-IsFifo : {buf : Words} {s : System} → Reach buf s → s.count_in < 2 ^ 32 → IsFifo s
Reach-IsFifo reach small =
    let v = Reach-Inv reach small in
    record { none_invented = v.order; bounded = v.bounded; in_order = v.same }
