-- ===== src/User/Pipe.antt =====
-- user/lib/pipe.c: `pipe_read` and `pipe_write`, one reader and one writer that share a `struct
-- Pipe`. A call is the point that it has reached, from which it moves by one access to the pipe or
-- one answer of `_pipe_is_closed` at a time, so that the two interleave as the scheduler likes.
pub mod Fifo
use buaa_os_mos_with_fat.Base.{
  ℕ, zero, suc, ◌+◌, ◌-◌, ◌%◌, ◌^◌, ◌≡◌, Bool, true, false, leb, ltb, if◌then◌else◌,
}
use buaa_os_mos_with_fat.Base.Bitmap.{Words, update}

-- BY2PIPE
abbrev pub by2pipe : ℕ
by2pipe = 32

pub record Pipe : Type 0 where
  pub p_rpos : ℕ
  pub p_wpos : ℕ
  pub p_buf : Words

-- Where `pipe_read` of n bytes is: between calls, with the last result; at the loop before the
-- first byte and at its `_pipe_is_closed`; at the head of `for`; at the inner loop and at its
-- `_pipe_is_closed`; at the copy of a byte; at `p_rpos ++`.
pub data Reader : Type 0 where
  returned : (result : ℕ) → Reader
  first : (n : ℕ) → Reader
  first_check : (n : ℕ) → Reader
  each : (i n : ℕ) → Reader
  wait : (i n : ℕ) → Reader
  check : (i n : ℕ) → Reader
  copy : (i n : ℕ) → Reader
  advance : (i n : ℕ) → Reader

-- The same of `pipe_write`, whose buffer is `wbuf`.
pub data Writer : Type 0 where
  written : (result : ℕ) → Writer
  each_byte : (wbuf : Words) (i n : ℕ) → Writer
  full : (wbuf : Words) (i n : ℕ) → Writer
  full_check : (wbuf : Words) (i n : ℕ) → Writer
  store : (wbuf : Words) (i n : ℕ) → Writer
  publish : (wbuf : Words) (i n : ℕ) → Writer

-- `p->p_rpos >= p->p_wpos`
abbrev pub is_empty : Pipe → Bool
is_empty p = leb p.p_wpos p.p_rpos

-- `(p->p_wpos - p->p_rpos) >= BY2PIPE`, in `u_int`
abbrev pub is_full : Pipe → Bool
is_full p = leb by2pipe ((p.p_wpos + (2 ^ 32 - p.p_rpos)) % 2 ^ 32)

-- where the reader goes; `closed` is what `_pipe_is_closed` says, if it is asked
unfoldable pub read_next : (closed : Bool) → Reader → Pipe → Reader
read_next closed (returned result) p = returned result
read_next closed (first n) p = if is_empty p then first_check n else each 0 n
read_next closed (first_check n) p = if closed then returned 0 else first n
read_next closed (each i n) p = if ltb i n then wait i n else returned n
read_next closed (wait i n) p =
    if is_empty p then if ltb 0 i then returned i else check i n else copy i n
read_next closed (check i n) p = if closed then returned i else wait i n
read_next closed (copy i n) p = advance i n
read_next closed (advance i n) p = each (i + 1) n

-- `p->p_rpos ++`
unfoldable pub read_effect : Reader → Pipe → Pipe
read_effect (advance i n) p = record p { p_rpos = (p.p_rpos + 1) % 2 ^ 32 }
read_effect _ p = p

unfoldable pub write_next : (closed : Bool) → Writer → Pipe → Writer
write_next closed (written result) p = written result
write_next closed (each_byte wbuf i n) p = if ltb i n then full wbuf i n else written n
write_next closed (full wbuf i n) p = if is_full p then full_check wbuf i n else store wbuf i n
write_next closed (full_check wbuf i n) p = if closed then written i else full wbuf i n
write_next closed (store wbuf i n) p = publish wbuf i n
write_next closed (publish wbuf i n) p = each_byte wbuf (i + 1) n

-- `p->p_buf[p->p_wpos % BY2PIPE] = wbuf[i]` and `p->p_wpos++`
unfoldable pub write_effect : Writer → Pipe → Pipe
unfolding update
write_effect (store wbuf i n) p = record p { p_buf = update p.p_buf (p.p_wpos % by2pipe) (wbuf i) }
write_effect (publish wbuf i n) p = record p { p_wpos = (p.p_wpos + 1) % 2 ^ 32 }
write_effect _ p = p

-- The pipe, its two ends, and the bytes that were copied in and out so far, with their numbers.
pub record System : Type 0 where
  pub pipe : Pipe
  pub reader : Reader
  pub writer : Writer
  pub sent : Words
  pub got : Words
  pub count_in : ℕ
  pub count_out : ℕ

-- what the reader's copy adds to the bytes that came out
abbrev pub got_next : Reader → System → Words
got_next (copy i n) s = update s.got s.count_out (s.pipe.p_buf (s.pipe.p_rpos % by2pipe))
got_next _ s = s.got

abbrev pub out_next : Reader → ℕ → ℕ
out_next (advance i n) k = k + 1
out_next _ k = k

abbrev pub sent_next : Writer → System → Words
sent_next (store wbuf i n) s = update s.sent s.count_in (wbuf i)
sent_next _ s = s.sent

abbrev pub in_next : Writer → ℕ → ℕ
in_next (publish wbuf i n) k = k + 1
in_next _ k = k

unfoldable pub reader_moves : (closed : Bool) → System → System
unfolding read_next read_effect update
reader_moves closed s = record s {
  pipe = read_effect s.reader s.pipe;
  reader = read_next closed s.reader s.pipe;
  got = got_next s.reader s;
  count_out = out_next s.reader s.count_out;
}

unfoldable pub writer_moves : (closed : Bool) → System → System
unfolding write_next write_effect update
writer_moves closed s = record s {
  pipe = write_effect s.writer s.pipe;
  writer = write_next closed s.writer s.pipe;
  sent = sent_next s.writer s;
  count_in = in_next s.writer s.count_in;
}

-- Between two calls an end may be called again.
pub data Step (s : System) : System → Type 0 where
  reads : (closed : Bool) → Step s (reader_moves closed s)
  writes : (closed : Bool) → Step s (writer_moves closed s)
  calls_read : (r n : ℕ) → s.reader ≡ returned r → Step s (record s { reader = first n })
  calls_write :
      (r : ℕ) (wbuf : Words) (n : ℕ)
      → s.writer ≡ written r
      → Step s (record s { writer = each_byte wbuf 0 n })

-- a pipe that has just been made
abbrev pub new : Words → System
new buf = record {
  pipe = record { p_rpos = 0; p_wpos = 0; p_buf = buf };
  reader = returned 0;
  writer = written 0;
  sent = λ k. 0;
  got = λ k. 0;
  count_in = 0;
  count_out = 0;
}

pub data Reach (buf : Words) : System → Type 0 where
  start : Reach buf (new buf)
  later : {s t : System} → Reach buf s → Step s t → Reach buf t
