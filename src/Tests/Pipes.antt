-- ===== src/Tests/Pipes.antt =====
-- A pipe through which one byte goes.
use buaa_os_mos_with_fat.Base.{refl, false, arith, ◌≡◌}
use buaa_os_mos_with_fat.User.Pipe.{
  System, Reach, new, start, later, reads, writes, calls_read, calls_write, reader_moves,
  writer_moves, first, each_byte,
}
use buaa_os_mos_with_fat.User.Pipe.Fifo.{IsFifo, Reach-IsFifo}

abbrev called : System
called =
    let s : System = new (λ k. 0) in
    let t : System = record s { writer = each_byte (λ k. 42) 0 1 } in record t { reader = first 1 }

-- the writer tests, sees room, stores and publishes
abbrev put : System
put = writer_moves false (writer_moves false (writer_moves false (writer_moves false called)))

-- the reader sees the byte, tests, copies and goes on
abbrev taken : System
taken =
    reader_moves false
      (reader_moves false (reader_moves false (reader_moves false (reader_moves false put))))

called-Reach : Reach (λ k. 0) called
called-Reach = later (later start (calls_write 0 (λ k. 42) 1 refl)) (calls_read 0 1 refl)

put-Reach : Reach (λ k. 0) put
put-Reach =
    later (later (later (later called-Reach (writes false)) (writes false)) (writes false))
      (writes false)

taken-Reach : Reach (λ k. 0) taken
taken-Reach =
    later
      (later (later (later (later put-Reach (reads false)) (reads false)) (reads false))
        (reads false))
      (reads false)

out : taken.got 0 ≡ 42
unfolding reader_moves writer_moves
out = refl

Reach-IsFifo_example : IsFifo taken
Reach-IsFifo_example =
    Reach-IsFifo taken-Reach (unfold reader_moves in unfold writer_moves in omega arith)
