-- ===== src/Tests/Pipes.antt =====
-- Runs of pipe.c between the ends at the addresses 7 and 8.
use tp_so.Base.{ℕ, ◌≡◌, refl, List, [], ◌∷◌, arith}
use tp_so.Base.Maybe.{Returns}
use tp_so.Ipc.Buffer.{Buffer, read, write}
use tp_so.Ipc.Buffer.Window.{IsValid}
use tp_so.Kernel.Pipes.{write_pipe}
use tp_so.Kernel.Pipes.Delivery.{Linked}
use tp_so.Kernel.Pipes.Transfer.{Writable, Transferred, write_pipe_delivers}
use tp_so.Tests.Data.{empty_end, empty_end-IsValid, piped}

abbrev hi : List ℕ
hi = 104 ∷ 105 ∷ []

pair-Linked : (w r : Buffer) → IsValid w → IsValid r → w.opposite_end ≡ 8 → Linked (piped w r) 7 8
pair-Linked w r v u e = record {
  w_there = λ q. omega arith;
  r_there = λ q. omega arith;
  apart = λ q. omega arith;
  w_valid = v;
  r_valid = u;
  to_r = e;
}

empty-Writable : (r : Buffer) → IsValid r → Writable (piped (empty_end write 8) r) 7 8 hi
empty-Writable r u = record {
  linked = pair-Linked (empty_end write 8) r (empty_end-IsValid write 8) u refl;
  may_write = refl;
  w_empty = refl;
  some_bytes = omega arith;
  w_fits = omega arith;
}

write_pipe_delivers_example :
    Returns
      (Transferred (piped (empty_end write 8) (empty_end read 7)) 7 8 hi hi)
      (write_pipe (piped (empty_end write 8) (empty_end read 7)) 7 hi)
write_pipe_delivers_example =
    write_pipe_delivers (piped (empty_end write 8) (empty_end read 7)) 7 8 hi
      (empty-Writable (empty_end read 7) (empty_end-IsValid read 7)) (omega arith) (omega arith)
