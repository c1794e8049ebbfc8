-- ===== src/Tests/Buffers.antt =====
-- Runs of bufferManagement.c.
use tp_so.Base.{ℕ, ◌≡◌, refl, ◌↔◌, none, List, [], ◌∷◌, arith}
use tp_so.Base.Maybe.{Returns}
use tp_so.Ipc.Buffer.{read, write, write_buffer, read_buffer}
use tp_so.Ipc.Buffer.Window.{window}
use tp_so.Ipc.Buffer.Write.{Appended, Fits, write_buffer_appends, write_buffer_overruns}
use tp_so.Ipc.Buffer.Read.{Removed, text_of, rest_of, left_after, read_buffer-Removed}
use tp_so.Tests.Data.{
  empty_end, empty_end-IsValid, worn_end, worn_end-IsValid, loaded_end, loaded_end-IsValid,
}

abbrev hi : List ℕ
hi = 104 ∷ 105 ∷ []

write_buffer_appends_example :
    Returns (Appended (empty_end write 0) hi 0) (write_buffer (empty_end write 0) hi)
write_buffer_appends_example =
    write_buffer_appends (empty_end write 0) hi (empty_end-IsValid write 0) refl (omega arith)
      (omega arith) (omega arith)

write_buffer_overruns_example :
    (write_buffer (worn_end write 0) hi ≡ none) ↔ (¬ Fits (worn_end write 0) 2)
write_buffer_overruns_example =
    write_buffer_overruns (worn_end write 0) hi (worn_end-IsValid write 0) refl (omega arith)
      (omega arith)

read_buffer-Removed_example :
    Removed (loaded_end read 0) (104 ∷ []) (105 ∷ []) (read_buffer (loaded_end read 0) 1)
unfolding window text_of left_after rest_of
read_buffer-Removed_example =
    read_buffer-Removed (loaded_end read 0) 1 (loaded_end-IsValid read 0) refl
