-- ===== src/Kernel/Pipes/Open/Full.antt =====
-- `openPipe` without free descriptors.
use tp_so.Base.{ℕ, zero, suc, ◌+◌, ◌≤◌, ◌<◌, ◌≡◌, ap, ◌∙◌, ◌≢◌, false, [], arith, ◌==◌, get_or}
use tp_so.Ipc.Buffer.{null, pd_size}
use tp_so.Kernel.{Kernel}
use tp_so.Kernel.Pipes.{destroy_buffer}
use tp_so.Kernel.Pipes.Open.{Opening, open_round, open_rounds, open_pipe}

abbrev at_start : Kernel → ℕ → Opening
at_start k r = record { dim = 0; r_end = r; w_end = null; fds = []; kernel = k }

ne_false : {a b : ℕ} → a ≢ b → (a == b) ≡ false
ne_false h = ground arith

module _ (blocks : ℕ → ℕ) (k : Kernel) (a : ℕ) where
  entry : ℕ → ℕ
  entry i = get_or (k.pcb a).pd_table i null

  round-taken :
      (i r : ℕ) → entry i ≢ null → open_round blocks a i (at_start k r) ≡ at_start k (entry i)
  unfolding open_round entry
  round-taken i r h = rw (ne_false h)

  rounds-taken :
      (n i r : ℕ)
      → ((j : ℕ) → i ≤ j → j ≤ i + n → entry j ≢ null)
      → open_rounds blocks a (suc n) i (at_start k r) ≡ at_start k (entry (i + n))
  unfolding open_rounds
  rounds-taken zero i r h =
      round-taken i r (h i (omega arith) (omega arith))
      ∙ ap (λ j. at_start k (entry j)) (omega arith)
  rounds-taken (suc n) i r h =
      ap (open_rounds blocks a (suc n) (i + 1)) (round-taken i r (h i (omega arith) (omega arith)))
      ∙ rounds-taken n (i + 1) (entry i) (λ j g l. h j (omega arith) (omega arith))
      ∙ ap (λ j. at_start k (entry j)) (omega arith)

  -- `openPipe` for a process without a free descriptor fails, and destroys the buffer behind its
  -- last descriptor.
  pub open_pipe_full :
      ((i : ℕ) → i < pd_size → get_or (k.pcb a).pd_table i null ≢ null)
      → open_pipe blocks k a ≡ (false, [], destroy_buffer k (get_or (k.pcb a).pd_table 31 null))
  unfolding open_pipe entry
  open_pipe_full h =
      rw (rounds-taken 31 0 null (λ j g l. h j (omega arith)), ne_false (h 31 (omega arith)))
