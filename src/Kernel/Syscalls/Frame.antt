-- ===== src/Kernel/Syscalls/Frame.antt =====
-- The handlers of system calls change no queue: that is left to the switch that follows.
use tp_so.Base.{
  ℕ, ◌≡◌, refl, ap, ◌∙◌, ◌≢◌, ◌⊎◌, inl, inr, arith, Bool, true, false, Bool-cases, Option, none,
  some, List, ◌==◌, ◌&&◌, not, if◌then◌else◌,
}
use tp_so.Base.Maybe.{Ensures}
use tp_so.Ipc.Buffer.{null, buff_size, is_pipe, read_buffer}
use tp_so.Kernel.{Kernel, Pcb, ProcessState, blocked, set_pcb, set_buffer}
use tp_so.Kernel.Process.{refuses_state, set_process_state}
use tp_so.Kernel.Queues.Conserve.{goes_back}
use tp_so.Kernel.Frame.{Frame, Frame-refl, set_pcb-Frame}
use tp_so.Kernel.Pipes.{is_closed, read_pipe, write_pipe}
use tp_so.Kernel.Pipes.Frame.{set_buffer-Frame}
use tp_so.Kernel.Pipes.Calls.{read_pipe-Frame, write_pipe-Frame}
use tp_so.Kernel.Syscalls.{
  Reply, done, filled, printed, again, reply_filled, reply_done, read_loop, write_loop, Leaves,
  is_stdout, is_stderr,
}

-- A change to a process other than NULL, or to a state that is not requeued.
pub set_pcb_away-Frame :
    (k : Kernel) (a : ℕ) (p : Pcb) → a ≢ null → p.id ≡ (k.pcb a).id → Frame k (set_pcb k a p)
set_pcb_away-Frame k a p h e = record {
  levels_same = refl;
  blocked_same = refl;
  current_same = refl;
  idle_same = refl;
  ids_same = λ b. ground arith;
  safe = λ s. ap (λ (q : Pcb). goes_back q.state) other ∙ s;
}
  where
    other : (set_pcb k a p).pcb null ≡ k.pcb null
    other = ground arith

pub set_state-Frame :
    (k : Kernel) (a : ℕ) (st : ProcessState)
    → (a ≢ null) ⊎ (goes_back st ≡ false)
    → Frame k (set_process_state k a st).0
unfolding set_process_state
set_state-Frame k a st h = elim (Bool-cases (refuses_state k a st)) [
  | inl e ↦ rw (e, set_process_state) (Frame-refl k)
  | inr e ↦ rw (e, set_process_state) (changed h)
]
  where
    changed :
        (a ≢ null) ⊎ (goes_back st ≡ false)
        → Frame k (set_pcb k a (record (k.pcb a) { state = st; manual_blocked = 0 }))
    changed (inl ne) = set_pcb_away-Frame k a _ ne refl
    changed (inr back) = set_pcb-Frame k a _ refl (λ s. back)

pub Leaves-if :
    (P : Kernel → Type 0) (t : Bool) (r s : Reply)
    → Leaves P r
    → Leaves P s
    → Leaves P (if t then r else s)
Leaves-if P true r s f g = f
Leaves-if P false r s f g = g

reply_filled-Leaves :
    (k : Kernel) (m : Option (List ℕ × Kernel))
    → Ensures (λ out. Frame k out.1) m
    → Leaves (Frame k) (reply_filled m)
unfolding Leaves
reply_filled-Leaves k none f = tt
reply_filled-Leaves k (some out) f = f

pub reply_done-Leaves :
    (k : Kernel) (m : Option (ℕ × Kernel))
    → Ensures (λ out. Frame k out.1) m
    → Leaves (Frame k) (reply_done m)
unfolding Leaves
reply_done-Leaves k none f = tt
reply_done-Leaves k (some out) f = f

module _ (k : Kernel) (a : ℕ) (there : a ≢ null) where
  pub blocked-Frame : Frame k (set_process_state k a blocked).0
  blocked-Frame = set_state-Frame k a blocked (inl there)

  pub read_loop-Frame : (b count : ℕ) → Leaves (Frame k) (read_loop k a b count)
  unfolding read_loop Leaves
  read_loop-Frame b count =
      let out = read_buffer (k.buffers b) count in
      let whole = filled out.0 (set_buffer k b out.1) in
      let piped = reply_filled (read_pipe k b count) in
      let open_ = (if is_pipe (k.buffers b).buff_id then piped else whole) in
      Leaves-if (Frame k) ((k.buffers b).buffer_dim == 0 && not (is_closed (k.buffers b).state))
        (again (set_process_state k a blocked).0)
        (if is_closed (k.buffers b).state then done 0 k else open_) blocked-Frame
        (Leaves-if (Frame k) (is_closed (k.buffers b).state) (done 0 k) open_ (Frame-refl k) (
          Leaves-if (Frame k) (is_pipe (k.buffers b).buff_id) piped whole
            (reply_filled-Leaves k (read_pipe k b count) (read_pipe-Frame k b count))
            (set_buffer-Frame k b out.1)))

  pub write_loop-Frame : (b : ℕ) (bytes : List ℕ) → Leaves (Frame k) (write_loop k a b bytes)
  unfolding write_loop Leaves
  write_loop-Frame b bytes =
      let sent = reply_done (write_pipe k b bytes) in
      let err = (if is_stderr (k.buffers b).buff_id then printed bytes true k else sent) in
      let out = (if is_stdout (k.buffers b).buff_id then printed bytes false k else err) in
      Leaves-if (Frame k)
        ((k.buffers b).buffer_dim == buff_size && not (is_closed (k.buffers b).state))
        (again (set_process_state k a blocked).0)
        (if is_closed (k.buffers b).state then done 0 k else out) blocked-Frame
        (Leaves-if (Frame k) (is_closed (k.buffers b).state) (done 0 k) out (Frame-refl k) (
          Leaves-if (Frame k) (is_stdout (k.buffers b).buff_id) (printed bytes false k) err
            (Frame-refl k)
            (Leaves-if (Frame k) (is_stderr (k.buffers b).buff_id) (printed bytes true k) sent
              (Frame-refl k)
              (reply_done-Leaves k (write_pipe k b bytes) (write_pipe-Frame k b bytes)))))
