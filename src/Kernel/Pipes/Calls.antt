-- ===== src/Kernel/Pipes/Calls.antt =====
-- `readPipe`, `writePipe` and `sysClosePd` change no queue.
use tp_so.Base.{ℕ, refl, List, [], Option, none, some, Bool, not, ◌&&◌, ◌==◌, if◌then◌else◌}
use tp_so.Base.{true, false, length, ltb}
use tp_so.Ipc.Buffer.{buff_size, copy_from_buffer, read_buffer, write_buffer, can_read}
use tp_so.Kernel.Process.{set_process_pd}
use tp_so.Kernel.Pipes.Frame.{
  set_buffer-Frame, references_ready-Frame, copy_to-Frame, remove_references-Frame,
}
use tp_so.Kernel.Pipes.{deliver, update_opposite_end, read_pipe, write_pipe, sys_close_pd}
use tp_so.Base.Maybe.{Ensures, ◌>>=◌}
use tp_so.Ipc.Buffer.{Buffer, null, pd_size, is_pipe, can_write}
use tp_so.Kernel.{Kernel, set_buffer}
use tp_so.Kernel.Frame.{
  Frame, Framed, Frame-refl, Frame-trans, Frame-if, Framed-if, Framed-trans, set_pcb-Frame,
}
use tp_so.Kernel.Pipes.{set_buffer_references_ready, copy_to, remove_references}

references_ready-after :
    (k : Kernel) (b : ℕ) (m : Option Kernel)
    → Framed k m
    → Framed k (m >>= λ k2. some (set_buffer_references_ready k2 b))
references_ready-after k b none f = tt
references_ready-after k b (some l) f = Frame-trans f (references_ready-Frame l b)

deliver-Frame : (k : Kernel) (r : ℕ) (bytes : List ℕ) → Framed k (deliver k r bytes)
unfolding deliver
deliver-Frame k r bytes =
    Framed-if (length bytes == 0) k _ _ (Frame-refl k)
      (references_ready-after k r (copy_to k r bytes) (copy_to-Frame k r bytes))

update_opposite_end-Frame : (k : Kernel) (w : ℕ) → Framed k (update_opposite_end k w)
unfolding update_opposite_end
update_opposite_end-Frame k w =
    let out = copy_from_buffer (k.buffers w) buff_size in
    Framed-if (w == null) k _ _ (Frame-refl k) (
      Framed-trans _ (set_buffer-Frame k w out.1)
        (deliver-Frame (set_buffer k w out.1) (out.1).opposite_end out.0))

with_value :
    {A : Type 0} (k : Kernel) (a : A) (m : Option Kernel)
    → Framed k m
    → Ensures (λ (out : A × Kernel). Frame k out.1) (m >>= λ l. some (a, l))
with_value k a none f = tt
with_value k a (some l) f = f

Ensures-if :
    {A : Type 0} (P : A → Type 0) (t : Bool) (r s : Option A)
    → Ensures P r
    → Ensures P s
    → Ensures P (if t then r else s)
Ensures-if P true r s f g = f
Ensures-if P false r s f g = g

pub read_pipe-Frame :
    (k : Kernel) (r count : ℕ) → Ensures (λ out. Frame k out.1) (read_pipe k r count)
unfolding read_pipe
read_pipe-Frame k r count =
    let out = read_buffer (k.buffers r) count in
    let k' = set_buffer k r out.1 in
    Ensures-if (λ (o : List ℕ × Kernel). Frame k o.1)
      ((not (r == null) && ltb 0 count)
        && (can_read (k.buffers r).state && ltb 0 (k.buffers r).buffer_dim))
      _ (some ([], k))
      (with_value k out.0 (update_opposite_end k' (out.1).opposite_end) (
        Framed-trans _ (set_buffer-Frame k r out.1)
          (update_opposite_end-Frame k' (out.1).opposite_end)))
      (Frame-refl k)

pub write_pipe-Frame :
    (k : Kernel) (w : ℕ) (bytes : List ℕ) → Ensures (λ out. Frame k out.1) (write_pipe k w bytes)
unfolding write_pipe
write_pipe-Frame k w bytes =
    Ensures-if (λ (o : ℕ × Kernel). Frame k o.1)
      ((not (w == null) && ltb 0 (length bytes))
        && (ltb (k.buffers w).buffer_dim 1023 && can_write (k.buffers w).state))
      _ (some (0, k)) (written (write_buffer (k.buffers w) bytes)) (Frame-refl k)
  where
    written :
        (m : Option (ℕ × Buffer))
        → Ensures
            (λ (o : ℕ × Kernel). Frame k o.1)
            (m >>= λ out. update_opposite_end (set_buffer k w out.1) w >>= λ k1. some (out.0, k1))
    written none = tt
    written (some out) = with_value k out.0 _ (
        Framed-trans _ (set_buffer-Frame k w out.1)
          (update_opposite_end-Frame (set_buffer k w out.1) w))

set_process_pd-Frame : (k : Kernel) (a b i : ℕ) → Frame k (set_process_pd k a b i)
unfolding set_process_pd
set_process_pd-Frame k a b i = Frame-if _ (Frame-refl k) (set_pcb-Frame k a _ refl (λ h. h))

pub sys_close_pd-Frame : (k : Kernel) (a b pd : ℕ) → Framed k (sys_close_pd k a b pd)
unfolding sys_close_pd
sys_close_pd-Frame k a b pd =
    let k' = set_process_pd k a null pd in
    let removed = remove_references k' b (k'.pcb a).id in
    let closing = (if is_pipe (k'.buffers b).buff_id then removed else some k') in
    Framed-if (ltb pd pd_size && not (a == null)) k closing (some k)
      (Framed-trans closing (set_process_pd-Frame k a null pd) (
        Framed-if (is_pipe (k'.buffers b).buff_id) k' removed (some k')
          (remove_references-Frame k' b (k'.pcb a).id) (Frame-refl k')))
      (Frame-refl k)
