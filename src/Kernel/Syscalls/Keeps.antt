-- ===== src/Kernel/Syscalls/Keeps.antt =====
-- No call changes a queue: that is left to the switch that follows.
use tp_so.Base.{
  ℕ, ◌%◌, ◌^◌, ◌≡◌, refl, ◌≢◌, inl, inr, arith, Bool, true, false, Bool-cases, Option, none, some,
  List, leb, ◌==◌, ◌||◌, ◌&&◌, not, if◌then◌else◌, set, get_or,
}
use tp_so.Base.Maybe.{◌>>=◌, Ensures}
use tp_so.Ipc.Buffer.{null}
use tp_so.Kernel.{Kernel, ready, blocked, yielded, exited, set_pcb}
use tp_so.Kernel.Process.{
  set_process_state, sys_block, sys_unblock, get_entry, exists, has_open_childs,
  set_process_to_foreground, set_process_to_background, dup_pd, get_pd_entry, is_blocked, is_ready,
}
use tp_so.Kernel.Frame.{Frame, Framed, Frame-refl, Frame-trans, Frame-if, set_pcb-Frame}
use tp_so.Kernel.Pipes.{is_closed, sys_close_pd}
use tp_so.Kernel.Pipes.Calls.{sys_close_pd-Frame}
use tp_so.Kernel.Syscalls.Kill.{kill-Leaves}
use tp_so.Kernel.Syscalls.Frame.{
  set_pcb_away-Frame, set_state-Frame, Leaves-if, reply_done-Leaves, blocked-Frame, read_loop-Frame,
  write_loop-Frame,
}
use tp_so.Kernel.Syscalls.{
  Reply, done, filled, printed, switch_then, again, fault, error, to_pid, reply_done, read_loop,
  read_from, arq_sys_read, write_loop, write_to, arq_sys_write, arq_sys_block, arq_sys_unblock,
  arq_sys_change_state, wait_loop, arq_sys_wait, arq_sys_exit, close_at, arq_sys_close_pd,
  arq_sys_set_to_foreground, arq_sys_set_to_background, arq_sys_dup, arq_sys_yield, arq_sys_get_pid,
  Leaves, is_write, is_read,
}
use tp_so.Kernel.Syscalls.Calls.{
  Call, call_read, resume_read, call_write, resume_write, call_block, call_unblock,
  call_change_state, call_kill, call_wait, resume_wait, call_exit, call_close_pd, call_get_pid,
  call_set_to_foreground, call_set_to_background, call_dup, call_yield, run_call,
}

foreground-Frame : (k : Kernel) (a : ℕ) → Frame k (record k { foreground = a })
foreground-Frame k a = record {
  levels_same = refl;
  blocked_same = refl;
  current_same = refl;
  idle_same = refl;
  ids_same = λ b. refl;
  safe = λ s. s;
}

to_foreground-Frame : (k : Kernel) (a : ℕ) → Frame k (set_process_to_foreground k a)
unfolding set_process_to_foreground
to_foreground-Frame k a =
    let k' = set_pcb k a (record (k.pcb a) { foreground = 1 }) in
    let f = set_pcb-Frame k a (record (k.pcb a) { foreground = 1 }) refl (λ h. h) in
    Frame-if (k.foreground == null) (Frame-trans f (foreground-Frame k' a)) f

to_background-Frame : (k : Kernel) (a : ℕ) → Frame k (set_process_to_background k a)
unfolding set_process_to_background
to_background-Frame k a =
    let k' = set_pcb k a (record (k.pcb a) { foreground = 0 }) in
    let f = set_pcb-Frame k a (record (k.pcb a) { foreground = 0 }) refl (λ h. h) in
    Frame-if (not (k.foreground == null) && (k.pcb k.foreground).id == (k.pcb a).id)
      (Frame-trans f (foreground-Frame k' null)) f

sys_block-Frame : (k : Kernel) (a : ℕ) → a ≢ null → Frame k (sys_block k a)
unfolding sys_block
sys_block-Frame k a h =
    Frame-if (not (exists k (k.pcb a).id) || leb (k.pcb a).id 2) (Frame-refl k)
      (set_pcb_away-Frame k a _ h refl)

sys_unblock-Frame : (k : Kernel) (a : ℕ) → a ≢ null → Frame k (sys_unblock k a)
unfolding sys_unblock
sys_unblock-Frame k a h =
    Frame-if (not (exists k (k.pcb a).id) || leb (k.pcb a).id 2) (Frame-refl k)
      (set_pcb_away-Frame k a _ h refl)

dup_pd-Frame : (k : Kernel) (a p q : ℕ) → Frame k (dup_pd k a p q).0
unfolding dup_pd
dup_pd-Frame k a p q = picked _
  where
    moved : Kernel
    moved = set_pcb k a (record (k.pcb a) {
      pd_table = set (set (k.pcb a).pd_table p (get_or (k.pcb a).pd_table q null)) q null;
    })

    picked :
        (t : Bool)
        → (let out : Kernel × Bool = (if t then (k, false) else (moved, true)) in Frame k out.0)
    picked true = Frame-refl k
    picked false = set_pcb-Frame k a _ refl (λ h. h)

-- A handler for another process: nothing, if there is none.
found-Frame :
    (k : Kernel) (a : ℕ) (r : Reply)
    → (a ≢ null → Leaves (Frame k) r)
    → Leaves (Frame k) (if a == null then done error k else r)
found-Frame k a r f = elim (Bool-cases (a == null)) [
  | inl e ↦ rw e (unfold Leaves in Frame-refl k)
  | inr ne ↦ rw ne (f (λ q. apart ne q))
]
  where
    apart : (a == null) ≡ false → a ≡ null → ⊥
    apart ne q = ground arith

after-Frame : {k l : Kernel} (r : Reply) → Frame k l → Leaves (Frame l) r → Leaves (Frame k) r
unfolding Leaves
after-Frame (done n m) f g = Frame-trans f g
after-Frame (filled bytes m) f g = Frame-trans f g
after-Frame (printed bytes red m) f g = Frame-trans f g
after-Frame (switch_then n m) f g = Frame-trans f g
after-Frame (again m) f g = Frame-trans f g
after-Frame fault f g = tt

wait_loop-Frame : (k : Kernel) (a : ℕ) → a ≢ null → Leaves (Frame k) (wait_loop k a)
unfolding wait_loop Leaves
wait_loop-Frame k a there =
    Leaves-if (Frame k) (has_open_childs k a) (again (set_process_state k a blocked).0)
      (done 0 (set_process_to_foreground k a)) (blocked-Frame k a there) (to_foreground-Frame k a)

close-Frame : (k : Kernel) (pd : ℕ) (e : Option ℕ) → Leaves (Frame k) (close_at k pd e)
close-Frame k pd none = unfold Leaves in tt
close-Frame k pd (some b) =
    Leaves-if (Frame k) (b == null) (done error k)
      (reply_done (sys_close_pd k k.current b pd >>= λ k'. some (0, k')))
      (unfold Leaves in Frame-refl k)
      (reply_done-Leaves k _
        (valued (sys_close_pd k k.current b pd) (sys_close_pd-Frame k k.current b pd)))
  where
    valued :
        (m : Option Kernel)
        → Framed k m
        → Ensures (λ (out : ℕ × Kernel). Frame k out.1) (m >>= λ k'. some (0, k'))
    valued none f = tt
    valued (some l) f = f

read_from-Frame :
    (k : Kernel) (count : ℕ) (e : Option ℕ)
    → k.current ≢ null
    → Leaves (Frame k) (read_from k count e)
read_from-Frame k count none h = unfold Leaves in tt
read_from-Frame k count (some b) h =
    Leaves-if (Frame k)
      ((b == null || is_closed (k.buffers b).state) || is_write (k.buffers b).state) (done 0 k)
      (read_loop k k.current b count) (unfold Leaves in Frame-refl k)
      (read_loop-Frame k k.current h b count)

write_to-Frame :
    (k : Kernel) (bytes : List ℕ) (e : Option ℕ)
    → k.current ≢ null
    → Leaves (Frame k) (write_to k bytes e)
write_to-Frame k bytes none h = unfold Leaves in tt
write_to-Frame k bytes (some b) h =
    Leaves-if (Frame k)
      ((b == null || is_closed (k.buffers b).state) || is_read (k.buffers b).state) (done 0 k)
      (write_loop k k.current b bytes) (unfold Leaves in Frame-refl k)
      (write_loop-Frame k k.current h b bytes)

change_state-Frame :
    (k : Kernel) (a : ℕ)
    → a ≢ null
    → Leaves (Frame k) (
        if is_blocked (k.pcb a).state
        then switch_then 0 (set_process_state k a ready).0
        else if is_ready (k.pcb a).state
        then switch_then 0 (set_process_state k a blocked).0
        else switch_then 0 k)
unfolding Leaves
change_state-Frame k a h =
    let rest =
      (if is_ready (k.pcb a).state
        then switch_then 0 (set_process_state k a blocked).0
        else switch_then 0 k) in
    Leaves-if (Frame k) (is_blocked (k.pcb a).state) (switch_then 0 (set_process_state k a ready).0)
      rest (set_state-Frame k a ready (inl h))
      (Leaves-if (Frame k) (is_ready (k.pcb a).state)
        (switch_then 0 (set_process_state k a blocked).0) (switch_then 0 k)
        (set_state-Frame k a blocked (inl h)) (Frame-refl k))

-- While a process runs, no call changes a queue, the current process, idle or a pid, or puts NULL in
-- a state that is requeued.
pub run_call-Frame : (k : Kernel) (c : Call) → k.current ≢ null → Leaves (Frame k) (run_call k c)
unfolding run_call arq_sys_read arq_sys_write arq_sys_block arq_sys_unblock arq_sys_change_state
    arq_sys_wait arq_sys_exit arq_sys_close_pd arq_sys_get_pid arq_sys_set_to_foreground
    arq_sys_set_to_background arq_sys_dup arq_sys_yield Leaves
run_call-Frame k (call_read pd count) h =
    Leaves-if (Frame k) (k.current == null) (done 0 k)
      (read_from k count (get_pd_entry k k.current (pd % 2 ^ 32))) (Frame-refl k)
      (read_from-Frame k count (get_pd_entry k k.current (pd % 2 ^ 32)) h)
run_call-Frame k (resume_read b count) h = read_loop-Frame k k.current h b count
run_call-Frame k (call_write pd bytes) h =
    Leaves-if (Frame k) (k.current == null) (done 0 k)
      (write_to k bytes (get_pd_entry k k.current (pd % 2 ^ 32))) (Frame-refl k)
      (write_to-Frame k bytes (get_pd_entry k k.current (pd % 2 ^ 32)) h)
run_call-Frame k (resume_write b bytes) h = write_loop-Frame k k.current h b bytes
run_call-Frame k (call_block pid) h =
    let a = get_entry k (to_pid pid) in
    found-Frame k a (switch_then 0 (sys_block k a)) (sys_block-Frame k a)
run_call-Frame k (call_unblock pid) h =
    let a = get_entry k (to_pid pid) in
    found-Frame k a (switch_then 0 (sys_unblock k a)) (sys_unblock-Frame k a)
run_call-Frame k (call_change_state pid) h =
    let a = get_entry k (to_pid pid) in found-Frame k a _ (change_state-Frame k a)
run_call-Frame k (call_kill pid) h =
    kill-Leaves (Frame k) k pid (Frame-refl k)
      (set_state-Frame k (get_entry k (to_pid pid)) exited (inr refl))
run_call-Frame k call_wait h =
    let k' = set_process_to_background k k.current in
    let f = to_background-Frame k k.current in
    after-Frame (wait_loop k' k.current) f (wait_loop-Frame k' k.current h)
run_call-Frame k resume_wait h = wait_loop-Frame k k.current h
run_call-Frame k call_exit h = set_state-Frame k k.current exited (inr refl)
run_call-Frame k (call_close_pd pd) h =
    close-Frame k (pd % 2 ^ 32) (get_pd_entry k k.current (pd % 2 ^ 32))
run_call-Frame k call_get_pid h = Frame-refl k
run_call-Frame k call_set_to_foreground h = to_foreground-Frame k k.current
run_call-Frame k call_set_to_background h = to_background-Frame k k.current
run_call-Frame k (call_dup old_pd new_pd) h = dup_pd-Frame k k.current old_pd new_pd
run_call-Frame k call_yield h = set_state-Frame k k.current yielded (inl h)
