-- ===== src/Kernel/Syscalls.antt =====
-- The handlers of Kernel/interruptRelated/syscallsDispatcher.c that work on processes and buffers.
-- A handler that calls `_int20h` hands the processor over; what it does then is in its reply.
pub mod Kill
pub mod Frame
pub mod Calls
pub mod Keeps
pub mod Table
pub mod Memory
pub mod Synch
pub mod Screen
use tp_so.Base.{
  ℕ, zero, suc, ◌+◌, ◌-◌, ◌%◌, ◌^◌, Bool, true, false, not, ◌&&◌, ◌||◌, Option, none, some, List,
  [], ◌∷◌, ltb, ◌==◌, if◌then◌else◌, length,
}
use tp_so.Base.Maybe.{◌>>=◌}
use tp_so.Ipc.Buffer.{
  Buffer, BufferState, BufferId, read, write, closed, stdout, stderr, null, buff_size, is_pipe,
  read_buffer,
}
use tp_so.Kernel.{Kernel, ready, blocked, yielded, exited, set_buffer}
use tp_so.Kernel.Process.{
  is_blocked, is_ready, get_entry, get_pd_entry, set_process_state, sys_block, sys_unblock,
  has_open_childs, set_process_to_foreground, set_process_to_background, dup_pd,
}
use tp_so.Kernel.Queues.{change_priority}
use tp_so.Kernel.Pipes.{is_closed, read_pipe, write_pipe, sys_close_pd}

-- What a handler does: it returns a value; it returns bytes in the caller's memory, and their number;
-- it prints bytes, in red for the standard error, and returns their number; it calls `_int20h` and
-- then returns a value; it calls `_int20h` and then tests its loop's condition again; it faults.
pub data Reply : Type 0 where
  done : ℕ → Kernel → Reply
  filled : List ℕ → Kernel → Reply
  printed : List ℕ → Bool → Kernel → Reply
  switch_then : ℕ → Kernel → Reply
  again : Kernel → Reply
  fault : Reply

-- `-1` in a uint64_t
abbrev pub error : ℕ
error = 2 ^ 64 - 1

-- An identifier passed to a uint32_t parameter.
abbrev pub to_pid : ℕ → ℕ
to_pid pid = pid % 2 ^ 32

abbrev pub is_write : BufferState → Bool
is_write write = true
is_write _ = false

abbrev pub is_read : BufferState → Bool
is_read read = true
is_read _ = false

abbrev pub is_stdout : BufferId → Bool
is_stdout stdout = true
is_stdout _ = false

abbrev pub is_stderr : BufferId → Bool
is_stderr stderr = true
is_stderr _ = false

abbrev pub reply_filled : Option (List ℕ × Kernel) → Reply
reply_filled none = fault
reply_filled (some (bytes, k)) = filled bytes k

abbrev pub reply_done : Option (ℕ × Kernel) → Reply
reply_done none = fault
reply_done (some (n, k)) = done n k

-- `arqSysRead` from its loop on, for process `a` and the buffer `b`.
pub read_loop : Kernel → ℕ → ℕ → ℕ → Reply
read_loop k a b count =
    let buff = k.buffers b in
    let (bytes, buff') = read_buffer buff count in
    if buff.buffer_dim == 0 && not (is_closed buff.state)
    then again (set_process_state k a blocked).0
    else if is_closed buff.state
    then done 0 k
    else if is_pipe buff.buff_id
    then reply_filled (read_pipe k b count)
    else filled bytes (set_buffer k b buff')

abbrev pub read_from : Kernel → ℕ → Option ℕ → Reply
read_from k count none = fault
read_from k count (some b) =
    if (b == null || is_closed (k.buffers b).state) || is_write (k.buffers b).state
    then done 0 k
    else read_loop k k.current b count

pub arq_sys_read : Kernel → ℕ → ℕ → Reply
arq_sys_read k pd count =
    if k.current == null
    then done 0 k
    else read_from k count (get_pd_entry k k.current (pd % 2 ^ 32))

-- `arqSysWrite` from its loop on; the list is `auxBuff[0 .. count)`.
pub write_loop : Kernel → ℕ → ℕ → List ℕ → Reply
write_loop k a b bytes =
    let buff = k.buffers b in
    if buff.buffer_dim == buff_size && not (is_closed buff.state)
    then again (set_process_state k a blocked).0
    else if is_closed buff.state
    then done 0 k
    else if is_stdout buff.buff_id
    then printed bytes false k
    else if is_stderr buff.buff_id
    then printed bytes true k
    else reply_done (write_pipe k b bytes)

abbrev pub write_to : Kernel → List ℕ → Option ℕ → Reply
write_to k bytes none = fault
write_to k bytes (some b) =
    if (b == null || is_closed (k.buffers b).state) || is_read (k.buffers b).state
    then done 0 k
    else write_loop k k.current b bytes

pub arq_sys_write : Kernel → ℕ → List ℕ → Reply
arq_sys_write k pd bytes =
    if k.current == null
    then done 0 k
    else write_to k bytes (get_pd_entry k k.current (pd % 2 ^ 32))

pub arq_sys_block : Kernel → ℕ → Reply
arq_sys_block k pid =
    let a = get_entry k (to_pid pid) in
    if a == null then done error k else switch_then 0 (sys_block k a)

pub arq_sys_unblock : Kernel → ℕ → Reply
arq_sys_unblock k pid =
    let a = get_entry k (to_pid pid) in
    if a == null then done error k else switch_then 0 (sys_unblock k a)

-- A successful `changePriority` returns 1.
pub arq_sys_priority : Kernel → ℕ → ℕ → Reply
arq_sys_priority k pid new_priority =
    let (k', changed) = change_priority k (to_pid pid) (new_priority % 2 ^ 32) in
    if pid == 1 || pid == 2 then done error k else done (if changed then 1 else error) k'

pub arq_sys_change_state : Kernel → ℕ → Reply
arq_sys_change_state k pid =
    let a = get_entry k (to_pid pid) in
    if a == null
    then done error k
    else if is_blocked (k.pcb a).state
    then switch_then 0 (set_process_state k a ready).0
    else if is_ready (k.pcb a).state
    then switch_then 0 (set_process_state k a blocked).0
    else switch_then 0 k

pub arq_sys_kill : Kernel → ℕ → Reply
arq_sys_kill k pid =
    let (k', killed) = set_process_state k (get_entry k (to_pid pid)) exited in
    if ltb pid 3 then done error k else if killed then switch_then 1 k' else done error k'

-- The loop of `arqSysWait`, for process `a`.
pub wait_loop : Kernel → ℕ → Reply
wait_loop k a =
    if has_open_childs k a
    then again (set_process_state k a blocked).0
    else done 0 (set_process_to_foreground k a)

pub arq_sys_wait : Kernel → Reply
arq_sys_wait k = wait_loop (set_process_to_background k k.current) k.current

pub arq_sys_exit : Kernel → Reply
arq_sys_exit k = switch_then 0 (set_process_state k k.current exited).0

abbrev pub close_at : Kernel → ℕ → Option ℕ → Reply
close_at k pd none = fault
close_at k pd (some b) =
    if b == null
    then done error k
    else reply_done (sys_close_pd k k.current b pd >>= λ k'. some (0, k'))

pub arq_sys_close_pd : Kernel → ℕ → Reply
arq_sys_close_pd k pd = close_at k (pd % 2 ^ 32) (get_pd_entry k k.current (pd % 2 ^ 32))

pub arq_sys_get_pid : Kernel → Reply
arq_sys_get_pid k = done (k.pcb k.current).id k

pub arq_sys_set_to_foreground : Kernel → Reply
arq_sys_set_to_foreground k = done 0 (set_process_to_foreground k k.current)

pub arq_sys_set_to_background : Kernel → Reply
arq_sys_set_to_background k = done 0 (set_process_to_background k k.current)

pub arq_sys_dup : Kernel → ℕ → ℕ → Reply
arq_sys_dup k old_pd new_pd =
    let (k', copied) = dup_pd k k.current old_pd new_pd in done (if copied then 0 else error) k'

unfoldable pub arq_sys_yield : Kernel → Reply
arq_sys_yield k = switch_then 0 (set_process_state k k.current yielded).0

-- The state that a reply leaves satisfies `P`; a fault leaves none.
unfoldable pub Leaves : (Kernel → Type 0) → Reply → Type 0
Leaves P (done n k) = P k
Leaves P (filled bytes k) = P k
Leaves P (printed bytes red k) = P k
Leaves P (switch_then n k) = P k
Leaves P (again k) = P k
Leaves P fault = Unit
