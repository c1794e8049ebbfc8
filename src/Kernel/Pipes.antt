-- ===== src/Kernel/Pipes.antt =====
-- Kernel/ipcRelated/pipe.c, and the functions of bufferManagement.c that reach the processes which
-- refer to a buffer.
pub mod Frame
pub mod Delivery
pub mod Transfer
pub mod Open
pub mod Calls
use tp_so.Base.{
  ℕ, zero, suc, ◌+◌, Bool, true, false, not, ◌&&◌, ◌||◌, Option, none, some, List, [], ◌∷◌, ltb,
  leb, ◌==◌, if◌then◌else◌, length, replicate, get_or,
}
use tp_so.Base.Maybe.{◌>>=◌}
use tp_so.Ipc.Buffer.{
  Buffer, BufferState, BufferId, write, read, closed, pipe, null, pd_size, buff_size, can_read,
  can_write, is_pipe, write_buffer, read_buffer, copy_to_buffer, copy_from_buffer, check_references,
  set_reference_by_index, get_reference_by_index,
}
use tp_so.Kernel.{Kernel, ready, set_buffer, release, buffer_block}
use tp_so.Kernel.Process.{set_process_state, set_process_pd, get_pd_entry, remove_from_pds}

abbrev pub is_closed : BufferState → Bool
is_closed closed = true
is_closed _ = false

-- One round of `setBufferReferencesReady`: in a pipe each process, else each in the foreground.
pub wake : Bool → Kernel → ℕ → Kernel
wake any k r =
    if not (r == null) && (any || not ((k.pcb r).foreground == 0))
    then (set_process_state k r ready).0
    else k

pub wake_all : Bool → List ℕ → Kernel → Kernel
wake_all any [] k = k
wake_all any (r ∷ rs) k = wake_all any rs (wake any k r)

pub set_buffer_references_ready : Kernel → ℕ → Kernel
set_buffer_references_ready k b =
    wake_all (is_pipe (k.buffers b).buff_id) (k.buffers b).references k

-- The loop of `destroyBuffer`.
pub forget_buffer : ℕ → List ℕ → Kernel → Kernel
forget_buffer b [] k = k
forget_buffer b (r ∷ rs) k = forget_buffer b rs (if r == null then k else remove_from_pds k r b)

pub destroy_buffer : Kernel → ℕ → Kernel
destroy_buffer k b =
    let k' =
      (if check_references (k.buffers b) then k else forget_buffer b (k.buffers b).references k) in
    release k' (buffer_block b)

-- `copyToBuffer` on a buffer's address: nothing happens at NULL.
unfoldable pub copy_to : Kernel → ℕ → List ℕ → Option Kernel
copy_to k b bytes =
    if b == null
    then some k
    else (copy_to_buffer (k.buffers b) bytes >>= λ out. some (set_buffer k b out.1))

-- `closePipe` up to the wake-up of the other end: no references are left, a writer's other end gets
-- an end-of-file mark, and this end is closed.
pub shut_end : Kernel → ℕ → Option Kernel
shut_end k e = do
  let k1 = set_buffer k e (record (k.buffers e) { references = replicate pd_size null })
  k2 ←
      (if can_write (k1.buffers e).state
        then copy_to k1 (k1.buffers e).opposite_end (0 ∷ [])
        else some k1)
  some (set_buffer k2 e (record (k2.buffers e) { state = closed }))

pub close_pipe : Kernel → ℕ → Option Kernel
close_pipe k e = do
  let other = (k.buffers e).opposite_end
  k1 ← shut_end k e
  let k2 = set_buffer_references_ready k1 other
  some (
      if is_closed (k2.buffers other).state then destroy_buffer (destroy_buffer k2 e) other else k2)

-- The `if` of `updateOppositeEnd`: what was taken from the writing end goes to the reading end.
pub deliver : Kernel → ℕ → List ℕ → Option Kernel
deliver k r_end bytes =
    if length bytes == 0
    then some k
    else (copy_to k r_end bytes >>= λ k2. some (set_buffer_references_ready k2 r_end))

-- `updateOppositeEnd` of pipe.c.
pub update_opposite_end : Kernel → ℕ → Option Kernel
update_opposite_end k w_end =
    if w_end == null
    then some k
    else (let (bytes, w) = copy_from_buffer (k.buffers w_end) buff_size in
        deliver (set_buffer k w_end w) w.opposite_end bytes)

-- `readPipe`; the bytes go to `buffToFill`, which is not NULL.
pub read_pipe : Kernel → ℕ → ℕ → Option (List ℕ × Kernel)
read_pipe k r_end count =
    if (not (r_end == null) && ltb 0 count)
      && (can_read (k.buffers r_end).state && ltb 0 (k.buffers r_end).buffer_dim)
    then (let (bytes, r) = read_buffer (k.buffers r_end) count in
        update_opposite_end (set_buffer k r_end r) r.opposite_end >>= λ k1. some (bytes, k1))
    else some ([], k)

-- `writePipe`; the list is `dataToRead[0 .. count)`.
pub write_pipe : Kernel → ℕ → List ℕ → Option (ℕ × Kernel)
write_pipe k w_end bytes =
    if (not (w_end == null) && ltb 0 (length bytes))
      && (ltb (k.buffers w_end).buffer_dim 1023 && can_write (k.buffers w_end).state)
    then (do
      out ← write_buffer (k.buffers w_end) bytes
      k1 ← update_opposite_end (set_buffer k w_end out.1) w_end
      some (out.0, k1))
    else some (0, k)

-- A round of `removeReferences`: drop the reference `i` to a process with the pid, and close the
-- pipe end that has no reference left.
pub remove_reference : Kernel → ℕ → ℕ → ℕ → Option Kernel
remove_reference k b pid i =
    let r = get_reference_by_index (k.buffers b) i in
    if not (r == null) && (k.pcb r).id == pid
    then (let (b', unused) = set_reference_by_index (k.buffers b) null i in
        let k' = set_buffer k b b' in
        if unused && is_pipe b'.buff_id then close_pipe k' b else some k')
    else some k

-- The loop, `n` rounds from `i` on.
pub remove_references_from : ℕ → ℕ → Kernel → ℕ → ℕ → Option Kernel
remove_references_from zero i k b pid = some k
remove_references_from (suc n) i k b pid =
    remove_reference k b pid i >>= λ k'. remove_references_from n (i + 1) k' b pid

pub remove_references : Kernel → ℕ → ℕ → Option Kernel
remove_references k b pid = remove_references_from pd_size 0 k b pid

-- `sysClosePd`
pub sys_close_pd : Kernel → ℕ → ℕ → ℕ → Option Kernel
sys_close_pd k a to_close pd =
    if ltb pd pd_size && not (a == null)
    then (let k' = set_process_pd k a null pd in
        if is_pipe (k'.buffers to_close).buff_id
        then remove_references k' to_close (k'.pcb a).id
        else some k')
    else some k
