-- ===== src/Kernel/Pipes/Open.antt =====
-- `openPipe` of Kernel/ipcRelated/pipe.c.
pub mod Full
use tp_so.Base.{
  ℕ, zero, suc, ◌+◌, Bool, true, false, ◌&&◌, List, [], ◌∷◌, ◌++◌, ltb, ◌==◌, if◌then◌else◌, get_or,
}
use tp_so.Ipc.Buffer.{
  read, write, pipe, null, pd_size, get_reference_by_index, set_reference_by_index, set_buffer_id,
  set_buffer_state, set_buffer_opposite_end, create_empty_buffer,
}
use tp_so.Kernel.{Kernel, set_buffer}
use tp_so.Kernel.Process.{set_process_pd}
use tp_so.Kernel.Pipes.{destroy_buffer}

-- `pipe[dim]` and the descriptors found so far, in `openPipe`.
pub record Opening : Type 0 where
  pub dim : ℕ
  pub r_end : ℕ
  pub w_end : ℕ
  pub fds : List ℕ
  pub kernel : Kernel

-- `pipe[dim] = end`
abbrev pub set_end : Opening → ℕ → Opening
set_end o e = if o.dim == 0 then record o { r_end = e } else record o { w_end = e }

-- A new end at the block that `allocBuffer` returned: the first reads, the second writes.
abbrev pub new_end : Opening → ℕ → Kernel
new_end o block = set_buffer o.kernel block (
    set_buffer_state (set_buffer_id (create_empty_buffer (o.kernel.buffers block)) pipe)
      (if o.dim == 0 then read else write))

-- A round of the first loop of `openPipe`, at descriptor `i`. `blocks` are the results of
-- `allocBuffer`.
pub open_round : (ℕ → ℕ) → ℕ → ℕ → Opening → Opening
open_round blocks a i o =
    let entry = get_or (o.kernel.pcb a).pd_table i null in
    let block = blocks o.dim in
    if entry == null
    then record (set_end o block) {
      dim = o.dim + 1;
      fds = o.fds ++ (i ∷ []);
      kernel = set_process_pd (new_end o block) a block i;
    }
    else set_end o entry

-- The loop, `n` rounds from `i` on.
pub open_rounds : (ℕ → ℕ) → ℕ → ℕ → ℕ → Opening → Opening
open_rounds blocks a zero i o = o
open_rounds blocks a (suc n) i o =
    open_rounds blocks a n (i + 1) (if ltb o.dim 2 then open_round blocks a i o else o)

-- The second loop: the process refers to each end.
pub refer_ends : ℕ → ℕ → ℕ → ℕ → Opening → ℕ × Kernel
refer_ends a zero i dim o = (dim, o.kernel)
refer_ends a (suc n) i dim o =
    let e = (if dim == 0 then o.r_end else o.w_end) in
    let free = get_reference_by_index (o.kernel.buffers e) i == null in
    let k' = set_buffer o.kernel e (set_reference_by_index (o.kernel.buffers e) a i).0 in
    let more = ltb dim 2 && free in
    refer_ends a n (i + 1) (if more then dim + 1 else dim)
      (if more then record o { kernel = k' } else o)

-- `if(pipe[i] != NULL) destroyBuffer(pipe[i]);`
abbrev pub destroy_end : ℕ → Kernel → Kernel
destroy_end e k = if e == null then k else destroy_buffer k e

-- `openPipe` for process `a`: whether it succeeds, `pipeFds`, and the kernel.
pub open_pipe : (ℕ → ℕ) → Kernel → ℕ → Bool × List ℕ × Kernel
open_pipe blocks k a =
    let o =
      open_rounds blocks a pd_size 0
        (record { dim = 0; r_end = null; w_end = null; fds = []; kernel = k }) in
    let k1 =
      set_buffer o.kernel o.r_end (set_buffer_opposite_end (o.kernel.buffers o.r_end) o.w_end) in
    let k2 = set_buffer k1 o.w_end (set_buffer_opposite_end (k1.buffers o.w_end) o.r_end) in
    let (dim, k3) = refer_ends a pd_size 0 0 (record o { kernel = k2 }) in
    if ltb o.dim 2
    then (false, o.fds, destroy_end o.w_end (destroy_end o.r_end o.kernel))
    else if ltb dim 2
    then (false, o.fds, destroy_buffer (destroy_buffer k3 o.r_end) o.w_end)
    else (true, o.fds, k3)
