-- ===== src/Kernel/Exit.antt =====
-- The end of a process in Kernel/interruptRelated/scheduler.c: `deleteProcess` and what it calls.
pub mod Frame
pub mod Parent
use tp_so.Base.{
  ℕ, zero, suc, ◌+◌, not, ◌&&◌, Option, none, some, List, [], ◌∷◌, ◌==◌, if◌then◌else◌, get_or, set,
}
use tp_so.Base.Maybe.{◌>>=◌}
use tp_so.Ipc.Buffer.{null, pd_size}
use tp_so.Kernel.{Kernel, Pcb, ready, set_pcb, release, memory, pcb_block}
use tp_so.Kernel.Process.{get_entry, set_process_state}
use tp_so.Kernel.Timers.{read_tsc, in_millis, update_timers}
use tp_so.Kernel.Pipes.{remove_references}

-- The chain of a process's allocations has fewer nodes than this: user memory is 0x3fff8 bytes,
-- and a block takes at least 0x500. A longer chain runs in a circle.
abbrev pub chain_limit : ℕ
chain_limit = 256

-- `freeAllocations`; `none` is a chain that does not end.
unfoldable pub free_chain : ℕ → ℕ → Kernel → Option Kernel
free_chain zero a k = if a == null then some k else none
free_chain (suc n) a k =
    let rest = free_chain n (k.allocs a).next (release k (memory a)) in
    if a == null then some k else rest

-- `closePDs`, `n` rounds from `i` on.
unfoldable pub close_pds_from : ℕ → ℕ → Kernel → ℕ → Option Kernel
close_pds_from zero i k a = some k
close_pds_from (suc n) i k a =
    let aux = get_or (k.pcb a).pd_table i null in
    let k' = set_pcb k a (record (k.pcb a) { pd_table = set (k.pcb a).pd_table i null }) in
    (if aux == null then some k else remove_references k' aux (k.pcb a).id) >>= λ k''.
    close_pds_from n (i + 1) k'' a

-- The loop of `checkChilds`: the children go to the parent of the process.
unfoldable pub adopt : ℕ → List ℕ → Kernel → Kernel
adopt parent [] k = k
adopt parent (c ∷ cs) k =
    let child = get_entry k c in
    adopt parent cs (
      if c == 0
      then k
      else set_pcb k child (record (k.pcb child) { parent_id = (k.pcb parent).id }))

unfoldable pub check_childs : Kernel → ℕ → Kernel
check_childs k a = adopt (get_entry k (k.pcb a).parent_id) (k.pcb a).childs_ids k

unfoldable pub drop_child : ℕ → List ℕ → List ℕ
drop_child pid [] = []
drop_child pid (c ∷ cs) = (if c == pid then 0 else c) ∷ drop_child pid cs

unfoldable pub set_parent_ready : Kernel → ℕ → Kernel
set_parent_ready k a =
    let parent = get_entry k (k.pcb a).parent_id in
    let k' =
      set_pcb k parent (record (k.pcb parent) {
        childs_ids = drop_child (k.pcb a).id (k.pcb parent).childs_ids;
      }) in
    (set_process_state k' parent ready).0

-- `deleteProcess`; the freed node keeps its contents.
unfoldable pub delete_process : Kernel → ℕ → Option Kernel
delete_process k a = do
  let k1 = (if k.foreground == a then record k { foreground = null } else k)
  let (t, k2) = read_tsc k1
  now ← in_millis k2 t
  let k3 = update_timers now k2
  k4 ← free_chain chain_limit (k3.pcb a).first_alloc k3
  k5 ← close_pds_from pd_size 0 k4 a
  let k6 = set_parent_ready (check_childs k5 a) a
  some (release (release k6 (memory (k6.pcb a).memory_from_mm)) (pcb_block a))
