-- ===== src/Kernel/Scheduler.antt =====
-- `scheduler` of Kernel/interruptRelated/scheduler.c, called by the timer interrupt and by
-- `_int20h`.
pub mod Invariant
pub mod Quiet
pub mod Conserve
pub mod Gone
pub mod Unlinked
pub mod Killed
use tp_so.Base.{
  ℕ, zero, suc, ◌+◌, ◌-◌, ◌/◌, ◌%◌, ◌^◌, ◌||◌, Option, none, some, List, [], ◌∷◌, ◌==◌,
  if◌then◌else◌, get_or, set,
}
use tp_so.Base.Int.{pred_ℤ, lt_one}
use tp_so.Base.Maybe.{◌>>=◌}
use tp_so.Ipc.Buffer.{null}
use tp_so.Kernel.{Kernel, Pcb, set_pcb}
use tp_so.Kernel.Process.{is_exited, is_blocked, is_yielded}
use tp_so.Kernel.Queues.{check_blocked, next_process}
use tp_so.Kernel.Timers.{read_tsc, in_millis, update_timers}
use tp_so.Kernel.Exit.{delete_process}

unfoldable pub unlink : ℕ → List ℕ → List ℕ
unlink a [] = []
unlink a (b ∷ q) = if b == a then q else b ∷ unlink a q

-- Unlink a node from the queue `multipleQueues[i]`.
unfoldable pub unlink_from : ℕ → ℕ → Kernel → Kernel
unlink_from i a k =
    if i == 6
    then record k { blocked_list = unlink a k.blocked_list }
    else record k { levels = set k.levels i (unlink a (get_or k.levels i [])) }

-- The inner loop of `checkExited` over the nodes of queue `i` still to be visited.
unfoldable pub reap : ℕ → List ℕ → Kernel → Option Kernel
reap i [] k = some k
reap i (a ∷ rest) k =
    (if is_exited (k.pcb a).state then delete_process (unlink_from i a k) a else some k)
    >>= reap i rest

abbrev pub queue_at : Kernel → ℕ → List ℕ
queue_at k i = if i == 6 then k.blocked_list else get_or k.levels i []

-- The outer loop, `n` rounds from `i` on.
unfoldable pub reap_queues : ℕ → ℕ → Kernel → Option Kernel
reap_queues zero i k = some k
reap_queues (suc n) i k = reap i (queue_at k i) k >>= reap_queues n (i + 1)

-- The end of `checkExited`: the current process itself.
unfoldable pub reap_current : Kernel → Option Kernel
reap_current k =
    if is_exited (k.pcb k.current).state
    then (delete_process k k.current >>= λ k'. some (next_process (check_blocked k')))
    else some k

unfoldable pub check_exited : Kernel → Option Kernel
check_exited k = reap_queues 7 0 k >>= reap_current

-- The accounting at the top: save the stack, halve the aging interval and add the time since the
-- process was dispatched. Counters are uint64_t.
unfoldable pub account : Kernel → ℕ → ℕ → Option Kernel
account k rsp counter_finish = do
  let p = k.pcb k.current
  ran ← in_millis k ((counter_finish + 2 ^ 64 - p.counter_init) % 2 ^ 64)
  some (
      set_pcb k k.current
        (record p { stack = rsp; aging_interval = (p.aging_interval / 2 + ran) % 2 ^ 64 }))

-- The end: take a quantum from the current process, switch if it has none left or gave up the
-- processor, and note when it starts.
unfoldable pub use_quantum : Kernel → Kernel
use_quantum k =
    set_pcb k k.current (record (k.pcb k.current) { quantums = pred_ℤ (k.pcb k.current).quantums })

unfoldable pub switch : Kernel → Kernel
switch k =
    let p = k.pcb k.current in
    if (lt_one p.quantums || is_blocked p.state) || is_yielded p.state then next_process k else k

unfoldable pub start_count : Kernel → Kernel
start_count k =
    let (t, k') = read_tsc k in
    set_pcb k' k'.current (record (k'.pcb k'.current) { counter_init = t })

-- The first call: the head of level 0 runs, and the level is emptied.
unfoldable pub start_up : Kernel → Kernel
start_up k = record k { current = get_or (get_or k.levels 0 []) 0 null; levels = set k.levels 0 [] }

-- Every later call.
unfoldable pub tick : Kernel → ℕ → Option (ℕ × Kernel)
tick k rsp = do
  let (t, k1) = read_tsc k
  k2 ← account k1 rsp t
  now ← in_millis k2 t
  k3 ← check_exited (check_blocked (update_timers now k2))
  let k4 = start_count (switch (use_quantum k3))
  some ((k4.pcb k4.current).stack, k4)

-- The stack to resume, and the new state.
unfoldable pub scheduler : Kernel → ℕ → Option (ℕ × Kernel)
scheduler k rsp =
    if k.current == null
    then (let k' = start_up k in some ((k'.pcb k'.current).stack, k'))
    else tick k rsp
