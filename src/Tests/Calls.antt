-- ===== src/Tests/Calls.antt =====
-- Runs of system calls.
use tp_so.Base.{
  ℕ, zero, suc, ◌+◌, ◌<◌, ◌≡◌, refl, ◌≢◌, some, ◌==◌, if◌then◌else◌, count, false, [], ◌∷◌, arith,
  get_or, replicate,
}
use tp_so.Base.Maybe.{◌>>=◌, Ensures, Returns}
use tp_so.Kernel.Scheduler.{
  tick, account, check_exited, reap_queues, reap, unlink_from, unlink, reap_current, use_quantum,
  switch, start_count,
}
use tp_so.Kernel.Scheduler.Quiet.{Live}
use tp_so.Kernel.Timers.{in_millis, read_tsc, update_timers, update_timers_from}
use tp_so.Kernel.Queues.{
  check_blocked, check_blocked_from, next_process, requeue, leave_idle, dispatch, pop_first,
  run_node, insert_in_queue, level_of,
}
use tp_so.Kernel.Timers.Wake.{Elsewhere}
use tp_so.Kernel.Queues.Conserve.{tracked}
use tp_so.Kernel.{Kernel, running, exited, yielded, memory, set_pcb}
use tp_so.Kernel.Process.{
  set_foreground_process, set_process_state, refuses_state, get_entry, find_pid, exists, has_pid,
  concat,
}
use tp_so.Kernel.Exit.{
  free_chain, chain_limit, delete_process, close_pds_from, check_childs, adopt, set_parent_ready,
  drop_child,
}
use tp_so.Kernel.Alloc.{sys_free}
use tp_so.Kernel.Alloc.Free.{sys_free_releases_twice}
use tp_so.Kernel.Pipes.{destroy_buffer}
use tp_so.Kernel.Pipes.Open.{open_pipe}
use tp_so.Kernel.Pipes.Open.Full.{open_pipe_full}
use tp_so.Kernel.Syscalls.{arq_sys_kill, arq_sys_yield}
use tp_so.Kernel.Syscalls.Kill.{Switches, arq_sys_kill-removes}
use tp_so.Kernel.Syscalls.Calls.{call_yield, run_call}
use tp_so.Kernel.Scheduler.Invariant.{Sound}
use tp_so.Kernel.Reach.{stay, then_call, Reaches-Sound}
use tp_so.Tests.Data.{machine, table, process}
use tp_so.Tests.Scheduling.{machine-Separate}

-- Process 4 has one block, at 0x500.
abbrev owner : Kernel
owner = record (machine running) {
  pcb = λ a. record (table running a) { first_alloc = 0x500 };
  allocs = λ a. record { allocation = a + 16; next = 0 };
}

sys_free_releases_twice_example :
    (sys_free owner 4 0x510 >>= λ k'. free_chain chain_limit (k'.pcb 4).first_alloc k')
    ≡ some (record owner { released = memory 0x500 ∷ memory 0x500 ∷ [] })
sys_free_releases_twice_example = sys_free_releases_twice owner 4 0x510 (λ e. omega arith) refl refl

get_or-replicate : (n i x : ℕ) → i < n → get_or (replicate n x) i 0 ≡ x
get_or-replicate zero i x h = absurd (omega arith)
get_or-replicate (suc n) zero x h = refl
get_or-replicate (suc n) (suc i) x h = get_or-replicate n i x (omega arith)

-- All descriptors of process 4 are in use.
abbrev crowded : Kernel
crowded = record (machine running) {
  pcb = λ a. record (table running a) { pd_table = replicate 32 7 };
}

open_pipe_full_example :
    open_pipe (λ n. 100 + n) crowded 4
    ≡ (false, [], destroy_buffer crowded (get_or (replicate 32 7) 31 0))
open_pipe_full_example = open_pipe_full (λ n. 100 + n) crowded 4 (λ i h e. seven i h e)
  where
    seven : (i : ℕ) → i < 32 → (let entry : ℕ = get_or (replicate 32 7) i 0 in entry ≢ 0)
    seven i h e = omega (arith, get_or-replicate 32 i 7 h)

running-Live : Live (machine running)
unfolding count concat
running-Live = record { waiting = λ a m. ground arith; runner = refl }

-- Process 5, which waits, is killed, and the scheduler runs.
arq_sys_kill-removes_example :
    Switches
      (λ n k'.
        (n ≡ 1)
        × ((c : ℕ)
            → (k'.pcb c).state ≡ (if c == 5 then exited else ((machine running).pcb c).state))
        × Ensures (λ out. Sound out.1 × (count 5 (tracked out.1) ≡ 0)) (tick k' 7))
      (arq_sys_kill (machine running) 5)
unfolding get_entry exists find_pid concat has_pid count Elsewhere
arq_sys_kill-removes_example =
    arq_sys_kill-removes (machine running) 5 7 (machine-Separate running, refl) running-Live
      (omega arith) (omega arith) refl tt

-- That call of the scheduler returns: process 3 runs, and process 4 alone waits in the levels.
kill_then_tick :
    Returns
      (λ out. (out.1.current ≡ 3) × (out.1.levels ≡ (4 ∷ []) ∷ [] ∷ [] ∷ [] ∷ [] ∷ [] ∷ []))
      (tick (set_process_state (machine running) 5 exited).0 7)
unfolding tick read_tsc in_millis account update_timers update_timers_from check_blocked
    check_blocked_from check_exited reap_queues reap unlink_from unlink delete_process free_chain
    close_pds_from check_childs adopt set_parent_ready drop_child get_entry find_pid reap_current
    use_quantum switch start_count next_process requeue leave_idle dispatch pop_first run_node
    insert_in_queue level_of set_foreground_process exists has_pid concat set_process_state
    refuses_state
kill_then_tick = (refl, refl)

-- The process that runs yields.
abbrev yielding : Kernel
yielding =
    set_pcb (machine running) 4 (record (process 4 running) { state = yielded; manual_blocked = 0 })

Reaches-Sound_example : Sound yielding
unfolding run_call arq_sys_yield set_process_state refuses_state exists
Reaches-Sound_example =
    Reaches-Sound {k = machine running} {m = yielding} (machine-Separate running, refl)
      (then_call stay call_yield yielding refl)
