-- ===== src/Tests/Scheduling.antt =====
-- Runs of scheduler.c.
use tp_so.Base.Maybe.{Ensures, Returns}
use tp_so.Kernel.Timers.Wake.{Elsewhere}
use tp_so.Kernel.Scheduler.Quiet.{Live}
use tp_so.Kernel.Scheduler.Conserve.{AtWork, tick_keeps_all}
use tp_so.Base.{if◌then◌else◌, ◌==◌, ℕ, ◌≡◌, refl, inl, inr, [], ◌∷◌, arith, count}
use tp_so.Kernel.{Kernel, ready, running, blocked, exited, ProcessState}
use tp_so.Kernel.Process.{concat, exists, has_pid, sys_block, set_foreground_process}
use tp_so.Kernel.Queues.{
  next_process, check_blocked, leave_idle, requeue, dispatch, pop_first, run_node,
  insert_in_blocked_queue,
}
use tp_so.Kernel.Queues.Conserve.{Separate, tracked}
use tp_so.Kernel.Queues.Switch.{next_process_keeps, next_process_loses_ready}
use tp_so.Kernel.Queues.Order.{SameIds, AllReady, first_of, next_process_runs_first}
use tp_so.Kernel.Queues.Blocked.{check_blocked_keeps}
use tp_so.Kernel.Scheduler.{tick}
use tp_so.Kernel.Scheduler.Invariant.{Sound, tick-Sound}
use tp_so.Tests.Data.{machine, table, process}

pub machine-Separate : (st : ProcessState) → Separate (machine st)
unfolding count concat
machine-Separate st = record {
  six = refl;
  no_null = refl;
  no_idle = refl;
  once = λ a. ground arith;
  running_one = λ e. omega arith;
  idle_there = λ e. omega arith;
  idle_alone = λ a h e. ground arith;
}

-- The running process goes behind those that wait at its level.
next_process_keeps_example : count 4 (tracked (next_process (machine running))) ≡ 1
unfolding count concat
next_process_keeps_example =
    next_process_keeps (machine running) 4 (machine-Separate running) (λ e. omega arith)

next_process_loses_ready_example : count 4 (tracked (next_process (machine ready))) ≡ 0
next_process_loses_ready_example =
    next_process_loses_ready (machine ready) (machine-Separate ready) (λ e. omega arith) refl

machine-AllReady : (st : ProcessState) → AllReady (machine st)
unfolding count concat
machine-AllReady st = λ a m. ground arith

-- The first process that is READY runs.
next_process_runs_first_example :
    ((next_process (machine blocked)).current ≡ 3)
    × (((next_process (machine blocked)).pcb (next_process (machine blocked)).current).state
        ≡ running)
unfolding concat first_of
next_process_runs_first_example =
    next_process_runs_first (machine blocked) (machine-Separate blocked) (machine-AllReady blocked)
      (λ e. omega arith) (inl refl)

-- Process 3, blocked by `sysBlock` while it stands in level 0, runs all the same.
blocked_while_waiting :
    let k = next_process (sys_block (machine blocked) 3) in
    (((sys_block (machine blocked) 3).pcb 3).state ≡ blocked)
    × (k.current ≡ 3)
    × ((k.pcb 3).state ≡ running)
unfolding sys_block exists has_pid concat next_process leave_idle requeue dispatch pop_first
    run_node set_foreground_process insert_in_blocked_queue
blocked_while_waiting = (refl, refl, refl)

-- Idle runs, and process 4 waits.
abbrev resting : Kernel
resting = record (machine running) {
  current = 2;
  levels = (3 ∷ []) ∷ [] ∷ (4 ∷ 5 ∷ []) ∷ [] ∷ [] ∷ [] ∷ [];
}

resting-Separate : Separate resting
unfolding count concat
resting-Separate = record {
  six = refl;
  no_null = refl;
  no_idle = refl;
  once = λ a. ground arith;
  running_one = λ e. omega arith;
  idle_there = λ e. omega arith;
  idle_alone = λ a h e. ground arith;
}

check_blocked_keeps_example :
    ((a : ℕ)
      → count a (tracked (check_blocked (machine running))) ≡ count a (tracked (machine running)))
    × SameIds (machine running) (check_blocked (machine running))
    × ((b : ℕ) → ((check_blocked (machine running)).pcb b).state ≡ ((machine running).pcb b).state)
    × ((check_blocked (machine running)).current ≡ 4)
check_blocked_keeps_example = check_blocked_keeps (machine running) (machine-Separate running)

-- Process 4 is a child of process 3, which has exited.
abbrev orphaning : Kernel
orphaning = record (machine running) {
  pcb = λ a.
      if a == 3
      then record (process 3 exited) { childs_ids = 4 ∷ [] }
      else record (table running a) { parent_id = 3 };
}

tick-Sound_example : Ensures (λ out. Sound out.1) (tick (machine running) 77)
tick-Sound_example = tick-Sound (machine running) 77 (machine-Separate running, refl)

tick_keeps_all_example :
    Returns
      (λ out. (a : ℕ) → count a (tracked out.1) ≡ count a (tracked (machine running)))
      (tick (machine running) 77)
unfolding AtWork Elsewhere count concat
tick_keeps_all_example =
    tick_keeps_all (machine running) 77 (machine-Separate running, refl) live (inr (λ e. differ e))
      tt (λ e. omega arith)
  where
    live : Live (machine running)
    live = record { waiting = λ a m. ground arith; runner = refl }

    differ : running ≡ ready → ⊥
    differ e = cc
