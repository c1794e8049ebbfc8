-- ===== src/Kernel/Timers.antt =====
-- Kernel/ipcRelated/timer.c: sleeping processes and the list of their timers.
pub mod Frame
pub mod Wake
use tp_so.Base.{
  ℕ, ◌+◌, ◌/◌, ◌%◌, ◌^◌, not, ◌&&◌, Option, none, some, List, [], ◌∷◌, ◌++◌, leb, ◌==◌,
  if◌then◌else◌,
}
use tp_so.Base.Maybe.{◌>>=◌}
use tp_so.Kernel.{Kernel, Timer, ProcessState, ready, blocked, Release, timer_block, release}
use tp_so.Kernel.Process.{is_exited, set_process_state}

-- `_readTimeStampCounter`: the next reading of the counter.
unfoldable pub read_tsc : Kernel → ℕ × Kernel
read_tsc k = (k.tsc k.tsc_reads, record k { tsc_reads = k.tsc_reads + 1 })

-- `t / TSCFrequency`, which faults at a frequency of 0.
unfoldable pub in_millis : Kernel → ℕ → Option ℕ
in_millis k t = if k.tsc_frequency == 0 then none else some (t / k.tsc_frequency)

-- `insertInList`
pub insert_in_list : Kernel → Timer → Kernel
insert_in_list k timer = record k { timers = k.timers ++ (timer ∷ []) }

-- `removeFromList`: unlink the first timer with the pid.
pub unlink_timer : ℕ → List Timer → List Timer
unlink_timer pid [] = []
unlink_timer pid (t ∷ ts) = if t.pid == pid then ts else t ∷ unlink_timer pid ts

pub remove_from_list : Kernel → Timer → Kernel
remove_from_list k timer = record k { timers = unlink_timer timer.pid k.timers }

-- One round of `updateTimers`.
pub update_timer : ℕ → Timer → Kernel → Kernel
update_timer now t k =
    if is_exited (k.pcb t.sleeping_process).state
    then release (remove_from_list k t) (timer_block t.block)
    else if leb t.end_interval now && not ((k.pcb t.sleeping_process).manual_blocked == 1)
    then (set_process_state k t.sleeping_process ready).0
    else k

-- The loop; the list holds the timers from `current` on. What a round unlinks stands before these.
unfoldable pub update_timers_from : ℕ → List Timer → Kernel → Kernel
update_timers_from now [] k = k
update_timers_from now (t ∷ ts) k = update_timers_from now ts (update_timer now t k)

unfoldable pub update_timers : ℕ → Kernel → Kernel
update_timers now k = update_timers_from now k.timers k

-- `sleep` up to `_int20h`, on the block that `allocTimer` returned: the timer, and the state in
-- which the scheduler is called.
pub sleep_start : ℕ → ℕ → Kernel → Option (Timer × Kernel)
sleep_start block millis k = do
  let (t, k1) = read_tsc k
  now ← in_millis k1 t
  let timer : Timer = record {
    block = block;
    end_interval = (now + millis) % 2 ^ 64;
    sleeping_process = k.current;
    pid = (k.pcb k.current).id;
  }
  some (timer, (set_process_state (insert_in_list k1 timer) k.current blocked).0)

-- `sleep` after `_int20h`.
pub sleep_finish : Timer → Kernel → Kernel
sleep_finish timer k = release (remove_from_list k timer) (timer_block timer.block)
