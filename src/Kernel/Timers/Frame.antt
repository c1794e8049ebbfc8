-- ===== src/Kernel/Timers/Frame.antt =====
-- `updateTimers` and the readings of the counter change no queue.
use tp_so.Base.{ℕ, refl, List, [], ◌∷◌, leb, not, ◌&&◌, ◌==◌}
use tp_so.Kernel.{Kernel, Timer, timer_block, release}
use tp_so.Kernel.Process.{is_exited}
use tp_so.Kernel.Frame.{Frame, Frame-refl, Frame-trans, Frame-if, set_ready-Frame}
use tp_so.Kernel.Timers.{
  read_tsc, remove_from_list, update_timer, update_timers_from, update_timers,
}

pub read_tsc-Frame : (k : Kernel) → Frame k (read_tsc k).1
unfolding read_tsc
read_tsc-Frame k = record {
  levels_same = refl;
  blocked_same = refl;
  current_same = refl;
  idle_same = refl;
  ids_same = λ b. refl;
  safe = λ s. s;
}

remove-Frame :
    (k : Kernel) (t : Timer) → Frame k (release (remove_from_list k t) (timer_block t.block))
unfolding remove_from_list
remove-Frame k t = record {
  levels_same = refl;
  blocked_same = refl;
  current_same = refl;
  idle_same = refl;
  ids_same = λ b. refl;
  safe = λ s. s;
}

update_timer-Frame : (now : ℕ) (t : Timer) (k : Kernel) → Frame k (update_timer now t k)
unfolding update_timer
update_timer-Frame now t k =
    Frame-if (is_exited (k.pcb t.sleeping_process).state) (remove-Frame k t) (
      Frame-if (leb t.end_interval now && not ((k.pcb t.sleeping_process).manual_blocked == 1))
        (set_ready-Frame k t.sleeping_process) (Frame-refl k))

update_timers_from-Frame :
    (now : ℕ) (ts : List Timer) (k : Kernel) → Frame k (update_timers_from now ts k)
unfolding update_timers_from
update_timers_from-Frame now [] k = Frame-refl k
update_timers_from-Frame now (t ∷ ts) k =
    Frame-trans (update_timer-Frame now t k)
      (update_timers_from-Frame now ts (update_timer now t k))

pub update_timers-Frame : (now : ℕ) (k : Kernel) → Frame k (update_timers now k)
unfolding update_timers
update_timers-Frame now k = update_timers_from-Frame now k.timers k
