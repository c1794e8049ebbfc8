-- ===== src/Kernel/Scheduler/Gone.antt =====
-- Steps of `scheduler` after which a process that was gone is still gone.
use tp_so.Base.{
  ℕ, zero, suc, ◌+◌, ◌≡◌, refl, ap, ◌∙◌, List, [], ◌∷◌, Option, arith, Bool, true, false,
  if◌then◌else◌, count,
}
use tp_so.Base.Maybe.{Ensures, Ensures-bind, Ensures-map}
use tp_so.Kernel.{Kernel}
use tp_so.Kernel.Process.{is_exited}
use tp_so.Kernel.Queues.{check_blocked, next_process}
use tp_so.Kernel.Queues.Conserve.{tracked}
use tp_so.Kernel.Queues.Order.{Shrinks, next_process-Shrinks}
use tp_so.Kernel.Queues.Blocked.{check_blocked-Shrinks}
use tp_so.Kernel.Frame.{Frame, set_pcb-Frame}
use tp_so.Kernel.Exit.{delete_process}
use tp_so.Kernel.Exit.Frame.{delete_process-Frame}
use tp_so.Kernel.Timers.{read_tsc}
use tp_so.Kernel.Timers.Frame.{read_tsc-Frame}
use tp_so.Kernel.Scheduler.{
  unlink_from, reap, queue_at, reap_queues, reap_current, use_quantum, switch, start_count,
}
use tp_so.Kernel.Scheduler.Quiet.{tracked-Frame}
use tp_so.Kernel.Scheduler.Invariant.{
  Sound, Sound-Frame, unlink_from-Shrinks, unlink_from-Sound, next_process-Sound,
  check_blocked-Sound,
}

-- The invariant of the queues, and the process neither on the processor nor in a queue.
abbrev pub Gone : ℕ → Kernel → Type 0
Gone b k = Sound k × (count b (tracked k) ≡ 0)

-- Who is gone stays away in every later step.
module _ (b : ℕ) where
  Gone-Frame : {k k' : Kernel} → Gone b k → Frame k k' → Gone b k'
  Gone-Frame g f = (Sound-Frame g.0 f, ap (count b) (tracked-Frame f) ∙ g.1)

  Gone-Shrinks : {k k' : Kernel} → Gone b k → Sound k' → Shrinks k k' → Gone b k'
  Gone-Shrinks g s f = (s, omega (arith, f.fewer b, g.1))

  Gone-if :
      (t : Bool) (r s : Option Kernel)
      → Ensures (Gone b) r
      → Ensures (Gone b) s
      → Ensures (Gone b) (if t then r else s)
  Gone-if true r s f g = f
  Gone-if false r s f g = g

  pub delete-Gone : (k : Kernel) (a : ℕ) → Gone b k → Ensures (Gone b) (delete_process k a)
  delete-Gone k a g =
      Ensures-map (Frame k) (Gone b) (delete_process k a) (λ k' f. Gone-Frame g f)
        (delete_process-Frame k a)

  unlink_from-Gone : (i a : ℕ) (k : Kernel) → Gone b k → Gone b (unlink_from i a k)
  unlink_from-Gone i a k g =
      Gone-Shrinks g (unlink_from-Sound i a k g.0) (unlink_from-Shrinks i a k g.0.0)

  check_blocked-Gone : (k : Kernel) → Gone b k → Gone b (check_blocked k)
  check_blocked-Gone k g =
      Gone-Shrinks g (check_blocked-Sound k g.0) (check_blocked-Shrinks k g.0.0)

  next_process-Gone : (k : Kernel) → Gone b k → Gone b (next_process k)
  next_process-Gone k g =
      Gone-Shrinks g (next_process-Sound k g.0) (next_process-Shrinks k g.0.0 g.0.1)

  pub reap-Gone : (i : ℕ) (q : List ℕ) (k : Kernel) → Gone b k → Ensures (Gone b) (reap i q k)
  unfolding reap
  reap-Gone i [] k g = g
  reap-Gone i (a ∷ q) k g =
      Ensures-bind (Gone b) (Gone b) _ (reap i q)
        (Gone-if (is_exited (k.pcb a).state) _ _
          (delete-Gone (unlink_from i a k) a (unlink_from-Gone i a k g)) g)
        (reap-Gone i q)

  pub reap_queues-Gone : (n i : ℕ) (k : Kernel) → Gone b k → Ensures (Gone b) (reap_queues n i k)
  unfolding reap_queues
  reap_queues-Gone zero i k g = g
  reap_queues-Gone (suc n) i k g =
      Ensures-bind (Gone b) (Gone b) (reap i (queue_at k i) k) (reap_queues n (i + 1))
        (reap-Gone i (queue_at k i) k g) (reap_queues-Gone n (i + 1))

  pub reap_current-Gone : (k : Kernel) → Gone b k → Ensures (Gone b) (reap_current k)
  unfolding reap_current
  reap_current-Gone k g =
      Gone-if (is_exited (k.pcb k.current).state) _ _
        (Ensures-bind (Gone b) (Gone b) (delete_process k k.current) _ (delete-Gone k k.current g)
          (λ k' g'. next_process-Gone (check_blocked k') (check_blocked-Gone k' g')))
        g

  pub finish-Gone : (k : Kernel) → Gone b k → Gone b (start_count (switch (use_quantum k)))
  unfolding start_count switch use_quantum
  finish-Gone k g =
      let k1 = use_quantum k in
      let g1 = Gone-Frame g (set_pcb-Frame k k.current _ refl (λ h. h)) in
      let k2 = switch k1 in
      let g2 : Gone b k2 = either _ k1 g1 (next_process-Gone k1 g1) in
      let k3 = (read_tsc k2).1 in
      Gone-Frame (Gone-Frame g2 (read_tsc-Frame k2)) (set_pcb-Frame k3 k3.current _ refl (λ h. h))
    where
      either :
          (t : Bool) (l : Kernel)
          → Gone b l
          → Gone b (next_process l)
          → Gone b (if t then next_process l else l)
      either true l f g = g
      either false l f g = f
