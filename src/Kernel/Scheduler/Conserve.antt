-- ===== src/Kernel/Scheduler/Conserve.antt =====
-- A call of `scheduler` in which no process has exited: it returns, and loses nobody.
use tp_so.Base.{
  ◌-◌, ◌/◌, ◌%◌, ◌^◌, ℕ, ◌+◌, ◌≡◌, refl, ap, ◌∙◌, ◌≢◌, ◌⊎◌, inl, inr, some, arith, ◌==◌, Bool, true,
  false, ℕ_discrete, if◌then◌else◌, count,
}
use tp_so.Base.Maybe.{◌>>=◌, Returns}
use tp_so.Kernel.{Kernel, ProcessState, ready, running, blocked, yielded, exited, set_pcb}
use tp_so.Kernel.Process.{is_exited}
use tp_so.Kernel.Queues.{check_blocked, next_process}
use tp_so.Kernel.Queues.Conserve.{tracked, goes_back}
use tp_so.Kernel.Queues.Switch.{count-tracked, next_process_keeps, next_process_from_idle}
use tp_so.Kernel.Frame.{set_pcb-Frame}
use tp_so.Kernel.Timers.{read_tsc, in_millis, update_timers}
use tp_so.Kernel.Timers.Wake.{Elsewhere}
use tp_so.Kernel.Timers.Frame.{read_tsc-Frame, update_timers-Frame}
use tp_so.Kernel.Scheduler.{check_exited, account, use_quantum, switch, start_count, tick}
use tp_so.Kernel.Scheduler.Quiet.{
  Live, Calm, Calm-trans, Calm-Live, check_exited-eq, read_tsc-Calm, set_current-Calm,
  update_timers-Calm, check_blocked-Calm,
}
use tp_so.Kernel.Scheduler.Invariant.{Sound, Sound-Frame, check_blocked-Sound, use_quantum-Sound}

goes_back_of_live : (st : ProcessState) → st ≢ ready → is_exited st ≡ false → goes_back st ≡ true
goes_back_of_live ready h l = absurd (h refl)
goes_back_of_live running h l = refl
goes_back_of_live blocked h l = refl
goes_back_of_live yielded h l = refl
goes_back_of_live exited h l = absurd (true_false l)
  where
    true_false : true ≡ false → ⊥
    true_false e = cc

-- Idle runs, or the process that runs has not been made READY.
unfoldable pub AtWork : Kernel → Type 0
AtWork k = (k.current ≡ k.idle) ⊎ ((k.pcb k.current).state ≢ ready)

next_process-counts :
    (k : Kernel) (a : ℕ)
    → Sound k
    → Live k
    → AtWork k
    → count a (tracked (next_process k)) ≡ count a (tracked k)
unfolding AtWork
next_process-counts k a s l (inl e) = next_process_from_idle k a s.0 e s.1
next_process-counts k a s l (inr ne) = elim (ℕ_discrete k.current k.idle) [
  | yes e ↦ next_process_from_idle k a s.0 e s.1
  | no other ↦
      next_process_keeps k a s.0 other
      ∙ rw (goes_back_of_live (k.pcb k.current).state ne l.runner)
          (ground (arith, count-tracked k a))
]

switch-counts :
    (k : Kernel) (a : ℕ)
    → Sound k
    → Live k
    → AtWork k
    → count a (tracked (switch k)) ≡ count a (tracked k)
unfolding switch
switch-counts k a s l w = chosen _
  where
    chosen : (t : Bool) → count a (tracked (if t then next_process k else k)) ≡ count a (tracked k)
    chosen true = next_process-counts k a s l w
    chosen false = refl

start_count-counts : (k : Kernel) (a : ℕ) → count a (tracked (start_count k)) ≡ count a (tracked k)
unfolding start_count read_tsc
start_count-counts k a = refl

Calm-AtWork : {k k' : Kernel} → Calm k k' → AtWork k → AtWork k'
unfolding AtWork
Calm-AtWork c (inl e) = inl (c.current_same ∙ e ∙ symm c.idle_same)
  where
    symm : {a b : ℕ} → a ≡ b → b ≡ a
    symm e = omega arith
Calm-AtWork {k} {k'} c (inr ne) =
    inr (λ e. ne (symm c.awake ∙ ap (λ b. (k'.pcb b).state) (flip c.current_same) ∙ e))
  where
    symm : {a b : ProcessState} → a ≡ b → b ≡ a
    symm e = cc

    flip : {a b : ℕ} → a ≡ b → b ≡ a
    flip e = omega arith

use_quantum-Calm : (k : Kernel) → Calm k (use_quantum k)
unfolding use_quantum
use_quantum-Calm k = set_current-Calm k _ refl refl

-- The last part of a call, on a kernel in which nobody has exited.
finish-counts :
    (k : Kernel) (a : ℕ)
    → Sound k
    → Live k
    → AtWork k
    → count a (tracked (start_count (switch (use_quantum k)))) ≡ count a (tracked k)
finish-counts k a s l w =
    let c = use_quantum-Calm k in
    start_count-counts (switch (use_quantum k)) a
    ∙ switch-counts (use_quantum k) a (use_quantum-Sound k s) (Calm-Live c l) (Calm-AtWork c w)
    ∙ c.counts a

-- The state in which the timers are looked at.
accounted : Kernel → ℕ → Kernel
accounted k rsp =
    let (t, k1) = read_tsc k in
    let p = k1.pcb k1.current in
    set_pcb k1 k1.current (record p {
      stack = rsp;
      aging_interval =
          (p.aging_interval / 2 + ((t + 2 ^ 64 - p.counter_init) % 2 ^ 64) / k.tsc_frequency)
          % 2 ^ 64;
    })

accounted-Calm : (k : Kernel) (rsp : ℕ) → Calm k (accounted k rsp)
unfolding accounted
accounted-Calm k rsp = Calm-trans (read_tsc-Calm k) (set_current-Calm (read_tsc k).1 _ refl refl)

accounted-Sound : (k : Kernel) (rsp : ℕ) → Sound k → Sound (accounted k rsp)
unfolding accounted
accounted-Sound k rsp s =
    let k1 = (read_tsc k).1 in
    Sound-Frame (Sound-Frame s (read_tsc-Frame k)) (set_pcb-Frame k1 k1.current _ refl (λ h. h))

-- What `scheduler` has woken when it looks for the processes that have exited.
woken : Kernel → ℕ → Kernel
woken k rsp = check_blocked (update_timers ((read_tsc k).0 / k.tsc_frequency) (accounted k rsp))

tick-eq :
    (k : Kernel) (rsp : ℕ)
    → k.tsc_frequency ≢ 0
    → tick k rsp ≡ (
        check_exited (woken k rsp) >>= λ k3.
        let k4 = start_count (switch (use_quantum k3)) in some ((k4.pcb k4.current).stack, k4))
unfolding tick account in_millis read_tsc woken accounted
tick-eq k rsp h = simp (nonzero k.tsc_frequency h)
  where
    nonzero : (n : ℕ) → n ≢ 0 → (n == 0) ≡ false
    nonzero n h = ground arith

module _ (k : Kernel) (rsp : ℕ) (s : Sound k) (l : Live k) (w : AtWork k)
    (e : Elsewhere k.current k.timers) where
  accounted-Elsewhere : Elsewhere (accounted k rsp).current (accounted k rsp).timers
  unfolding accounted read_tsc
  accounted-Elsewhere = e

  woken-Calm : Calm k (woken k rsp)
  unfolding woken
  woken-Calm =
      let c = accounted-Calm k rsp in
      let now = (read_tsc k).0 / k.tsc_frequency in
      let k2 = update_timers now (accounted k rsp) in
      let s2 = Sound-Frame (accounted-Sound k rsp s) (update_timers-Frame now (accounted k rsp)) in
      Calm-trans (Calm-trans c (update_timers-Calm now (accounted k rsp) accounted-Elsewhere))
        (check_blocked-Calm k2 s2.0)

  woken-Sound : Sound (woken k rsp)
  unfolding woken
  woken-Sound =
      let now = (read_tsc k).0 / k.tsc_frequency in
      check_blocked-Sound _
        (Sound-Frame (accounted-Sound k rsp s) (update_timers-Frame now (accounted k rsp)))

  -- A call of the scheduler after the first, with a clock that runs, the invariant of the queues,
  -- no process that has exited, no timer of the current process, and a current process that is idle
  -- or not READY, returns, and every process is on the processor or in a queue as often as before.
  pub tick_keeps_all :
      k.tsc_frequency ≢ 0
      → Returns (λ out. (a : ℕ) → count a (tracked out.1) ≡ count a (tracked k)) (tick k rsp)
  tick_keeps_all h =
      let c = woken-Calm in
      rw (tick-eq k rsp h, check_exited-eq (woken k rsp) (Calm-Live c l))
        (λ a.
          finish-counts (woken k rsp) a woken-Sound (Calm-Live c l) (Calm-AtWork c w) ∙ c.counts a)
