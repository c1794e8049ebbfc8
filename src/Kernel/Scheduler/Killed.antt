-- ===== src/Kernel/Scheduler/Killed.antt =====
-- A call of `scheduler` while one waiting process has exited: `checkExited` takes it off its queue.
use tp_so.Base.{
  ℕ, zero, suc, ◌+◌, ◌<◌, ◌≡◌, ◌≢◌, refl, ap, ◌∙◌, ◌⊎◌, inl, inr, List, [], ◌∷◌, arith, true, false,
  ℕ_discrete, count,
}
use tp_so.Base.Maybe.{Ensures, Ensures-bind, Ensures-any}
use tp_so.Kernel.{Kernel, ready}
use tp_so.Kernel.Process.{is_exited, queued}
use tp_so.Kernel.Queues.{check_blocked}
use tp_so.Kernel.Queues.Conserve.{tracked}
use tp_so.Kernel.Queues.Switch.{count-tracked}
use tp_so.Kernel.Queues.Blocked.{check_blocked_keeps}
use tp_so.Kernel.Frame.{Frame, set_pcb-Frame}
use tp_so.Kernel.Exit.{delete_process}
use tp_so.Kernel.Timers.{read_tsc, in_millis, update_timers}
use tp_so.Kernel.Timers.Wake.{Elsewhere, update_timers-states, update_timers-awake}
use tp_so.Kernel.Timers.Frame.{read_tsc-Frame, update_timers-Frame}
use tp_so.Kernel.Scheduler.{
  unlink_from, reap, queue_at, reap_queues, reap_current, check_exited, account, tick,
}
use tp_so.Kernel.Scheduler.Quiet.{LiveIn, reap-eq, queue_at-count, tracked-Frame}
use tp_so.Kernel.Scheduler.Invariant.{Sound, Sound-Frame, unlink_from-Sound, check_blocked-Sound}
use tp_so.Kernel.Scheduler.Gone.{
  Gone, delete-Gone, reap-Gone, reap_queues-Gone, reap_current-Gone, finish-Gone,
}
use tp_so.Kernel.Scheduler.Unlinked.{unlink_from-hit, held, held-queued}

-- One process that waits has exited, and no other.
pub record Doomed (b : ℕ) (k : Kernel) : Type 0 where
  pub sound : Sound k
  pub waits : 0 < count b (queued k)
  pub dead : is_exited (k.pcb b).state ≡ true
  pub others : (a : ℕ) → a ≢ b → 0 < count a (tracked k) → is_exited (k.pcb a).state ≡ false

module _ (b : ℕ) (k : Kernel) (d : Doomed b k) where
  live_queued : (a : ℕ) → a ≢ b → 0 < count a (queued k) → is_exited (k.pcb a).state ≡ false
  live_queued a ne m = d.others a ne (ground (arith, count-tracked k a))

  reap-finds :
      (i : ℕ) (q : List ℕ)
      → 0 < count b (queue_at k i)
      → 0 < count b q
      → ((a : ℕ) → 0 < count a q → 0 < count a (queued k))
      → Ensures (Gone b) (reap i q k)
  unfolding reap count
  reap-finds i [] here h sub = absurd (omega arith)
  reap-finds i (a ∷ q) here h sub = elim (ℕ_discrete a b) [
    | yes same ↦
        rw (same, d.dead)
          (Ensures-bind (Gone b) (Gone b) (delete_process (unlink_from i b k) b) (reap i q)
            (delete-Gone b (unlink_from i b k) b
              (unlink_from-Sound i b k d.sound, unlink_from-hit i b k d.sound here))
            (reap-Gone b i q))
    | no ne ↦
        rw (live_queued a ne (sub a (ground arith)))
          (reap-finds i q here (ground arith) (λ c m. sub c (ground arith)))
  ]

  reap_queues-finds : (n i : ℕ) → 0 < held b k n i → Ensures (Gone b) (reap_queues n i k)
  unfolding reap_queues held
  reap_queues-finds zero i h = absurd (omega arith)
  reap_queues-finds (suc n) i h = elim (ℕ_discrete (count b (queue_at k i)) 0) [
    | yes none_here ↦
        rw (reap-eq i (queue_at k i) k (live none_here)) (reap_queues-finds n (i + 1) (omega arith))
    | no some_here ↦
        Ensures-bind (Gone b) (Gone b) (reap i (queue_at k i) k) (reap_queues n (i + 1))
          (reap-finds i (queue_at k i) (omega arith) (omega arith)
            (λ a m. omega (arith, queue_at-count k i a)))
          (reap_queues-Gone b n (i + 1))
  ]
    where
      live : count b (queue_at k i) ≡ 0 → LiveIn k (queue_at k i)
      live z a m =
          live_queued a (λ e. absurd (positive (ap (λ c. count c (queue_at k i)) e ∙ z) m))
            (omega (arith, queue_at-count k i a))
        where
          positive : {n : ℕ} → n ≡ 0 → 0 < n → ⊥
          positive e p = omega arith

  check_exited-Gone : Ensures (Gone b) (check_exited k)
  unfolding check_exited
  check_exited-Gone =
      Ensures-bind (Gone b) (Gone b) (reap_queues 7 0 k) reap_current
        (reap_queues-finds 7 0 (omega (arith, held-queued b k d.sound.0, d.waits)))
        (reap_current-Gone b)

-- A step before `checkExited`: nobody moves, and no state changes but to READY.
Doomed-step :
    (b : ℕ) {k k' : Kernel}
    → Doomed b k
    → Sound k'
    → ((a : ℕ) → count a (tracked k') ≡ count a (tracked k))
    → k'.current ≡ k.current
    → ((a : ℕ) → ((k'.pcb a).state ≡ (k.pcb a).state) ⊎ ((k'.pcb a).state ≡ ready))
    → (k'.pcb b).state ≡ (k.pcb b).state
    → Doomed b k'
Doomed-step b {k} {k'} d s same cur st own = record {
  sound = s;
  waits =
      ground (arith, d.sound.0.once b, d.waits, same b, cur, count-tracked k b, count-tracked k' b);
  dead = ap is_exited own ∙ d.dead;
  others = λ a ne m. kept a (st a) (d.others a ne (omega (arith, same a)));
}
  where
    kept :
        (a : ℕ)
        → ((k'.pcb a).state ≡ (k.pcb a).state) ⊎ ((k'.pcb a).state ≡ ready)
        → is_exited (k.pcb a).state ≡ false
        → is_exited (k'.pcb a).state ≡ false
    kept a (inl e) l = ap is_exited e ∙ l
    kept a (inr e) l = ap is_exited e

Doomed-Frame :
    (b : ℕ) {k k' : Kernel}
    → Doomed b k
    → Frame k k'
    → ((a : ℕ) → ((k'.pcb a).state ≡ (k.pcb a).state) ⊎ ((k'.pcb a).state ≡ ready))
    → (k'.pcb b).state ≡ (k.pcb b).state
    → Doomed b k'
Doomed-Frame b d f =
    Doomed-step b d (Sound-Frame d.sound f) (λ a. ap (count a) (tracked-Frame f)) f.current_same

-- The state in which the timers are looked at: the process has none.
Untimed : ℕ → Kernel → Type 0
Untimed b k = Doomed b k × Elsewhere b k.timers

account-Untimed :
    (b : ℕ) (k : Kernel) (rsp t : ℕ) → Untimed b k → Ensures (Untimed b) (account k rsp t)
unfolding account Untimed
account-Untimed b k rsp t u =
    Ensures-bind (λ _. Unit {0}) (Untimed b) (in_millis k _) _ (Ensures-any (in_millis k _))
      (λ ran _.
        let f = set_pcb-Frame k k.current _ refl (λ h. h) in
        (Doomed-Frame b u.0 f (λ a. inl (ground arith)) (ground arith), u.1))

woken-Doomed :
    (b now : ℕ) (k : Kernel) → Untimed b k → Doomed b (check_blocked (update_timers now k))
unfolding Untimed
woken-Doomed b now k u =
    let k1 = update_timers now k in
    let d1 =
      Doomed-Frame b u.0 (update_timers-Frame now k) (update_timers-states now k)
        (update_timers-awake now k b u.1) in
    let c = check_blocked_keeps k1 d1.sound.0 in
    Doomed-step b d1 (check_blocked-Sound k1 d1.sound) c.0 c.3 (λ a. inl (c.2 a)) (c.2 b)

-- Every call of the scheduler after the first that does not fault takes a process that waits and has
-- exited, while no other has and no timer is set for it, off the processor and the queues.
pub tick-Gone :
    (b : ℕ) (k : Kernel) (rsp : ℕ)
    → Doomed b k
    → Elsewhere b k.timers
    → Ensures (λ out. Gone b out.1) (tick k rsp)
unfolding tick Untimed read_tsc
tick-Gone b k rsp d e =
    let (t, k1) = read_tsc k in
    let d1 : Doomed b k1 = Doomed-Frame b d (read_tsc-Frame k) (λ a. inl refl) refl in
    Ensures-bind (Untimed b) (λ (out : ℕ × Kernel). Gone b out.1) (account k1 rsp t) _
      (account-Untimed b k1 rsp t (d1, e))
      λ k2 u2.
        Ensures-bind (λ _. Unit {0}) (λ (out : ℕ × Kernel). Gone b out.1) (in_millis k2 t) _
          (Ensures-any (in_millis k2 t))
          λ now _.
            let k3 = check_blocked (update_timers now k2) in
            Ensures-bind (Gone b) (λ (out : ℕ × Kernel). Gone b out.1) (check_exited k3) _
              (check_exited-Gone b k3 (woken-Doomed b now k2 u2)) (λ k4 g. finish-Gone b k4 g)
