-- ===== src/Kernel/Scheduler/Quiet.antt =====
-- Steps of the scheduler in which nobody exits: what they leave, and that `checkExited` does nothing.
use tp_so.Base.{
  ℕ, zero, suc, ◌+◌, ◌≤◌, ◌<◌, ◌≡◌, refl, ap, ◌∙◌, ◌≢◌, ◌⊎◌, inl, inr, List, [], ◌∷◌, some, arith,
  false, ℕ_discrete, get_or, count, count-append,
}
use tp_so.Kernel.{Kernel, Pcb, ready, set_pcb}
use tp_so.Kernel.Process.{is_exited, queued, concat}
use tp_so.Kernel.Queues.{check_blocked}
use tp_so.Kernel.Queues.Conserve.{tracked, Separate, goes_back, count-queued}
use tp_so.Kernel.Queues.Switch.{count-tracked}
use tp_so.Kernel.Queues.Blocked.{check_blocked_keeps}
use tp_so.Kernel.Frame.{Frame, set_pcb-Frame}
use tp_so.Kernel.Timers.{read_tsc, update_timers}
use tp_so.Kernel.Timers.Wake.{Elsewhere, update_timers-states, update_timers-awake}
use tp_so.Kernel.Timers.Frame.{read_tsc-Frame, update_timers-Frame}
use tp_so.Kernel.Scheduler.{reap, queue_at, reap_queues, reap_current, check_exited}

-- No node of a list has exited.
abbrev pub LiveIn : Kernel → List ℕ → Type 0
LiveIn k q = (a : ℕ) → 0 < count a q → is_exited (k.pcb a).state ≡ false

-- No process has exited.
pub record Live (k : Kernel) : Type 0 where
  pub waiting : (a : ℕ) → 0 < count a (queued k) → is_exited (k.pcb a).state ≡ false
  pub runner : is_exited (k.pcb k.current).state ≡ false

pub reap-eq : (i : ℕ) (q : List ℕ) (k : Kernel) → LiveIn k q → reap i q k ≡ some k
unfolding reap count
reap-eq i [] k h = refl
reap-eq i (a ∷ q) k h = rw (h a (ground arith)) (reap-eq i q k (λ b m. h b (ground arith)))

count-get_or : (b i : ℕ) (qs : List (List ℕ)) → count b (get_or qs i []) ≤ count b (concat qs)
unfolding concat count
count-get_or b i [] = omega arith
count-get_or b zero (q ∷ qs) = omega (arith, count-append b q (concat qs))
count-get_or b (suc i) (q ∷ qs) = omega (arith, count-append b q (concat qs), count-get_or b i qs)

pub queue_at-count : (k : Kernel) (i b : ℕ) → count b (queue_at k i) ≤ count b (queued k)
queue_at-count k i b = ground (arith, count-queued b k, count-get_or b i k.levels)

reap_queues-eq : (n i : ℕ) (k : Kernel) → LiveIn k (queued k) → reap_queues n i k ≡ some k
unfolding reap_queues
reap_queues-eq zero i k h = refl
reap_queues-eq (suc n) i k h =
    rw (reap-eq i (queue_at k i) k (λ a m. h a (omega (arith, queue_at-count k i a))))
      (reap_queues-eq n (i + 1) k h)

pub check_exited-eq : (k : Kernel) → Live k → check_exited k ≡ some k
unfolding check_exited reap_current
check_exited-eq k h = rw (reap_queues-eq 7 0 k h.waiting, h.runner)

-- What the steps before the switch leave: each process as often as it was, the current one with its
-- state, and no state changed but to READY.
pub record Calm (k k' : Kernel) : Type 0 where
  pub counts : (a : ℕ) → count a (tracked k') ≡ count a (tracked k)
  pub current_same : k'.current ≡ k.current
  pub idle_same : k'.idle ≡ k.idle
  pub states : (b : ℕ) → ((k'.pcb b).state ≡ (k.pcb b).state) ⊎ ((k'.pcb b).state ≡ ready)
  pub awake : (k'.pcb k.current).state ≡ (k.pcb k.current).state

pub Calm-trans : {k l m : Kernel} → Calm k l → Calm l m → Calm k m
Calm-trans {k} {l} {m} f g = record {
  counts = λ a. g.counts a ∙ f.counts a;
  current_same = g.current_same ∙ f.current_same;
  idle_same = g.idle_same ∙ f.idle_same;
  states = λ b. both b (f.states b) (g.states b);
  awake =
      ap (λ c. (m.pcb c).state) (symm f.current_same)
      ∙ g.awake
      ∙ ap (λ c. (l.pcb c).state) f.current_same
      ∙ f.awake;
}
  where
    symm : {a b : ℕ} → a ≡ b → b ≡ a
    symm e = omega arith

    both :
        (b : ℕ)
        → ((l.pcb b).state ≡ (k.pcb b).state) ⊎ ((l.pcb b).state ≡ ready)
        → ((m.pcb b).state ≡ (l.pcb b).state) ⊎ ((m.pcb b).state ≡ ready)
        → ((m.pcb b).state ≡ (k.pcb b).state) ⊎ ((m.pcb b).state ≡ ready)
    both b (inl e) (inl d) = inl (d ∙ e)
    both b (inr e) (inl d) = inr (d ∙ e)
    both b _ (inr d) = inr d

pub tracked-Frame : {k k' : Kernel} → Frame k k' → tracked k' ≡ tracked k
tracked-Frame f = rw (f.current_same, f.idle_same, f.levels_same, f.blocked_same)

Calm-Frame :
    {k k' : Kernel}
    → Frame k k'
    → ((b : ℕ) → ((k'.pcb b).state ≡ (k.pcb b).state) ⊎ ((k'.pcb b).state ≡ ready))
    → (k'.pcb k.current).state ≡ (k.pcb k.current).state
    → Calm k k'
Calm-Frame f st aw = record {
  counts = λ a. ap (count a) (tracked-Frame f);
  current_same = f.current_same;
  idle_same = f.idle_same;
  states = st;
  awake = aw;
}

queued-tracked : (k : Kernel) (a : ℕ) → count a (queued k) ≤ count a (tracked k)
queued-tracked k a = ground (arith, count-tracked k a)

tracked-queued : (k : Kernel) (a : ℕ) → a ≢ k.current → count a (tracked k) ≡ count a (queued k)
tracked-queued k a h = ground (arith, count-tracked k a)

pub Calm-Live : {k k' : Kernel} → Calm k k' → Live k → Live k'
Calm-Live {k} {k'} c h = record {
  waiting = λ a m. kept a (c.states a) (was a m);
  runner = rw c.current_same (ap is_exited c.awake ∙ h.runner);
}
  where
    was : (a : ℕ) → 0 < count a (queued k') → is_exited (k.pcb a).state ≡ false
    was a m = elim (ℕ_discrete a k.current) [
      | yes e ↦ ap (λ b. is_exited (k.pcb b).state) e ∙ h.runner
      | no ne ↦ h.waiting a (omega (arith, queued-tracked k' a, c.counts a, tracked-queued k a ne))
    ]

    kept :
        (a : ℕ)
        → ((k'.pcb a).state ≡ (k.pcb a).state) ⊎ ((k'.pcb a).state ≡ ready)
        → is_exited (k.pcb a).state ≡ false
        → is_exited (k'.pcb a).state ≡ false
    kept a (inl e) l = ap is_exited e ∙ l
    kept a (inr e) l = ap is_exited e

pub read_tsc-Calm : (k : Kernel) → Calm k (read_tsc k).1
unfolding read_tsc
read_tsc-Calm k = Calm-Frame (read_tsc-Frame k) (λ b. inl refl) refl

-- A change to the current process that keeps its pid and its state.
pub set_current-Calm :
    (k : Kernel) (p : Pcb)
    → p.id ≡ (k.pcb k.current).id
    → p.state ≡ (k.pcb k.current).state
    → Calm k (set_pcb k k.current p)
set_current-Calm k p e st =
    Calm-Frame (set_pcb-Frame k k.current p e (λ h. ap goes_back st ∙ h)) (λ b. inl (same b))
      (same k.current)
  where
    same : (b : ℕ) → ((set_pcb k k.current p).pcb b).state ≡ (k.pcb b).state
    same b = ground arith

pub update_timers-Calm :
    (now : ℕ) (k : Kernel) → Elsewhere k.current k.timers → Calm k (update_timers now k)
update_timers-Calm now k h =
    Calm-Frame (update_timers-Frame now k) (update_timers-states now k)
      (update_timers-awake now k k.current h)

pub check_blocked-Calm : (k : Kernel) → Separate k → Calm k (check_blocked k)
check_blocked-Calm k v =
    let c = check_blocked_keeps k v in
    record {
      counts = c.0;
      current_same = c.3;
      idle_same = c.1.0;
      states = λ b. inl (c.2 b);
      awake = c.2 k.current;
    }
