-- ===== src/Kernel/Syscalls/Kill.antt =====
-- `arqSysKill`, and the call of the scheduler by its `_int20h`.
use tp_so.Base.{
  ℕ, ◌≤◌, ◌<◌, ◌≡◌, refl, ap, ◌∙◌, ◌≢◌, arith, ltb, leb, Bool, true, false, inl, inr, List, [], ◌∷◌,
  ◌==◌, ◌||◌, Bool-cases, if◌then◌else◌, ℕ_discrete, count,
}
use tp_so.Base.Maybe.{Ensures}
use tp_so.Kernel.{Kernel, Pcb, ProcessState, exited, set_pcb}
use tp_so.Kernel.Process.{
  is_exited, queued, has_pid, exists, get_entry, refuses_state, set_process_state,
}
use tp_so.Kernel.Queues.Conserve.{tracked}
use tp_so.Kernel.Queues.Switch.{count-tracked}
use tp_so.Kernel.Frame.{set_pcb-Frame}
use tp_so.Kernel.Timers.Wake.{Elsewhere}
use tp_so.Kernel.Scheduler.{tick}
use tp_so.Kernel.Scheduler.Quiet.{Live}
use tp_so.Kernel.Scheduler.Invariant.{Sound, Sound-Frame}
use tp_so.Kernel.Scheduler.Killed.{Doomed, tick-Gone}
use tp_so.Kernel.Syscalls.{Reply, done, switch_then, error, Leaves, to_pid, arq_sys_kill}

-- What holds of the state before a call of kill and after its `setProcessState` holds of the state
-- that it leaves.
pub kill-Leaves :
    (P : Kernel → Type 0) (k : Kernel) (pid : ℕ)
    → P k
    → P (set_process_state k (get_entry k (to_pid pid)) exited).0
    → Leaves P (arq_sys_kill k pid)
unfolding arq_sys_kill Leaves
kill-Leaves P k pid p q = elim (Bool-cases (ltb pid 3)) [
  | inl small ↦ rw small p
  | inr big ↦ rw big (answered _)
]
  where
    answered :
        (t : Bool)
        → Leaves P (
            if t
            then switch_then 1 (set_process_state k (get_entry k (to_pid pid)) exited).0
            else done error (set_process_state k (get_entry k (to_pid pid)) exited).0)
    answered true = q
    answered false = q

-- What holds of the answer and the state with which a call gives up the processor; a call that
-- answers otherwise satisfies nothing.
unfoldable pub Switches : (ℕ → Kernel → Type 0) → Reply → Type 0
Switches P (switch_then n k) = P n k
Switches P _ = ⊥

-- A process that waits is found by its pid.
has_pid-queued :
    (pcb : ℕ → Pcb) (b : ℕ) (q : List ℕ) → 0 < count b q → has_pid pcb (pcb b).id q ≡ true
unfolding has_pid count
has_pid-queued pcb b [] h = absurd (omega arith)
has_pid-queued pcb b (a ∷ q) h = elim (ℕ_discrete a b) [
  | yes e ↦ rw e (found (pcb b).id _)
  | no ne ↦ rw (has_pid-queued pcb b q (ground arith)) (ground arith)
]
  where
    found : (n : ℕ) (t : Bool) → (n == n || t) ≡ true
    found n t = ground arith

abbrev killed_at : Kernel → ℕ → Kernel
killed_at k b = set_pcb k b (record (k.pcb b) { state = exited; manual_blocked = 0 })

set_exited-eq :
    (k : Kernel) (b : ℕ)
    → 0 < count b (queued k)
    → 3 ≤ (k.pcb b).id
    → set_process_state k b exited ≡ (killed_at k b, true)
unfolding set_process_state refuses_state exists
set_exited-eq k b h big =
    rw (has_pid-queued k.pcb b (queued k) h, large (k.pcb b).id big) (ground arith)
  where
    large : (n : ℕ) → 3 ≤ n → leb n 2 ≡ false
    large n h = ground arith

kill-eq :
    (k : Kernel) (b : ℕ)
    → 0 < count b (queued k)
    → 3 ≤ (k.pcb b).id
    → get_entry k (to_pid (k.pcb b).id) ≡ b
    → arq_sys_kill k (k.pcb b).id ≡ switch_then 1 (killed_at k b)
unfolding arq_sys_kill
kill-eq k b h big e = rw (e, set_exited-eq k b h big, large (k.pcb b).id big) refl
  where
    large : (n : ℕ) → 3 ≤ n → ltb n 3 ≡ false
    large n h = ground arith

killed_at-states :
    (k : Kernel) (b c : ℕ)
    → ((killed_at k b).pcb c).state ≡ (if c == b then exited else (k.pcb c).state)
killed_at-states k b c = ground arith

killed_at-Doomed :
    (k : Kernel) (b : ℕ) → Sound k → Live k → 0 < count b (queued k) → Doomed b (killed_at k b)
killed_at-Doomed k b s l h = record {
  sound = Sound-Frame s (set_pcb-Frame k b _ refl (λ _. refl));
  waits = h;
  dead = ap is_exited (killed_at-states k b b) ∙ self b _;
  others = λ a ne m. ap is_exited (killed_at-states k b a) ∙ other a ne m;
}
  where
    self : (b : ℕ) (st : ProcessState) → is_exited (if b == b then exited else st) ≡ true
    self b st = ground arith

    alive : (a : ℕ) → 0 < count a (tracked k) → is_exited (k.pcb a).state ≡ false
    alive a m = elim (ℕ_discrete a k.current) [
      | yes e ↦ ap (λ c. is_exited (k.pcb c).state) e ∙ l.runner
      | no ne ↦ l.waiting a (ground (arith, count-tracked k a))
    ]

    other :
        (a : ℕ)
        → a ≢ b
        → 0 < count a (tracked k)
        → is_exited (if a == b then exited else (k.pcb a).state) ≡ false
    other a ne m = rw (different a b ne) (alive a m)
      where
        different : (a b : ℕ) → a ≢ b → (a == b) ≡ false
        different a b ne = ground arith

-- With the invariant of the queues and no process that has exited, a call of kill with the pid of a
-- process that waits in a queue, has a pid above 2, has no timer and is the one that `getEntry`
-- finds, answers 1 after it has given up the processor. When it does, that process is EXITED, and
-- all others have the state that they had. The call of the scheduler that follows, if it does not
-- fault, leaves the process neither on the processor nor in any queue, and keeps the invariant.
pub arq_sys_kill-removes :
    (k : Kernel) (b rsp : ℕ)
    → Sound k
    → Live k
    → 0 < count b (queued k)
    → 3 ≤ (k.pcb b).id
    → get_entry k (to_pid (k.pcb b).id) ≡ b
    → Elsewhere b k.timers
    → Switches
        (λ n k'.
          (n ≡ 1)
          × ((c : ℕ) → (k'.pcb c).state ≡ (if c == b then exited else (k.pcb c).state))
          × Ensures (λ out. Sound out.1 × (count b (tracked out.1) ≡ 0)) (tick k' rsp))
        (arq_sys_kill k (k.pcb b).id)
unfolding Switches
arq_sys_kill-removes k b rsp s l h big e away =
    rw (kill-eq k b h big e) (
      refl,
      killed_at-states k b,
      tick-Gone b (killed_at k b) rsp (killed_at-Doomed k b s l h) away,
    )
