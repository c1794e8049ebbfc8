-- ===== src/Kernel/Reach.antt =====
-- Runs of the kernel: calls of the process that runs, and calls of the scheduler, in any order.
use mathlib.Core.Path.{subst}
use tp_so.Base.{ℕ, ◌≡◌, Option, none, some}
use tp_so.Base.Maybe.{Ensures}
use tp_so.Kernel.{Kernel}
use tp_so.Kernel.Frame.{Frame}
use tp_so.Kernel.Scheduler.{tick}
use tp_so.Kernel.Scheduler.Invariant.{Sound, Sound-Frame, tick-Sound}
use tp_so.Kernel.Syscalls.{Reply, done, filled, printed, switch_then, again, fault, Leaves}
use tp_so.Kernel.Syscalls.Calls.{Call, run_call}
use tp_so.Kernel.Syscalls.Keeps.{run_call-Frame}

-- The state that a reply leaves.
abbrev pub left_by : Reply → Option Kernel
left_by (done n k) = some k
left_by (filled bytes k) = some k
left_by (printed bytes red k) = some k
left_by (switch_then n k) = some k
left_by (again k) = some k
left_by fault = none

-- `Reaches k m`: a run from `k` ends in `m`. A switch is a call of `scheduler`, by the timer or by
-- `_int20h`, while a process runs.
pub data Reaches (k : Kernel) : Kernel → Type 0 where
  stay : Reaches k k
  then_call :
      {l : Kernel}
      → Reaches k l
      → (c : Call) (m : Kernel) → left_by (run_call l c) ≡ some m
      → Reaches k m
  then_switch :
      {l : Kernel}
      → Reaches k l
      → (rsp : ℕ) (out : ℕ × Kernel) → tick l rsp ≡ some out
      → Reaches k out.1

of_some : {A : Type 0} (P : A → Type 0) (r : Option A) (a : A) → Ensures P r → r ≡ some a → P a
of_some P r a h e = subst (Ensures P) e h

Leaves-Ensures : (P : Kernel → Type 0) (r : Reply) → Leaves P r → Ensures P (left_by r)
unfolding Leaves
Leaves-Ensures P (done n k) h = h
Leaves-Ensures P (filled bytes k) h = h
Leaves-Ensures P (printed bytes red k) h = h
Leaves-Ensures P (switch_then n k) h = h
Leaves-Ensures P (again k) h = h
Leaves-Ensures P fault h = tt

-- From a kernel with the invariant of the queues, and a state at NULL that is not requeued, every run
-- of calls (reading, writing, blocking, unblocking, killing, waiting, exiting, yielding, closing and
-- swapping descriptors, moving to the foreground and background) and of calls of the scheduler leads
-- to such a kernel: no process ever stands in two places.
pub Reaches-Sound : {k m : Kernel} → Sound k → Reaches k m → Sound m
Reaches-Sound s stay = s
Reaches-Sound s (then_call {l} before c m e) =
    let t = Reaches-Sound s before in
    Sound-Frame t (
      of_some (Frame l) (left_by (run_call l c)) m
        (Leaves-Ensures (Frame l) (run_call l c) (run_call-Frame l c t.0.running_one)) e)
Reaches-Sound s (then_switch {l} before rsp out e) =
    of_some (λ (o : ℕ × Kernel). Sound o.1) (tick l rsp) out
      (tick-Sound l rsp (Reaches-Sound s before)) e
