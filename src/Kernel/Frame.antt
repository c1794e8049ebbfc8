-- ===== src/Kernel/Frame.antt =====
-- Steps that leave the queues, the process on the processor and all pids alone: the property of
-- every function that only changes process states, buffers, timers or memory.
use tp_so.Base.{
  ℕ, ◌≡◌, refl, sym, ap, ◌∙◌, arith, ◌==◌, Bool, true, false, Bool-cases, inl, inr, if◌then◌else◌,
  Option, none, some,
}
use tp_so.Base.Maybe.{◌>>=◌, Ensures, Ensures-bind}
use tp_so.Ipc.Buffer.{null}
use tp_so.Kernel.{Kernel, Pcb, ready, set_pcb}
use tp_so.Kernel.Process.{set_process_state, refuses_state}
use tp_so.Kernel.Queues.Conserve.{goes_back, tracked, Separate}
use tp_so.Kernel.Queues.Order.{SafeNull}

pub record Frame (k k' : Kernel) : Type 0 where
  pub levels_same : k'.levels ≡ k.levels
  pub blocked_same : k'.blocked_list ≡ k.blocked_list
  pub current_same : k'.current ≡ k.current
  pub idle_same : k'.idle ≡ k.idle
  pub ids_same : (b : ℕ) → (k'.pcb b).id ≡ (k.pcb b).id
  pub safe : SafeNull k → SafeNull k'

pub Frame-refl : (k : Kernel) → Frame k k
Frame-refl k = record {
  levels_same = refl;
  blocked_same = refl;
  current_same = refl;
  idle_same = refl;
  ids_same = λ b. refl;
  safe = λ s. s;
}

pub Frame-trans : {k l m : Kernel} → Frame k l → Frame l m → Frame k m
Frame-trans f g = record {
  levels_same = g.levels_same ∙ f.levels_same;
  blocked_same = g.blocked_same ∙ f.blocked_same;
  current_same = g.current_same ∙ f.current_same;
  idle_same = g.idle_same ∙ f.idle_same;
  ids_same = λ b. g.ids_same b ∙ f.ids_same b;
  safe = λ s. g.safe (f.safe s);
}

-- One of two steps, by a test.
pub Frame-if : (t : Bool) {k l m : Kernel} → Frame k l → Frame k m → Frame k (if t then l else m)
Frame-if true f g = f
Frame-if false f g = g

-- A step that may fault, and one more after it.
abbrev pub Framed : Kernel → Option Kernel → Type 0
Framed k = Ensures (Frame k)

pub Framed-if :
    (t : Bool) (k : Kernel) (r s : Option Kernel)
    → Framed k r
    → Framed k s
    → Framed k (if t then r else s)
Framed-if true k r s f g = f
Framed-if false k r s f g = g

pub Framed-bind :
    (k : Kernel) (r : Option Kernel) (f : Kernel → Option Kernel)
    → Framed k r
    → ((l : Kernel) → Frame k l → Framed k (f l))
    → Framed k (r >>= f)
Framed-bind k r f h g = Ensures-bind (Frame k) (Frame k) r f h g

pub Framed-trans : {k l : Kernel} (r : Option Kernel) → Frame k l → Framed l r → Framed k r
Framed-trans none f g = tt
Framed-trans (some m) f g = Frame-trans f g

-- A change to one process that keeps its pid, and makes no NULL state one that is requeued.
pub set_pcb-Frame :
    (k : Kernel) (a : ℕ) (p : Pcb)
    → p.id ≡ (k.pcb a).id
    → (goes_back (k.pcb a).state ≡ false → goes_back p.state ≡ false)
    → Frame k (set_pcb k a p)
set_pcb-Frame k a p e s = record {
  levels_same = refl;
  blocked_same = refl;
  current_same = refl;
  idle_same = refl;
  ids_same = λ b. ground arith;
  safe = λ h. elim (Bool-cases (a == null)) [ inl at ↦ ground arith | inr off ↦ rw off h ];
}

pub set_ready-Frame : (k : Kernel) (a : ℕ) → Frame k (set_process_state k a ready).0
unfolding set_process_state
set_ready-Frame k a = elim (Bool-cases (refuses_state k a ready)) [
  | inl no_change ↦ rw (no_change, set_process_state) (Frame-refl k)
  | inr done ↦
      rw (done, set_process_state)
        (set_pcb-Frame k a (record (k.pcb a) { state = ready; manual_blocked = 0 }) refl
          (λ h. refl))
]

pub tracked-Frame : {k k' : Kernel} → Frame k k' → tracked k' ≡ tracked k
tracked-Frame f = rw (f.current_same, f.idle_same, f.levels_same, f.blocked_same)

-- Such a step keeps the invariant of the queues.
pub Separate-Frame : {k k' : Kernel} → Separate k → Frame k k' → Separate k'
Separate-Frame {k} {k'} v f = record {
  six = rw f.levels_same v.six;
  no_null = rw (f.levels_same, f.blocked_same) v.no_null;
  no_idle = rw (f.levels_same, f.blocked_same, f.idle_same) v.no_idle;
  once = λ a. rw (tracked-Frame f) (v.once a);
  running_one = rw f.current_same v.running_one;
  idle_there = rw f.idle_same v.idle_there;
  idle_alone = λ a h e.
      v.idle_alone a (rw (tracked-Frame f) at h)
        (sym (f.ids_same a) ∙ e ∙ ap (λ b. (k'.pcb b).id) f.idle_same ∙ f.ids_same k.idle);
}
