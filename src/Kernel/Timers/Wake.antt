-- ===== src/Kernel/Timers/Wake.antt =====
-- `updateTimers` changes states to READY only, and those of sleeping processes only.
use tp_so.Base.{ℕ, ◌≡◌, refl, ◌∙◌, ◌≢◌, ◌⊎◌, inl, inr, List, [], ◌∷◌, arith}
use tp_so.Kernel.{Kernel, Timer, ready}
use tp_so.Kernel.Process.{set_process_state}
use tp_so.Kernel.Timers.{update_timer, update_timers_from, update_timers, remove_from_list}

-- No timer waits for the process.
unfoldable pub Elsewhere : ℕ → List Timer → Type 0
Elsewhere c [] = Unit
Elsewhere c (t ∷ ts) = (t.sleeping_process ≢ c) × Elsewhere c ts

set_ready-states :
    (k : Kernel) (a b : ℕ)
    → (((set_process_state k a ready).0.pcb b).state ≡ (k.pcb b).state)
      ⊎ (((set_process_state k a ready).0.pcb b).state ≡ ready)
unfolding set_process_state
set_ready-states k a b = ground arith

set_ready-other :
    (k : Kernel) (a b : ℕ) → a ≢ b → ((set_process_state k a ready).0.pcb b).state ≡ (k.pcb b).state
unfolding set_process_state
set_ready-other k a b h = ground arith

update_timer-states :
    (now : ℕ) (t : Timer) (k : Kernel) (b : ℕ)
    → (((update_timer now t k).pcb b).state ≡ (k.pcb b).state)
      ⊎ (((update_timer now t k).pcb b).state ≡ ready)
unfolding update_timer remove_from_list
update_timer-states now t k b = ground (arith, set_ready-states k t.sleeping_process b)

update_timer-other :
    (now : ℕ) (t : Timer) (k : Kernel) (b : ℕ)
    → t.sleeping_process ≢ b
    → ((update_timer now t k).pcb b).state ≡ (k.pcb b).state
unfolding update_timer remove_from_list
update_timer-other now t k b h = ground (arith, set_ready-other k t.sleeping_process b h)

Woken : Kernel → Kernel → ℕ → Type 0
Woken k k' b = ((k'.pcb b).state ≡ (k.pcb b).state) ⊎ ((k'.pcb b).state ≡ ready)

Woken-trans : (k l m : Kernel) (b : ℕ) → Woken k l b → Woken l m b → Woken k m b
unfolding Woken
Woken-trans k l m b (inl e) (inl d) = inl (d ∙ e)
Woken-trans k l m b (inr e) (inl d) = inr (d ∙ e)
Woken-trans k l m b _ (inr d) = inr d

update_timers_from-states :
    (now : ℕ) (ts : List Timer) (k : Kernel) (b : ℕ) → Woken k (update_timers_from now ts k) b
unfolding update_timers_from Woken
update_timers_from-states now [] k b = inl refl
update_timers_from-states now (t ∷ ts) k b =
    Woken-trans k (update_timer now t k) (update_timers_from now ts (update_timer now t k)) b
      (update_timer-states now t k b) (update_timers_from-states now ts (update_timer now t k) b)

pub update_timers-states :
    (now : ℕ) (k : Kernel) (b : ℕ)
    → (((update_timers now k).pcb b).state ≡ (k.pcb b).state)
      ⊎ (((update_timers now k).pcb b).state ≡ ready)
unfolding update_timers Woken
update_timers-states now k b = update_timers_from-states now k.timers k b

update_timers_from-awake :
    (now : ℕ) (ts : List Timer) (k : Kernel) (b : ℕ)
    → Elsewhere b ts
    → ((update_timers_from now ts k).pcb b).state ≡ (k.pcb b).state
unfolding update_timers_from Elsewhere
update_timers_from-awake now [] k b h = refl
update_timers_from-awake now (t ∷ ts) k b h =
    update_timers_from-awake now ts (update_timer now t k) b h.1 ∙ update_timer-other now t k b h.0

pub update_timers-awake :
    (now : ℕ) (k : Kernel) (b : ℕ)
    → Elsewhere b k.timers
    → ((update_timers now k).pcb b).state ≡ (k.pcb b).state
unfolding update_timers
update_timers-awake now k b h = update_timers_from-awake now k.timers k b h
