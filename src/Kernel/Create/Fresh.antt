-- ===== src/Kernel/Create/Fresh.antt =====
-- `unusedID` finds an identifier that no process has.
use tp_so.Base.{
  ℕ, ◌+◌, ◌^◌, ◌≤◌, ◌<◌, ◌≡◌, refl, ◌≢◌, List, [], ◌∷◌, arith, ltb, false, if◌then◌else◌,
}
use tp_so.Kernel.{Kernel, Pcb}
use tp_so.Kernel.Process.{exists, has_pid, queued, idle_id}
use tp_so.Kernel.Create.{max_id, unused_id}

max_id-above : (pcb : ℕ → Pcb) (m : ℕ) (q : List ℕ) → m ≤ max_id pcb m q
unfolding max_id
max_id-above pcb m [] = omega arith
max_id-above pcb m (a ∷ q) =
    ground (arith, max_id-above pcb (if ltb m (pcb a).id then (pcb a).id else m) q)

has_pid-above :
    (pcb : ℕ → Pcb) (m pid : ℕ) (q : List ℕ) → max_id pcb m q < pid → has_pid pcb pid q ≡ false
unfolding max_id has_pid
has_pid-above pcb m pid [] h = refl
has_pid-above pcb m pid (a ∷ q) h =
    let m' = (if ltb m (pcb a).id then (pcb a).id else m) in
    ground (arith, max_id-above pcb m' q, has_pid-above pcb m' pid q h)

unused_id-above :
    (k : Kernel)
    → max_id k.pcb (k.pcb k.current).id (queued k) + 1 < 2 ^ 32
    → (max_id k.pcb (k.pcb k.current).id (queued k) < unused_id k) × (unused_id k ≢ 2)
unfolding unused_id
unused_id-above k h = ground arith

-- While the identifiers are not used up and idle has its own, the one that `unusedID` returns is that
-- of no process.
pub unused_id-fresh :
    (k : Kernel)
    → max_id k.pcb (k.pcb k.current).id (queued k) + 1 < 2 ^ 32
    → (k.pcb k.idle).id ≡ idle_id
    → exists k (unused_id k) ≡ false
unfolding exists
unused_id-fresh k h e =
    let above = unused_id-above k h in
    ground (
      arith,
      has_pid-above k.pcb (k.pcb k.current).id (unused_id k) (queued k) above.0,
      max_id-above k.pcb (k.pcb k.current).id (queued k),
    )
