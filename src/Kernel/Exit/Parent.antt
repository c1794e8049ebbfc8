-- ===== src/Kernel/Exit/Parent.antt =====
-- `setParentReady`: what the end of a process does to its parent.
use tp_so.Base.{ℕ, ◌≡◌, refl, ap, ◌∙◌, ◌≢◌, List, [], ◌∷◌, arith, true, false, elem}
use tp_so.Kernel.{Kernel, Pcb, ready, set_pcb, update}
use tp_so.Kernel.Process.{get_entry, exists, has_pid, refuses_state, set_process_state, queued}
use tp_so.Kernel.Exit.{drop_child, set_parent_ready}

has_pid_congr :
    (f g : ℕ → Pcb) (pid : ℕ) (q : List ℕ)
    → ((b : ℕ) → (f b).id ≡ (g b).id)
    → has_pid f pid q ≡ has_pid g pid q
unfolding has_pid
has_pid_congr f g pid [] h = refl
has_pid_congr f g pid (a ∷ q) h = rw (h a, has_pid_congr f g pid q h)

-- With the same pids a process is known or unknown as before.
pub exists_congr :
    (k : Kernel) (a : ℕ) (p : Pcb) (pid : ℕ)
    → p.id ≡ (k.pcb a).id
    → exists (set_pcb k a p) pid ≡ exists k pid
unfolding exists
exists_congr k a p pid e =
    let same = ids in
    rw (same k.current, same k.idle, has_pid_congr (set_pcb k a p).pcb k.pcb pid (queued k) same)
  where
    ids : (b : ℕ) → ((set_pcb k a p).pcb b).id ≡ (k.pcb b).id
    ids b = ground arith

-- The child is no longer listed.
drop_child-drops : (pid : ℕ) (cs : List ℕ) → pid ≢ 0 → elem pid (drop_child pid cs) ≡ false
unfolding drop_child elem
drop_child-drops pid [] h = refl
drop_child-drops pid (c ∷ cs) h = ground (arith, drop_child-drops pid cs h)

set_ready-known :
    (k : Kernel) (a : ℕ)
    → exists k (k.pcb a).id ≡ true
    → (set_process_state k a ready).0
      ≡ set_pcb k a (record (k.pcb a) { state = ready; manual_blocked = 0 })
unfolding set_process_state refuses_state
set_ready-known k a h = rw h (ground arith)

update_self : (f : ℕ → Pcb) (a : ℕ) (p : Pcb) → update f a p a ≡ p
update_self f a p = ground arith

without_child : Kernel → ℕ → ℕ → Pcb
without_child k a parent = record (k.pcb parent) {
  childs_ids = drop_child (k.pcb a).id (k.pcb parent).childs_ids;
}

parent_known :
    (k : Kernel) (a parent : ℕ)
    → exists k (k.pcb parent).id ≡ true
    → let k' = set_pcb k parent (without_child k a parent) in exists k' (k'.pcb parent).id ≡ true
unfolding without_child
parent_known k a parent h =
    exists_congr k parent (without_child k a parent) _ refl
    ∙ ap (exists k) (ap (λ (q : Pcb). q.id) (update_self k.pcb parent (without_child k a parent)))
    ∙ h

-- `setParentReady` takes a process with a pid other than 0 off the list of children of its
-- parent, if that is known, and makes the parent READY, whatever state it was in: also one that
-- is EXITED.
pub set_parent_ready_lem :
    (k : Kernel) (a : ℕ)
    → exists k (k.pcb (get_entry k (k.pcb a).parent_id)).id ≡ true
    → (k.pcb a).id ≢ 0
    → let parent = (set_parent_ready k a).pcb (get_entry k (k.pcb a).parent_id) in
      (parent.state ≡ ready) × (elem (k.pcb a).id parent.childs_ids ≡ false)
unfolding set_parent_ready without_child
set_parent_ready_lem k a known nonzero =
    let parent = get_entry k (k.pcb a).parent_id in
    let k' = set_pcb k parent (without_child k a parent) in
    rw (set_ready-known k' parent (parent_known k a parent known), update_self k'.pcb parent _)
      (
        refl,
        rw (update_self k.pcb parent (without_child k a parent))
            (drop_child-drops (k.pcb a).id (k.pcb parent).childs_ids nonzero),
      )
