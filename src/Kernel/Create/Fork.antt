-- ===== src/Kernel/Create/Fork.antt =====
-- `sysFork` gives the child an identifier and puts it in one queue.
use tp_so.Base.{
  ℕ, zero, suc, ◌+◌, ◌≡◌, refl, ap, ◌∙◌, ◌≢◌, List, [], ◌∷◌, Option, none, some, arith, ◌==◌, Bool,
  true, false, Bool-cases, inl, inr, if◌then◌else◌, length, elem,
}
use tp_so.Base.Maybe.{◌>>=◌, Returns}
use tp_so.Ipc.Buffer.{Buffer, null, pd_size, get_reference_by_index}
use tp_so.Kernel.{Kernel, Pcb, set_pcb}
use tp_so.Kernel.Process.{queued}
use tp_so.Kernel.Queues.{insert_in_queue}
use tp_so.Kernel.Queues.Levels.{one_at}
use tp_so.Kernel.Queues.Conserve.{count_queued, insert_in_queue-count}
use tp_so.Kernel.Create.{refer, refer_all, add_child, child_of, enroll, max_id, unused_id, sys_fork}

-- References are kept in buffers, and nowhere else.
refer-eq :
    (n j : ℕ) (k : Kernel) (b a : ℕ)
    → refer n j k b a ≡ record k { buffers = (refer n j k b a).buffers }
unfolding refer
refer-eq zero j k b a = refl
refer-eq (suc n) j k b a = elim (Bool-cases (get_reference_by_index (k.buffers b) j == null)) [
  | inl free ↦ rw free
  | inr taken ↦ rw taken (refer-eq n (j + 1) k b a)
]

pick-eq :
    (t : Bool) (k l : Kernel)
    → l ≡ record k { buffers = l.buffers }
    → (if t then k else l) ≡ record k { buffers = (if t then k else l).buffers }
pick-eq true k l e = refl
pick-eq false k l e = e

refer_all-eq :
    (bs : List ℕ) (k : Kernel) (a : ℕ)
    → refer_all bs k a ≡ record k { buffers = (refer_all bs k a).buffers }
unfolding refer_all
refer_all-eq [] k a = refl
refer_all-eq (b ∷ bs) k a =
    let k' = (if b == null then k else refer pd_size 0 k b a) in
    refer_all-eq bs k' a
    ∙ ap (λ (l : Kernel). record l { buffers = (refer_all bs k' a).buffers })
        (pick-eq (b == null) k (refer pd_size 0 k b a) (refer-eq pd_size 0 k b a))

max_id_congr :
    (f g : ℕ → Pcb) (q : List ℕ) (m : ℕ)
    → ((b : ℕ) → (f b).id ≡ (g b).id)
    → max_id f m q ≡ max_id g m q
unfolding max_id
max_id_congr f g [] m h = refl
max_id_congr f g (a ∷ q) m h = rw (h a) (max_id_congr f g q _ h)

unused_id_congr :
    (k : Kernel) (pcb : ℕ → Pcb) (buffers : ℕ → Buffer)
    → ((b : ℕ) → (pcb b).id ≡ (k.pcb b).id)
    → unused_id (record k { pcb = pcb; buffers = buffers }) ≡ unused_id k
unfolding unused_id
unused_id_congr k pcb buffers h =
    rw (h k.current, max_id_congr pcb k.pcb (queued k) (k.pcb k.current).id h)

-- There is an entry for one more child.
add_child-Returns :
    (pid : ℕ) (cs : List ℕ) → elem 0 cs ≡ true → Returns (λ _. Unit {0}) (add_child pid cs)
unfolding add_child elem
add_child-Returns pid [] h = absurd (false_true h)
  where
    false_true : false ≡ true → ⊥
    false_true e = cc
add_child-Returns pid (c ∷ cs) h = elim (Bool-cases (c == 0)) [
  | inl e ↦ rw e tt
  | inr ne ↦ rw ne (more (add_child pid cs) (add_child-Returns pid cs (ground (arith, ne, h))))
]
  where
    more :
        (m : Option (List ℕ))
        → Returns (λ _. Unit {0}) m
        → Returns (λ _. Unit {0}) (m >>= λ ds. some (c ∷ ds))
    more none r = r
    more (some ds) r = tt

-- What `enroll` leaves of a kernel in which the child is not the current process.
enroll-lem :
    (k : Kernel) (node : ℕ)
    → node ≢ null
    → node ≢ k.current
    → length k.levels ≡ 6
    → elem 0 (k.pcb k.current).childs_ids ≡ true
    → Returns
        (λ out.
          (out.0 ≡ unused_id k)
          × ((a : ℕ) → count_queued a out.1 ≡ count_queued a k + one_at node a))
        (enroll k node)
unfolding enroll
enroll-lem k node h other six room =
    go (add_child pid (k1.pcb k1.current).childs_ids)
      (add_child-Returns pid (k1.pcb k1.current).childs_ids (ap (elem 0) same_childs ∙ room))
  where
    pid : ℕ
    pid = unused_id k

    k1 : Kernel
    k1 = set_pcb k node (record (k.pcb node) { id = pid; parent_id = (k.pcb k.current).id })

    same_childs : (k1.pcb k1.current).childs_ids ≡ (k.pcb k.current).childs_ids
    same_childs = ground arith

    go :
        (m : Option (List ℕ))
        → Returns (λ _. Unit {0}) m
        → Returns
            (λ (out : ℕ × Kernel).
              (out.0 ≡ unused_id k)
              × ((a : ℕ) → count_queued a out.1 ≡ count_queued a k + one_at node a))
            (m >>= λ cs.
              let k2 = set_pcb k1 k1.current (record (k1.pcb k1.current) { childs_ids = cs }) in
              some (pid, insert_in_queue k2 node))
    go none r = absurd r
    go (some cs) r = (
      refl,
      λ a.
          insert_in_queue-count
            (set_pcb k1 k1.current (record (k1.pcb k1.current) { childs_ids = cs })) node a h six,
    )

-- The kernel before the child is enrolled, with what its references have made of the buffers.
prepared : Kernel → ℕ → ℕ → ℕ → (ℕ → Buffer) → Kernel
prepared k node block rsp bufs =
    let k1 = set_pcb k node (child_of (k.pcb k.current) (k.pcb node) block rsp) in
    let k2 = record k1 { buffers = bufs } in
    set_pcb k2 node (record (k2.pcb node) { pd_table = (k.pcb k.current).pd_table })

module _ (k : Kernel) (node block rsp : ℕ) where
  prepared-ids :
      (bufs : ℕ → Buffer) (b : ℕ) → ((prepared k node block rsp bufs).pcb b).id ≡ (k.pcb b).id
  unfolding prepared child_of
  prepared-ids bufs b = ground arith

  prepared-id : (bufs : ℕ → Buffer) → unused_id (prepared k node block rsp bufs) ≡ unused_id k
  prepared-id bufs = unfold prepared in unused_id_congr k _ bufs (prepared-ids bufs)

  prepared-childs :
      (bufs : ℕ → Buffer)
      → node ≢ k.current
      → ((prepared k node block rsp bufs).pcb k.current).childs_ids ≡ (k.pcb k.current).childs_ids
  unfolding prepared
  prepared-childs bufs other = ground arith

  sys_fork-eq :
      node ≢ null
      → block ≢ null
      → sys_fork k node block rsp ≡ (
          let k1 = set_pcb k node (child_of (k.pcb k.current) (k.pcb node) block rsp) in
          enroll
            (prepared k node block rsp (refer_all (k.pcb k.current).pd_table k1 node).buffers)
            node
          >>= λ out. some (some out.0, out.1))
  unfolding sys_fork prepared
  sys_fork-eq h g =
      let k1 = set_pcb k node (child_of (k.pcb k.current) (k.pcb node) block rsp) in
      let table = (k.pcb k.current).pd_table in
      rw (ne_false h, ne_false g)
        (ap
          (λ (l : Kernel).
            enroll (set_pcb l node (record (l.pcb node) { pd_table = table })) node >>= λ out.
            some (some out.0, out.1))
          (refer_all-eq table k1 node))
    where
      ne_false : {a b : ℕ} → a ≢ b → (a == b) ≡ false
      ne_false h = ground arith

  -- A process with room for one more child that forks, with memory for the child and a node for
  -- it that is not its own, while there are the six levels, returns the new identifier; the child
  -- stands in the queues once more than before, and every other node as often as before.
  pub sys_fork_enrolls :
      node ≢ null
      → block ≢ null
      → node ≢ k.current
      → length k.levels ≡ 6
      → elem 0 (k.pcb k.current).childs_ids ≡ true
      → Returns
          (λ out.
            (out.0 ≡ some (unused_id k))
            × ((a : ℕ) → count_queued a out.1 ≡ count_queued a k + one_at node a))
          (sys_fork k node block rsp)
  unfolding prepared
  sys_fork_enrolls h g other six room =
      let k1 = set_pcb k node (child_of (k.pcb k.current) (k.pcb node) block rsp) in
      let bufs = (refer_all (k.pcb k.current).pd_table k1 node).buffers in
      let k3 = prepared k node block rsp bufs in
      rw (sys_fork-eq h g) (
        wrap (enroll k3 node)
          (enroll-lem k3 node h other six (ap (elem 0) (prepared-childs bufs other) ∙ room)))
    where
      wrap :
          (m : Option (ℕ × Kernel))
          → Returns
              (λ out.
                (out.0
                  ≡ unused_id (
                      prepared k node block rsp
                        (refer_all
                          (k.pcb k.current).pd_table
                          (set_pcb k node (child_of (k.pcb k.current) (k.pcb node) block rsp))
                          node).buffers))
                × ((a : ℕ) → count_queued a out.1 ≡ count_queued a k + one_at node a))
              m
          → Returns
              (λ (out : Option ℕ × Kernel).
                (out.0 ≡ some (unused_id k))
                × ((a : ℕ) → count_queued a out.1 ≡ count_queued a k + one_at node a))
              (m >>= λ out. some (some out.0, out.1))
      wrap none r = absurd r
      wrap (some out) r = (ap some (r.0 ∙ prepared-id _), r.1)
