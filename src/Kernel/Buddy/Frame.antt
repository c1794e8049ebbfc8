-- ===== src/Kernel/Buddy/Frame.antt =====
-- What the nodes outside a part, and the calls on them, leave as it is.
use tp_so.Base.{refl, ℕ, ◌+◌, ◌*◌, ◌≤◌, ◌<◌, ◌≡◌, ◌≢◌, ◌⊎◌, ap, ◌∙◌, true, false, arith, ltb, leb}
use tp_so.Ipc.Buffer.{null}
use tp_so.Kernel.{update}
use tp_so.Kernel.Buddy.{
  partial, full, empty, is_empty, MemNode, MemoryStatus, BuddyMemoryManager, mem_node_size,
  set_status, end_recursive_call,
}
use tp_so.Kernel.Buddy.Tree.{
  Part, free, used, halves, status_of, left_at, right_at, half_of, Node, Stands, Clean,
}

pub lt-cases : (a b : ℕ) → (a < b) ⊎ (b ≤ a)
lt-cases a b = ground arith

pub le→ltb : (a b : ℕ) → b ≤ a → ltb a b ≡ false
le→ltb a b h = ground arith

pub le→leb : (a b : ℕ) → a ≤ b → leb a b ≡ true
le→leb a b h = ground arith

pub lt→leb : (a b : ℕ) → b < a → leb a b ≡ false
lt→leb a b h = ground arith

pub update_at : (f : ℕ → MemNode) (a : ℕ) (n : MemNode) → update f a n a ≡ n
update_at f a n = ground arith

pub update_off : (f : ℕ → MemNode) (a c : ℕ) (n : MemNode) → c ≢ a → update f a n c ≡ f c
update_off f a c n h = ground arith

pub is_empty-eq : (st : MemoryStatus) → is_empty st ≡ true → st ≡ empty
is_empty-eq empty h = refl
is_empty-eq full h = cc
is_empty-eq partial h = cc

-- The node of a part has its size and its status.
pub Stands-size : (f : ℕ → MemNode) (a s : ℕ) (p : Part) → Stands f a s p → (f a).size ≡ s
unfolding Stands
Stands-size f a s free h = h.0
Stands-size f a s used h = h.0
Stands-size f a s (halves l r) h = h.0.0

pub Stands-status :
    (f : ℕ → MemNode) (a s : ℕ) (p : Part) → Stands f a s p → (f a).status ≡ status_of p
unfolding Stands status_of
Stands-status f a s free h = h.1
Stands-status f a s used h = h.1
Stands-status f a s (halves l r) h = h.0.1

-- Only the nodes of a part's own bytes matter.
abbrev pub Same : (ℕ → MemNode) → (ℕ → MemNode) → ℕ → ℕ → Type 0
Same f g a e = (c : ℕ) → a ≤ c → c < e → g c ≡ f c

Node-Same :
    (m n : MemNode) (s : ℕ) (st : MemoryStatus) (l r : ℕ)
    → n ≡ m
    → Node m s st l r
    → Node n s st l r
Node-Same m n s st l r e h = rw e h

pub Stands-Same :
    (f g : ℕ → MemNode) (a s : ℕ) (p : Part)
    → Same f g a (left_at a + s)
    → Stands f a s p
    → Stands g a s p
unfolding Stands status_of
Stands-Same f g a s free h k =
    Node-Same (f a) (g a) s empty null null (h a (omega arith) (omega arith)) k
Stands-Same f g a s used h k =
    Node-Same (f a) (g a) s full null null (h a (omega arith) (omega arith)) k
Stands-Same f g a s (halves l r) h k = (
  Node-Same (f a) (g a) s _ _ _ (h a (omega arith) (omega arith)) k.0,
  k.1,
  Stands-Same f g (left_at a) (half_of s) l (λ c i j. h c (omega arith) (omega (arith, k.1))) k.2,
  Stands-Same f g (right_at a s) (half_of s) r (λ c i j. h c (omega arith) (omega (arith, k.1)))
      k.3,
)

pub Clean-Same :
    (f g : ℕ → MemNode) (a s : ℕ) (p : Part)
    → Same f g a (left_at a + s)
    → Stands f a s p
    → Clean f a s p
    → Clean g a s p
unfolding Stands Clean status_of
Clean-Same f g a s free h k e = λ c i j.
    let q = h c (omega arith) (omega arith) in
    (ap (λ (n : MemNode). n.left) q ∙ (e c i j).0, ap (λ (n : MemNode). n.right) q ∙ (e c i j).1)
Clean-Same f g a s used h k e = e
Clean-Same f g a s (halves l r) h k e = (
  Clean-Same f g (left_at a) (half_of s) l (λ c i j. h c (omega arith) (omega (arith, k.1))) k.2
      e.0,
  Clean-Same f g (right_at a s) (half_of s) r (λ c i j. h c (omega arith) (omega (arith, k.1))) k.3
      e.1,
)

-- `endRecursiveCall` at a node whose halves stand sets the status that they give it.
pub set_status-eq :
    (m : BuddyMemoryManager) (a : ℕ) (l r : Part)
    → (m.nodes a).left ≢ null
    → (m.nodes a).right ≢ null
    → (m.nodes (m.nodes a).left).status ≡ status_of l
    → (m.nodes (m.nodes a).right).status ≡ status_of r
    → ((end_recursive_call m a).nodes ≡ (set_status m a (status_of (halves l r))).nodes)
      × ((end_recursive_call m a).root ≡ m.root)
unfolding end_recursive_call status_of
set_status-eq m a l r hl hr el er = ground arith

module _ (m : BuddyMemoryManager) (a s : ℕ) (l r : Part) (size : (m.nodes a).size ≡ s)
    (to_left : (m.nodes a).left ≡ left_at a) (to_right : (m.nodes a).right ≡ right_at a s)
    (wide : 2 * mem_node_size ≤ s) (sl : Stands m.nodes (left_at a) (half_of s) l)
    (sr : Stands m.nodes (right_at a s) (half_of s) r) where
  -- Only the status of the node changes.
  pub end-eq :
      ((end_recursive_call m a).nodes ≡ (set_status m a (status_of (halves l r))).nodes)
      × ((end_recursive_call m a).root ≡ m.root)
  end-eq =
      set_status-eq m a l r (rw to_left (omega arith)) (rw to_right (omega arith))
        (rw to_left (Stands-status m.nodes (left_at a) (half_of s) l sl))
        (rw to_right (Stands-status m.nodes (right_at a s) (half_of s) r sr))

  pub end-off : (c : ℕ) → c ≢ a → (end_recursive_call m a).nodes c ≡ m.nodes c
  end-off c h = ap (λ (f : ℕ → MemNode). f c) end-eq.0 ∙ update_off m.nodes a c _ h

  end-at : (end_recursive_call m a).nodes a ≡ record (m.nodes a) { status = status_of (halves l r) }
  end-at = ap (λ (f : ℕ → MemNode). f a) end-eq.0 ∙ update_at m.nodes a _

  end-left :
      Same m.nodes (end_recursive_call m a).nodes (left_at a) (left_at (left_at a) + half_of s)
  end-left c i j = end-off c (omega arith)

  end-right :
      Same m.nodes
        (end_recursive_call m a).nodes
        (right_at a s)
        (left_at (right_at a s) + half_of s)
  end-right c i j = end-off c (omega arith)

  pub end-Stands : Stands (end_recursive_call m a).nodes a s (halves l r)
  unfolding Stands
  end-Stands = (
    (
      ap (λ (n : MemNode). n.size) end-at ∙ size,
      ap (λ (n : MemNode). n.status) end-at,
      ap (λ (n : MemNode). n.left) end-at ∙ to_left,
      ap (λ (n : MemNode). n.right) end-at ∙ to_right,
    ),
    wide,
    Stands-Same m.nodes _ (left_at a) (half_of s) l end-left sl,
    Stands-Same m.nodes _ (right_at a s) (half_of s) r end-right sr,
  )

  pub end-Clean :
      Clean m.nodes (left_at a) (half_of s) l
      → Clean m.nodes (right_at a s) (half_of s) r
      → Clean (end_recursive_call m a).nodes a s (halves l r)
  unfolding Clean
  end-Clean cl cr = (
    Clean-Same m.nodes _ (left_at a) (half_of s) l end-left sl cl,
    Clean-Same m.nodes _ (right_at a s) (half_of s) r end-right sr cr,
  )
