-- ===== src/Kernel/Buddy/Total.antt =====
-- `genericAllocMemoryRec` to any depth, and `genericAllocMemory`.
use tp_so.Base.{
  ℕ, zero, suc, ◌+◌, ◌/◌, ◌^◌, ◌≤◌, ◌<◌, ◌≡◌, ◌≢◌, ◌⊎◌, inl, inr, refl, ap, ◌∙◌, false, Option,
  some, ◌==◌, if◌then◌else◌, arith, lt→ltb,
}
use tp_so.Base.Maybe.{◌>>=◌, Returns}
use tp_so.Ipc.Buffer.{null}
use tp_so.Kernel.Buddy.{
  MemoryStatus, empty, partial, full, BuddyMemoryManager, mem_node_size, is_full, set_descendants,
  alloc_node, alloc_rec, end_recursive_call, set_status, count_taken,
}
use tp_so.Kernel.Buddy.Tree.{Part, free, used, halves, status_of, left_at, Node, Stands, allocate}
use tp_so.Kernel.Buddy.Frame.{lt-cases, le→ltb, le→leb, lt→leb}
use tp_so.Kernel.Buddy.Call.{Allocated, Given, alone, take-here}
use tp_so.Kernel.Buddy.Halved.{split}
use tp_so.Kernel.Buddy.Refine.{split-does, halves-does}

-- The branches of a call.
module _ (again : BuddyMemoryManager → ℕ → ℕ → Option (ℕ × BuddyMemoryManager))
    (m : BuddyMemoryManager) (a need : ℕ) (real : 0 < a) where
  alloc_node-full : (m.nodes a).status ≡ full → alloc_node again m a need ≡ some (null, m)
  unfolding alloc_node
  alloc_node-full h = ground arith

  alloc_node-halved :
      is_full (m.nodes a).status ≡ false
      → (m.nodes a).left ≢ null
      → alloc_node again m a need ≡ (
          again m (m.nodes a).left need >>= λ l.
          (if l.0 == null then again l.1 (l.1.nodes a).right need else some l) >>= λ out.
          some (out.0, end_recursive_call out.1 a))
  unfolding alloc_node
  alloc_node-halved h i = ground arith

  module _ (s : ℕ) (n : Node (m.nodes a) s empty null null) where
    alloc_node-small : s < need → alloc_node again m a need ≡ some (null, m)
    unfolding alloc_node
    alloc_node-small h = ground arith

    alloc_node-split :
        need ≤ s / 2
        → ((set_descendants m a).nodes a).left ≡ left_at a
        → alloc_node again m a need ≡ (
            again (set_descendants m a) (left_at a) need >>= λ out.
            some (out.0, end_recursive_call out.1 a))
    unfolding alloc_node
    alloc_node-split h e = ground arith

    alloc_node-take :
        need ≤ s
        → s / 2 < need
        → alloc_node again m a need
          ≡ some (a + mem_node_size, count_taken (set_status m a full) (s + mem_node_size))
    unfolding alloc_node
    alloc_node-take h i = ground arith

is_full-cases : (st : MemoryStatus) → (st ≡ full) ⊎ (is_full st ≡ false)
is_full-cases full = inl refl
is_full-cases empty = inr refl
is_full-cases partial = inr refl

-- A call does what `allocate` does, where the recursive calls do.
module _ (d need : ℕ) (large : mem_node_size ≤ need)
    (again : BuddyMemoryManager → ℕ → ℕ → Option (ℕ × BuddyMemoryManager))
    (does : (m : BuddyMemoryManager) (a s : ℕ) (p : Part)
      → Given m a s p
      → s < 2 ^ d
      → Returns (Allocated m a s (allocate d need a s p)) (again m a need)) where
  free-does :
      (m : BuddyMemoryManager) (a s : ℕ)
      → Given m a s free
      → s < 2 ^ suc d
      → Returns (Allocated m a s (allocate (suc d) need a s free)) (alloc_node again m a need)
  unfolding allocate Stands
  free-does m a s g deep =
      let n = g.stands in
      elim (lt-cases s need) [
        | inl h ↦
            rw (alloc_node-small again m a need g.above_null s n h, lt→ltb s need h)
              (alone m a s free g)
        | inr h ↦ elim (lt-cases (s / 2) need) [
          | inl i ↦
              rw
                (
                  alloc_node-take again m a need g.above_null s n h i,
                  le→ltb s need h,
                  lt→leb need (s / 2) i,
                )
                (take-here m a s (s + mem_node_size) g)
          | inr i ↦
              let left = (split m a s (omega arith) g).to_left in
              rw
                (
                  alloc_node-split again m a need g.above_null s n i left,
                  le→ltb s need h,
                  le→leb need (s / 2) i,
                )
                (split-does d need large again does m a s g deep i)
        ]
      ]

  step-does :
      (m : BuddyMemoryManager) (a s : ℕ) (p : Part)
      → Given m a s p
      → s < 2 ^ suc d
      → Returns (Allocated m a s (allocate (suc d) need a s p)) (alloc_node again m a need)
  unfolding allocate Stands
  step-does m a s free g deep = free-does m a s g deep
  step-does m a s used g deep =
      rw (alloc_node-full again m a need g.above_null g.stands.1) (alone m a s used g)
  step-does m a s (halves l r) g deep = elim (is_full-cases (status_of (halves l r))) [
    | inl h ↦
        rw (alloc_node-full again m a need g.above_null (g.stands.0.1 ∙ h), h)
          (alone m a s (halves l r) g)
    | inr h ↦
        rw
          (
            alloc_node-halved again m a need g.above_null (ap is_full g.stands.0.1 ∙ h)
                (omega (arith, g.stands.0.2)),
            h,
          )
          (halves-does d need large again does m a s l r g deep g.stands.1)
  ]

-- No part of no bytes is halved.
zero-does :
    (need : ℕ) (m : BuddyMemoryManager) (a s : ℕ) (p : Part)
    → mem_node_size ≤ need
    → Given m a s p
    → s < 1
    → Returns (Allocated m a s (allocate zero need a s p)) (alloc_rec 1 m a need)
unfolding alloc_rec allocate Stands
zero-does need m a s free large g none_there =
    rw (alloc_node-small (alloc_rec zero) m a need g.above_null s g.stands (omega arith))
      (alone m a s free g)
zero-does need m a s used large g none_there =
    rw (alloc_node-full (alloc_rec zero) m a need g.above_null g.stands.1) (alone m a s used g)
zero-does need m a s (halves l r) large g none_there = absurd (omega (arith, g.stands.1))

-- A call at most `suc d` deep does what `allocate` does on the tree.
pub alloc_rec-allocate :
    (d need : ℕ) (m : BuddyMemoryManager) (a s : ℕ) (p : Part)
    → mem_node_size ≤ need
    → Given m a s p
    → s < 2 ^ d
    → Returns (Allocated m a s (allocate d need a s p)) (alloc_rec (suc d) m a need)
unfolding alloc_rec
alloc_rec-allocate zero need m a s p large g deep = zero-does need m a s p large g deep
alloc_rec-allocate (suc d) need m a s p large g deep =
    step-does d need large (alloc_rec (suc d))
      (λ m a s p g deep. alloc_rec-allocate d need m a s p large g deep) m a s p g deep
