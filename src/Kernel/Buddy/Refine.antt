-- ===== src/Kernel/Buddy/Refine.antt =====
-- `genericAllocMemoryRec` on the nodes does what `allocate` does on the tree.
use tp_so.Base.{
  ℕ, suc, ◌*◌, ◌/◌, ◌^◌, ◌≤◌, ◌<◌, inl, inr, Option, some, ◌==◌, if◌then◌else◌, arith, Bool-cases,
}
use tp_so.Base.Maybe.{◌>>=◌, Returns, Returns-bind}
use tp_so.Ipc.Buffer.{null}
use tp_so.Kernel.Buddy.{BuddyMemoryManager, mem_node_size, set_descendants, end_recursive_call}
use tp_so.Kernel.Buddy.Tree.{Part, free, halves, left_at, right_at, half_of, allocate}
use tp_so.Kernel.Buddy.Call.{Allocated, Given, half-depth}
use tp_so.Kernel.Buddy.Halved.{
  Halved, Given-left_half, Given-right_half, after-left, after-right, finish, start, split,
}

-- The recursive calls do what `allocate` does to the depth `d`.
module _ (d need : ℕ) (large : mem_node_size ≤ need)
    (again : BuddyMemoryManager → ℕ → ℕ → Option (ℕ × BuddyMemoryManager))
    (does : (m : BuddyMemoryManager) (a s : ℕ) (p : Part)
      → Given m a s p
      → s < 2 ^ d
      → Returns (Allocated m a s (allocate d need a s p)) (again m a need)) where
  module _ (m0 : BuddyMemoryManager) (a s : ℕ) (p0 : Part) (g : Given m0 a s p0)
      (deep : s < 2 ^ suc d) (wide : 2 * mem_node_size ≤ s) where
    left-does :
        (m : BuddyMemoryManager) (l r : Part)
        → Halved m0 m a s l r
        → Returns
            (Allocated m (left_at a) (half_of s) (allocate d need (left_at a) (half_of s) l))
            (again m (left_at a) need)
    left-does m l r h =
        does m (left_at a) (half_of s) l (Given-left_half m0 a s p0 g wide m l r h)
          (half-depth d s deep)

    right-does :
        (m : BuddyMemoryManager) (l r : Part)
        → Halved m0 m a s l r
        → Returns
            (Allocated m (right_at a s) (half_of s) (allocate d need (right_at a s) (half_of s) r))
            (again m (right_at a s) need)
    right-does m l r h =
        does m (right_at a s) (half_of s) r (Given-right_half m0 a s p0 g wide m l r h)
          (half-depth d s deep)

  -- A free node that is halved: the left half is tried.
  pub split-does :
      (m : BuddyMemoryManager) (a s : ℕ)
      → Given m a s free
      → s < 2 ^ suc d
      → need ≤ s / 2
      → Returns
          (Allocated m a s
            (let x = allocate d need (left_at a) (half_of s) free in (x.0, halves x.1 free)))
          (again (set_descendants m a) (left_at a) need >>= λ out.
            some (out.0, end_recursive_call out.1 a))
  split-does m a s g deep fits =
      let wide : 2 * mem_node_size ≤ s = omega (arith, fits, large) in
      let h = split m a s wide g in
      Returns-bind _ _ (again (set_descendants m a) (left_at a) need)
        (λ out. some (out.0, end_recursive_call out.1 a))
        (left-does m a s free g deep wide (set_descendants m a) free free h)
        (λ out k.
          let x = allocate d need (left_at a) (half_of s) free in
          rw k.returned (
            finish m a s free g wide x.0 out.1 x.1 free
              (after-left m a s free g wide (set_descendants m a) free free x out h k)))

  -- A node with halves: the left one is tried, and the right one if that returned NULL.
  second-does :
      (m0 m : BuddyMemoryManager) (a s v : ℕ) (p0 l r : Part)
      → Given m0 a s p0
      → s < 2 ^ suc d
      → 2 * mem_node_size ≤ s
      → Halved m0 m a s l r
      → Returns
          (Allocated m0 a s (
            let y = allocate d need (right_at a s) (half_of s) r in
            if v == null then (y.0, halves l y.1) else (v, halves l r)))
          ((if v == null then again m (m.nodes a).right need else some (v, m)) >>= λ out.
            some (out.0, end_recursive_call out.1 a))
  second-does m0 m a s v p0 l r g deep wide h = elim (Bool-cases (v == null)) [
    | inl e ↦
        let y = allocate d need (right_at a s) (half_of s) r in
        rw (e, h.to_right)
          (Returns-bind _ _ (again m (right_at a s) need)
            (λ out. some (out.0, end_recursive_call out.1 a))
            (right-does m0 a s p0 g deep wide m l r h)
            (λ out k. rw k.returned (
              finish m0 a s p0 g wide y.0 out.1 l y.1
                (after-right m0 a s p0 g wide m l r y out h k))))
    | inr e ↦ rw e (finish m0 a s p0 g wide v m l r h)
  ]

  pub halves-does :
      (m : BuddyMemoryManager) (a s : ℕ) (l r : Part)
      → Given m a s (halves l r)
      → s < 2 ^ suc d
      → 2 * mem_node_size ≤ s
      → Returns
          (Allocated m a s (
            let x = allocate d need (left_at a) (half_of s) l in
            let y = allocate d need (right_at a s) (half_of s) r in
            if x.0 == null then (y.0, halves x.1 y.1) else (x.0, halves x.1 r)))
          (again m (m.nodes a).left need >>= λ l.
            (if l.0 == null then again l.1 (l.1.nodes a).right need else some l) >>= λ out.
            some (out.0, end_recursive_call out.1 a))
  halves-does m a s l r g deep wide =
      let h = start m a s l r g in
      let x = allocate d need (left_at a) (half_of s) l in
      rw h.to_left (
        Returns-bind _ _ (again m (left_at a) need)
          (λ l. (if l.0 == null then again l.1 (l.1.nodes a).right need else some l) >>= λ out.
            some (out.0, end_recursive_call out.1 a))
          (left-does m a s (halves l r) g deep wide m l r h)
          (λ out k.
            let next = after-left m a s (halves l r) g wide m l r x out h k in
            rw k.returned (second-does m out.1 a s x.0 (halves l r) x.1 r g deep wide next)))
