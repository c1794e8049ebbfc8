-- ===== src/Kernel/Buddy/Free.antt =====
-- `genericFreeRec` on the nodes does what `release_at` does on the tree.
use tp_so.Base.{
  ℕ, zero, suc, ◌+◌, ◌*◌, ◌^◌, ◌≤◌, ◌<◌, ◌≡◌, inl, inr, refl, ap, ◌∙◌, some, ltb, ◌==◌, arith,
  Bool-cases,
}
use tp_so.Base.Maybe.{Returns, Returns-bind}
use tp_so.Ipc.Buffer.{null}
use tp_so.Kernel.Buddy.{
  MemNode, is_empty, BuddyMemoryManager, mem_node_size, end_recursive_call, free_rec,
}
use tp_so.Kernel.Buddy.Tree.{
  Part, free, used, halves, status_of, left_at, right_at, half_of, Stands, release_at, rejoin,
}
use tp_so.Kernel.Buddy.Frame.{
  is_empty-eq, Same, Stands-Same, end-eq, end-off, end-Stands, update_at, update_off,
}
use tp_so.Kernel.Buddy.Call.{half-depth}
use tp_so.Kernel.Buddy.Freed.{
  Freed, settle, untouched, give-back, free_node-free, free_node-other, free_node-here,
  free_node-left, free_node-right,
}

-- Within a call on the part at `a`, which began in `m0`: the node's halves stand for `l` and `r`.
record Between (m0 m : BuddyMemoryManager) (a s : ℕ) (l r : Part) : Type 0 where
  size : (m.nodes a).size ≡ s
  to_left : (m.nodes a).left ≡ left_at a
  to_right : (m.nodes a).right ≡ right_at a s
  stands_left : Stands m.nodes (left_at a) (half_of s) l
  stands_right : Stands m.nodes (right_at a s) (half_of s) r
  before : (c : ℕ) → c < a → m.nodes c ≡ m0.nodes c
  after : (c : ℕ) → left_at a + s ≤ c → m.nodes c ≡ m0.nodes c
  same_root : m.root ≡ m0.root

module _ (m0 : BuddyMemoryManager) (a s : ℕ) (above : 0 < a) (wide : 2 * mem_node_size ≤ s) where
  settle-Freed :
      (m : BuddyMemoryManager) (l r : Part)
      → Between m0 m a s l r
      → Freed m0 a s (rejoin l r) (settle m a)
  unfolding Stands
  settle-Freed m l r h =
      let off = end-off m a s l r h.size h.to_left h.to_right wide h.stands_left h.stands_right in
      let m2 = end_recursive_call m a in
      let st = end-Stands m a s l r h.size h.to_left h.to_right wide h.stands_left h.stands_right in
      let same =
        (end-eq m a s l r h.size h.to_left h.to_right wide h.stands_left h.stands_right).1
        ∙ h.same_root in
      elim (Bool-cases (is_empty (status_of (halves l r)))) [
        | inl e ↦
            let at = update_at m2.nodes a (record (m2.nodes a) { right = null; left = null }) in
            let here = ap is_empty st.0.1 ∙ e in
            rw (e, here)
              (record {
                stands = rw at (st.0.0, st.0.1 ∙ is_empty-eq _ e, refl, refl);
                before = λ c i.
                    update_off m2.nodes a c _ (omega arith) ∙ off c (omega arith) ∙ h.before c i;
                after = λ c i.
                    update_off m2.nodes a c _ (omega arith) ∙ off c (omega arith) ∙ h.after c i;
                same_root = same;
              })
        | inr e ↦
            let here = ap is_empty st.0.1 ∙ e in
            rw (e, here)
              (record {
                stands = st;
                before = λ c i. off c (omega arith) ∙ h.before c i;
                after = λ c i. off c (omega arith) ∙ h.after c i;
                same_root = same;
              })
      ]

  -- What the call on a half leaves.
  after-left :
      (m : BuddyMemoryManager) (l r t : Part) (out : BuddyMemoryManager)
      → Between m0 m a s l r
      → Freed m (left_at a) (half_of s) t out
      → Between m0 out a s t r
  after-left m l r t out h k =
      let same : Same m.nodes out.nodes (right_at a s) (left_at (right_at a s) + half_of s) =
        λ c i j. k.after c (omega arith) in
      let here = k.before a (omega arith) in
      record {
        size = ap (λ (n : MemNode). n.size) here ∙ h.size;
        to_left = ap (λ (n : MemNode). n.left) here ∙ h.to_left;
        to_right = ap (λ (n : MemNode). n.right) here ∙ h.to_right;
        stands_left = k.stands;
        stands_right = Stands-Same m.nodes _ (right_at a s) (half_of s) r same h.stands_right;
        before = λ c i. k.before c (omega arith) ∙ h.before c i;
        after = λ c i. k.after c (omega arith) ∙ h.after c i;
        same_root = k.same_root ∙ h.same_root;
      }

  after-right :
      (m : BuddyMemoryManager) (l r t : Part) (out : BuddyMemoryManager)
      → Between m0 m a s l r
      → Freed m (right_at a s) (half_of s) t out
      → Between m0 out a s l t
  after-right m l r t out h k =
      let same : Same m.nodes out.nodes (left_at a) (left_at (left_at a) + half_of s) =
        λ c i j. k.before c (omega arith) in
      let here = k.before a (omega arith) in
      record {
        size = ap (λ (n : MemNode). n.size) here ∙ h.size;
        to_left = ap (λ (n : MemNode). n.left) here ∙ h.to_left;
        to_right = ap (λ (n : MemNode). n.right) here ∙ h.to_right;
        stands_left = Stands-Same m.nodes _ (left_at a) (half_of s) l same h.stands_left;
        stands_right = k.stands;
        before = λ c i. k.before c (omega arith) ∙ h.before c i;
        after = λ c i. k.after c (omega arith) ∙ h.after c i;
        same_root = k.same_root ∙ h.same_root;
      }

between :
    (m : BuddyMemoryManager) (a s : ℕ) (l r : Part)
    → Stands m.nodes a s (halves l r)
    → Between m m a s l r
unfolding Stands
between m a s l r g = record {
  size = g.0.0;
  to_left = g.0.2;
  to_right = g.0.3;
  stands_left = g.2;
  stands_right = g.3;
  before = λ c h. refl;
  after = λ c h. refl;
  same_root = refl;
}

-- A call at most `suc d` deep does what `release_at` does on the tree.
pub free_rec-release :
    (d : ℕ) (m : BuddyMemoryManager) (a s : ℕ) (p : Part) (q : ℕ)
    → 0 < a
    → Stands m.nodes a s p
    → s < 2 ^ d
    → Returns (Freed m a s (release_at a s p q)) (free_rec (suc d) m a q)
unfolding free_rec release_at Stands
free_rec-release d m a s free q above g deep =
    rw (free_node-free (free_rec d) m a q above s g) (untouched m a s free g)
free_rec-release d m a s used q above g deep = elim (Bool-cases (a + mem_node_size == q)) [
  | inl e ↦ rw (free_node-here (free_rec d) m a q above s g e, e) (give-back m a s s g)
  | inr e ↦ rw (free_node-other (free_rec d) m a q above s g e, e) (untouched m a s used g)
]
free_rec-release zero m a s (halves l r) q above g deep = absurd (omega (arith, g.1))
free_rec-release (suc d) m a s (halves l r) q above g deep =
    let h = between m a s l r g in
    elim (Bool-cases (ltb q (right_at a s + mem_node_size))) [
      | inl e ↦
          rw
            (
              free_node-left (free_rec (suc d)) m a q above (left_at a) (right_at a s) g.0.2 g.0.3
                  (omega arith) e,
              e,
            )
            (Returns-bind _ _ (free_rec (suc d) m (left_at a) q) (λ m1. some (settle m1 a))
              (free_rec-release d m (left_at a) (half_of s) l q (omega arith) g.2
                (half-depth d s deep))
              (λ out k.
                settle-Freed m a s above g.1 out _ r (after-left m a s above g.1 m l r _ out h k)))
      | inr e ↦
          rw
            (
              free_node-right (free_rec (suc d)) m a q above (left_at a) (right_at a s) g.0.2 g.0.3
                  (omega arith) e,
              e,
            )
            (Returns-bind _ _ (free_rec (suc d) m (right_at a s) q) (λ m1. some (settle m1 a))
              (free_rec-release d m (right_at a s) (half_of s) r q (omega arith) g.3
                (half-depth d s deep))
              (λ out k.
                settle-Freed m a s above g.1 out l _ (after-right m a s above g.1 m l r _ out h k)))
    ]
