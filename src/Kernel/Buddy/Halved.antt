-- ===== src/Kernel/Buddy/Halved.antt =====
-- The steps of a call of `genericAllocMemoryRec` on a node that is halved, between its recursive calls.
use tp_so.Base.{ℕ, ◌+◌, ◌*◌, ◌≤◌, ◌<◌, ◌≡◌, refl, sym, ap, ◌∙◌, arith, dec_lt}
use tp_so.Kernel.Buddy.{
  MemNode, BuddyMemoryManager, mem_node_size, limit, set_descendants, end_recursive_call,
}
use tp_so.Kernel.Buddy.Tree.{Part, free, halves, left_at, right_at, half_of, Stands, Clean}
use tp_so.Kernel.Buddy.Frame.{
  Same, Stands-size, Stands-Same, Clean-Same, end-eq, end-off, end-Stands, end-Clean,
}
use tp_so.Kernel.Buddy.Split.{set_descendants-Split}
use tp_so.Kernel.Buddy.Call.{Allocated, Given, limit-same}

-- Within a call on the part at `a`, which began in `m0`: the node's halves stand for `l` and `r`.
pub record Halved (m0 m : BuddyMemoryManager) (a s : ℕ) (l r : Part) : Type 0 where
  pub size : (m.nodes a).size ≡ s
  pub to_left : (m.nodes a).left ≡ left_at a
  pub to_right : (m.nodes a).right ≡ right_at a s
  pub stands_left : Stands m.nodes (left_at a) (half_of s) l
  pub stands_right : Stands m.nodes (right_at a s) (half_of s) r
  pub clean_left : Clean m.nodes (left_at a) (half_of s) l
  pub clean_right : Clean m.nodes (right_at a s) (half_of s) r
  pub before : (c : ℕ) → c < a → m.nodes c ≡ m0.nodes c
  pub after : (c : ℕ) → left_at a + s ≤ c → m.nodes c ≡ m0.nodes c
  pub same_root : m.root ≡ m0.root

module _ (m0 : BuddyMemoryManager) (a s : ℕ) (p0 : Part) (g : Given m0 a s p0)
    (wide : 2 * mem_node_size ≤ s) where
  limit-Halved : (m : BuddyMemoryManager) (l r : Part) → Halved m0 m a s l r → limit m ≡ limit m0
  limit-Halved m l r h = limit-same m0 m h.same_root (elim (dec_lt m0.root a) [
    | yes lt ↦ ap (λ (n : MemNode). n.size) (h.before m0.root lt)
    | no ge ↦
        let e : m0.root ≡ a = omega (arith, g.above_root, ge) in
        rw e (h.size ∙ sym (Stands-size m0.nodes a s p0 g.stands))
  ])

  pub Given-left_half :
      (m : BuddyMemoryManager) (l r : Part)
      → Halved m0 m a s l r
      → Given m (left_at a) (half_of s) l
  Given-left_half m l r h = record {
    stands = h.stands_left;
    clean = h.clean_left;
    above_null = omega arith;
    above_root = omega (arith, h.same_root, g.above_root);
    below_limit = omega (arith, limit-Halved m l r h, g.below_limit);
    high = omega (arith, g.high);
  }

  pub Given-right_half :
      (m : BuddyMemoryManager) (l r : Part)
      → Halved m0 m a s l r
      → Given m (right_at a s) (half_of s) r
  Given-right_half m l r h = record {
    stands = h.stands_right;
    clean = h.clean_right;
    above_null = omega arith;
    above_root = omega (arith, h.same_root, g.above_root);
    below_limit = omega (arith, limit-Halved m l r h, g.below_limit);
    high = omega (arith, g.high);
  }

  -- What a call on the left half leaves, and on the right one.
  pub after-left :
      (m : BuddyMemoryManager) (l r : Part) (x : ℕ × Part) (out : ℕ × BuddyMemoryManager)
      → Halved m0 m a s l r
      → Allocated m (left_at a) (half_of s) x out
      → Halved m0 out.1 a s x.1 r
  after-left m l r x out h k =
      let same : Same m.nodes out.1.nodes (right_at a s) (left_at (right_at a s) + half_of s) =
        λ c i j. k.after c (omega arith) in
      let here = k.before a (omega arith) in
      record {
        size = ap (λ (n : MemNode). n.size) here ∙ h.size;
        to_left = ap (λ (n : MemNode). n.left) here ∙ h.to_left;
        to_right = ap (λ (n : MemNode). n.right) here ∙ h.to_right;
        stands_left = k.stands;
        stands_right = Stands-Same m.nodes _ (right_at a s) (half_of s) r same h.stands_right;
        clean_left = k.clean;
        clean_right =
            Clean-Same m.nodes _ (right_at a s) (half_of s) r same h.stands_right h.clean_right;
        before = λ c i. k.before c (omega arith) ∙ h.before c i;
        after = λ c i. k.after c (omega arith) ∙ h.after c i;
        same_root = k.same_root ∙ h.same_root;
      }

  pub after-right :
      (m : BuddyMemoryManager) (l r : Part) (x : ℕ × Part) (out : ℕ × BuddyMemoryManager)
      → Halved m0 m a s l r
      → Allocated m (right_at a s) (half_of s) x out
      → Halved m0 out.1 a s l x.1
  after-right m l r x out h k =
      let same : Same m.nodes out.1.nodes (left_at a) (left_at (left_at a) + half_of s) =
        λ c i j. k.before c (omega arith) in
      let here = k.before a (omega arith) in
      record {
        size = ap (λ (n : MemNode). n.size) here ∙ h.size;
        to_left = ap (λ (n : MemNode). n.left) here ∙ h.to_left;
        to_right = ap (λ (n : MemNode). n.right) here ∙ h.to_right;
        stands_left = Stands-Same m.nodes _ (left_at a) (half_of s) l same h.stands_left;
        stands_right = k.stands;
        clean_left = Clean-Same m.nodes _ (left_at a) (half_of s) l same h.stands_left h.clean_left;
        clean_right = k.clean;
        before = λ c i. k.before c (omega arith) ∙ h.before c i;
        after = λ c i. k.after c (omega arith) ∙ h.after c i;
        same_root = k.same_root ∙ h.same_root;
      }

  -- `endRecursiveCall` at the end of the call.
  pub finish :
      (v : ℕ) (m : BuddyMemoryManager) (l r : Part)
      → Halved m0 m a s l r
      → Allocated m0 a s (v, halves l r) (v, end_recursive_call m a)
  finish v m l r h =
      let off = end-off m a s l r h.size h.to_left h.to_right wide h.stands_left h.stands_right in
      record {
        returned = refl;
        stands = end-Stands m a s l r h.size h.to_left h.to_right wide h.stands_left h.stands_right;
        clean =
            end-Clean m a s l r h.size h.to_left h.to_right wide h.stands_left h.stands_right
              h.clean_left h.clean_right;
        before = λ c i. off c (omega arith) ∙ h.before c i;
        after = λ c i. off c (omega arith) ∙ h.after c i;
        same_root =
            (end-eq m a s l r h.size h.to_left h.to_right wide h.stands_left h.stands_right).1
            ∙ h.same_root;
      }

-- A node that is halved already, and one that the call halves.
pub start :
    (m : BuddyMemoryManager) (a s : ℕ) (l r : Part) → Given m a s (halves l r) → Halved m m a s l r
unfolding Stands Clean
start m a s l r g = record {
  size = g.stands.0.0;
  to_left = g.stands.0.2;
  to_right = g.stands.0.3;
  stands_left = g.stands.2;
  stands_right = g.stands.3;
  clean_left = g.clean.0;
  clean_right = g.clean.1;
  before = λ c h. refl;
  after = λ c h. refl;
  same_root = refl;
}

root-split : (m : BuddyMemoryManager) (a : ℕ) → (set_descendants m a).root ≡ m.root
unfolding set_descendants
root-split m a = ground arith

pub split :
    (m : BuddyMemoryManager) (a s : ℕ)
    → 2 * mem_node_size ≤ s
    → Given m a s free
    → Halved m (set_descendants m a) a s free free
unfolding Stands Clean
split m a s wide g =
    let h = set_descendants-Split m a s g.stands.0 wide g.high g.below_limit g.above_root in
    let l = g.clean (left_at a) (omega arith) (omega arith) in
    let r = g.clean (right_at a s) (omega arith) (omega arith) in
    record {
      size = ap (λ (n : MemNode). n.size) h.at_node ∙ g.stands.0;
      to_left = ap (λ (n : MemNode). n.left) h.at_node;
      to_right = ap (λ (n : MemNode). n.right) h.at_node;
      stands_left = rw h.at_left (refl, refl, l.0, l.1);
      stands_right = rw h.at_right (refl, refl, r.0, r.1);
      clean_left = λ c i j.
          rw (h.elsewhere c (omega arith) (omega arith) (omega arith))
            (g.clean c (omega arith) (omega arith));
      clean_right = λ c i j.
          rw (h.elsewhere c (omega arith) (omega arith) (omega arith))
            (g.clean c (omega arith) (omega arith));
      before = λ c i. h.elsewhere c (omega arith) (omega arith) (omega arith);
      after = λ c i. h.elsewhere c (omega arith) (omega arith) (omega arith);
      same_root = root-split m a;
    }
