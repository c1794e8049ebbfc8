-- ===== src/Kernel/Buddy/Split.antt =====
-- `setDescendants` of a free part in whose bytes no pointer stands.
use tp_so.Base.{ℕ, ◌+◌, ◌*◌, ◌^◌, ◌≤◌, ◌<◌, ◌≡◌, ◌≢◌, arith}
use tp_so.Kernel.Buddy.{MemNode, empty, BuddyMemoryManager, mem_node_size, set_descendants, limit}
use tp_so.Kernel.Buddy.Tree.{left_at, right_at, half_of}

-- What `setDescendants` leaves in a node of `s` bytes at `a` that is split.
pub record Split (f : ℕ → MemNode) (g : ℕ → MemNode) (a s : ℕ) : Type 0 where
  pub at_node : g a ≡ record (f a) { left = left_at a; right = right_at a s }
  pub at_left : g (left_at a) ≡ record (f (left_at a)) { size = half_of s; status = empty }
  pub at_right : g (right_at a s) ≡ record (f (right_at a s)) { size = half_of s; status = empty }
  pub elsewhere : (c : ℕ) → c ≢ a → c ≢ left_at a → c ≢ right_at a s → g c ≡ f c

module _ (m : BuddyMemoryManager) (a s : ℕ) (size : (m.nodes a).size ≡ s)
    (wide : 2 * mem_node_size ≤ s) (high : s < 2 ^ 64) (below : left_at a + s ≤ limit m)
    (up : m.root ≤ a) where
  pub set_descendants-Split : Split m.nodes (set_descendants m a).nodes a s
  unfolding set_descendants
  set_descendants-Split = record {
    at_node = ground arith;
    at_left = ground arith;
    at_right = ground arith;
    elsewhere = λ c i j k. ground arith;
  }
