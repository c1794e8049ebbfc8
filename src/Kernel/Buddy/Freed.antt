-- ===== src/Kernel/Buddy/Freed.antt =====
-- The branches of a call of `genericFreeRec`, and what a call leaves.
use tp_so.Base.{
  ℕ, ◌+◌, ◌*◌, ◌≤◌, ◌<◌, ◌≡◌, refl, true, false, Option, some, ltb, ◌==◌, if◌then◌else◌, arith,
}
use tp_so.Base.Maybe.{◌>>=◌}
use tp_so.Ipc.Buffer.{null}
use tp_so.Kernel.Buddy.{
  empty, full, is_empty, BuddyMemoryManager, mem_node_size, put_node, set_status, count_freed,
  end_recursive_call, free_node,
}
use tp_so.Kernel.Buddy.Tree.{Part, free, used, left_at, Node, Stands}

-- What a call on a part of `s` bytes at `a` leaves, where `t` is what the call on the tree returns.
pub record Freed (m : BuddyMemoryManager) (a s : ℕ) (t : Part) (out : BuddyMemoryManager)
    : Type 0 where
  pub stands : Stands out.nodes a s t
  pub before : (c : ℕ) → c < a → out.nodes c ≡ m.nodes c
  pub after : (c : ℕ) → left_at a + s ≤ c → out.nodes c ≡ m.nodes c
  pub same_root : out.root ≡ m.root

-- The end of a call on a node with halves: its status is set, and if it is empty its pointers are cleared.
abbrev pub settle : BuddyMemoryManager → ℕ → BuddyMemoryManager
settle m1 a =
    let m2 = end_recursive_call m1 a in
    if is_empty (m2.nodes a).status
    then count_freed (put_node m2 a (record (m2.nodes a) { right = null; left = null }))
        (2 * mem_node_size)
    else m2

pub untouched :
    (m : BuddyMemoryManager) (a s : ℕ) (p : Part) → Stands m.nodes a s p → Freed m a s p m
untouched m a s p g = record {
  stands = g;
  before = λ c h. refl;
  after = λ c h. refl;
  same_root = refl;
}

pub give-back :
    (m : BuddyMemoryManager) (a s n : ℕ)
    → Stands m.nodes a s used
    → Freed m a s free (count_freed (set_status m a empty) n)
unfolding Stands
give-back m a s n g = record {
  stands = ground (arith, g);
  before = λ c h. ground arith;
  after = λ c h. ground arith;
  same_root = refl;
}

-- The branches of a call.
module _ (again : BuddyMemoryManager → ℕ → ℕ → Option BuddyMemoryManager) (m : BuddyMemoryManager)
    (a q : ℕ) (real : 0 < a) where
  pub free_node-free : (s : ℕ) → Node (m.nodes a) s empty null null → free_node again m a q ≡ some m
  unfolding free_node
  free_node-free s n = ground arith

  pub free_node-other :
      (s : ℕ)
      → Node (m.nodes a) s full null null
      → (a + mem_node_size == q) ≡ false
      → free_node again m a q ≡ some m
  unfolding free_node
  free_node-other s n e = ground arith

  pub free_node-here :
      (s : ℕ)
      → Node (m.nodes a) s full null null
      → (a + mem_node_size == q) ≡ true
      → free_node again m a q ≡ some (count_freed (set_status m a empty) s)
  unfolding free_node
  free_node-here s n e = ground arith

  pub free_node-left :
      (l r : ℕ)
      → (m.nodes a).left ≡ l
      → (m.nodes a).right ≡ r
      → 0 < r
      → ltb q (r + mem_node_size) ≡ true
      → free_node again m a q ≡ (again m l q >>= λ m1. some (settle m1 a))
  unfolding free_node
  free_node-left l r el er above h = ground arith

  pub free_node-right :
      (l r : ℕ)
      → (m.nodes a).left ≡ l
      → (m.nodes a).right ≡ r
      → 0 < r
      → ltb q (r + mem_node_size) ≡ false
      → free_node again m a q ≡ (again m r q >>= λ m1. some (settle m1 a))
  unfolding free_node
  free_node-right l r el er above h = ground arith
