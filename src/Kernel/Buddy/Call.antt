-- ===== src/Kernel/Buddy/Call.antt =====
-- What a call of `genericAllocMemoryRec` is given and what it leaves, and the calls that do not recurse.
use native.Mathlib.Numerals.{unary_clauses}
use tp_so.Base.{ℕ, suc, ◌+◌, ◌*◌, ◌^◌, ◌≤◌, ◌<◌, ◌≡◌, refl, arith}
use tp_so.Ipc.Buffer.{null}
use tp_so.Kernel.Buddy.{full, BuddyMemoryManager, mem_node_size, limit, set_status, count_taken}
use tp_so.Kernel.Buddy.Tree.{Part, free, used, left_at, half_of, Stands, Clean}

-- What a call on a part of `s` bytes at `a` leaves, where `x` is what the call on the tree returns.
pub record Allocated (m : BuddyMemoryManager) (a s : ℕ) (x : ℕ × Part)
    (out : ℕ × BuddyMemoryManager) : Type 0 where
  pub returned : out.0 ≡ x.0
  pub stands : Stands out.1.nodes a s x.1
  pub clean : Clean out.1.nodes a s x.1
  pub before : (c : ℕ) → c < a → out.1.nodes c ≡ m.nodes c
  pub after : (c : ℕ) → left_at a + s ≤ c → out.1.nodes c ≡ m.nodes c
  pub same_root : out.1.root ≡ m.root

-- What the call is given.
pub record Given (m : BuddyMemoryManager) (a s : ℕ) (p : Part) : Type 0 where
  pub stands : Stands m.nodes a s p
  pub clean : Clean m.nodes a s p
  pub above_null : 0 < a
  pub above_root : m.root ≤ a
  pub below_limit : left_at a + s ≤ limit m
  pub high : s < 2 ^ 64

pub half-depth : (d s : ℕ) → s < 2 ^ suc d → half_of s < 2 ^ d
half-depth d s h = let two : 2 ^ suc d ≡ 2 * 2 ^ d = simp unary_clauses (omega arith) in omega arith

-- The root's size stays, so the end of the memory does.
pub limit-same :
    (m m1 : BuddyMemoryManager)
    → m1.root ≡ m.root
    → (m1.nodes m.root).size ≡ (m.nodes m.root).size
    → limit m1 ≡ limit m
limit-same m m1 e h = rw e (rw h refl)

-- A node that is used, or free and too small or not to be halved.
pub alone :
    (m : BuddyMemoryManager) (a s : ℕ) (p : Part)
    → Given m a s p
    → Allocated m a s (null, p) (null, m)
alone m a s p g = record {
  returned = refl;
  stands = g.stands;
  clean = g.clean;
  before = λ c h. refl;
  after = λ c h. refl;
  same_root = refl;
}

pub take-here :
    (m : BuddyMemoryManager) (a s n : ℕ)
    → Given m a s free
    → Allocated m a s
        (a + mem_node_size, used)
        (a + mem_node_size, count_taken (set_status m a full) n)
unfolding Stands Clean
take-here m a s n g = record {
  returned = refl;
  stands = ground (arith, g.stands);
  clean = tt;
  before = λ c h. ground arith;
  after = λ c h. ground arith;
  same_root = refl;
}
