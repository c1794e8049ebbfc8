-- ===== src/Kernel/Buddy/Heap.antt =====
-- `genericAllocMemory` on a memory whose nodes stand for a tree.
use tp_so.Base.{
  ℕ, ◌+◌, ◌-◌, ◌^◌, ◌≤◌, ◌<◌, ◌≡◌, inl, inr, refl, ap, ◌∙◌, ◌&&◌, List, ltb, leb, arith, Bool-cases,
}
use tp_so.Base.Maybe.{Returns, Returns-map}
use tp_so.Ipc.Buffer.{null}
use tp_so.Kernel.Memory.{sub64}
use tp_so.Kernel.Buddy.{
  MemNode, empty, BuddyMemoryManager, mem_node_size, limit, block, alloc_rec, block_size_for,
  max_depth, generic_alloc_memory, init_memory,
}
use tp_so.Kernel.Buddy.Tree.{Part, free, left_at, Stands, Clean, allocate, blocks}
use tp_so.Kernel.Buddy.Frame.{Stands-size, update_at, update_off}
use tp_so.Kernel.Buddy.Call.{Allocated, Given}
use tp_so.Kernel.Buddy.Blocks.{Apart, blocks-Apart, Adds, nothing, allocate-Adds}
use tp_so.Kernel.Buddy.Total.{alloc_rec-allocate}
use tp_so.Kernel.Buddy.Sizes.{block_size_for-Between}

-- The nodes of the manager stand for the tree, and no pointer stands in what is free.
pub record Heap (m : BuddyMemoryManager) (t : Part) : Type 0 where
  pub stands : Stands m.nodes m.root (m.nodes m.root).size t
  pub clean : Clean m.nodes m.root (m.nodes m.root).size t
  pub above_null : 0 < m.root
  pub high : (m.nodes m.root).size < 2 ^ 64

-- The blocks that are in use.
abbrev pub heap_blocks : BuddyMemoryManager → Part → List (ℕ × ℕ)
heap_blocks m t = blocks m.root (m.nodes m.root).size t

-- What an allocation of `size` bytes does to the heap that stands for `t`.
pub record Granted (m : BuddyMemoryManager) (t : Part) (size : ℕ) (out : ℕ × BuddyMemoryManager)
    : Type 0 where
  pub part : Part
  pub heap : Heap out.1 part
  pub adds : Adds (block_size_for size) out.0 (heap_blocks m t) (heap_blocks out.1 part)
  pub enough : size ≤ block_size_for size
  pub apart : Apart m.root (left_at m.root + (m.nodes m.root).size) (heap_blocks out.1 part)
  pub before : (c : ℕ) → c < m.root → out.1.nodes c ≡ m.nodes c
  pub after : (c : ℕ) → limit m ≤ c → out.1.nodes c ≡ m.nodes c

module _ (m : BuddyMemoryManager) (t : Part) (h : Heap m t) where
  pub Given-whole : Given m m.root (m.nodes m.root).size t
  Given-whole = record {
    stands = h.stands;
    clean = h.clean;
    above_null = h.above_null;
    above_root = omega arith;
    below_limit = omega arith;
    high = h.high;
  }

  Allocated-Granted :
      (size : ℕ) (out : ℕ × BuddyMemoryManager)
      → size ≤ 2 ^ 31
      → Allocated m m.root
          (m.nodes m.root).size
          (allocate 64 (block_size_for size) m.root (m.nodes m.root).size t)
          out
      → Granted m t size out
  Allocated-Granted size out fits k =
      let s = (m.nodes m.root).size in
      let need = block_size_for size in
      let x = allocate 64 need m.root s t in
      let same : (out.1.nodes out.1.root).size ≡ s =
        rw k.same_root (Stands-size out.1.nodes m.root s x.1 k.stands) in
      record {
        part = x.1;
        heap = record {
          stands = rw (same, k.same_root) k.stands;
          clean = rw (same, k.same_root) k.clean;
          above_null = rw k.same_root h.above_null;
          high = rw same h.high;
        };
        adds = rw (k.returned, same, k.same_root) (allocate-Adds 64 need m.root s t);
        enough = (block_size_for-Between size fits).0;
        apart = rw (same, k.same_root) (blocks-Apart out.1.nodes m.root s x.1 k.stands);
        before = k.before;
        after = λ c i. k.after c (omega (arith, i));
      }

  unchanged : (size : ℕ) → size ≤ 2 ^ 31 → Granted m t size (null, m)
  unchanged size fits = record {
    part = t;
    heap = h;
    adds = nothing refl refl;
    enough = (block_size_for-Between size fits).0;
    apart = blocks-Apart m.nodes m.root (m.nodes m.root).size t h.stands;
    before = λ c i. refl;
    after = λ c i. refl;
  }

  -- A call of `genericAllocMemory` for at most 2^31 bytes on a heap returns and leaves a heap. Either it
  -- returns NULL and the blocks in use are what they were, or there is one block more, at the address
  -- that it returns: it has at least the bytes looked for, which are not less than those asked for, and
  -- less than twice as many. No block reaches into the header of another or out of the memory, and no
  -- node outside of the memory is changed.
  pub generic_alloc_memory-Granted :
      (size : ℕ) → size ≤ 2 ^ 31 → Returns (Granted m t size) (generic_alloc_memory m size)
  unfolding generic_alloc_memory
  generic_alloc_memory-Granted size fits =
      elim (Bool-cases (leb block size && ltb (m.nodes m.root).size size)) [
        | inl e ↦ rw e (unchanged size fits)
        | inr e ↦
            let need = block_size_for size in
            let large : mem_node_size ≤ need =
              omega (arith, (block_size_for-Between size fits).1) in
            let s = (m.nodes m.root).size in
            rw e (
              Returns-map _ _ (alloc_rec max_depth m m.root need)
                (λ out k. Allocated-Granted size out fits k)
                (alloc_rec-allocate 64 need m m.root s t large Given-whole h.high))
      ]

-- After `initMemory` of memory in which no pointer stands, all of it is free.
pub init_memory-Heap :
    (m : BuddyMemoryManager) (init size : ℕ)
    → 0 < init
    → mem_node_size ≤ size
    → size < 2 ^ 64
    → ((c : ℕ)
        → init + mem_node_size ≤ c
        → c + mem_node_size ≤ init + size
        → ((m.nodes c).left ≡ null) × ((m.nodes c).right ≡ null))
    → Heap (init_memory m init size) free
unfolding init_memory Stands Clean
init_memory-Heap m init size above low high zeroed =
    let n : MemNode = record {
      right = null;
      left = null;
      size = sub64 size mem_node_size;
      status = empty;
    } in
    let at = update_at m.nodes init n in
    let fits : sub64 size mem_node_size ≡ size - mem_node_size = omega arith in
    record {
      stands = rw at (refl, refl, refl, refl);
      clean = rw at (λ c i j.
          let q = update_off m.nodes init c n (omega arith) in
          let z = zeroed c (omega arith) (omega (arith, fits)) in
          (ap (λ (k : MemNode). k.left) q ∙ z.0, ap (λ (k : MemNode). k.right) q ∙ z.1));
      above_null = above;
      high = rw (at, fits) (omega arith);
    }
