-- ===== src/Kernel/Memory/Heap.antt =====
-- A whole manager: `genericAllocMemory` from the head of the list on, and the size it asks for.
use tp_so.Base.{
  ℕ, zero, suc, ◌+◌, ◌-◌, ◌*◌, ◌/◌, ◌%◌, ◌^◌, ◌≤◌, ◌<◌, ◌≡◌, ap, sym, ◌∙◌, List, [], ◌∷◌, arith,
  true, ◌==◌, length, ◌⊎◌, inl, inr, Bool-cases,
}
use tp_so.Base.Maybe.{Returns, Returns-map}
use tp_so.Ipc.Buffer.{null}
use tp_so.Kernel.Memory.{
  MmNode, MemoryManager, node_size, walk_limit, blocks_to_allocate, generic_alloc_memory,
  init_memory,
}
use tp_so.Kernel.Memory.Blocks.{
  Block, block, extent, start, Represents, first_fit, extent-first_fit, first_fit-inside,
}
use tp_so.Kernel.Memory.Refine.{Refines, alloc_from-Refines, start-first_fit}

-- The list behind the root stands for blocks that lie within the memory of the manager.
pub record IsHeap (m : MemoryManager) (lo : ℕ) (bs : List Block) : Type 0 where
  pub root_before : m.head < lo
  pub root_next : (m.nodes m.head).next ≡ start lo bs
  pub stands_for : Represents m.nodes lo bs
  pub inside : extent bs ≤ m.total_memory

length-extent : (bs : List Block) → length bs * node_size ≤ extent bs
unfolding extent
length-extent [] = omega arith
length-extent (b ∷ bs) = omega (arith, length-extent bs)

quotient_bounds : (n size : ℕ) → 0 < size → ((n / size) * size ≤ n) × (n < (n / size) * size + size)
quotient_bounds n size p = grind arith

multiple : (k size : ℕ) → 0 < size → (k * size + size) % size ≡ 0
multiple k size p = grind arith

whole : (k size : ℕ) → 0 < size → (k * size) / size ≡ k
whole k size p = grind arith

positive : (size k memory : ℕ) → memory + node_size ≡ k * size → 0 < size
positive zero k memory e = absurd (grind arith)
positive (suc size) k memory e = omega arith

pub blocks_to_allocate-multiple :
    (size memory : ℕ)
    → 0 < size
    → 0 < memory
    → memory + node_size + size < 2 ^ 64
    → blocks_to_allocate size memory ≡ ((memory + node_size) / size) * size + size
unfolding blocks_to_allocate
blocks_to_allocate-multiple size memory p q h =
    let e : (32 + memory) % 2 ^ 64 ≡ memory + 32 = omega arith in
    let b = quotient_bounds (memory + node_size) size p in
    let small : 32 % size < 33 = grind arith in
    let f : (memory + 32 % size) % 2 ^ 64 ≡ memory + 32 % size = grind arith in
    rw (e, f) (ground arith)

-- Where the bytes asked for and the header fill `k` whole blocks exactly, `genericAllocMemory` asks for
-- `k + 1` of them: its test for that case never holds, since `%` binds before `+` (`0 < memory`, and no
-- overflow).
pub blocks_to_allocate-exact :
    (size k memory : ℕ)
    → 0 < memory
    → memory + node_size ≡ k * size
    → k * size + size < 2 ^ 64
    → blocks_to_allocate size memory ≡ k * size + size
blocks_to_allocate-exact size k memory q e h =
    let p : 0 < size = positive size k memory e in
    rw (blocks_to_allocate-multiple size memory p q (omega arith), e)
      (ap (λ t. t * size + size) (whole k size p))

-- The size that `genericAllocMemory` looks for is a whole number of blocks, is larger than the bytes asked
-- for and the header, and is at most one block larger, if something is asked for and nothing overflows.
pub blocks_to_allocate-bounds :
    (size memory : ℕ)
    → 0 < size
    → 0 < memory
    → memory + node_size + size < 2 ^ 64
    → (memory + node_size < blocks_to_allocate size memory)
      × (blocks_to_allocate size memory ≤ memory + node_size + size)
      × (blocks_to_allocate size memory % size ≡ 0)
blocks_to_allocate-bounds size memory p q h =
    let b = quotient_bounds (memory + node_size) size p in
    rw (blocks_to_allocate-multiple size memory p q h)
      (omega arith, omega arith, multiple ((memory + node_size) / size) size p)

module _ (m : MemoryManager) (lo size memory : ℕ) (bs : List Block) (heap : IsHeap m lo bs)
    (p : 0 < size) (q : 0 < memory) (small : memory + node_size + size < 2 ^ 64) where
  abbrev need : ℕ
  need = blocks_to_allocate size memory

  generic_alloc_memory-Refines : Returns (Refines m lo bs need) (generic_alloc_memory m size memory)
  unfolding generic_alloc_memory
  generic_alloc_memory-Refines =
      let fuel = length-extent bs in
      let i = heap.inside in
      let c = heap.root_before in
      let e = blocks_to_allocate-bounds size memory p q small in
      rw heap.root_next (
        alloc_from-Refines m (walk_limit m) need lo bs (omega arith) (omega arith) (omega arith)
          (omega arith) heap.stands_for)

  -- On a list of headers that stands for blocks inside the memory of the manager, `genericAllocMemory`
  -- returns, within the rounds that the memory has room for: the address that first fit finds, or NULL
  -- where no block fits; and the list afterwards stands for the blocks that first fit leaves, inside the
  -- memory. Something is asked for, and the size does not overflow 64 bits.
  pub generic_alloc_memory-first_fit :
      Returns
        (λ out.
          (out.0 ≡ (first_fit (blocks_to_allocate size memory) lo bs).0)
          × IsHeap out.1 lo (first_fit (blocks_to_allocate size memory) lo bs).1)
        (generic_alloc_memory m size memory)
  generic_alloc_memory-first_fit =
      let e = blocks_to_allocate-bounds size memory p q small in
      let low : node_size ≤ need = omega arith in
      Returns-map (Refines m lo bs need) _ (generic_alloc_memory m size memory)
        (λ out i. (
          i.0,
          record {
            root_before = omega (arith, heap.root_before, i.2);
            root_next =
                ap (λ (h : ℕ). (out.1.nodes h).next) i.2
                ∙ ap (λ (n : MmNode). n.next) (i.4 m.head heap.root_before)
                ∙ heap.root_next
                ∙ sym (start-first_fit need lo lo bs);
            stands_for = i.1;
            inside = rw (extent-first_fit need lo bs low, i.3) heap.inside;
          },
        ))
        generic_alloc_memory-Refines

-- After `initMemory` on a memory with room for two headers, whose size is a uint64_t, the list stands for
-- one free block of all that the headers leave.
pub init_memory-IsHeap :
    (m : MemoryManager) (init size : ℕ)
    → 2 * node_size ≤ size
    → size < 2 ^ 64
    → IsHeap (init_memory m init size) (init + node_size) (block (size - 2 * node_size) true ∷ [])
unfolding init_memory Represents extent
init_memory-IsHeap m init size p q = record {
  root_before = omega arith;
  root_next = ground arith;
  stands_for = ground arith;
  inside = omega arith;
}

-- On a list of headers that stands for blocks inside the memory of the manager, `genericAllocMemory`
-- returns NULL, or an address behind the first header from which the bytes asked for end inside the
-- blocks. Something is asked for, and the size does not overflow 64 bits.
pub generic_alloc_memory-inside :
    (m : MemoryManager) (lo size memory : ℕ) (bs : List Block)
    → IsHeap m lo bs
    → 0 < size
    → 0 < memory
    → memory + node_size + size < 2 ^ 64
    → Returns
        (λ out. (out.0 ≡ null) ⊎ ((lo + node_size ≤ out.0) × (out.0 + memory < lo + extent bs)))
        (generic_alloc_memory m size memory)
generic_alloc_memory-inside m lo size memory bs heap p q small =
    Returns-map _ _ (generic_alloc_memory m size memory) (λ out i. within out.0 i.0)
      (generic_alloc_memory-first_fit m lo size memory bs heap p q small)
  where
    within :
        (a : ℕ)
        → a ≡ (first_fit (blocks_to_allocate size memory) lo bs).0
        → (a ≡ null) ⊎ ((lo + node_size ≤ a) × (a + memory < lo + extent bs))
    within a e = elim (Bool-cases (a == null)) [
      | inl z ↦ inl (ground arith)
      | inr n ↦
          let b = blocks_to_allocate-bounds size memory p q small in
          let c = heap.root_before in
          let f =
            first_fit-inside (blocks_to_allocate size memory) lo bs (omega arith)
              (λ z. ground arith) in
          inr (omega arith, omega arith)
    ]
