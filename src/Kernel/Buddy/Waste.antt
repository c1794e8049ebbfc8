-- ===== src/Kernel/Buddy/Waste.antt =====
-- A request that half of a free memory is large enough for, but not without its header.
use tp_so.Base.{
  ℕ, suc, ◌+◌, ◌*◌, ◌/◌, ◌^◌, ◌≤◌, ◌<◌, ◌≡◌, refl, false, ◌&&◌, ltb, leb, arith, ◌∙◌, lt→ltb,
}
use tp_so.Base.Maybe.{Returns, Returns-map}
use tp_so.Ipc.Buffer.{null}
use tp_so.Kernel.Buddy.{
  BuddyMemoryManager, mem_node_size, block, block_size_for, alloc_rec, max_depth,
  generic_alloc_memory,
}
use tp_so.Kernel.Buddy.Tree.{free, half_of, allocate}
use tp_so.Kernel.Buddy.Frame.{le→ltb, le→leb}
use tp_so.Kernel.Buddy.Total.{alloc_rec-allocate}
use tp_so.Kernel.Buddy.Sizes.{block_size_for-Between}
use tp_so.Kernel.Buddy.Heap.{Heap, Given-whole}

allocate-wasted :
    (d need a s : ℕ)
    → 0 < need
    → 2 * need ≤ s
    → s < 2 * need + 2 * mem_node_size
    → (allocate (suc (suc d)) need a s free).0 ≡ null
unfolding allocate
allocate-wasted d need a s some_need low high =
    rw
      (
        le→ltb s need (omega arith),
        le→leb need (s / 2) (omega arith),
        lt→ltb (half_of s) need (omega arith),
      )
      refl

-- For at most 2^31 bytes, on a heap that is all free and has at least twice the bytes that are looked
-- for, but less than that and two headers, `genericAllocMemory` returns NULL, although the memory has
-- at least the bytes asked for.
pub generic_alloc_memory-wasted :
    (m : BuddyMemoryManager) (size : ℕ)
    → Heap m free
    → size ≤ 2 ^ 31
    → 2 * block_size_for size ≤ (m.nodes m.root).size
    → (m.nodes m.root).size < 2 * block_size_for size + 2 * mem_node_size
    → Returns (λ out. (out.0 ≡ null) × (size ≤ (m.nodes m.root).size)) (generic_alloc_memory m size)
unfolding generic_alloc_memory
generic_alloc_memory-wasted m size h fits low high =
    let need = block_size_for size in
    let s = (m.nodes m.root).size in
    let b = block_size_for-Between size fits in
    let e : (leb block size && ltb s size) ≡ false = ground (arith, b.0, low) in
    rw e (
      Returns-map _ _ (alloc_rec max_depth m m.root need)
        (λ out k. (
          k.returned ∙ allocate-wasted 62 need m.root s (omega (arith, b.1)) low high,
          omega (arith, b.0, low),
        ))
        (alloc_rec-allocate 64 need m m.root s free (omega (arith, b.1)) (Given-whole m free h)
          h.high))
