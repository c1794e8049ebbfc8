-- ===== src/Tests/Buddy.antt =====
-- Runs of the memory manager that halves, from 64 KB on.
use tp_so.Base.{◌≤◌, ◌≡◌, refl, arith}
use tp_so.Base.Maybe.{Returns, ◌>>=◌}
use tp_so.Ipc.Buffer.{null}
use tp_so.Kernel.Buddy.{
  BuddyMemoryManager, empty, init_memory, generic_alloc_memory, free_memory_at, block_size_for,
  align,
}
use tp_so.Kernel.Buddy.Tree.{Part, free, Stands}
use tp_so.Kernel.Buddy.Heap.{
  Heap, heap_blocks, Granted, init_memory-Heap, generic_alloc_memory-Granted,
}
use tp_so.Kernel.Buddy.Release.{
  Released, free_memory_at-Released, generic_alloc_memory-free_memory_at,
}
use tp_so.Kernel.Buddy.Waste.{generic_alloc_memory-wasted}

abbrev blank : BuddyMemoryManager
blank = record {
  root = 0;
  mem_allocated = 0;
  total_size = 0;
  free_memory = 0;
  nodes = λ a. record { right = null; left = null; size = 0; status = empty };
}

abbrev start : BuddyMemoryManager
start = init_memory blank 0x10000 0x10000

start-Heap : Heap start free
start-Heap =
    init_memory-Heap blank 0x10000 0x10000 (omega arith) (omega arith) (omega arith)
      (λ c i j. (refl, refl))

align_5000 : block_size_for 5000 ≡ 8192
unfolding block_size_for align
align_5000 = refl

start-size : (start.nodes start.root).size ≡ 0xFFE0
unfolding init_memory
start-size = refl

generic_alloc_memory-Granted_example :
    Returns (Granted start free 5000) (generic_alloc_memory start 5000)
generic_alloc_memory-Granted_example =
    generic_alloc_memory-Granted start free start-Heap 5000 (omega arith)

free_memory_at-Released_example :
    Returns (Released start free 0x10020) (free_memory_at start 0x10020)
free_memory_at-Released_example =
    free_memory_at-Released start free 0x10020 start-Heap.stands start-Heap.above_null
      start-Heap.high

generic_alloc_memory-free_memory_at_example :
    Returns
      (λ m2.
        (t2 : Part) × Stands m2.nodes m2.root (m2.nodes m2.root).size t2
        × (heap_blocks m2 t2 ≡ heap_blocks start free))
      (generic_alloc_memory start 5000 >>= λ out. free_memory_at out.1 out.0)
generic_alloc_memory-free_memory_at_example =
    generic_alloc_memory-free_memory_at start free 5000 start-Heap (omega arith)

-- 8240 bytes, for a request of one page.
abbrev small : BuddyMemoryManager
small = init_memory blank 0x10000 8272

small-Heap : Heap small free
small-Heap =
    init_memory-Heap blank 0x10000 8272 (omega arith) (omega arith) (omega arith)
      (λ c i j. (refl, refl))

generic_alloc_memory-wasted_example :
    Returns
      (λ out. (out.0 ≡ null) × (100 ≤ (small.nodes small.root).size))
      (generic_alloc_memory small 100)
unfolding init_memory block_size_for align
generic_alloc_memory-wasted_example =
    generic_alloc_memory-wasted small 100 small-Heap (omega arith) (omega arith) (omega arith)
