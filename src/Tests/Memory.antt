-- ===== src/Tests/Memory.antt =====
-- Runs of the memory manager, from 64 KB on.
use tp_so.Base.{
  ◌+◌, ◌%◌, ◌≤◌, ◌<◌, ◌≡◌, refl, ◌⊎◌, true, false, [], ◌∷◌, arith, if◌then◌else◌, ◌==◌,
}
use tp_so.Base.Maybe.{Returns}
use tp_so.Ipc.Buffer.{null}
use tp_so.Kernel.Memory.{
  MemoryManager, node_size, block_size, blocks_to_allocate, generic_alloc_memory,
  generic_free_memory, init_memory, take_node,
}
use tp_so.Kernel.Memory.Blocks.{block, extent, Represents, first_fit}
use tp_so.Kernel.Memory.Heap.{
  IsHeap, init_memory-IsHeap, generic_alloc_memory-first_fit, generic_alloc_memory-inside,
  blocks_to_allocate-bounds,
}
use tp_so.Kernel.Memory.Free.{absorb}
use tp_so.Kernel.Memory.Merge.{generic_free_memory-absorb, generic_free_memory-join}
use tp_so.Kernel.Memory.Stale.{take_node-stale, generic_free_memory-overlap}

abbrev unused : MemoryManager
unused = record {
  head = 0;
  free_memory = 0;
  used_memory = 0;
  total_memory = 0;
  nodes = λ a. record { next = 0; prev = 0; mem_size = 0; is_free = false };
}

init_memory-IsHeap_example :
    IsHeap (init_memory unused 0x10000 0x10000) 0x10020 (block 0xFFC0 true ∷ [])
init_memory-IsHeap_example = init_memory-IsHeap unused 0x10000 0x10000 (omega arith) (omega arith)

generic_alloc_memory-first_fit_example :
    Returns
      (λ out.
        (out.0 ≡ (first_fit (blocks_to_allocate block_size 100) 0x10020 (block 0xFFC0 true ∷ [])).0)
        × IsHeap out.1 0x10020
            (first_fit (blocks_to_allocate block_size 100) 0x10020 (block 0xFFC0 true ∷ [])).1)
      (generic_alloc_memory (init_memory unused 0x10000 0x10000) block_size 100)
generic_alloc_memory-first_fit_example =
    generic_alloc_memory-first_fit (init_memory unused 0x10000 0x10000) 0x10020 block_size 100
      (block 0xFFC0 true ∷ []) init_memory-IsHeap_example (omega arith) (omega arith) (omega arith)

generic_alloc_memory-inside_example :
    Returns
      (λ out.
        (out.0 ≡ null)
        ⊎ ((0x10020 + node_size ≤ out.0)
            × (out.0 + 100 < 0x10020 + extent (block 0xFFC0 true ∷ []))))
      (generic_alloc_memory (init_memory unused 0x10000 0x10000) block_size 100)
generic_alloc_memory-inside_example =
    generic_alloc_memory-inside (init_memory unused 0x10000 0x10000) 0x10020 block_size 100
      (block 0xFFC0 true ∷ []) init_memory-IsHeap_example (omega arith) (omega arith) (omega arith)

blocks_to_allocate-bounds_example :
    (100 + node_size < blocks_to_allocate block_size 100)
    × (blocks_to_allocate block_size 100 ≤ 100 + node_size + block_size)
    × (blocks_to_allocate block_size 100 % block_size ≡ 0)
blocks_to_allocate-bounds_example =
    blocks_to_allocate-bounds block_size 100 (omega arith) (omega arith) (omega arith)

-- Three blocks of 0x100 bytes from 0x1000 on, whose last is free.
abbrev three : MemoryManager
three = record unused {
  head = 0x900;
  nodes = λ a.
      if a == 0x1000
      then record { next = 0x1120; prev = 0x900; mem_size = 0x100; is_free = true }
      else if a == 0x1120
      then record { next = 0x1240; prev = 0x1000; mem_size = 0x100; is_free = false }
      else if a == 0x1240
      then record { next = 0; prev = 0x1120; mem_size = 0x100; is_free = true }
      else record { next = 0x1000; prev = 0; mem_size = 0; is_free = false };
}

three-Represents :
    Represents three.nodes 0x1000 (block 0x100 true ∷ block 0x100 false ∷ block 0x100 true ∷ [])
unfolding Represents
three-Represents = (refl, refl, refl, (refl, refl, refl, (refl, refl, refl, tt)))

generic_free_memory-join_example :
    Represents
      (generic_free_memory three (0x1120 + node_size)).nodes
      0x1000
      (absorb 0x100 (absorb 0x100 (block 0x100 true ∷ [])))
unfolding extent
generic_free_memory-join_example =
    generic_free_memory-join three 0x1000 0x1000 0x1120 0x100 [] (block 0x100 false)
      (block 0x100 true ∷ []) (omega arith) refl refl (omega arith) three-Represents refl

-- The same blocks with the first in use, whose last is freed.
abbrev ends : MemoryManager
ends = record unused {
  head = 0x900;
  nodes = λ a.
      if a == 0x1000
      then record { next = 0x1120; prev = 0x900; mem_size = 0x100; is_free = false }
      else if a == 0x1120
      then record { next = 0; prev = 0x1000; mem_size = 0x300; is_free = false }
      else record { next = 0x1000; prev = 0; mem_size = 0; is_free = false };
}

generic_free_memory-absorb_example :
    Represents
      (generic_free_memory ends (0x1000 + node_size)).nodes
      0x1000
      (absorb 0x100 (block 0x300 false ∷ []))
unfolding Represents extent
generic_free_memory-absorb_example =
    generic_free_memory-absorb ends 0x1000 0x1000 [] (block 0x100 false) (block 0x300 false ∷ [])
      (omega arith) refl (omega arith) (refl, refl, refl, (refl, refl, refl, tt)) (omega arith) refl

-- A free block of 0x700 bytes, and one in use whose `prev` names it.
abbrev wide : MemoryManager
wide = record unused {
  head = 0x900;
  nodes = λ a.
      if a == 0x1000
      then record { next = 0x1720; prev = 0x900; mem_size = 0x700; is_free = true }
      else record { next = 0; prev = 0x1000; mem_size = 0x100; is_free = false };
}

take_node-stale_example :
    let after = (take_node wide 0x1000 0x500).nodes in
    ((after 0x1500).next ≡ 0x1720) × ((after 0x1720).prev ≡ 0x1000)
unfolding Represents
take_node-stale_example =
    take_node-stale wide 0x1000 0x500 (block 0x700 true) (block 0x100 false) []
      (refl, refl, refl, (refl, refl, refl, tt)) (omega arith) (omega arith) refl

-- The last of three blocks has such a `prev`, and the first is free.
abbrev stale : MemoryManager
stale = record three {
  nodes = λ a.
      if a == 0x1240
      then record { next = 0; prev = 0x1000; mem_size = 0x100; is_free = false }
      else three.nodes a;
}

generic_free_memory-overlap_example :
    let after = (generic_free_memory stale (0x1240 + node_size)).nodes in
    ((after 0x1000).is_free ≡ true)
    × ((after 0x1000).mem_size ≡ 0x100 + 0x100 + node_size)
    × ((after 0x1000).next ≡ null)
    × ((after 0x1120).is_free ≡ false)
    × (0x1120 < 0x1000 + node_size + (after 0x1000).mem_size)
unfolding Represents extent
generic_free_memory-overlap_example =
    generic_free_memory-overlap stale 0x1000 0x100 (block 0x100 false) (block 0x100 false)
      (omega arith) (omega arith) (refl, refl, refl, (refl, refl, refl, (refl, refl, refl, tt)))
      refl refl
