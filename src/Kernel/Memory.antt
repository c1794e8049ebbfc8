-- ===== src/Kernel/Memory.antt =====
-- Kernel/memoryManagement/freeListMemoryManager.c: blocks of memory with headers, linked in the order
-- of their addresses. A header stands at an address, and the block that a caller gets begins behind
-- it. Each of the two managers has its own headers. Numbers are uint64_t.
pub mod Blocks
pub mod Alloc
pub mod Refine
pub mod Heap
pub mod Free
pub mod Merge
pub mod Stale
use tp_so.Base.{
  ℕ, zero, suc, ◌+◌, ◌-◌, ◌*◌, ◌/◌, ◌%◌, ◌^◌, Bool, true, false, not, ◌&&◌, Option, none, some, ltb,
  leb, ◌==◌, if◌then◌else◌,
}
use tp_so.Base.Maybe.{◌>>=◌}
use tp_so.Ipc.Buffer.{null}
use tp_so.Kernel.{update}

-- `MMNode`
pub record MmNode : Type 0 where
  pub next : ℕ
  pub prev : ℕ
  pub mem_size : ℕ
  pub is_free : Bool

-- `MemoryManager_t`, with the headers that its list is made of
pub record MemoryManager : Type 0 where
  pub head : ℕ
  pub free_memory : ℕ
  pub used_memory : ℕ
  pub total_memory : ℕ
  pub nodes : ℕ → MmNode

-- `sizeof(MMNode)`
abbrev pub node_size : ℕ
node_size = 32

-- `BLOCK_SIZE`
abbrev pub block_size : ℕ
block_size = 0x500

abbrev pub set_node : MemoryManager → ℕ → MmNode → MemoryManager
set_node m a n = record m { nodes = update m.nodes a n }

abbrev pub sub64 : ℕ → ℕ → ℕ
sub64 a b = (a + 2 ^ 64 - b) % 2 ^ 64

abbrev pub add64 : ℕ → ℕ → ℕ
add64 a b = (a + b) % 2 ^ 64

-- `initMemory`: a node of size 0 that is never free, and the whole memory behind it.
pub init_memory : MemoryManager → ℕ → ℕ → MemoryManager
init_memory m init size =
    let root : MmNode = record {
      next = init + node_size;
      prev = null;
      mem_size = 0;
      is_free = false;
    } in
    let whole : MmNode = record {
      next = null;
      prev = init;
      mem_size = sub64 size (2 * node_size);
      is_free = true;
    } in
    record m {
      head = init;
      free_memory = size;
      used_memory = 0;
      total_memory = size;
      nodes = update (update m.nodes init root) (init + node_size) whole;
    }

-- `blocksToAllocate`, as the operators bind: `%` before `+` before `==`.
pub blocks_to_allocate : ℕ → ℕ → ℕ
blocks_to_allocate size memory =
    let whole = add64 node_size memory in
    if add64 memory (node_size % size) == 0 then whole else ((whole / size) * size + size) % 2 ^ 64

-- The body of the loop at a node that fits: it is split if it is larger than needed, and taken.
pub split_node : MemoryManager → ℕ → ℕ → MemoryManager
split_node m a need =
    let c = m.nodes a in
    let m1 =
      set_node m (a + need)
        (record { next = c.next; prev = a; mem_size = c.mem_size - need; is_free = true }) in
    set_node m1 a (record (m1.nodes a) { next = a + need; mem_size = sub64 need node_size })

pub take_node : MemoryManager → ℕ → ℕ → MemoryManager
take_node m a need =
    let m1 = (if ltb need (m.nodes a).mem_size then split_node m a need else m) in
    let size = (m1.nodes a).mem_size in
    record (set_node m1 a (record (m1.nodes a) { is_free = false })) {
      free_memory = sub64 m1.free_memory size;
      used_memory = add64 m1.used_memory size;
    }

-- The loop of `genericAllocMemory` from node `a` on, `limit` nodes at most; `none` is a longer list.
pub alloc_from : ℕ → MemoryManager → ℕ → ℕ → Option (ℕ × MemoryManager)
alloc_from zero m a need = if a == null then some (null, m) else none
alloc_from (suc limit) m a need =
    let rest = alloc_from limit m (m.nodes a).next need in
    if a == null
    then some (null, m)
    else if (m.nodes a).is_free && leb need (m.nodes a).mem_size
    then some (a + node_size, take_node m a need)
    else rest

-- A list has no more nodes than headers fit into the memory.
abbrev pub walk_limit : MemoryManager → ℕ
walk_limit m = m.total_memory / node_size

pub generic_alloc_memory : MemoryManager → ℕ → ℕ → Option (ℕ × MemoryManager)
generic_alloc_memory m size memory =
    alloc_from (walk_limit m) m (m.nodes m.head).next (blocks_to_allocate size memory)

-- The two merges of `genericFreeMemory`, at node `a`.
pub merge_next : MemoryManager → ℕ → MemoryManager
merge_next m a =
    let c = m.nodes a in
    let n = m.nodes c.next in
    if not (c.next == null) && n.is_free
    then set_node m a
        (record c { mem_size = add64 c.mem_size (add64 n.mem_size node_size); next = n.next })
    else m

pub merge_prev : MemoryManager → ℕ → MemoryManager
merge_prev m a =
    let c = m.nodes a in
    let p = m.nodes c.prev in
    if not (c.prev == null) && p.is_free
    then set_node m c.prev
        (record p { mem_size = add64 p.mem_size (add64 c.mem_size node_size); next = c.next })
    else m

-- `genericFreeMemory`
pub mark_free : MemoryManager → ℕ → MemoryManager
mark_free m a =
    let size = (m.nodes a).mem_size in
    record (set_node m a (record (m.nodes a) { is_free = true })) {
      free_memory = add64 m.free_memory size;
      used_memory = sub64 m.used_memory size;
    }

pub generic_free_memory : MemoryManager → ℕ → MemoryManager
generic_free_memory m memory_to_free =
    let a = sub64 memory_to_free node_size in merge_prev (merge_next (mark_free m a) a) a

-- `allocMemory`, `freeMemory`, `getFreeMemoryAmount`, `getUsedMemoryAmount`
pub alloc_memory : MemoryManager → ℕ → Option (ℕ × MemoryManager)
alloc_memory m memory = generic_alloc_memory m block_size memory

pub free_memory_at : MemoryManager → ℕ → MemoryManager
free_memory_at m memory_to_free = generic_free_memory m memory_to_free

abbrev pub get_free_memory_amount : MemoryManager → ℕ
get_free_memory_amount m = m.free_memory

abbrev pub get_used_memory_amount : MemoryManager → ℕ
get_used_memory_amount m = m.used_memory

-- `allocPCB`, `allocSemaphore`, `allocBuffer`, `allocTimer`, with the size of the object; and the
-- functions that free one.
pub alloc_object : MemoryManager → ℕ → Option (ℕ × MemoryManager)
alloc_object m size = generic_alloc_memory m (node_size + size) size

pub free_object : MemoryManager → ℕ → MemoryManager
free_object m object_to_free = generic_free_memory m object_to_free

-- What `reAllocMemory` does: the address it returns, and how many bytes it copies there.
pub record Moved : Type 0 where
  pub address : ℕ
  pub copied : ℕ
  pub manager : MemoryManager

-- `reAllocMemory`. The copy is of the size of the new block.
pub re_alloc_memory : MemoryManager → ℕ → ℕ → Option Moved
re_alloc_memory m memory_to_realloc new_size =
    if leb new_size (m.nodes (sub64 memory_to_realloc node_size)).mem_size
    then some (record { address = memory_to_realloc; copied = 0; manager = m })
    else (alloc_memory m new_size >>= λ out. some (record {
      address = out.0;
      copied = if out.0 == null then 0 else (out.1.nodes (sub64 out.0 node_size)).mem_size;
      manager = free_memory_at out.1 memory_to_realloc;
    }))
