-- ===== src/Kernel/Buddy.antt =====
-- Kernel/memoryManagement/buddyMemoryManager.c: a memory that is halved again and again. A node stands
-- at the start of its part of the memory, the bytes that a caller gets behind it, or its two halves.
-- `nodes` is what stands in memory where a node is read.
pub mod Tree
pub mod Frame
pub mod Split
pub mod Call
pub mod Halved
pub mod Refine
pub mod Blocks
pub mod Total
pub mod Sizes
pub mod Waste
pub mod Release
pub mod Freed
pub mod Free
pub mod Heap
use Prim.Native.Nat.{bit_and, bit_or}
use tp_so.Base.{
  ℕ, zero, suc, ◌+◌, ◌-◌, ◌*◌, ◌/◌, ◌%◌, ◌^◌, Bool, true, false, not, ◌&&◌, ◌||◌, Option, none,
  some, ltb, leb, ◌==◌, if◌then◌else◌, min,
}
use tp_so.Base.Maybe.{◌>>=◌}
use tp_so.Ipc.Buffer.{null}
use tp_so.Kernel.{update}
use tp_so.Kernel.Memory.{sub64, add64}

-- `MemoryStatus`
pub data MemoryStatus : Type 0 where
  empty partial full : MemoryStatus

-- `MemNode`, and `sizeof(MemNode)`
pub record MemNode : Type 0 where
  pub right : ℕ
  pub left : ℕ
  pub size : ℕ
  pub status : MemoryStatus

abbrev pub mem_node_size : ℕ
mem_node_size = 32

-- `BLOCK`
abbrev pub block : ℕ
block = 0x1000

-- `BuddyMemoryManager`
pub record BuddyMemoryManager : Type 0 where
  pub root : ℕ
  pub mem_allocated : ℕ
  pub total_size : ℕ
  pub free_memory : ℕ
  pub nodes : ℕ → MemNode

abbrev pub is_full : MemoryStatus → Bool
is_full full = true
is_full _ = false

abbrev pub is_partial : MemoryStatus → Bool
is_partial partial = true
is_partial _ = false

abbrev pub is_empty : MemoryStatus → Bool
is_empty empty = true
is_empty _ = false

abbrev pub put_node : BuddyMemoryManager → ℕ → MemNode → BuddyMemoryManager
put_node m a n = record m { nodes = update m.nodes a n }

-- `memAllocated += n; freeMemory -= n`, and the other way round.
abbrev pub count_taken : BuddyMemoryManager → ℕ → BuddyMemoryManager
count_taken m n = record m {
  mem_allocated = add64 m.mem_allocated n;
  free_memory = sub64 m.free_memory n;
}

abbrev pub count_freed : BuddyMemoryManager → ℕ → BuddyMemoryManager
count_freed m n = record m {
  mem_allocated = sub64 m.mem_allocated n;
  free_memory = add64 m.free_memory n;
}

-- `initMemory`; the counters are not set.
unfoldable pub init_memory : BuddyMemoryManager → ℕ → ℕ → BuddyMemoryManager
init_memory m init size =
    put_node (record m { root = init }) init
      (record { right = null; left = null; size = sub64 size mem_node_size; status = empty })

-- The end of the memory, as `setDescendants` computes it.
abbrev pub limit : BuddyMemoryManager → ℕ
limit m = m.root + (m.nodes m.root).size + mem_node_size

-- A half of `setDescendants`: its size and status are set, what else stands there is left.
abbrev pub set_half : BuddyMemoryManager → ℕ → ℕ → BuddyMemoryManager
set_half m a size =
    count_taken (put_node m a (record (m.nodes a) { size = size; status = empty })) mem_node_size

-- `setDescendants`
pub set_descendants : BuddyMemoryManager → ℕ → BuddyMemoryManager
set_descendants m a =
    let half = (m.nodes a).size / 2 in
    let m1 = put_node m a (record (m.nodes a) { left = a + mem_node_size }) in
    let m2 = set_half m1 (a + mem_node_size) (sub64 half mem_node_size) in
    let m3 = put_node m2 a (record (m2.nodes a) { right = a + half + mem_node_size }) in
    let m4 = set_half m3 (a + half + mem_node_size) (sub64 half mem_node_size) in
    if leb (limit m1) (a + mem_node_size)
    then m1
    else if leb (limit m1) (a + half + mem_node_size)
    then m3
    else m4

-- `hasDescendants`, true where a half is missing.
abbrev pub has_descendants : MemNode → Bool
has_descendants n = n.left == null || n.right == null

abbrev pub set_status : BuddyMemoryManager → ℕ → MemoryStatus → BuddyMemoryManager
set_status m a s = put_node m a (record (m.nodes a) { status = s })

-- `endRecursiveCall`
pub end_recursive_call : BuddyMemoryManager → ℕ → BuddyMemoryManager
end_recursive_call m a =
    let n = m.nodes a in
    let l = (m.nodes n.left).status in
    let r = (m.nodes n.right).status in
    if has_descendants n
    then count_freed (set_status m a empty) n.size
    else if is_full l && is_full r
    then set_status m a full
    else if is_full l || is_full r || is_partial l || is_partial r
    then set_status m a partial
    else count_freed (set_status m a empty) n.size

-- A call of `genericAllocMemoryRec`; its recursive calls are an argument.
pub alloc_node :
    (BuddyMemoryManager → ℕ → ℕ → Option (ℕ × BuddyMemoryManager))
    → BuddyMemoryManager
    → ℕ
    → ℕ
    → Option (ℕ × BuddyMemoryManager)
alloc_node again m a size =
    let n = m.nodes a in
    let split = set_descendants m a in
    if a == null || is_full n.status
    then some (null, m)
    else if not (n.left == null) || not (n.right == null)
    then (again m n.left size >>= λ l.
        (if l.0 == null then again l.1 (l.1.nodes a).right size else some l) >>= λ out.
        some (out.0, end_recursive_call out.1 a))
    else if ltb n.size size
    then some (null, m)
    else if leb size (n.size / 2)
    then (again split (split.nodes a).left size >>= λ out. some (out.0, end_recursive_call out.1 a))
    else some (a + mem_node_size, count_taken (set_status m a full) (n.size + mem_node_size))

-- `genericAllocMemoryRec`, `depth` calls deep at most.
pub alloc_rec : ℕ → BuddyMemoryManager → ℕ → ℕ → Option (ℕ × BuddyMemoryManager)
alloc_rec zero m a size = none
alloc_rec (suc depth) m a size = alloc_node (alloc_rec depth) m a size

-- `align`: all bits below the highest one are set, for 32 bits.
abbrev pub or_shifted : ℕ → ℕ → ℕ
or_shifted size k = bit_or size (size / 2 ^ k)

unfoldable pub align : ℕ → ℕ
align size =
    add64 (or_shifted (or_shifted (or_shifted (or_shifted (or_shifted size 1) 2) 4) 8) 16) 1

-- `IS_POWER_OF_2`
abbrev pub is_power_of_2 : ℕ → Bool
is_power_of_2 x = bit_and x (sub64 x 1) == 0

abbrev pub max_depth : ℕ
max_depth = 65

-- The size that `genericAllocMemory` looks for, which `genericAllocMemoryRec` takes as an unsigned int.
unfoldable pub block_size_for : ℕ → ℕ
block_size_for size =
    let least = (if ltb size block then block else size) in
    (if is_power_of_2 least then least else align least) % 2 ^ 32

-- `genericAllocMemory`
pub generic_alloc_memory : BuddyMemoryManager → ℕ → Option (ℕ × BuddyMemoryManager)
generic_alloc_memory m size =
    if leb block size && ltb (m.nodes m.root).size size
    then some (null, m)
    else alloc_rec max_depth m m.root (block_size_for size)

-- A call of `genericFreeRec`.
pub free_node :
    (BuddyMemoryManager → ℕ → ℕ → Option BuddyMemoryManager)
    → BuddyMemoryManager
    → ℕ
    → ℕ
    → Option BuddyMemoryManager
free_node again m a memory_to_free =
    let n = m.nodes a in
    let to_left = not (n.right == null) && ltb memory_to_free (n.right + mem_node_size) in
    if a == null
    then some m
    else if not (n.left == null) || not (n.right == null)
    then (again m (if to_left then n.left else n.right) memory_to_free >>= λ m1.
        let m2 = end_recursive_call m1 a in
        some (
          if is_empty (m2.nodes a).status
          then count_freed (put_node m2 a (record (m2.nodes a) { right = null; left = null }))
              (2 * mem_node_size)
          else m2))
    else if is_full n.status && a + mem_node_size == memory_to_free
    then some (count_freed (set_status m a empty) n.size)
    else some m

-- `genericFreeRec`, `depth` calls deep at most.
pub free_rec : ℕ → BuddyMemoryManager → ℕ → ℕ → Option BuddyMemoryManager
free_rec zero m a memory_to_free = none
free_rec (suc depth) m a memory_to_free = free_node (free_rec depth) m a memory_to_free

-- `freeMemory` and the functions that free an object; `allocMemory` and those that allocate one are
-- `generic_alloc_memory` with their size.
pub free_memory_at : BuddyMemoryManager → ℕ → Option BuddyMemoryManager
free_memory_at m memory_to_free = free_rec max_depth m m.root memory_to_free

-- `reAllocMemory`; the block it moves is not freed. The contents are left out.
pub re_alloc_memory : BuddyMemoryManager → ℕ → ℕ → Option (ℕ × BuddyMemoryManager)
re_alloc_memory m memory_to_realloc new_size =
    if leb new_size (m.nodes (sub64 memory_to_realloc mem_node_size)).size
    then some (memory_to_realloc, m)
    else generic_alloc_memory m new_size
