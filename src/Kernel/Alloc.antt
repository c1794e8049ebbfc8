-- ===== src/Kernel/Alloc.antt =====
-- The memory that processes allocate: `sysMalloc`, `sysRealloc` and `sysFree` of
-- Kernel/interruptRelated/scheduler.c. A block starts with a header, `ProcessAllocations`, that
-- links it to the next block of its process. The block that the memory manager returns, NULL if it
-- has none, is an argument.
pub mod Free
use tp_so.Base.{ℕ, zero, suc, ◌+◌, Option, none, some, ◌==◌, if◌then◌else◌}
use tp_so.Base.Maybe.{◌>>=◌}
use tp_so.Ipc.Buffer.{null}
use tp_so.Kernel.{Kernel, ProcessAllocation, update, set_pcb, release, memory}
use tp_so.Kernel.Exit.{chain_limit}

-- `sizeof(ProcessAllocations)`: two pointers
abbrev pub header_size : ℕ
header_size = 16

abbrev pub set_alloc : Kernel → ℕ → ProcessAllocation → Kernel
set_alloc k a h = record k { allocs = update k.allocs a h }

-- The last block of a chain that starts at `a`; `none` is a chain that does not end.
pub last_block : ℕ → ℕ → Kernel → Option ℕ
last_block zero a k = if (k.allocs a).next == null then some a else none
last_block (suc n) a k =
    let rest = last_block n (k.allocs a).next k in
    if (k.allocs a).next == null then some a else rest

pub append_block : Kernel → ℕ → ℕ → Option Kernel
append_block k a block =
    let first = (k.pcb a).first_alloc in
    if first == null
    then some (set_pcb k a (record (k.pcb a) { first_alloc = block }))
    else (last_block chain_limit first k >>= λ l.
        some (set_alloc k l (record (k.allocs l) { next = block })))

-- `sysMalloc`, for process `a`
pub sys_malloc : Kernel → ℕ → ℕ → Option (ℕ × Kernel)
sys_malloc k a block =
    let k1 = set_alloc k block (record { allocation = block + header_size; next = null }) in
    if block == null
    then some (null, k)
    else (append_block k1 a block >>= λ k2. some (block + header_size, k2))

-- The search of `sysFree` and `sysRealloc`: the block with the address, NULL if there is none, and
-- the one before it, NULL if it is the first.
pub find_block : ℕ → ℕ → ℕ → ℕ → Kernel → Option (ℕ × ℕ)
find_block zero ptr prev a k =
    if a == null
    then some (prev, null)
    else if (k.allocs a).allocation == ptr
    then some (prev, a)
    else none
find_block (suc n) ptr prev a k =
    let rest = find_block n ptr a (k.allocs a).next k in
    if a == null
    then some (prev, null)
    else if (k.allocs a).allocation == ptr
    then some (prev, a)
    else rest

pub sys_free : Kernel → ℕ → ℕ → Option Kernel
sys_free k a ptr = do
  found ← find_block chain_limit ptr null (k.pcb a).first_alloc k
  let (prev, block) = found
  let k1 =
      (if prev == null
        then k
        else set_alloc k prev (record (k.allocs prev) { next = (k.allocs block).next }))
  some (if block == null then k else release k1 (memory block))

-- `sysRealloc` on what `reAllocMemory` returned for the block. A failure links the block before past
-- it, through NULL if it is the first.
pub sys_realloc : Kernel → ℕ → ℕ → ℕ → Option (ℕ × Kernel)
sys_realloc k a ptr moved = do
  found ← find_block chain_limit ptr null (k.pcb a).first_alloc k
  let (prev, block) = found
  let next = (k.allocs block).next
  let failed = set_alloc k prev (record (k.allocs prev) { next = next })
  let k1 = set_alloc k moved (record (k.allocs moved) { next = next })
  let k2 =
      (if prev == null then k1 else set_alloc k1 prev (record (k1.allocs prev) { next = moved }))
  let k3 = set_alloc k2 moved (record (k2.allocs moved) { allocation = moved + header_size })
  some (
      if block == null
      then (null, k)
      else if moved == null
      then (null, failed)
      else (moved + header_size, k3))
