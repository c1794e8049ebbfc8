-- ===== src/Kernel/Create.antt =====
-- How processes come about, and their listing: `createInit`, `unusedID`, `sysFork`, `sysExecve` and
-- `sysPs` of Kernel/interruptRelated/scheduler.c. Addresses that the memory manager returns and what
-- assembly routines return are arguments.
pub mod Fresh
pub mod Fork
pub mod First
use tp_so.Base.{
  ℕ, zero, suc, ◌+◌, ◌-◌, ◌*◌, ◌/◌, ◌%◌, ◌^◌, Bool, true, false, Option, none, some, List, [], ◌∷◌,
  ltb, ◌==◌, if◌then◌else◌, get_or, set, replicate,
}
use tp_so.Base.Int.{pos}
use tp_so.Base.Maybe.{◌>>=◌}
use tp_so.Ipc.Buffer.{
  null, pd_size, stdin, stdout, stderr, read, write, get_reference_by_index, set_reference_by_index,
  init_standard_buffer,
}
use tp_so.Kernel.{Kernel, Pcb, ready, set_pcb, set_buffer, release, pcb_block}
use tp_so.Kernel.Process.{init_id, idle_id, queued}
use tp_so.Kernel.Queues.{insert_in_queue}

-- The larger of the identifiers so far and those of a list of nodes.
unfoldable pub max_id : (ℕ → Pcb) → ℕ → List ℕ → ℕ
max_id pcb m [] = m
max_id pcb m (a ∷ q) = max_id pcb (if ltb m (pcb a).id then (pcb a).id else m) q

-- `unusedID`, called while a process runs. Identifiers are uint32_t.
pub unused_id : Kernel → ℕ
unused_id k =
    let next = (max_id k.pcb (k.pcb k.current).id (queued k) + 1) % 2 ^ 32 in
    if next == 2 then 3 else next

-- The inner loop of `sysFork` over the slots of a buffer: the first free one refers to the process.
pub refer : ℕ → ℕ → Kernel → ℕ → ℕ → Kernel
refer zero j k b a = k
refer (suc n) j k b a =
    let rest = refer n (j + 1) k b a in
    if get_reference_by_index (k.buffers b) j == null
    then set_buffer k b (set_reference_by_index (k.buffers b) a j).0
    else rest

-- The loop over the table of descriptors, for the child's references.
pub refer_all : List ℕ → Kernel → ℕ → Kernel
refer_all [] k a = k
refer_all (b ∷ bs) k a = refer_all bs (if b == null then k else refer pd_size 0 k b a) a

-- The child's identifier in the first free entry; `none` is a store outside the array.
pub add_child : ℕ → List ℕ → Option (List ℕ)
add_child pid [] = none
add_child pid (c ∷ cs) =
    let rest = add_child pid cs >>= λ cs'. some (c ∷ cs') in
    if c == 0 then some (pid ∷ cs) else rest

-- The child's block when its fields are copied, before the identifiers are set. `block` is the
-- memory for its stack and `rsp` the stack pointer of the parent. `childsIds` stays what it was.
pub child_of : Pcb → Pcb → ℕ → ℕ → Pcb
child_of parent old block rsp = record old {
  foreground = parent.foreground;
  state = parent.state;
  manual_blocked = parent.manual_blocked;
  priority = parent.priority;
  quantums = parent.quantums;
  aging_interval = parent.aging_interval;
  counter_init = parent.counter_init;
  stack = (block + ((rsp + 2 ^ 64 - parent.memory_from_mm) + 2 ^ 64 - 8)) % 2 ^ 64;
  base_stack = (block + (parent.base_stack + 2 ^ 64 - parent.memory_from_mm)) % 2 ^ 64;
  stack_size = parent.stack_size;
  memory_from_mm = block;
  first_alloc = parent.first_alloc;
}

-- `sysFork` from `unusedID` on, with the child's block filled in.
pub enroll : Kernel → ℕ → Option (ℕ × Kernel)
enroll k node = do
  let pid = unused_id k
  let k1 = set_pcb k node (record (k.pcb node) { id = pid; parent_id = (k.pcb k.current).id })
  childs ← add_child pid (k1.pcb k1.current).childs_ids
  let k2 = set_pcb k1 k1.current (record (k1.pcb k1.current) { childs_ids = childs })
  some (pid, insert_in_queue k2 node)

-- `sysFork`: `node` and `block` are what `allocPCB` and `allocMemory` returned. A result of `none` in
-- the pair is an error (-1).
pub sys_fork : Kernel → ℕ → ℕ → ℕ → Option (Option ℕ × Kernel)
sys_fork k node block rsp =
    let k1 = set_pcb k node (child_of (k.pcb k.current) (k.pcb node) block rsp) in
    let table = (k.pcb k.current).pd_table in
    let k2 = refer_all table k1 node in
    let k3 = set_pcb k2 node (record (k2.pcb node) { pd_table = table }) in
    if node == null
    then some (none, k)
    else if block == null
    then some (none, release k (pcb_block node))
    else (enroll k3 node >>= λ out. some (some out.0, out.1))

-- `sysExecve`, where `_setProcess` has set up the stack or failed.
pub sys_execve : Kernel → Bool → Kernel × Bool
sys_execve k set_up =
    if set_up
    then (
      set_pcb k k.current (record (k.pcb k.current) {
        counter_init = 0;
        aging_interval = 0;
        priority = 0;
        quantums = pos 1;
      }),
      true,
    )
    else (k, false)

-- `ProcessData` of ps.h
pub record ProcessData : Type 0 where
  pub id : ℕ
  pub stack : ℕ
  pub base_stack : ℕ
  pub foreground : ℕ
  pub priority : ℕ

pub data_of : Pcb → ProcessData
data_of p = record {
  id = p.id;
  stack = p.stack;
  base_stack = p.base_stack;
  foreground = p.foreground;
  priority = p.priority;
}

pub data_of_all : (ℕ → Pcb) → List ℕ → List ProcessData
data_of_all pcb [] = []
data_of_all pcb (a ∷ q) = data_of (pcb a) ∷ data_of_all pcb q

-- What `sysPs` stores in its array, whose length it returns.
pub sys_ps : Kernel → List ProcessData
sys_ps k = data_of (k.pcb k.current) ∷ data_of_all k.pcb (queued k)

-- `DEFAULT_PROCESS_STACK_SIZE`, `MEMORY_ALIGN`
abbrev pub stack_size_default : ℕ
stack_size_default = 0x4000

abbrev pub memory_align : ℕ
memory_align = 8

-- What `createInit` gets from elsewhere: blocks from the memory manager, the addresses of the
-- standard buffers, and the results of its assembly routines.
pub record Boot : Type 0 where
  pub init_memory : ℕ
  pub init_node : ℕ
  pub idle_memory : ℕ
  pub idle_node : ℕ
  pub init_stack : ℕ
  pub idle_stack : ℕ
  pub stdin_at : ℕ
  pub stdout_at : ℕ
  pub stderr_at : ℕ
  pub crystal_speed : ℕ
  pub tsc_numerator : ℕ
  pub tsc_denominator : ℕ

-- The aligned top of a stack in the block at `memory`.
pub stack_top : ℕ → ℕ
stack_top memory = let top = memory + stack_size_default in top - top % memory_align

-- `initStandardBuffers` on the three of them.
pub init_standard_buffers : Boot → Kernel → Kernel
init_standard_buffers o k =
    let k1 = set_buffer k o.stdin_at (init_standard_buffer stdin read (k.buffers o.stdin_at)) in
    let k2 =
      set_buffer k1 o.stdout_at (init_standard_buffer stdout write (k1.buffers o.stdout_at)) in
    set_buffer k2 o.stderr_at (init_standard_buffer stderr write (k2.buffers o.stderr_at))

-- The process refers to the buffer through descriptor `i`.
pub refer_at : ℕ → ℕ → ℕ → Kernel → Kernel
refer_at b a i k = set_buffer k b (set_reference_by_index (k.buffers b) a i).0

pub init_pcb : Boot → Pcb → Pcb
init_pcb o old = record old {
  first_alloc = null;
  pd_table = o.stdin_at ∷ o.stdout_at ∷ o.stderr_at ∷ replicate 29 null;
  childs_ids = replicate pd_size 0;
  parent_id = 0;
  stack_size = stack_top o.init_memory - o.init_memory;
  base_stack = stack_top o.init_memory;
  stack = o.init_stack;
  memory_from_mm = o.init_memory;
  id = init_id;
  foreground = 1;
  state = ready;
  counter_init = 0;
  aging_interval = 0;
  quantums = pos 1;
  priority = 0;
}

pub idle_pcb : Boot → Pcb → Pcb
idle_pcb o old = record old {
  first_alloc = null;
  stack_size = stack_top o.idle_memory - o.idle_memory;
  base_stack = stack_top o.idle_memory;
  stack = o.idle_stack;
  memory_from_mm = o.idle_memory;
  id = idle_id;
  foreground = 1;
  state = ready;
  counter_init = 0;
  aging_interval = 0;
  quantums = pos 1;
}

-- `createInit`; `none` is a division by zero.
pub create_init : Boot → Kernel → Option Kernel
create_init o k =
    let k1 = init_standard_buffers o k in
    let k2 = refer_at o.stdin_at o.init_node 0 k1 in
    let k3 = refer_at o.stdout_at o.init_node 1 k2 in
    let k4 = refer_at o.stderr_at o.init_node 2 k3 in
    let k5 = set_pcb k4 o.init_node (init_pcb o (k4.pcb o.init_node)) in
    let k6 = set_pcb k5 o.idle_node (idle_pcb o (k5.pcb o.idle_node)) in
    let frequency = ((o.crystal_speed * o.tsc_numerator) % 2 ^ 64) / o.tsc_denominator in
    if o.tsc_denominator == 0
    then none
    else some (record k6 {
      levels = set k6.levels 0 (o.init_node ∷ []);
      foreground = o.init_node;
      idle = o.idle_node;
      current = null;
      tsc_frequency = frequency;
    })
