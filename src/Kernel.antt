-- ===== src/Kernel.antt =====
-- The kernel's shared state: the process table and the queues of
-- Kernel/interruptRelated/scheduler.c, the timers of Kernel/ipcRelated/timer.c and the buffers of
-- Kernel/ipcRelated/bufferManagement.c. Each file's functions are a child module.
--
-- A pointer is an address, 0 for NULL. A node and its `pcbEntry` go by one address. The kernel runs
-- with low memory mapped, so a read through NULL returns what stands there: `pcb 0`, `buffers 0`.
-- A queue is the list of the addresses that are reached from its head through `next`, which says
-- all there is to know of the chains while no node stands in two of them.
pub mod Buddy
pub mod Bytes
pub mod Video
pub mod Keyboard
pub mod Process
pub mod Queues
pub mod Frame
pub mod Timers
pub mod Pipes
pub mod Exit
pub mod Alloc
pub mod Memory
pub mod Create
pub mod Syscalls
pub mod Reach
pub mod Strings
pub mod Semaphores
pub mod Scheduler
use tp_so.Base.{ℕ, List, ◌∷◌, ◌==◌, if◌then◌else◌}
use tp_so.Base.Int.{ℤ}
use tp_so.Ipc.Buffer.{Buffer}

pub data ProcessState : Type 0 where
  ready running blocked yielded exited : ProcessState

-- `ProcessControlBlockCDT`
pub record Pcb : Type 0 where
  pub id : ℕ
  pub foreground : ℕ
  pub state : ProcessState
  pub manual_blocked : ℕ
  pub priority : ℕ
  pub quantums : ℤ
  pub aging_interval : ℕ
  pub counter_init : ℕ
  pub parent_id : ℕ
  pub childs_ids : List ℕ
  pub stack : ℕ
  pub base_stack : ℕ
  pub stack_size : ℕ
  pub memory_from_mm : ℕ
  pub first_alloc : ℕ
  pub pd_table : List ℕ

-- `ProcessAllocations`, the header of a block that a process has allocated
pub record ProcessAllocation : Type 0 where
  pub allocation : ℕ
  pub next : ℕ

-- `Timer`, at address `block`
pub record Timer : Type 0 where
  pub block : ℕ
  pub end_interval : ℕ
  pub sleeping_process : ℕ
  pub pid : ℕ

-- A call of one of the memory manager's `free` functions, with its argument.
pub data Release : Type 0 where
  memory pcb_block buffer_block timer_block : ℕ → Release

-- `levels` are the queues `level0Queue` to `level5Queue`; with `blocked_list` they make up
-- `multipleQueues`. `tsc` are the readings of the time stamp counter, of which `tsc_reads` were
-- taken. `released` are the blocks given back to the memory manager, the latest first.
pub record Kernel : Type 0 where
  pub pcb : ℕ → Pcb
  pub levels : List (List ℕ)
  pub blocked_list : List ℕ
  pub current : ℕ
  pub idle : ℕ
  pub foreground : ℕ
  pub tsc_frequency : ℕ
  pub tsc : ℕ → ℕ
  pub tsc_reads : ℕ
  pub timers : List Timer
  pub buffers : ℕ → Buffer
  pub allocs : ℕ → ProcessAllocation
  pub released : List Release

abbrev pub update {ℓ} : {A : Type ℓ} → (ℕ → A) → ℕ → A → ℕ → A
update f a v b = if a == b then v else f b

abbrev pub set_pcb : Kernel → ℕ → Pcb → Kernel
set_pcb k a p = record k { pcb = update k.pcb a p }

abbrev pub set_buffer : Kernel → ℕ → Buffer → Kernel
set_buffer k a b = record k { buffers = update k.buffers a b }

abbrev pub release : Kernel → Release → Kernel
release k r = record k { released = r ∷ k.released }
