-- ===== src/Kernel/Syscalls/Memory.antt =====
-- The handlers that hand a call on to the functions for memory, processes and semaphores.
use tp_so.Base.{ℕ, Bool, Option, none, some, if◌then◌else◌, length}
use tp_so.Kernel.{Kernel}
use tp_so.Kernel.Alloc.{sys_malloc, sys_free, sys_realloc}
use tp_so.Kernel.Create.{sys_fork, sys_execve, sys_ps}
use tp_so.Kernel.Pipes.Open.{open_pipe}
use tp_so.Kernel.Syscalls.{Reply, done, fault, error}

abbrev pub reply_kernel : Option Kernel → Reply
reply_kernel none = fault
reply_kernel (some k) = done 0 k

abbrev pub reply_value : Option (ℕ × Kernel) → Reply
reply_value none = fault
reply_value (some (n, k)) = done n k

pub arq_sys_malloc : Kernel → ℕ → Reply
arq_sys_malloc k block = reply_value (sys_malloc k k.current block)

pub arq_sys_free : Kernel → ℕ → Reply
arq_sys_free k ptr = reply_kernel (sys_free k k.current ptr)

pub arq_sys_realloc : Kernel → ℕ → ℕ → Reply
arq_sys_realloc k ptr moved = reply_value (sys_realloc k k.current ptr moved)

abbrev pub reply_pid : Option (Option ℕ × Kernel) → Reply
reply_pid none = fault
reply_pid (some (none, k)) = done error k
reply_pid (some (some pid, k)) = done pid k

pub arq_sys_fork : Kernel → ℕ → ℕ → ℕ → Reply
arq_sys_fork k node block rsp = reply_pid (sys_fork k node block rsp)

pub arq_sys_execve : Kernel → Bool → Reply
arq_sys_execve k set_up = let (k', ran) = sys_execve k set_up in done (if ran then 1 else error) k'

-- The number of processes that `sysPs` stores.
pub arq_sys_ps : Kernel → Reply
arq_sys_ps k = done (length (sys_ps k)) k

pub arq_sys_pipe : (ℕ → ℕ) → Kernel → Reply
arq_sys_pipe blocks k =
    let (opened, fds, k') = open_pipe blocks k k.current in done (if opened then 0 else error) k'
