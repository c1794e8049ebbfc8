-- ===== src/Kernel/Syscalls/Synch.antt =====
-- The handlers for semaphores. Each returns a value and the list of semaphores.
use tp_so.Base.{ℕ, Option, some, List, if◌then◌else◌}
use tp_so.Base.Maybe.{◌>>=◌}
use tp_so.Kernel.Semaphores.{Semaphores, SemNode, sem_open, sem_close, sem_apply}
use tp_so.Kernel.Syscalls.{error}

pub arq_sys_sem_open : ℕ → Semaphores → List ℕ → ℕ → ℕ → Option (ℕ × Semaphores)
arq_sys_sem_open limit s sem_id value block =
    sem_open limit s sem_id value block >>= λ s'. some (0, s')

pub arq_sys_sem_wait : (SemNode → SemNode) → ℕ → Semaphores → List ℕ → Option (ℕ × Semaphores)
arq_sys_sem_wait lock limit s sem_id =
    sem_apply lock limit s sem_id >>= λ out. some (if out.0 then 0 else error, out.1)

pub arq_sys_sem_post : (SemNode → SemNode) → ℕ → Semaphores → List ℕ → Option (ℕ × Semaphores)
arq_sys_sem_post unlock limit s sem_id =
    sem_apply unlock limit s sem_id >>= λ out. some (if out.0 then 0 else error, out.1)

-- `semClose` returns 1 or -1.
pub arq_sys_sem_close : ℕ → Semaphores → List ℕ → Option (ℕ × Semaphores)
arq_sys_sem_close limit s sem_id =
    sem_close limit s sem_id >>= λ out. some (if out.0 then 1 else error, out.2)
