-- ===== src/Tests/Creation.antt =====
-- Processes that are created.
use tp_so.Base.{ℕ, ◌+◌, ◌≡◌, refl, some, [], ◌∷◌, arith, elem, replicate}
use tp_so.Base.Maybe.{◌>>=◌, Returns}
use tp_so.Kernel.{Kernel, running}
use tp_so.Kernel.Queues.Levels.{one_at}
use tp_so.Kernel.Queues.Conserve.{count_queued}
use tp_so.Kernel.Create.{Boot, unused_id, sys_fork, create_init}
use tp_so.Kernel.Create.Fork.{sys_fork_enrolls}
use tp_so.Kernel.Create.First.{Started, create_init_starts}
use tp_so.Kernel.Scheduler.{scheduler}
use tp_so.Tests.Data.{machine, table}

-- No process has a child.
abbrev childless : Kernel
childless = record (machine running) {
  pcb = λ a. record (table running a) { childs_ids = replicate 32 0; memory_from_mm = 0x10000 };
}

-- Node 9 and the block at 0x20000 are for the child.
sys_fork_enrolls_example :
    Returns
      (λ out.
        (out.0 ≡ some (unused_id childless))
        × ((a : ℕ) → count_queued a out.1 ≡ count_queued a childless + one_at 9 a))
      (sys_fork childless 9 0x20000 0x13000)
unfolding elem
sys_fork_enrolls_example =
    sys_fork_enrolls childless 9 0x20000 0x13000 (λ e. omega arith) (λ e. omega arith)
      (λ e. omega arith) refl refl

abbrev boot : Boot
boot = record {
  init_memory = 0x10000;
  init_node = 10;
  idle_memory = 0x20000;
  idle_node = 11;
  init_stack = 0x13f00;
  idle_stack = 0x23f00;
  stdin_at = 20;
  stdout_at = 21;
  stderr_at = 22;
  crystal_speed = 24000000;
  tsc_numerator = 100;
  tsc_denominator = 2;
}

abbrev blank : Kernel
blank = record (machine running) { levels = [] ∷ [] ∷ [] ∷ [] ∷ [] ∷ [] ∷ []; blocked_list = [] }

create_init_starts_example :
    Returns (λ out. Started boot out.1) (create_init boot blank >>= λ k'. scheduler k' 0)
create_init_starts_example =
    create_init_starts boot blank 0 (record { no_levels = refl; no_blocked = refl })
      (λ e. omega arith) (λ e. omega arith) (λ e. omega arith) (λ e. omega arith)
