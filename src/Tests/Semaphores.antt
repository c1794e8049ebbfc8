-- ===== src/Tests/Semaphores.antt =====
-- Runs of sync.c and string.c.
use tp_so.Base.{◌≡◌, refl, [], ◌∷◌, ◌==◌, if◌then◌else◌, arith}
use tp_so.Base.Maybe.{Returns}
use tp_so.Kernel.Strings.{string_compare}
use tp_so.Kernel.Semaphores.{Semaphores, new_semaphore, sem_open}
use tp_so.Kernel.Semaphores.Lost.{sem_open_loses}

-- The semaphores "a" at 1 and "b" at 2.
abbrev two_open : Semaphores
two_open = record {
  head = 1;
  tail = 1;
  nodes = λ a.
      if a == 1
      then record (new_semaphore (97 ∷ []) 1) { next_node = 2 }
      else new_semaphore (98 ∷ []) 0;
}

sem_open_loses_example :
    Returns
      (λ s'. (s'.head ≡ 1) × ((s'.nodes 1).next_node ≡ 3) × ((s'.nodes 3).next_node ≡ 0))
      (sem_open 8 two_open (99 ∷ []) 1 3)
unfolding string_compare
sem_open_loses_example =
    sem_open_loses 7 two_open (99 ∷ []) 1 2 3
      (record {
        tail_stays = refl;
        head_there = λ e. omega arith;
        b_there = λ e. omega arith;
        linked = refl;
        ends = refl;
      })
      refl (λ e. omega arith)
