-- ===== src/Kernel/Syscalls/Table.antt =====
-- The table of system calls: `setSyscalls` and `syscallsDispatcher` of
-- Kernel/interruptRelated/syscallsDispatcher.c.
use tp_so.Base.{
  ℕ, zero, suc, List, [], ◌∷◌, Option, none, some, ltb, if◌then◌else◌, length, ◌<◌, ◌≡◌, refl,
  arith,
}
use tp_so.Base.Maybe.{Returns}
use tp_so.Kernel.Syscalls.{error}

-- The handlers, by their names without `arqSys`.
pub data Syscall : Type 0 where
  read_call write_call clear_call beep_call sleep_call clock_call screen_height_call
        screen_width_call get_ptr_to_pixel_call game_read_call draw_line_call get_pen_x_call
        get_pen_y_call change_font_size_call memory_dump_call get_registers_info_call block_call
        kill_call execve_call fork_call idle_call ps_call priority_call change_state_call wait_call
        exit_call sem_open_call sem_post_call sem_wait_call sem_close_call pipe_call close_pd_call
        malloc_call free_call realloc_call set_to_foreground_call set_to_background_call dup_call
        yield_call unblock_call get_pid_call get_free_memory_call get_used_memory_call :
      Syscall

-- `TOTAL_SYSCALLS`
abbrev pub total_syscalls : ℕ
total_syscalls = 43

pub syscalls : List Syscall
syscalls =
    read_call ∷ write_call ∷ clear_call ∷ beep_call ∷ sleep_call ∷ clock_call ∷ screen_height_call
    ∷ screen_width_call ∷ get_ptr_to_pixel_call ∷ game_read_call ∷ draw_line_call ∷ get_pen_x_call
    ∷ get_pen_y_call ∷ change_font_size_call ∷ memory_dump_call ∷ get_registers_info_call
    ∷ block_call ∷ kill_call ∷ execve_call ∷ fork_call ∷ idle_call ∷ ps_call ∷ priority_call
    ∷ change_state_call ∷ wait_call ∷ exit_call ∷ sem_open_call ∷ sem_post_call ∷ sem_wait_call
    ∷ sem_close_call ∷ pipe_call ∷ close_pd_call ∷ malloc_call ∷ free_call ∷ realloc_call
    ∷ set_to_foreground_call ∷ set_to_background_call ∷ dup_call ∷ yield_call ∷ unblock_call
    ∷ get_pid_call ∷ get_free_memory_call ∷ get_used_memory_call ∷ []

pub entry_at : List Syscall → ℕ → Option Syscall
entry_at [] n = none
entry_at (s ∷ ss) zero = some s
entry_at (s ∷ ss) (suc n) = entry_at ss n

-- The value that a call returns, `handler` being what the handlers return for its arguments: -1 for
-- a number past the table. The entries of the table are all set.
abbrev pub value_of : (Syscall → ℕ) → Option Syscall → ℕ
value_of handler none = error
value_of handler (some s) = handler s

pub syscalls_dispatcher : (Syscall → ℕ) → ℕ → ℕ
syscalls_dispatcher handler rax =
    if ltb rax total_syscalls then value_of handler (entry_at syscalls rax) else error

entry_at-some :
    (ss : List Syscall) (n : ℕ)
    → n < length ss
    → Returns (λ s. entry_at ss n ≡ some s) (entry_at ss n)
unfolding entry_at
entry_at-some [] n h = absurd (omega arith)
entry_at-some (s ∷ ss) zero h = refl
entry_at-some (s ∷ ss) (suc n) h = entry_at-some ss n (omega arith)

-- Every number below the table's size has a handler.
pub syscalls-total :
    (rax : ℕ)
    → rax < total_syscalls
    → Returns (λ s. entry_at syscalls rax ≡ some s) (entry_at syscalls rax)
unfolding syscalls
syscalls-total rax h = entry_at-some syscalls rax h
