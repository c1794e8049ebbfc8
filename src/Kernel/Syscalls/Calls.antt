-- ===== src/Kernel/Syscalls/Calls.antt =====
-- The calls that a process makes.
use tp_so.Base.{ℕ, List}
use tp_so.Kernel.{Kernel}
use tp_so.Kernel.Syscalls.{
  Reply, read_loop, arq_sys_read, write_loop, arq_sys_write, arq_sys_block, arq_sys_unblock,
  arq_sys_change_state, arq_sys_kill, wait_loop, arq_sys_wait, arq_sys_exit, arq_sys_close_pd,
  arq_sys_set_to_foreground, arq_sys_set_to_background, arq_sys_dup, arq_sys_yield, arq_sys_get_pid,
}

-- The modelled calls but that for priorities, with their arguments; a call that waits goes on from
-- its loop when the process runs again.
pub data Call : Type 0 where
  call_read : ℕ → ℕ → Call
  resume_read : ℕ → ℕ → Call
  call_write : ℕ → List ℕ → Call
  resume_write : ℕ → List ℕ → Call
  call_block : ℕ → Call
  call_unblock : ℕ → Call
  call_change_state : ℕ → Call
  call_kill : ℕ → Call
  call_wait : Call
  resume_wait : Call
  call_exit : Call
  call_close_pd : ℕ → Call
  call_get_pid : Call
  call_set_to_foreground : Call
  call_set_to_background : Call
  call_dup : ℕ → ℕ → Call
  call_yield : Call

-- The entries of `syscalls` for these, as the current process calls them.
unfoldable pub run_call : Kernel → Call → Reply
run_call k (call_read pd count) = arq_sys_read k pd count
run_call k (resume_read b count) = read_loop k k.current b count
run_call k (call_write pd bytes) = arq_sys_write k pd bytes
run_call k (resume_write b bytes) = write_loop k k.current b bytes
run_call k (call_block pid) = arq_sys_block k pid
run_call k (call_unblock pid) = arq_sys_unblock k pid
run_call k (call_change_state pid) = arq_sys_change_state k pid
run_call k (call_kill pid) = arq_sys_kill k pid
run_call k call_wait = arq_sys_wait k
run_call k resume_wait = wait_loop k k.current
run_call k call_exit = arq_sys_exit k
run_call k (call_close_pd pd) = arq_sys_close_pd k pd
run_call k call_get_pid = arq_sys_get_pid k
run_call k call_set_to_foreground = arq_sys_set_to_foreground k
run_call k call_set_to_background = arq_sys_set_to_background k
run_call k (call_dup old_pd new_pd) = arq_sys_dup k old_pd new_pd
run_call k call_yield = arq_sys_yield k
