-- ===== src/Kernel/Queues/Null.antt =====
-- The state that is read through NULL after idle: a switch does not write it.
use tp_so.Base.{ℕ, ◌≡◌, refl, ◌∙◌, ◌≢◌, arith, ◌==◌, ℕ_discrete, Bool-cases, inl, inr}
use tp_so.Ipc.Buffer.{null}
use tp_so.Kernel.{Kernel, ProcessState, ready, running, blocked, yielded, exited}
use tp_so.Kernel.Process.{set_foreground_process}
use tp_so.Kernel.Queues.{
  pop_first, insert_in_queue, insert_last, insert_in_blocked_queue, requeue, run_idle, run_node,
  dispatch, next_process,
}
use tp_so.Kernel.Queues.Conserve.{Separate}
use tp_so.Kernel.Queues.Switch.{idle_left, next-eq-dispatch}
use tp_so.Kernel.Queues.Order.{SafeNull, next-eq-requeue}

abbrev pub null_state : Kernel → ProcessState
null_state k = (k.pcb null).state

run_node-null : (k : Kernel) (a : ℕ) → a ≢ null → null_state (run_node k a) ≡ null_state k
unfolding run_node set_foreground_process
run_node-null k a h = ground arith

run_idle-null : (k : Kernel) → k.idle ≢ null → null_state (run_idle k) ≡ null_state k
unfolding run_idle
run_idle-null k h = ground arith

dispatch-null : (k : Kernel) → k.idle ≢ null → null_state (dispatch k) ≡ null_state k
unfolding dispatch
dispatch-null k h = elim (Bool-cases ((pop_first k.levels).0 == null)) [
  | inl e ↦ rw (e, dispatch) (run_idle-null (record k { levels = (pop_first k.levels).1 }) h)
  | inr ne ↦
      rw (ne, dispatch)
        (run_node-null (record k { levels = (pop_first k.levels).1 }) _ (ground arith))
]

pub insert_in_queue-state :
    (k : Kernel) (a b : ℕ) → ((insert_in_queue k a).pcb b).state ≡ (k.pcb b).state
unfolding insert_in_queue
insert_in_queue-state k a b = ground arith

requeue-null :
    (k : Kernel) (st : ProcessState) → k.current ≢ null → null_state (requeue st k) ≡ null_state k
unfolding requeue insert_in_queue insert_last insert_in_blocked_queue
requeue-null k blocked h = refl
requeue-null k running h = ground arith
requeue-null k yielded h = ground arith
requeue-null k ready h = refl
requeue-null k exited h = refl

requeue-idle_there : (k : Kernel) (st : ProcessState) → k.idle ≢ null → (requeue st k).idle ≢ null
unfolding requeue insert_in_queue insert_last insert_in_blocked_queue
requeue-idle_there k blocked h = h
requeue-idle_there k running h = h
requeue-idle_there k yielded h = h
requeue-idle_there k ready h = h
requeue-idle_there k exited h = h

pub next_process-null :
    (k : Kernel) → Separate k → SafeNull k → null_state (next_process k) ≡ null_state k
next_process-null k v safe = elim (ℕ_discrete k.current k.idle) [
  | yes e ↦
      rw (next-eq-dispatch k v e safe)
        (dispatch-null (idle_left k) v.idle_there ∙ idle_left-null k v.running_one)
  | no ne ↦ rw (next-eq-requeue k v ne) (
      dispatch-null (requeue (k.pcb k.current).state k)
        (requeue-idle_there k (k.pcb k.current).state v.idle_there)
      ∙ requeue-null k (k.pcb k.current).state v.running_one)
]
  where
    idle_left-null : (l : Kernel) → l.current ≢ null → null_state (idle_left l) ≡ null_state l
    idle_left-null l h = ground arith
