-- ===== src/Kernel/Queues/Conserve.antt =====
-- The processes that the scheduler keeps track of, the invariant of its queues, and how often a node
-- stands in the queues after the insertions of `nextProcess`.
use tp_so.Base.{
  ℕ, ◌+◌, ◌≤◌, ◌<◌, ◌≡◌, refl, ◌≢◌, List, [], ◌∷◌, ◌++◌, arith, ◌==◌, Bool, true, false,
  if◌then◌else◌, length, count, count-append, length-set,
}
use tp_so.Ipc.Buffer.{null}
use tp_so.Kernel.{Kernel, ProcessState, ready, running, blocked, yielded, exited, set_pcb}
use tp_so.Kernel.Process.{concat, queued}
use tp_so.Kernel.Queues.{
  link_level, level_of, insert_in_queue, insert_last, insert_in_blocked_queue, requeue,
}
use tp_so.Kernel.Queues.Levels.{one_at, level_of-lt, count-link_last, count-link_level}

-- The process on the processor; idle does not count.
abbrev pub on_cpu : Kernel → List ℕ
on_cpu k = if k.current == k.idle then [] else k.current ∷ []

-- All processes but idle.
abbrev pub tracked : Kernel → List ℕ
tracked k = on_cpu k ++ queued k

-- The queues are chains of distinct nodes, without NULL and idle.
pub record Separate (k : Kernel) : Type 0 where
  pub six : length k.levels ≡ 6
  pub no_null : count null (queued k) ≡ 0
  pub no_idle : count k.idle (queued k) ≡ 0
  pub once : (a : ℕ) → count a (tracked k) ≤ 1
  pub running_one : k.current ≢ null
  pub idle_there : k.idle ≢ null
  pub idle_alone : (a : ℕ) → 0 < count a (tracked k) → (k.pcb a).id ≢ (k.pcb k.idle).id

abbrev pub count_queued : ℕ → Kernel → ℕ
count_queued a k = count a (queued k)

pub count-queued :
    (a : ℕ) (k : Kernel) → count_queued a k ≡ count a (concat k.levels) + count a k.blocked_list
count-queued a k = count-append a (concat k.levels) k.blocked_list

link_level-count :
    (k : Kernel) (i node a : ℕ)
    → node ≢ null
    → i < length k.levels
    → count_queued a (link_level k i node) ≡ count_queued a k + one_at node a
link_level-count k i node a h small = omega (
  arith,
  count-queued a (link_level k i node),
  count-queued a k,
  count-link_level a node i k.levels h small,
)

pub insert_in_queue-count :
    (k : Kernel) (node a : ℕ)
    → node ≢ null
    → length k.levels ≡ 6
    → count_queued a (insert_in_queue k node) ≡ count_queued a k + one_at node a
unfolding insert_in_queue
insert_in_queue-count k node a h six =
    link_level-count k (level_of (k.pcb node).aging_interval) node a h
      (omega (arith, level_of-lt (k.pcb node).aging_interval))

pub insert_in_blocked_queue-count :
    (k : Kernel) (node a : ℕ)
    → node ≢ null
    → count_queued a (insert_in_blocked_queue k node) ≡ count_queued a k + one_at node a
unfolding insert_in_blocked_queue
insert_in_blocked_queue-count k node a h = omega (
  arith,
  count-queued a (insert_in_blocked_queue k node),
  count-queued a k,
  count-link_last a node k.blocked_list h,
)

-- The states in which `nextProcess` puts the current process back in a queue.
abbrev pub goes_back : ProcessState → Bool
goes_back blocked = true
goes_back running = true
goes_back yielded = true
goes_back _ = false

pub requeue-count :
    (k : Kernel) (st : ProcessState) (a : ℕ)
    → k.current ≢ null
    → length k.levels ≡ 6
    → count_queued a (requeue st k)
      ≡ count_queued a k + (if goes_back st then one_at k.current a else 0)
unfolding requeue insert_last
requeue-count k blocked a h six = insert_in_blocked_queue-count k k.current a h
requeue-count k running a h six =
    insert_in_queue-count (set_pcb k k.current (record (k.pcb k.current) { state = ready }))
      k.current a h six
requeue-count k yielded a h six =
    link_level-count (set_pcb k k.current (record (k.pcb k.current) { state = ready })) 5 k.current
      a h (omega arith)
requeue-count k ready a h six = omega arith
requeue-count k exited a h six = omega arith

pub requeue-six : (k : Kernel) (st : ProcessState) → length (requeue st k).levels ≡ length k.levels
unfolding requeue insert_last insert_in_queue insert_in_blocked_queue
requeue-six k blocked = refl
requeue-six k running = length-set _ _ _
requeue-six k yielded = length-set _ _ _
requeue-six k ready = refl
requeue-six k exited = refl

pub requeue-idle : (k : Kernel) (st : ProcessState) → (requeue st k).idle ≡ k.idle
unfolding requeue insert_last insert_in_queue insert_in_blocked_queue
requeue-idle k blocked = refl
requeue-idle k running = refl
requeue-idle k yielded = refl
requeue-idle k ready = refl
requeue-idle k exited = refl
