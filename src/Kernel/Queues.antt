-- ===== src/Kernel/Queues.antt =====
-- The queues of Kernel/interruptRelated/scheduler.c: priority levels by aging interval, the blocked
-- list, and the choice of the next process.
pub mod Levels
pub mod Conserve
pub mod Switch
pub mod Order
pub mod Null
pub mod Blocked
pub mod Removal
pub mod Priority
use tp_so.Base.{
  ℕ, zero, suc, ◌+◌, ◌-◌, ◌*◌, ◌≤◌, ◌≡◌, Bool, true, false, not, ◌&&◌, ◌||◌, Option, none, some,
  List, [], ◌∷◌, ◌++◌, ltb, leb, ◌==◌, if◌then◌else◌, get_or, set,
}
use tp_so.Base.Int.{pos}
use tp_so.Ipc.Buffer.{null}
use tp_so.Kernel.{Kernel, Pcb, ProcessState, ready, running, blocked, yielded, exited, set_pcb}
use tp_so.Kernel.Process.{is_blocked, exists, find_pid, set_foreground_process, concat, queued}

-- `QUANTUM_SIZE`
abbrev pub quantum_size : ℕ
quantum_size = 55

-- The level of an aging interval: the tests of `insertInQueue`.
unfoldable pub level_of : ℕ → ℕ
level_of aging =
    if leb aging quantum_size
    then 0
    else if leb aging (quantum_size * 2)
    then 1
    else if leb aging (quantum_size * 3)
    then 2
    else if leb aging (quantum_size * 4)
    then 3
    else if leb aging (quantum_size * 5)
    then 4
    else 5

-- `defaultQuantums` of each level, as the queues are initialised
abbrev pub default_quantums : ℕ → ℕ
default_quantums level = level + 1

-- Walk to the last node and link the node behind it. Linking NULL leaves the chain as it is.
abbrev pub link_last : List ℕ → ℕ → List ℕ
link_last q node = if node == null then q else q ++ (node ∷ [])

abbrev pub link_level : Kernel → ℕ → ℕ → Kernel
link_level k i node = record k { levels = set k.levels i (link_last (get_or k.levels i []) node) }

unfoldable pub insert_in_queue : Kernel → ℕ → Kernel
insert_in_queue k node =
    let i = level_of (k.pcb node).aging_interval in
    let k' = link_level k i node in
    set_pcb k' node (record (k.pcb node) { quantums = pos (default_quantums i); priority = i })

pub insert_last : Kernel → ℕ → Kernel
insert_last k process = link_level k 5 process

unfoldable pub insert_in_blocked_queue : Kernel → ℕ → Kernel
insert_in_blocked_queue k node = record k { blocked_list = link_last k.blocked_list node }

-- The loop of `checkBlocked`: the list holds the nodes still to be visited, `blocked_list` those
-- kept so far.
unfoldable pub check_blocked_from : List ℕ → Kernel → Kernel
check_blocked_from [] k = k
check_blocked_from (a ∷ rest) k = check_blocked_from rest (
    if is_blocked (k.pcb a).state
    then record k { blocked_list = k.blocked_list ++ (a ∷ []) }
    else insert_in_queue k a)

unfoldable pub check_blocked : Kernel → Kernel
check_blocked k = check_blocked_from k.blocked_list (record k { blocked_list = [] })

-- The loop over the six levels in `nextProcess`: the head of the first level that is not empty, and
-- the levels without it; NULL if all are empty.
unfoldable pub pop_first : List (List ℕ) → ℕ × List (List ℕ)
pop_first [] = (null, [])
pop_first ([] ∷ qs) = let (a, qs') = pop_first qs in (a, [] ∷ qs')
pop_first ((a ∷ q) ∷ qs) = (a, q ∷ qs)

-- The first `if` of `nextProcess`: idle is made ready and stands in no queue.
unfoldable pub leave_idle : Kernel → Kernel
leave_idle k =
    if (k.pcb k.current).id == (k.pcb k.idle).id
    then record (set_pcb k k.current (record (k.pcb k.current) { state = ready })) {
      current = null;
    }
    else k

-- Its `switch`, on the state of the current process. After idle that is a read through NULL.
unfoldable pub requeue : ProcessState → Kernel → Kernel
requeue blocked k = insert_in_blocked_queue k k.current
requeue running k =
    insert_in_queue (set_pcb k k.current (record (k.pcb k.current) { state = ready })) k.current
requeue yielded k =
    insert_last (set_pcb k k.current (record (k.pcb k.current) { state = ready })) k.current
requeue _ k = k

-- What it does where all levels are empty, and with the node that it takes off a level.
pub run_idle : Kernel → Kernel
run_idle k =
    set_pcb (record k { current = k.idle }) k.idle
      (record (k.pcb k.idle) { aging_interval = 0; quantums = pos 1; state = running })

unfoldable pub run_node : Kernel → ℕ → Kernel
run_node k next =
    let k' = set_foreground_process (record k { current = next }) next in
    set_pcb k' next (record (k'.pcb next) { state = running })

-- The rest of it: take the next node off its level, or fall back to idle.
unfoldable pub dispatch : Kernel → Kernel
dispatch k =
    let (next, levels') = pop_first k.levels in
    let k' = record k { levels = levels' } in if next == null then run_idle k' else run_node k' next

unfoldable pub next_process : Kernel → Kernel
next_process k = let k' = leave_idle k in dispatch (requeue (k'.pcb k'.current).state k')

-- `removeFromQueue`: unlink the first node with the pid from the first queue that has one.
pub unlink_pid : (ℕ → Pcb) → ℕ → List ℕ → List ℕ
unlink_pid pcb pid [] = []
unlink_pid pcb pid (a ∷ q) = if (pcb a).id == pid then q else a ∷ unlink_pid pcb pid q

pub unlink_pid_levels : (ℕ → Pcb) → ℕ → List (List ℕ) → List (List ℕ)
unlink_pid_levels pcb pid [] = []
unlink_pid_levels pcb pid (q ∷ qs) =
    if find_pid pcb pid q == null
    then q ∷ unlink_pid_levels pcb pid qs
    else unlink_pid pcb pid q ∷ qs

pub remove_from_queue : Kernel → ℕ → ℕ × Kernel
remove_from_queue k pid =
    let a = find_pid k.pcb pid (queued k) in
    if find_pid k.pcb pid (concat k.levels) == null
    then (a, record k { blocked_list = unlink_pid k.pcb pid k.blocked_list })
    else (a, record k { levels = unlink_pid_levels k.pcb pid k.levels })

-- The `switch` of `changePriority`: the aging interval of a priority below 6.
abbrev pub aging_of : ℕ → ℕ
aging_of zero = quantum_size * 1
aging_of (suc zero) = quantum_size * 2
aging_of (suc (suc zero)) = quantum_size * 4
aging_of (suc (suc (suc zero))) = quantum_size * 8
aging_of (suc (suc (suc (suc zero)))) = quantum_size * 16
aging_of (suc (suc (suc (suc (suc n))))) = quantum_size * 32

-- Once the process is off its queue (or is the current one, which stands in none).
pub reprioritise : Kernel → ℕ → ℕ → Kernel
reprioritise k a new_priority =
    let k' = set_pcb k a (record (k.pcb a) {
      aging_interval = aging_of new_priority;
      priority = new_priority;
      quantums = pos (default_quantums new_priority);
    }) in
    if is_blocked (k.pcb a).state then insert_in_blocked_queue k' a else insert_in_queue k' a

-- The result is 1 or an error (-1).
pub change_priority : Kernel → ℕ → ℕ → Kernel × Bool
change_priority k pid new_priority =
    if not (exists k pid) || leb 6 new_priority
    then (k, false)
    else if (k.pcb k.current).id == pid
    then (reprioritise k k.current new_priority, true)
    else (let (a, k') = remove_from_queue k pid in (reprioritise k' a new_priority, true))
