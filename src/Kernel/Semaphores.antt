-- ===== src/Kernel/Semaphores.antt =====
-- Kernel/ipcRelated/sync.c: the list of semaphores. A node stands at an address, 0 for NULL; its name
-- is the text behind the pointer that it holds. A walk takes at most `limit` steps, and `none` is a
-- list that is longer or does not end.
pub mod Lost
use tp_so.Base.{
  ℕ, zero, suc, ◌+◌, ◌-◌, ◌^◌, Bool, true, false, not, ◌&&◌, Option, none, some, List, ◌==◌,
  if◌then◌else◌,
}
use tp_so.Base.Maybe.{◌>>=◌}
use tp_so.Ipc.Buffer.{null}
use tp_so.Kernel.{update}
use tp_so.Kernel.Strings.{string_compare, is_zero}

-- `semNode` with its `semaphore_t`
pub record SemNode : Type 0 where
  pub name : List ℕ
  pub current_value : ℕ
  pub mutex : ℕ
  pub next_node : ℕ

-- `semaphoreQueue` and the nodes
pub record Semaphores : Type 0 where
  pub head : ℕ
  pub tail : ℕ
  pub nodes : ℕ → SemNode

abbrev pub set_node : Semaphores → ℕ → SemNode → Semaphores
set_node s a n = record s { nodes = update s.nodes a n }

abbrev pub is_named : Semaphores → List ℕ → ℕ → Bool
is_named s sem_id a = is_zero (string_compare (s.nodes a).name sem_id)

-- The loop of `semOpen`: whether a node before the last has the name.
pub find_named : ℕ → Semaphores → List ℕ → ℕ → Option Bool
find_named zero s sem_id a = if (s.nodes a).next_node == null then some false else none
find_named (suc limit) s sem_id a =
    let rest = find_named limit s sem_id (s.nodes a).next_node in
    if (s.nodes a).next_node == null
    then some false
    else if is_named s sem_id a
    then some true
    else rest

abbrev pub new_semaphore : List ℕ → ℕ → SemNode
new_semaphore sem_id value = record {
  name = sem_id;
  current_value = value;
  mutex = 0;
  next_node = null;
}

-- `semOpen`, which returns 0; `block` is what `allocSemaphore` returned.
pub sem_open : ℕ → Semaphores → List ℕ → ℕ → ℕ → Option Semaphores
sem_open limit s sem_id value block =
    let first =
      set_node (record s { head = block; tail = block }) block (new_semaphore sem_id value) in
    let linked = set_node s s.tail (record (s.nodes s.tail) { next_node = block }) in
    let more = set_node linked block (new_semaphore sem_id value) in
    if s.head == null
    then some first
    else (find_named limit s sem_id s.head >>= λ known. some (if known then s else more))

-- The loop of `getSemById`: the first later node whose name differs from the one asked for.
pub find_other : ℕ → Semaphores → List ℕ → ℕ → Option ℕ
find_other zero s sem_id a = if (s.nodes a).next_node == null then some null else none
find_other (suc limit) s sem_id a =
    let b = (s.nodes a).next_node in
    let rest = find_other limit s sem_id b in
    if b == null then some null else if not (is_named s sem_id b) then some b else rest

-- `getSemById`
pub get_sem_by_id : ℕ → Semaphores → List ℕ → Option ℕ
get_sem_by_id limit s sem_id =
    if not (s.head == null) && is_named s sem_id s.head
    then some s.head
    else find_other limit s sem_id s.head

-- The loop of `semClose`: the node before the first later one with the name, or the last node.
pub find_before : ℕ → Semaphores → List ℕ → ℕ → Option ℕ
find_before zero s sem_id a = if (s.nodes a).next_node == null then some a else none
find_before (suc limit) s sem_id a =
    let b = (s.nodes a).next_node in
    let rest = find_before limit s sem_id b in
    if not (b == null) && not (is_named s sem_id b) then rest else some a

-- `semClose`: the result, the address that it gives to `freeSemaphore` (NULL if it gives none), and
-- the list.
pub sem_close : ℕ → Semaphores → List ℕ → Option (Bool × ℕ × Semaphores)
sem_close limit s sem_id = do
  a ← find_before limit s sem_id s.head
  let b = (s.nodes a).next_node
  let s' = set_node s a (record (s.nodes a) { next_node = (s.nodes b).next_node })
  some (if b == null then (false, null, s) else (true, (s'.nodes a).next_node, s'))

-- `semWait` and `semPost`: what `_semLock` or `_semUnlock` makes of a semaphore, when it returns, is
-- `locked`. The result is false for -1.
pub sem_apply : (SemNode → SemNode) → ℕ → Semaphores → List ℕ → Option (Bool × Semaphores)
sem_apply locked limit s sem_id = do
  a ← get_sem_by_id limit s sem_id
  some (if a == null then (false, s) else (true, set_node s a (locked (s.nodes a))))
