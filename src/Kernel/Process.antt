-- ===== src/Kernel/Process.antt =====
-- The functions of Kernel/interruptRelated/scheduler.c on single processes: lookup by pid, state,
-- foreground, and the table of pipe descriptors.
use tp_so.Base.{
  ℕ, Bool, true, false, not, ◌&&◌, ◌||◌, Option, none, some, List, [], ◌∷◌, ◌++◌, ltb, leb, ◌==◌,
  if◌then◌else◌, get_or, set,
}
use tp_so.Ipc.Buffer.{null, pd_size}
use tp_so.Kernel.{Kernel, Pcb, ProcessState, ready, blocked, yielded, exited, set_pcb}

-- `INIT_ID`, `IDLE_ID`
abbrev pub init_id : ℕ
init_id = 1

abbrev pub idle_id : ℕ
idle_id = 2

abbrev pub is_exited : ProcessState → Bool
is_exited exited = true
is_exited _ = false

abbrev pub is_blocked : ProcessState → Bool
is_blocked blocked = true
is_blocked _ = false

abbrev pub is_yielded : ProcessState → Bool
is_yielded yielded = true
is_yielded _ = false

abbrev pub is_ready : ProcessState → Bool
is_ready ready = true
is_ready _ = false

unfoldable pub concat : List (List ℕ) → List ℕ
concat [] = []
concat (q ∷ qs) = q ++ concat qs

-- The nodes of the seven queues, in the order in which the loops `i < 7` visit them.
abbrev pub queued : Kernel → List ℕ
queued k = concat k.levels ++ k.blocked_list

-- The first node of a chain whose process has the pid; NULL if there is none.
unfoldable pub find_pid : (ℕ → Pcb) → ℕ → List ℕ → ℕ
find_pid pcb pid [] = null
find_pid pcb pid (a ∷ q) = if (pcb a).id == pid then a else find_pid pcb pid q

unfoldable pub has_pid : (ℕ → Pcb) → ℕ → List ℕ → Bool
has_pid pcb pid [] = false
has_pid pcb pid (a ∷ q) = (pcb a).id == pid || has_pid pcb pid q

unfoldable pub exists : Kernel → ℕ → Bool
exists k pid =
    ((k.pcb k.current).id == pid || (k.pcb k.idle).id == pid) || has_pid k.pcb pid (queued k)

unfoldable pub get_entry : Kernel → ℕ → ℕ
get_entry k pid =
    if exists k pid
    then (if (k.pcb k.current).id == pid then k.current else find_pid k.pcb pid (queued k))
    else null

-- Whether `setProcessState` refuses: an unknown process, or the exit of init or idle.
unfoldable pub refuses_state : Kernel → ℕ → ProcessState → Bool
refuses_state k a st = not (exists k (k.pcb a).id) || (leb (k.pcb a).id idle_id && is_exited st)

unfoldable pub set_process_state : Kernel → ℕ → ProcessState → Kernel × Bool
set_process_state k a st =
    if refuses_state k a st
    then (k, false)
    else (set_pcb k a (record (k.pcb a) { state = st; manual_blocked = 0 }), true)

unfoldable pub sys_block : Kernel → ℕ → Kernel
sys_block k a =
    if not (exists k (k.pcb a).id) || leb (k.pcb a).id idle_id
    then k
    else set_pcb k a (record (k.pcb a) { state = blocked; manual_blocked = 1 })

unfoldable pub sys_unblock : Kernel → ℕ → Kernel
sys_unblock k a =
    if not (exists k (k.pcb a).id) || leb (k.pcb a).id idle_id
    then k
    else set_pcb k a (record (k.pcb a) { state = ready; manual_blocked = 0 })

-- `setForegroundProcess`
unfoldable pub set_foreground_process : Kernel → ℕ → Kernel
set_foreground_process k a = if (k.pcb a).foreground == 1 then record k { foreground = a } else k

unfoldable pub set_process_to_foreground : Kernel → ℕ → Kernel
set_process_to_foreground k a =
    let k' = set_pcb k a (record (k.pcb a) { foreground = 1 }) in
    if k.foreground == null then record k' { foreground = a } else k'

unfoldable pub set_process_to_background : Kernel → ℕ → Kernel
set_process_to_background k a =
    let k' = set_pcb k a (record (k.pcb a) { foreground = 0 }) in
    if not (k.foreground == null) && (k.pcb k.foreground).id == (k.pcb a).id
    then record k' { foreground = null }
    else k'

-- `getPDEntry`; an index past the table reads outside it, a fault.
unfoldable pub get_pd_entry : Kernel → ℕ → ℕ → Option ℕ
get_pd_entry k a pd = if ltb pd pd_size then some (get_or (k.pcb a).pd_table pd null) else none

unfoldable pub set_process_pd : Kernel → ℕ → ℕ → ℕ → Kernel
set_process_pd k a buffer index =
    if a == null || not (ltb index pd_size)
    then k
    else set_pcb k a (record (k.pcb a) { pd_table = set (k.pcb a).pd_table index buffer })

unfoldable pub clear_matching : ℕ → List ℕ → List ℕ
clear_matching b [] = []
clear_matching b (e ∷ es) = (if e == b then null else e) ∷ clear_matching b es

-- `removeFromPDs`: the loop over the whole table.
unfoldable pub remove_from_pds : Kernel → ℕ → ℕ → Kernel
remove_from_pds k a buffer =
    set_pcb k a (record (k.pcb a) { pd_table = clear_matching buffer (k.pcb a).pd_table })

-- `dupPd`; the result is 0 or an error (-1).
unfoldable pub dup_pd : Kernel → ℕ → ℕ → ℕ → Kernel × Bool
dup_pd k a old_pd new_pd =
    let table = (k.pcb a).pd_table in
    if (not (ltb old_pd pd_size) || not (ltb new_pd pd_size))
      || not (get_or table old_pd null == null)
    then (k, false)
    else (
      set_pcb k a (record (k.pcb a) {
        pd_table = set (set table old_pd (get_or table new_pd null)) new_pd null;
      }),
      true,
    )

-- The loop of `hasOpenChilds` over the identifiers of the children.
unfoldable pub open_child : Kernel → List ℕ → Bool
open_child k [] = false
open_child k (c ∷ cs) =
    let child = k.pcb (get_entry k c) in
    (not (c == 0) && (not (is_exited child.state) && child.foreground == 1)) || open_child k cs

unfoldable pub has_open_childs : Kernel → ℕ → Bool
has_open_childs k a = open_child k (k.pcb a).childs_ids
