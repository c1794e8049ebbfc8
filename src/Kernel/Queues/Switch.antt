-- ===== src/Kernel/Queues/Switch.antt =====
-- What `nextProcess` does to the processes: none is lost and none runs twice, unless the current
-- one is READY when it is switched out.
use mathlib.Core.Path.{ap₂}
use tp_so.Base.{
  ℕ, ◌+◌, ◌≡◌, refl, ap, ◌∙◌, ◌≢◌, inl, inr, List, [], ◌∷◌, arith, ◌==◌, false, ℕ_discrete,
  Bool-cases, if◌then◌else◌, count, count-append,
}
use tp_so.Ipc.Buffer.{null}
use tp_so.Kernel.{Kernel, ProcessState, ready, running, blocked, yielded, exited, set_pcb}
use tp_so.Kernel.Process.{concat, queued, set_foreground_process}
use tp_so.Kernel.Queues.{pop_first, leave_idle, requeue, run_idle, run_node, dispatch, next_process}
use tp_so.Kernel.Queues.Levels.{one_at, count-pop_first}
use tp_so.Kernel.Queues.Conserve.{
  on_cpu, tracked, Separate, count_queued, goes_back, count-queued, requeue-count, requeue-idle,
}

-- The fields by which a switch is seen.
pub record Places (k : Kernel) (current idle : ℕ) (levels : List (List ℕ)) (blocked_list : List ℕ)
    : Type 0 where
  pub current_at : k.current ≡ current
  pub idle_at : k.idle ≡ idle
  pub levels_at : k.levels ≡ levels
  pub blocked_at : k.blocked_list ≡ blocked_list

run_node-Places : (k : Kernel) (a : ℕ) → Places (run_node k a) a k.idle k.levels k.blocked_list
unfolding run_node set_foreground_process
run_node-Places k a = ground arith

run_idle-Places : (k : Kernel) → Places (run_idle k) k.idle k.idle k.levels k.blocked_list
unfolding run_idle
run_idle-Places k = ground arith

-- What `dispatch` runs and leaves.
pub dispatch-Places :
    (k : Kernel)
    → let (a, qs) = pop_first k.levels in
      Places (dispatch k) (if a == null then k.idle else a) k.idle qs k.blocked_list
unfolding dispatch
dispatch-Places k = elim (Bool-cases ((pop_first k.levels).0 == null)) [
  | inl e ↦ rw (e, dispatch) (run_idle-Places (record k { levels = (pop_first k.levels).1 }))
  | inr ne ↦ rw (ne, dispatch) (run_node-Places (record k { levels = (pop_first k.levels).1 }) _)
]

tracked-count :
    (k : Kernel) {c i : ℕ} {qs : List (List ℕ)} {bl : List ℕ} (a : ℕ)
    → Places k c i qs bl
    → count a (tracked k) ≡ (if c == i then 0 else one_at c a) + (count a (concat qs) + count a bl)
tracked-count k {c} {i} a p =
    count-append a (on_cpu k) (queued k)
    ∙ ap₂ ◌+◌ (ap₂ (λ x y. count a (if x == y then [] else x ∷ [])) p.current_at p.idle_at ∙ cpu)
        (count-queued a k ∙ ap₂ (λ x y. count a (concat x) + count a y) p.levels_at p.blocked_at)
  where
    cpu : count a (if c == i then [] else c ∷ []) ≡ (if c == i then 0 else one_at c a)
    cpu = unfold count in ground arith

-- What `dispatch` takes off the queues runs.
dispatch-count :
    (k : Kernel) (a : ℕ)
    → count_queued null k ≡ 0
    → count_queued k.idle k ≡ 0
    → count a (tracked (dispatch k)) ≡ count_queued a k
dispatch-count k a no_null no_idle =
    let seen = tracked-count (dispatch k) a (dispatch-Places k) in
    let levels_null : count null (concat k.levels) ≡ 0 = omega (arith, count-queued null k) in
    let popped = count-pop_first a k.levels levels_null in
    let popped_idle = count-pop_first k.idle k.levels levels_null in
    elim (ℕ_discrete (pop_first k.levels).0 null) [
      | yes e ↦ ground (arith, seen, count-queued a k, popped.1 e)
      | no ne ↦
          ground
            (arith, seen, count-queued a k, count-queued k.idle k, popped.0 ne, popped_idle.0 ne)
    ]

pub leave_idle-other : (k : Kernel) → (k.pcb k.current).id ≢ (k.pcb k.idle).id → leave_idle k ≡ k
unfolding leave_idle
leave_idle-other k h = elim (Bool-cases ((k.pcb k.current).id == (k.pcb k.idle).id)) [
  | inl e ↦ absurd (h (ground arith))
  | inr ne ↦ rw (ne, leave_idle)
]

-- Where requeuing adds `n a` to the count of each node, the switch leaves that on the processor and
-- in the queues.
switch-count :
    (k : Kernel) (st : ProcessState) (a : ℕ)
    → Separate k
    → k.current ≢ k.idle
    → count a (tracked (dispatch (requeue st k)))
      ≡ count_queued a k + (if goes_back st then one_at k.current a else 0)
switch-count k st a v ne =
    let at = λ (b : ℕ). requeue-count k st b v.running_one v.six in
    let no_null : count_queued null (requeue st k) ≡ 0 =
      ground (arith, at null, v.running_one, v.no_null) in
    let no_idle : count_queued (requeue st k).idle (requeue st k) ≡ 0 =
      rw (requeue-idle k st) (ground (arith, at k.idle, v.no_idle)) in
    dispatch-count (requeue st k) a no_null no_idle ∙ at a

as_placed : (k : Kernel) → Places k k.current k.idle k.levels k.blocked_list
as_placed k = record { current_at = refl; idle_at = refl; levels_at = refl; blocked_at = refl }

pub count-tracked :
    (k : Kernel) (a : ℕ)
    → count a (tracked k)
      ≡ (if k.current == k.idle then 0 else one_at k.current a) + count_queued a k
count-tracked k a = omega (arith, tracked-count k a (as_placed k), count-queued a k)

pub current-tracked :
    (k : Kernel) → k.current ≢ k.idle → count k.current (tracked k) ≡ 1 + count_queued k.current k
current-tracked k ne = ground (arith, count-tracked k k.current)

pub not_idle :
    (k : Kernel) → Separate k → k.current ≢ k.idle → (k.pcb k.current).id ≢ (k.pcb k.idle).id
not_idle k v ne = v.idle_alone k.current (omega (arith, current-tracked k ne))

-- With the invariant of the queues, `nextProcess` away from a process other than idle leaves each
-- queued process on the processor or in a queue as often as it was queued, and adds the one
-- switched out exactly if its state is BLOCKED, RUNNING or YIELDED.
pub next_process_keeps :
    (k : Kernel) (a : ℕ)
    → Separate k
    → k.current ≢ k.idle
    → count a (tracked (next_process k))
      ≡ count a (queued k) + (if goes_back (k.pcb k.current).state then one_at k.current a else 0)
unfolding next_process
next_process_keeps k a v ne =
    rw (leave_idle-other k (not_idle k v ne)) (switch-count k (k.pcb k.current).state a v ne)

-- With the invariant of the queues, a process other than idle that is READY when it is switched
-- out, as one that is woken while it runs, is neither on the processor nor in any queue
-- afterwards.
pub next_process_loses_ready :
    (k : Kernel)
    → Separate k
    → k.current ≢ k.idle
    → (k.pcb k.current).state ≡ ready
    → count k.current (tracked (next_process k)) ≡ 0
next_process_loses_ready k v ne e =
    next_process_keeps k k.current v ne
    ∙ ap
        (λ st.
          count k.current (queued k) + (if goes_back st then one_at k.current k.current else 0))
        e
    ∙ omega (arith, v.once k.current, current-tracked k ne)

abbrev pub idle_left : Kernel → Kernel
idle_left k = record (set_pcb k k.current (record (k.pcb k.current) { state = ready })) {
  current = null;
}

pub leave_idle-idle : (k : Kernel) → k.current ≡ k.idle → leave_idle k ≡ idle_left k
unfolding leave_idle
leave_idle-idle k e = elim (Bool-cases ((k.pcb k.current).id == (k.pcb k.idle).id)) [
  | inl same ↦ rw (same, leave_idle)
  | inr ne ↦ absurd (eq_false (ap (λ a. (k.pcb a).id) e) ne)
]
  where
    eq_false : {a b : ℕ} → a ≡ b → (a == b) ≡ false → ⊥
    eq_false h n = ground arith

requeue-stays : (k : Kernel) (st : ProcessState) → goes_back st ≡ false → requeue st k ≡ k
unfolding requeue
requeue-stays k blocked h = cc
requeue-stays k running h = cc
requeue-stays k yielded h = cc
requeue-stays k ready h = refl
requeue-stays k exited h = refl

idle_left-state :
    (k : Kernel) → k.current ≢ null → ((idle_left k).pcb null).state ≡ (k.pcb null).state
idle_left-state k h = ground arith

pub next-eq-dispatch :
    (k : Kernel)
    → Separate k
    → k.current ≡ k.idle
    → goes_back (k.pcb null).state ≡ false
    → next_process k ≡ dispatch (idle_left k)
unfolding next_process
next-eq-dispatch k v e st =
    rw (leave_idle-idle k e, next_process)
      (ap dispatch (
        requeue-stays (idle_left k) ((idle_left k).pcb null).state
          (ap goes_back (idle_left-state k v.running_one) ∙ st)))

-- With the invariant of the queues, `nextProcess` away from idle, where the state read through
-- NULL is not one that is requeued, keeps every process as often on the processor or in a queue
-- as before.
pub next_process_from_idle :
    (k : Kernel) (a : ℕ)
    → Separate k
    → k.current ≡ k.idle
    → goes_back (k.pcb null).state ≡ false
    → count a (tracked (next_process k)) ≡ count a (tracked k)
next_process_from_idle k a v e st =
    rw (next-eq-dispatch k v e st)
      (dispatch-count (idle_left k) a v.no_null v.no_idle ∙ ground (arith, count-tracked k a))
