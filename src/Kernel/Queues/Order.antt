-- ===== src/Kernel/Queues/Order.antt =====
-- Which process `nextProcess` runs, and that it keeps the invariant of the queues.
use mathlib.Core.List.{append-nil, append_assoc}
use tp_so.Base.{
  ℕ, zero, suc, ◌≤◌, ◌<◌, ◌≡◌, refl, sym, ap, ◌∙◌, ◌≢◌, ◌⊎◌, inl, inr, List, [], ◌∷◌, ◌++◌, arith,
  ◌==◌, false, ℕ_discrete, Bool-cases, if◌then◌else◌, length, get_or, set, count,
}
use tp_so.Ipc.Buffer.{null}
use tp_so.Kernel.{Kernel, Pcb, ProcessState, ready, running, blocked, yielded, exited}
use tp_so.Kernel.Process.{is_ready, concat, set_foreground_process}
use tp_so.Kernel.Queues.{
  link_last, pop_first, insert_in_queue, insert_last, insert_in_blocked_queue, requeue, run_idle,
  run_node, dispatch, next_process,
}
use tp_so.Kernel.Queues.Levels.{length-pop_first}
use tp_so.Kernel.Queues.Conserve.{tracked, Separate, goes_back, requeue-six, requeue-idle}
use tp_so.Kernel.Queues.Switch.{
  dispatch-Places, count-tracked, next_process_keeps, next_process_from_idle, leave_idle-other,
  next-eq-dispatch, not_idle, idle_left,
}

-- The identifiers of all processes, and idle, stay as they are.
abbrev pub SameIds : Kernel → Kernel → Type 0
SameIds k k' = (k'.idle ≡ k.idle) × ((b : ℕ) → (k'.pcb b).id ≡ (k.pcb b).id)

-- What a step keeps that may drop processes but adds none.
pub record Shrinks (k k' : Kernel) : Type 0 where
  pub six : length k'.levels ≡ 6
  pub ids : SameIds k k'
  pub runs_one : k'.current ≢ null
  pub fewer : (a : ℕ) → count a (tracked k') ≤ count a (tracked k)

pub Separate-Shrinks : {k k' : Kernel} → Separate k → Shrinks k k' → Separate k'
Separate-Shrinks {k} {k'} v s = record {
  six = s.six;
  no_null =
      ground (
        arith,
        s.fewer null,
        count-tracked k null,
        count-tracked k' null,
        v.running_one,
        v.no_null,
      );
  no_idle =
      rw s.ids.0 (
        ground (arith, s.fewer k.idle, count-tracked k k.idle, count-tracked k' k.idle, v.no_idle));
  once = λ a. omega (arith, s.fewer a, v.once a);
  running_one = s.runs_one;
  idle_there = rw s.ids.0 v.idle_there;
  idle_alone = λ a h e.
      v.idle_alone a (omega (arith, s.fewer a))
        (sym (s.ids.1 a) ∙ e ∙ ap (λ b. (k'.pcb b).id) s.ids.0 ∙ s.ids.1 k.idle);
}

run_node-ids : (k : Kernel) (a b : ℕ) → ((run_node k a).pcb b).id ≡ (k.pcb b).id
unfolding run_node set_foreground_process
run_node-ids k a b = ground arith

run_idle-ids : (k : Kernel) (b : ℕ) → ((run_idle k).pcb b).id ≡ (k.pcb b).id
unfolding run_idle
run_idle-ids k b = ground arith

dispatch-ids : (k : Kernel) (b : ℕ) → ((dispatch k).pcb b).id ≡ (k.pcb b).id
unfolding dispatch
dispatch-ids k b = elim (Bool-cases ((pop_first k.levels).0 == null)) [
  | inl e ↦ rw (e, dispatch) (run_idle-ids (record k { levels = (pop_first k.levels).1 }) b)
  | inr ne ↦ rw (ne, dispatch) (run_node-ids (record k { levels = (pop_first k.levels).1 }) _ b)
]

requeue-ids : (k : Kernel) (st : ProcessState) (b : ℕ) → ((requeue st k).pcb b).id ≡ (k.pcb b).id
unfolding requeue insert_in_queue insert_last insert_in_blocked_queue
requeue-ids k blocked b = refl
requeue-ids k running b = ground arith
requeue-ids k yielded b = ground arith
requeue-ids k ready b = refl
requeue-ids k exited b = refl

dispatch-runs_one : (k : Kernel) → k.idle ≢ null → (dispatch k).current ≢ null
dispatch-runs_one k h = rw (dispatch-Places k).current_at (ground arith)

dispatch-six : (k : Kernel) → length (dispatch k).levels ≡ length k.levels
dispatch-six k = ap length (dispatch-Places k).levels_at ∙ length-pop_first k.levels

-- A state read through NULL that does not put NULL in a queue, if idle is switched out.
abbrev pub SafeNull : Kernel → Type 0
SafeNull k = goes_back (k.pcb null).state ≡ false

pub next-eq-requeue :
    (k : Kernel)
    → Separate k
    → k.current ≢ k.idle
    → next_process k ≡ dispatch (requeue (k.pcb k.current).state k)
unfolding next_process
next-eq-requeue k v ne = rw (leave_idle-other k (not_idle k v ne), next_process)

idle_left-ids : (k : Kernel) (b : ℕ) → ((idle_left k).pcb b).id ≡ (k.pcb b).id
idle_left-ids k b = ground arith

module _ (k : Kernel) (v : Separate k) where
  idle-Shrinks : k.current ≡ k.idle → SafeNull k → Shrinks k (next_process k)
  idle-Shrinks e safe = record {
    six = rw (next-eq-dispatch k v e safe) (dispatch-six (idle_left k) ∙ v.six);
    ids = rw (next-eq-dispatch k v e safe) (
      (dispatch-Places (idle_left k)).idle_at,
      λ b. dispatch-ids (idle_left k) b ∙ idle_left-ids k b,
    );
    runs_one = rw (next-eq-dispatch k v e safe) (dispatch-runs_one (idle_left k) v.idle_there);
    fewer = λ a. omega (arith, next_process_from_idle k a v e safe);
  }

  other-Shrinks : k.current ≢ k.idle → Shrinks k (next_process k)
  other-Shrinks ne =
      let st = (k.pcb k.current).state in
      let same : (requeue st k).idle ≡ k.idle = requeue-idle k st in
      record {
        six = rw (next-eq-requeue k v ne) (dispatch-six (requeue st k) ∙ requeue-six k st ∙ v.six);
        ids = rw (next-eq-requeue k v ne) (
          (dispatch-Places (requeue st k)).idle_at ∙ same,
          λ b. dispatch-ids (requeue st k) b ∙ requeue-ids k st b,
        );
        runs_one =
            rw (next-eq-requeue k v ne) (dispatch-runs_one (requeue st k) (rw same v.idle_there));
        fewer = λ a. ground (arith, next_process_keeps k a v ne, count-tracked k a);
      }

  pub next_process-Shrinks : SafeNull k → Shrinks k (next_process k)
  next_process-Shrinks safe = elim (ℕ_discrete k.current k.idle) [
    | yes e ↦ idle-Shrinks e safe
    | no ne ↦ other-Shrinks ne
  ]

-- The first node of the levels in order of level, then arrival; NULL if there is none.
abbrev first_waiting : Kernel → ℕ
first_waiting k = get_or (concat k.levels) 0 null

pop_first-eq-first : (qs : List (List ℕ)) → (pop_first qs).0 ≡ get_or (concat qs) 0 null
unfolding pop_first concat
pop_first-eq-first [] = refl
pop_first-eq-first ([] ∷ qs) = pop_first-eq-first qs
pop_first-eq-first ((a ∷ q) ∷ qs) = refl

dispatch-current :
    (k : Kernel)
    → (dispatch k).current ≡ (if first_waiting k == null then k.idle else first_waiting k)
dispatch-current k =
    (dispatch-Places k).current_at
    ∙ ap (λ a. if a == null then k.idle else a) (pop_first-eq-first k.levels)

link_last_level :
    (qs : List (List ℕ)) (i n : ℕ)
    → length qs ≡ suc i
    → n ≢ null
    → concat (set qs i (link_last (get_or qs i []) n)) ≡ concat qs ++ (n ∷ [])
unfolding concat
link_last_level [] i n h ne = absurd (omega arith)
link_last_level (q ∷ []) zero n h ne = rw (ne_false ne, append-nil q, append-nil (q ++ (n ∷ [])))
  where
    ne_false : {a b : ℕ} → a ≢ b → (a == b) ≡ false
    ne_false h = ground arith
link_last_level (q ∷ p ∷ qs) zero n h ne = absurd (omega arith)
link_last_level (q ∷ qs) (suc i) n h ne =
    ap (◌++◌ q) (link_last_level qs i n (omega arith) ne)
    ∙ sym (append_assoc q (concat qs) (n ∷ []))

first-append :
    (xs ys : List ℕ) → get_or xs 0 null ≢ null → get_or (xs ++ ys) 0 null ≡ get_or xs 0 null
first-append [] ys h = absurd (h refl)
first-append (x ∷ xs) ys h = refl

requeue_blocked-first : (k : Kernel) → first_waiting (requeue blocked k) ≡ first_waiting k
unfolding requeue insert_in_blocked_queue
requeue_blocked-first k = refl

requeue_yielded-first :
    (k : Kernel)
    → Separate k
    → first_waiting k ≢ null
    → first_waiting (requeue yielded k) ≡ first_waiting k
unfolding requeue insert_last
requeue_yielded-first k v ne =
    ap (λ l. get_or l 0 null) (link_last_level k.levels 5 k.current v.six v.running_one)
    ∙ first-append (concat k.levels) (k.current ∷ []) ne

next_process-waiting :
    (k : Kernel)
    → Separate k
    → k.current ≢ k.idle
    → ((k.pcb k.current).state ≡ blocked)
      ⊎ (((k.pcb k.current).state ≡ yielded) × (first_waiting k ≢ null))
    → (next_process k).current ≡ (if first_waiting k == null then k.idle else first_waiting k)
next_process-waiting k v ne (inl b) =
    rw (next-eq-requeue k v ne, b)
      (dispatch-current (requeue blocked k) ∙ rw (requeue-idle k blocked, requeue_blocked-first k))
next_process-waiting k v ne (inr (y, some_ready)) =
    rw (next-eq-requeue k v ne, y)
      (dispatch-current (requeue yielded k)
        ∙ rw (requeue-idle k yielded, requeue_yielded-first k v some_ready))

-- The first node of a list whose process is READY; NULL if there is none.
unfoldable pub first_of : (ℕ → Pcb) → List ℕ → ℕ
first_of pcb [] = null
first_of pcb (a ∷ q) = if is_ready (pcb a).state then a else first_of pcb q

-- The first READY process of the levels, by level and then by arrival.
abbrev pub first_ready : Kernel → ℕ
first_ready k = first_of k.pcb (concat k.levels)

-- Every process that waits in a level is READY.
abbrev pub AllReady : Kernel → Type 0
AllReady k = (a : ℕ) → 0 < count a (concat k.levels) → (k.pcb a).state ≡ ready

first_of-head :
    (pcb : ℕ → Pcb) (q : List ℕ)
    → ((a : ℕ) → 0 < count a q → (pcb a).state ≡ ready)
    → first_of pcb q ≡ get_or q 0 null
unfolding first_of count
first_of-head pcb [] h = refl
first_of-head pcb (a ∷ q) h = rw (h a (ground arith)) refl

run_node-running :
    (k : Kernel) (a : ℕ) → ((run_node k a).pcb (run_node k a).current).state ≡ running
unfolding run_node set_foreground_process
run_node-running k a = ground arith

run_idle-running : (k : Kernel) → ((run_idle k).pcb (run_idle k).current).state ≡ running
unfolding run_idle
run_idle-running k = ground arith

dispatch-running : (k : Kernel) → ((dispatch k).pcb (dispatch k).current).state ≡ running
unfolding dispatch
dispatch-running k = elim (Bool-cases ((pop_first k.levels).0 == null)) [
  | inl e ↦ rw (e, dispatch) (run_idle-running (record k { levels = (pop_first k.levels).1 }))
  | inr ne ↦ rw (ne, dispatch) (run_node-running (record k { levels = (pop_first k.levels).1 }) _)
]

-- With the invariant of the queues, and every process of the levels READY, a process other than
-- idle that blocks, or that yields while some process of the levels is READY, hands the processor
-- to the first process that is READY, by level and then by arrival; one that blocks while none is
-- READY hands it to idle. What runs then is RUNNING.
pub next_process_runs_first :
    (k : Kernel)
    → Separate k
    → AllReady k
    → k.current ≢ k.idle
    → ((k.pcb k.current).state ≡ blocked)
      ⊎ (((k.pcb k.current).state ≡ yielded) × (first_ready k ≢ null))
    → ((next_process k).current ≡ (if first_ready k == null then k.idle else first_ready k))
      × (((next_process k).pcb (next_process k).current).state ≡ running)
next_process_runs_first k v all ne st = (
  rw (first_of-head k.pcb (concat k.levels) all) (next_process-waiting k v ne (waits st)),
  rw (next-eq-requeue k v ne) (dispatch-running (requeue (k.pcb k.current).state k)),
)
  where
    waits :
        ((k.pcb k.current).state ≡ blocked)
          ⊎ (((k.pcb k.current).state ≡ yielded) × (first_ready k ≢ null))
        → ((k.pcb k.current).state ≡ blocked)
          ⊎ (((k.pcb k.current).state ≡ yielded) × (first_waiting k ≢ null))
    waits (inl b) = inl b
    waits (inr (y, some_ready)) =
        inr (y, λ e. some_ready (first_of-head k.pcb (concat k.levels) all ∙ e))
