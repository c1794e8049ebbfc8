-- ===== src/Kernel/Queues/Blocked.antt =====
-- `checkBlocked` moves processes from the blocked list to the levels, and changes nothing else that
-- the scheduler relies on.
use tp_so.Base.{
  ℕ, ◌+◌, ◌≡◌, refl, ap, ◌∙◌, ◌≢◌, List, [], ◌∷◌, ◌++◌, arith, true, Bool-cases, inl, inr, length,
  count, count-append, length-set,
}
use tp_so.Ipc.Buffer.{null}
use tp_so.Kernel.{Kernel}
use tp_so.Kernel.Process.{is_blocked, concat}
use tp_so.Kernel.Queues.{insert_in_queue, check_blocked_from, check_blocked}
use tp_so.Kernel.Queues.Levels.{one_at}
use tp_so.Kernel.Queues.Conserve.{
  tracked, Separate, count_queued, count-queued, insert_in_queue-count,
}
use tp_so.Kernel.Queues.Switch.{count-tracked}
use tp_so.Kernel.Queues.Order.{Shrinks, SameIds}
use tp_so.Kernel.Queues.Null.{insert_in_queue-state}

-- What moving the nodes `rest` into the queues of `k` leaves.
record Moved (k : Kernel) (rest : List ℕ) (k' : Kernel) : Type 0 where
  six : length k'.levels ≡ 6
  ids : SameIds k k'
  current_same : k'.current ≡ k.current
  states : (b : ℕ) → (k'.pcb b).state ≡ (k.pcb b).state
  counts : (a : ℕ) → count_queued a k' ≡ count_queued a k + count a rest

keep_blocked : Kernel → ℕ → Kernel
keep_blocked k a = record k { blocked_list = k.blocked_list ++ (a ∷ []) }

count-one : (a x : ℕ) → count a (x ∷ []) ≡ one_at x a
unfolding count
count-one a x = ground arith

count-none : (a : ℕ) → count a [] ≡ 0
unfolding count
count-none a = refl

keep-Moved : (k : Kernel) (a : ℕ) → length k.levels ≡ 6 → Moved k (a ∷ []) (keep_blocked k a)
unfolding keep_blocked
keep-Moved k a six = record {
  six = six;
  ids = (refl, λ b. refl);
  current_same = refl;
  states = λ b. refl;
  counts = λ b. omega (
    arith,
    count-queued b (keep_blocked k a),
    count-queued b k,
    count-append b k.blocked_list (a ∷ []),
  );
}

insert-Moved :
    (k : Kernel) (a : ℕ) → a ≢ null → length k.levels ≡ 6 → Moved k (a ∷ []) (insert_in_queue k a)
insert-Moved k a h six = record {
  six = unfold insert_in_queue in (length-set _ _ _ ∙ six);
  ids = unfold insert_in_queue in (refl, λ b. ground arith);
  current_same = unfold insert_in_queue in refl;
  states = insert_in_queue-state k a;
  counts = λ b. omega (arith, insert_in_queue-count k a b h six, count-one b a);
}

Moved-trans :
    {k l m : Kernel} {a : ℕ} {rest : List ℕ}
    → Moved k (a ∷ []) l
    → Moved l rest m
    → Moved k (a ∷ rest) m
Moved-trans {a = a} {rest = rest} f g = record {
  six = g.six;
  ids = (g.ids.0 ∙ f.ids.0, λ b. g.ids.1 b ∙ f.ids.1 b);
  current_same = g.current_same ∙ f.current_same;
  states = λ b. g.states b ∙ f.states b;
  counts = λ b. omega (arith, f.counts b, g.counts b, count-append b (a ∷ []) rest);
}

check_blocked_from-Moved :
    (rest : List ℕ) (k : Kernel)
    → count null rest ≡ 0
    → length k.levels ≡ 6
    → Moved k rest (check_blocked_from rest k)
unfolding check_blocked_from keep_blocked
check_blocked_from-Moved [] k h six = record {
  six = six;
  ids = (refl, λ b. refl);
  current_same = refl;
  states = λ b. refl;
  counts = λ b. unfold count in omega arith;
}
check_blocked_from-Moved (a ∷ rest) k h six =
    let here : a ≢ null = unfold count in ground arith in
    let later : count null rest ≡ 0 = unfold count in ground arith in
    elim (Bool-cases (is_blocked (k.pcb a).state)) [
      | inl stays ↦
          let m = keep-Moved k a six in
          rw (stays, check_blocked_from)
            (Moved-trans m (check_blocked_from-Moved rest (keep_blocked k a) later m.six))
      | inr leaves ↦
          let m = insert-Moved k a here six in
          rw (leaves, check_blocked_from)
            (Moved-trans m (check_blocked_from-Moved rest (insert_in_queue k a) later m.six))
    ]

abbrev emptied : Kernel → Kernel
emptied k = record k { blocked_list = [] }

check_blocked-Moved : (k : Kernel) → Separate k → Moved (emptied k) k.blocked_list (check_blocked k)
unfolding check_blocked
check_blocked-Moved k v =
    check_blocked_from-Moved k.blocked_list (emptied k)
      (omega (arith, v.no_null, count-queued null k)) v.six

tracked-Moved :
    (k k' : Kernel) (a : ℕ)
    → Moved (emptied k) k.blocked_list k'
    → count a (tracked k') ≡ count a (tracked k)
tracked-Moved k k' a m = ground (
  arith,
  m.counts a,
  m.current_same,
  m.ids.0,
  count-tracked k a,
  count-tracked k' a,
  count-queued a k,
  count-queued a (emptied k),
  count-append a (concat k.levels) [],
  count-none a,
)

-- With the invariant of the queues, `checkBlocked` keeps every process exactly as often as it
-- was, on the processor or queued, and changes no pid, no state and not the current process.
pub check_blocked_keeps :
    (k : Kernel)
    → Separate k
    → ((a : ℕ) → count a (tracked (check_blocked k)) ≡ count a (tracked k))
      × SameIds k (check_blocked k)
      × ((b : ℕ) → ((check_blocked k).pcb b).state ≡ (k.pcb b).state)
      × ((check_blocked k).current ≡ k.current)
check_blocked_keeps k v =
    let m = check_blocked-Moved k v in
    (λ a. tracked-Moved k (check_blocked k) a m, m.ids, m.states, m.current_same)

pub check_blocked-Shrinks : (k : Kernel) → Separate k → Shrinks k (check_blocked k)
check_blocked-Shrinks k v =
    let m = check_blocked-Moved k v in
    record {
      six = m.six;
      ids = m.ids;
      runs_one = rw m.current_same v.running_one;
      fewer = λ a. omega (arith, tracked-Moved k (check_blocked k) a m);
    }

-- The processes of a list are all BLOCKED.
abbrev pub AllBlocked : Kernel → List ℕ → Type 0
AllBlocked k [] = Unit
AllBlocked k (a ∷ q) = (is_blocked (k.pcb a).state ≡ true) × AllBlocked k q

AllBlocked-append :
    (k : Kernel) (xs ys : List ℕ) → AllBlocked k xs → AllBlocked k ys → AllBlocked k (xs ++ ys)
AllBlocked-append k [] ys h g = g
AllBlocked-append k (x ∷ xs) ys h g = (h.0, AllBlocked-append k xs ys h.1 g)

AllBlocked-states :
    (k k' : Kernel) (q : List ℕ)
    → ((b : ℕ) → (k'.pcb b).state ≡ (k.pcb b).state)
    → AllBlocked k q
    → AllBlocked k' q
AllBlocked-states k k' [] e h = tt
AllBlocked-states k k' (a ∷ q) e h = (ap is_blocked (e a) ∙ h.0, AllBlocked-states k k' q e h.1)

check_blocked_from-AllBlocked :
    (rest : List ℕ) (k : Kernel)
    → AllBlocked k k.blocked_list
    → AllBlocked (check_blocked_from rest k) (check_blocked_from rest k).blocked_list
unfolding check_blocked_from keep_blocked
check_blocked_from-AllBlocked [] k h = h
check_blocked_from-AllBlocked (a ∷ rest) k h = elim (Bool-cases (is_blocked (k.pcb a).state)) [
  | inl stays ↦
      rw (stays, check_blocked_from)
        (check_blocked_from-AllBlocked rest (keep_blocked k a)
          (AllBlocked-append k k.blocked_list (a ∷ []) h (stays, tt)))
  | inr leaves ↦
      rw (leaves, check_blocked_from)
        (check_blocked_from-AllBlocked rest (insert_in_queue k a) (
          AllBlocked-states k (insert_in_queue k a) _ (insert_in_queue-state k a)
            (unfold insert_in_queue in h)))
]

-- After `checkBlocked` only BLOCKED processes stand in the blocked list.
pub check_blocked-AllBlocked :
    (k : Kernel) → AllBlocked (check_blocked k) (check_blocked k).blocked_list
unfolding check_blocked
check_blocked-AllBlocked k = check_blocked_from-AllBlocked k.blocked_list (emptied k) tt
