-- ===== src/Kernel/Queues/Priority.antt =====
-- `changePriority`: which level a priority leads to, and what becomes of the process.
use tp_so.Base.{
  ℕ, zero, suc, ◌+◌, ◌<◌, ◌≡◌, refl, ◌∙◌, ◌≢◌, ◌↔◌, ◌⊎◌, inl, inr, arith, ◌==◌, true, false, leb,
  Bool-cases, length, count,
}
use tp_so.Base.Int.{pos}
use tp_so.Ipc.Buffer.{null}
use tp_so.Kernel.{Kernel, set_pcb}
use tp_so.Kernel.Process.{queued, exists, find_pid, is_blocked}
use tp_so.Kernel.Queues.{
  level_of, insert_in_queue, insert_in_blocked_queue, remove_from_queue, aging_of, reprioritise,
  change_priority, default_quantums,
}
use tp_so.Kernel.Queues.Levels.{one_at}
use tp_so.Kernel.Queues.Conserve.{
  tracked, Separate, count_queued, insert_in_queue-count, insert_in_blocked_queue-count,
}
use tp_so.Kernel.Queues.Removal.{remove_from_queue-Removed}
use tp_so.Kernel.Queues.Switch.{count-tracked, current-tracked}

reprioritised : Kernel → ℕ → ℕ → Kernel
reprioritised k a p = set_pcb k a (record (k.pcb a) {
  aging_interval = aging_of p;
  priority = p;
  quantums = pos (default_quantums p);
})

reprioritise-cases :
    (k : Kernel) (a p : ℕ)
    → (reprioritise k a p ≡ insert_in_blocked_queue (reprioritised k a p) a)
      ⊎ (reprioritise k a p ≡ insert_in_queue (reprioritised k a p) a)
unfolding reprioritise reprioritised
reprioritise-cases k a p = elim (Bool-cases (is_blocked (k.pcb a).state)) [
  | inl b ↦ inl (rw (b, reprioritise))
  | inr r ↦ inr (rw (r, reprioritise))
]

-- The process goes back into the queues once.
reprioritise-count :
    (k : Kernel) (a p b : ℕ)
    → a ≢ null
    → length k.levels ≡ 6
    → count_queued b (reprioritise k a p) ≡ count_queued b k + one_at a b
unfolding reprioritised
reprioritise-count k a p b h six = elim (reprioritise-cases k a p) [
  | inl e ↦ rw e (insert_in_blocked_queue-count (reprioritised k a p) a b h)
  | inr e ↦ rw e (insert_in_queue-count (reprioritised k a p) a b h six)
]

reprioritise-places :
    (k : Kernel) (a p : ℕ)
    → ((reprioritise k a p).current ≡ k.current) × ((reprioritise k a p).idle ≡ k.idle)
unfolding reprioritised insert_in_blocked_queue insert_in_queue
reprioritise-places k a p = elim (reprioritise-cases k a p) [
  | inl e ↦ rw e (refl, refl)
  | inr e ↦ rw e (refl, refl)
]

-- The level that a priority's aging interval falls in is the level of that priority just for 0, 1
-- and 5: priorities 2, 3 and 4 lead to the levels 3, 5 and 5.
pub level_of_priority :
    (p : ℕ) → p < 6 → (level_of (aging_of p) ≡ p) ↔ ((p ≡ 0) ⊎ ((p ≡ 1) ⊎ (p ≡ 5)))
unfolding level_of
level_of_priority zero h = (λ e. inl refl, λ e. refl)
level_of_priority (suc zero) h = (λ e. inr (inl refl), λ e. refl)
level_of_priority (suc (suc zero)) h = (λ e. absurd (omega arith), λ e. absurd (omega arith))
level_of_priority (suc (suc (suc zero))) h = (λ e. absurd (omega arith), λ e. absurd (omega arith))
level_of_priority (suc (suc (suc (suc zero)))) h =
    (λ e. absurd (omega arith), λ e. absurd (omega arith))
level_of_priority (suc (suc (suc (suc (suc zero))))) h = (λ e. inr (inr refl), λ e. refl)
level_of_priority (suc (suc (suc (suc (suc (suc p)))))) h = absurd (omega arith)

eq_self : (a : ℕ) → (a == a) ≡ true
eq_self a = ground arith

lt_not_leb : (p : ℕ) → p < 6 → leb 6 p ≡ false
lt_not_leb p h = ground arith

exists-current : (k : Kernel) → exists k (k.pcb k.current).id ≡ true
unfolding exists
exists-current k = rw (eq_self (k.pcb k.current).id)

change_priority-current :
    (k : Kernel) (p : ℕ)
    → p < 6
    → change_priority k (k.pcb k.current).id p ≡ (reprioritise k k.current p, true)
unfolding change_priority
change_priority-current k p h = rw (exists-current k, lt_not_leb p h, eq_self (k.pcb k.current).id)

-- With the invariant of the queues, the current process, other than idle, given a priority below
-- 6, is put in a queue although it stays on the processor.
pub change_priority_doubles_current :
    (k : Kernel) (p : ℕ)
    → Separate k
    → k.current ≢ k.idle
    → p < 6
    → count k.current (tracked (change_priority k (k.pcb k.current).id p).0) ≡ 2
change_priority_doubles_current k p v ne h =
    let k' = reprioritise k k.current p in
    rw (change_priority-current k p h) (
      ground (
        arith,
        count-tracked k' k.current,
        reprioritise-places k k.current p,
        reprioritise-count k k.current p k.current v.running_one v.six,
        current-tracked k ne,
        v.once k.current,
      ))

change_priority-other :
    (k : Kernel) (pid p : ℕ)
    → exists k pid ≡ true
    → (k.pcb k.current).id ≢ pid
    → p < 6
    → change_priority k pid p
      ≡ (reprioritise (remove_from_queue k pid).1 (remove_from_queue k pid).0 p, true)
unfolding change_priority
change_priority-other k pid p e ne h = rw (e, lt_not_leb p h, ne_false ne)
  where
    ne_false : {a b : ℕ} → a ≢ b → (a == b) ≡ false
    ne_false h = ground arith

-- With the invariant of the queues, a queued process that is known, other than the current one,
-- and given a priority below 6 stays in the queues exactly as often as it stood there, and so
-- does every other process.
pub change_priority_keeps :
    (k : Kernel) (pid p a : ℕ)
    → Separate k
    → exists k pid ≡ true
    → (k.pcb k.current).id ≢ pid
    → find_pid k.pcb pid (queued k) ≢ null
    → p < 6
    → count a (tracked (change_priority k pid p).0) ≡ count a (tracked k)
change_priority_keeps k pid p a v e ne found h =
    let node = (remove_from_queue k pid).0 in
    let k1 = (remove_from_queue k pid).1 in
    let (same, r) = remove_from_queue-Removed k pid v found in
    let k2 = reprioritise k1 node p in
    rw (change_priority-other k pid p e ne h) (
      ground (
        arith,
        count-tracked k2 a,
        count-tracked k a,
        reprioritise-places k1 node p,
        reprioritise-count k1 node p a (rw same found) (r.six ∙ v.six),
        r.counts a,
        r.current_same,
        r.idle_same,
        same,
      ))
