-- ===== src/Kernel/Scheduler/Unlinked.antt =====
-- How often a node stands in the queues that `checkExited` visits, and after it is unlinked.
use tp_so.Base.{
  ℕ, zero, suc, ◌+◌, ◌<◌, ◌≡◌, refl, inl, inr, List, [], ◌∷◌, ◌++◌, arith, ◌==◌, Bool-cases, length,
  get_or, set, count, count-append,
}
use tp_so.Kernel.{Kernel}
use tp_so.Kernel.Process.{concat, queued}
use tp_so.Kernel.Queues.Conserve.{tracked, Separate, count-queued}
use tp_so.Kernel.Queues.Switch.{count-tracked}
use tp_so.Kernel.Scheduler.{unlink, unlink_from, queue_at}
use tp_so.Kernel.Scheduler.Invariant.{Sound}

-- Unlinking a node that stands in the queue takes it out once.
count-unlink_hit : (b : ℕ) (q : List ℕ) → 0 < count b q → count b q ≡ suc (count b (unlink b q))
unfolding unlink count
count-unlink_hit b [] h = absurd (omega arith)
count-unlink_hit b (c ∷ q) h = ground (arith, count-unlink_hit b q)

count-set-unlink_hit :
    (qs : List (List ℕ)) (i b : ℕ)
    → 0 < count b (get_or qs i [])
    → count b (concat qs) ≡ suc (count b (concat (set qs i (unlink b (get_or qs i [])))))
unfolding concat
count-set-unlink_hit [] i b h = absurd (unfold count in omega arith)
count-set-unlink_hit (q ∷ qs) zero b h = omega (
  arith,
  count-append b (unlink b q) (concat qs),
  count-append b q (concat qs),
  count-unlink_hit b q h,
)
count-set-unlink_hit (q ∷ qs) (suc i) b h = omega (
  arith,
  count-append b q (concat (set qs i (unlink b (get_or qs i [])))),
  count-append b q (concat qs),
  count-set-unlink_hit qs i b h,
)

-- The process that is unlinked from its queue stands nowhere.
pub unlink_from-hit :
    (i b : ℕ) (k : Kernel)
    → Sound k
    → 0 < count b (queue_at k i)
    → count b (tracked (unlink_from i b k)) ≡ 0
unfolding unlink_from
unlink_from-hit i b k s = elim (Bool-cases (i == 6)) [
  | inl e ↦
      let k' = record k { blocked_list = unlink b k.blocked_list } in
      rw (e, unlink_from)
        (λ h. ground (
          arith,
          s.0.once b,
          count-tracked k b,
          count-tracked k' b,
          count-queued b k,
          count-queued b k',
          count-unlink_hit b k.blocked_list h,
        ))
  | inr ne ↦
      let k' = record k { levels = set k.levels i (unlink b (get_or k.levels i [])) } in
      rw (ne, unlink_from)
        (λ h. ground (
          arith,
          s.0.once b,
          count-tracked k b,
          count-tracked k' b,
          count-queued b k,
          count-queued b k',
          count-set-unlink_hit k.levels i b h,
        ))
]

-- The occurrences in `n` queues from `i` on.
unfoldable pub held : ℕ → Kernel → ℕ → ℕ → ℕ
held b k zero i = 0
held b k (suc n) i = count b (queue_at k i) + held b k n (i + 1)

six_levels :
    (b : ℕ) (qs : List (List ℕ))
    → length qs ≡ 6
    → count b (concat qs)
      ≡ count b (get_or qs 0 [])
        + (count b (get_or qs 1 [])
            + (count b (get_or qs 2 [])
                + (count b (get_or qs 3 [])
                    + (count b (get_or qs 4 []) + count b (get_or qs 5 [])))))
unfolding concat
six_levels b (q0 ∷ q1 ∷ q2 ∷ q3 ∷ q4 ∷ q5 ∷ []) h = omega (
  arith,
  count-append b q0 (q1 ++ (q2 ++ (q3 ++ (q4 ++ (q5 ++ []))))),
  count-append b q1 (q2 ++ (q3 ++ (q4 ++ (q5 ++ [])))),
  count-append b q2 (q3 ++ (q4 ++ (q5 ++ []))),
  count-append b q3 (q4 ++ (q5 ++ [])),
  count-append b q4 (q5 ++ []),
  count-append b q5 [],
  empty,
)
  where
    empty : count b [] ≡ 0
    empty = unfold count in refl
six_levels b [] h = absurd (omega arith)
six_levels b (q0 ∷ []) h = absurd (omega arith)
six_levels b (q0 ∷ q1 ∷ []) h = absurd (omega arith)
six_levels b (q0 ∷ q1 ∷ q2 ∷ []) h = absurd (omega arith)
six_levels b (q0 ∷ q1 ∷ q2 ∷ q3 ∷ []) h = absurd (omega arith)
six_levels b (q0 ∷ q1 ∷ q2 ∷ q3 ∷ q4 ∷ []) h = absurd (omega arith)
six_levels b (q0 ∷ q1 ∷ q2 ∷ q3 ∷ q4 ∷ q5 ∷ q6 ∷ qs) h = absurd (omega arith)

pub held-queued : (b : ℕ) (k : Kernel) → Separate k → held b k 7 0 ≡ count b (queued k)
unfolding held
held-queued b k v = omega (arith, count-queued b k, six_levels b k.levels v.six)
