-- ===== src/Kernel/Queues/Removal.antt =====
-- `removeFromQueue`: the node that it finds, and the queues without it.
use tp_so.Base.{
  ℕ, ◌+◌, ◌≡◌, refl, ◌∙◌, ◌≢◌, inl, inr, List, [], ◌∷◌, ◌++◌, arith, ◌==◌, Bool-cases,
  if◌then◌else◌, length, count, count-append,
}
use tp_so.Ipc.Buffer.{null}
use tp_so.Kernel.{Kernel, Pcb}
use tp_so.Kernel.Process.{concat, queued, find_pid}
use tp_so.Kernel.Queues.{unlink_pid, unlink_pid_levels, remove_from_queue}
use tp_so.Kernel.Queues.Levels.{one_at}
use tp_so.Kernel.Queues.Conserve.{Separate, count_queued, count-queued}

-- Unlinking by pid takes out the node that the search finds.
count-unlink_pid :
    (pcb : ℕ → Pcb) (pid b : ℕ) (q : List ℕ)
    → find_pid pcb pid q ≢ null
    → count b q ≡ count b (unlink_pid pcb pid q) + one_at (find_pid pcb pid q) b
unfolding unlink_pid find_pid count
count-unlink_pid pcb pid b [] h = absurd (h refl)
count-unlink_pid pcb pid b (a ∷ q) h = ground (arith, count-unlink_pid pcb pid b q)

find_pid-append :
    (pcb : ℕ → Pcb) (pid : ℕ) (xs ys : List ℕ)
    → count null xs ≡ 0
    → find_pid pcb pid (xs ++ ys)
      ≡ (if find_pid pcb pid xs == null then find_pid pcb pid ys else find_pid pcb pid xs)
unfolding find_pid count
find_pid-append pcb pid [] ys h = refl
find_pid-append pcb pid (a ∷ xs) ys h = ground (arith, find_pid-append pcb pid xs ys)

count-unlink_pid_levels :
    (pcb : ℕ → Pcb) (pid b : ℕ) (qs : List (List ℕ))
    → count null (concat qs) ≡ 0
    → find_pid pcb pid (concat qs) ≢ null
    → count b (concat qs)
      ≡ count b (concat (unlink_pid_levels pcb pid qs)) + one_at (find_pid pcb pid (concat qs)) b
unfolding unlink_pid_levels concat
count-unlink_pid_levels pcb pid b [] z h = absurd (h (unfold find_pid in refl))
count-unlink_pid_levels pcb pid b (q ∷ qs) z h =
    let none_in_q : count null q ≡ 0 = omega (arith, z, count-append null q (concat qs)) in
    let none_later : count null (concat qs) ≡ 0 =
      omega (arith, z, count-append null q (concat qs)) in
    let found = find_pid-append pcb pid q (concat qs) none_in_q in
    elim (Bool-cases (find_pid pcb pid q == null)) [
      | inl later ↦
          rw (later, found)
            (rw later (
              omega (
                arith,
                count-append b q (concat qs),
                count-append b q (concat (unlink_pid_levels pcb pid qs)),
                count-unlink_pid_levels pcb pid b qs none_later (λ e. h (found ∙ rw later e)),
              )))
      | inr here ↦
          rw (here, found)
            (rw here (
              omega (
                arith,
                count-append b q (concat qs),
                count-append b (unlink_pid pcb pid q) (concat qs),
                count-unlink_pid pcb pid b q (ground arith),
              )))
    ]

-- What `removeFromQueue` hands over is in the queues once less, and nothing else moves.
pub record Removed (k : Kernel) (a : ℕ) (k' : Kernel) : Type 0 where
  pub six : length k'.levels ≡ length k.levels
  pub current_same : k'.current ≡ k.current
  pub idle_same : k'.idle ≡ k.idle
  pub counts : (b : ℕ) → count_queued b k ≡ count_queued b k' + one_at a b

length-unlink_pid_levels :
    (pcb : ℕ → Pcb) (pid : ℕ) (qs : List (List ℕ))
    → length (unlink_pid_levels pcb pid qs) ≡ length qs
unfolding unlink_pid_levels
length-unlink_pid_levels pcb pid [] = refl
length-unlink_pid_levels pcb pid (q ∷ qs) = ground (arith, length-unlink_pid_levels pcb pid qs)

module _ (k : Kernel) (pid : ℕ) (v : Separate k) where
  no_null_levels : count null (concat k.levels) ≡ 0
  no_null_levels = omega (arith, v.no_null, count-queued null k)

  levels_removed : Kernel
  levels_removed = record k { levels = unlink_pid_levels k.pcb pid k.levels }

  blocked_removed : Kernel
  blocked_removed = record k { blocked_list = unlink_pid k.pcb pid k.blocked_list }

  found_in : find_pid k.pcb pid (queued k) ≡ (
      if find_pid k.pcb pid (concat k.levels) == null
      then find_pid k.pcb pid k.blocked_list
      else find_pid k.pcb pid (concat k.levels))
  found_in = find_pid-append k.pcb pid (concat k.levels) k.blocked_list no_null_levels

  pub remove_from_queue-Removed :
      find_pid k.pcb pid (queued k) ≢ null
      → ((remove_from_queue k pid).0 ≡ find_pid k.pcb pid (queued k))
        × Removed k (find_pid k.pcb pid (queued k)) (remove_from_queue k pid).1
  unfolding remove_from_queue levels_removed blocked_removed
  remove_from_queue-Removed h = elim (Bool-cases (find_pid k.pcb pid (concat k.levels) == null)) [
    | inl in_blocked ↦
        rw (in_blocked, remove_from_queue)
          (
            refl,
            record {
              six = refl;
              current_same = refl;
              idle_same = refl;
              counts = λ b. ground (
                arith,
                count-queued b k,
                count-queued b blocked_removed,
                found_in,
                count-unlink_pid k.pcb pid b k.blocked_list,
              );
            },
          )
    | inr in_level ↦
        rw (in_level, remove_from_queue)
          (
            refl,
            record {
              six = length-unlink_pid_levels k.pcb pid k.levels;
              current_same = refl;
              idle_same = refl;
              counts = λ b. ground (
                arith,
                count-queued b k,
                count-queued b levels_removed,
                found_in,
                count-unlink_pid_levels k.pcb pid b k.levels no_null_levels,
              );
            },
          )
  ]
