-- ===== src/Kernel/Scheduler/Invariant.antt =====
-- Every call of `scheduler` after the first keeps the invariant of the queues, whichever processes
-- exit in it.
use tp_so.Base.{
  ℕ, zero, suc, ◌+◌, ◌≤◌, refl, ap, ◌∙◌, inl, inr, List, [], ◌∷◌, Option, arith, ◌==◌, Bool, true,
  false, Bool-cases, if◌then◌else◌, get_or, set, count, count-append, length-set,
}
use tp_so.Base.Maybe.{Ensures, Ensures-bind, Ensures-map, Ensures-any}
use tp_so.Ipc.Buffer.{null}
use tp_so.Kernel.{Kernel}
use tp_so.Kernel.Process.{is_exited, concat}
use tp_so.Kernel.Queues.{check_blocked, next_process}
use tp_so.Kernel.Queues.Conserve.{Separate, count-queued, goes_back}
use tp_so.Kernel.Queues.Switch.{count-tracked}
use tp_so.Kernel.Queues.Order.{Shrinks, Separate-Shrinks, SafeNull, next_process-Shrinks}
use tp_so.Kernel.Queues.Null.{next_process-null}
use tp_so.Kernel.Queues.Blocked.{check_blocked-Shrinks, check_blocked_keeps}
use tp_so.Kernel.Frame.{Frame, Framed, Separate-Frame, set_pcb-Frame}
use tp_so.Kernel.Exit.{delete_process}
use tp_so.Kernel.Exit.Frame.{delete_process-Frame, bind_millis-Framed}
use tp_so.Kernel.Timers.{read_tsc, in_millis, update_timers}
use tp_so.Kernel.Timers.Frame.{read_tsc-Frame, update_timers-Frame}
use tp_so.Kernel.Scheduler.{
  unlink, unlink_from, reap, queue_at, reap_queues, reap_current, check_exited, account,
  use_quantum, switch, start_count, tick,
}

-- The invariant with the state at NULL that a switch away from idle needs.
abbrev pub Sound : Kernel → Type 0
Sound k = Separate k × SafeNull k

pub Sound-Frame : {k k' : Kernel} → Sound k → Frame k k' → Sound k'
Sound-Frame v f = (Separate-Frame v.0 f, f.safe v.1)

-- Unlinking takes nodes out only.
count-unlink : (a b : ℕ) (q : List ℕ) → count b (unlink a q) ≤ count b q
unfolding unlink count
count-unlink a b [] = omega arith
count-unlink a b (c ∷ q) = ground (arith, count-unlink a b q)

count-set-unlink :
    (qs : List (List ℕ)) (i a b : ℕ)
    → count b (concat (set qs i (unlink a (get_or qs i [])))) ≤ count b (concat qs)
unfolding concat
count-set-unlink [] i a b = omega arith
count-set-unlink (q ∷ qs) zero a b = omega (
  arith,
  count-append b (unlink a q) (concat qs),
  count-append b q (concat qs),
  count-unlink a b q,
)
count-set-unlink (q ∷ qs) (suc i) a b = omega (
  arith,
  count-append b q (concat (set qs i (unlink a (get_or qs i [])))),
  count-append b q (concat qs),
  count-set-unlink qs i a b,
)

pub unlink_from-Shrinks : (i a : ℕ) (k : Kernel) → Separate k → Shrinks k (unlink_from i a k)
unfolding unlink_from
unlink_from-Shrinks i a k v = elim (Bool-cases (i == 6)) [
  | inl e ↦
      let k' = record k { blocked_list = unlink a k.blocked_list } in
      rw (e, unlink_from)
        (record {
          six = v.six;
          ids = (refl, λ b. refl);
          runs_one = v.running_one;
          fewer = λ b. ground (
            arith,
            count-tracked k b,
            count-tracked k' b,
            count-queued b k,
            count-queued b k',
            count-unlink a b k.blocked_list,
          );
        })
  | inr ne ↦
      let k' = record k { levels = set k.levels i (unlink a (get_or k.levels i [])) } in
      rw (ne, unlink_from)
        (record {
          six = length-set k.levels i (unlink a (get_or k.levels i [])) ∙ v.six;
          ids = (refl, λ b. refl);
          runs_one = v.running_one;
          fewer = λ b. ground (
            arith,
            count-tracked k b,
            count-tracked k' b,
            count-queued b k,
            count-queued b k',
            count-set-unlink k.levels i a b,
          );
        })
]

unlink_from-safe : (i a : ℕ) (k : Kernel) → SafeNull k → SafeNull (unlink_from i a k)
unfolding unlink_from
unlink_from-safe i a k h = elim (Bool-cases (i == 6)) [
  | inl e ↦ rw (e, unlink_from) h
  | inr ne ↦ rw (ne, unlink_from) h
]

pub unlink_from-Sound : (i a : ℕ) (k : Kernel) → Sound k → Sound (unlink_from i a k)
unlink_from-Sound i a k s =
    (Separate-Shrinks s.0 (unlink_from-Shrinks i a k s.0), unlink_from-safe i a k s.1)

pub delete-Sound : (k : Kernel) (a : ℕ) → Sound k → Ensures Sound (delete_process k a)
delete-Sound k a s =
    Ensures-map (Frame k) Sound (delete_process k a) (λ k' f. Sound-Frame s f)
      (delete_process-Frame k a)

pub next_process-Sound : (k : Kernel) → Sound k → Sound (next_process k)
next_process-Sound k s = (
  Separate-Shrinks s.0 (next_process-Shrinks k s.0 s.1),
  ap goes_back (next_process-null k s.0 s.1) ∙ s.1,
)

pub check_blocked-Sound : (k : Kernel) → Sound k → Sound (check_blocked k)
check_blocked-Sound k s = (
  Separate-Shrinks s.0 (check_blocked-Shrinks k s.0),
  ap goes_back ((check_blocked_keeps k s.0).2 null) ∙ s.1,
)

Sound-if :
    (t : Bool) (r s : Option Kernel)
    → Ensures Sound r
    → Ensures Sound s
    → Ensures Sound (if t then r else s)
Sound-if true r s f g = f
Sound-if false r s f g = g

reap-Sound : (i : ℕ) (q : List ℕ) (k : Kernel) → Sound k → Ensures Sound (reap i q k)
unfolding reap
reap-Sound i [] k s = s
reap-Sound i (a ∷ q) k s =
    Ensures-bind Sound Sound _ (reap i q)
      (Sound-if (is_exited (k.pcb a).state) _ _
        (delete-Sound (unlink_from i a k) a (unlink_from-Sound i a k s)) s)
      (reap-Sound i q)

reap_queues-Sound : (n i : ℕ) (k : Kernel) → Sound k → Ensures Sound (reap_queues n i k)
unfolding reap_queues
reap_queues-Sound zero i k s = s
reap_queues-Sound (suc n) i k s =
    Ensures-bind Sound Sound (reap i (queue_at k i) k) (reap_queues n (i + 1))
      (reap-Sound i (queue_at k i) k s) (reap_queues-Sound n (i + 1))

reap_current-Sound : (k : Kernel) → Sound k → Ensures Sound (reap_current k)
unfolding reap_current
reap_current-Sound k s =
    Sound-if (is_exited (k.pcb k.current).state) _ _
      (Ensures-bind Sound Sound (delete_process k k.current) _ (delete-Sound k k.current s)
        (λ k' s'. next_process-Sound (check_blocked k') (check_blocked-Sound k' s')))
      s

check_exited-Sound : (k : Kernel) → Sound k → Ensures Sound (check_exited k)
unfolding check_exited
check_exited-Sound k s =
    Ensures-bind Sound Sound (reap_queues 7 0 k) reap_current (reap_queues-Sound 7 0 k s)
      reap_current-Sound

Sound-if-plain : (t : Bool) (k l : Kernel) → Sound k → Sound l → Sound (if t then k else l)
Sound-if-plain true k l f g = f
Sound-if-plain false k l f g = g

switch-Sound : (k : Kernel) → Sound k → Sound (switch k)
unfolding switch
switch-Sound k s = Sound-if-plain _ (next_process k) k (next_process-Sound k s) s

pub use_quantum-Sound : (k : Kernel) → Sound k → Sound (use_quantum k)
unfolding use_quantum
use_quantum-Sound k s = Sound-Frame s (set_pcb-Frame k k.current _ refl (λ h. h))

pub start_count-Sound : (k : Kernel) → Sound k → Sound (start_count k)
unfolding start_count
start_count-Sound k s =
    let k' = (read_tsc k).1 in
    let s' = Sound-Frame s (read_tsc-Frame k) in
    Sound-Frame s' (set_pcb-Frame k' k'.current _ refl (λ h. h))

account-Frame : (k : Kernel) (rsp t : ℕ) → Framed k (account k rsp t)
unfolding account
account-Frame k rsp t =
    bind_millis-Framed k k _ _ (λ ran. set_pcb-Frame k k.current _ refl (λ h. h))

-- Every call of the scheduler after the first that does not fault keeps the queues chains of
-- distinct nodes without NULL and idle, whichever processes exit, are woken or are switched in it;
-- the state that is read through NULL must be one that `nextProcess` does not put in a queue.
pub tick-Sound : (k : Kernel) (rsp : ℕ) → Sound k → Ensures (λ out. Sound out.1) (tick k rsp)
unfolding tick
tick-Sound k rsp s =
    let (t, k1) = read_tsc k in
    let s1 = Sound-Frame s (read_tsc-Frame k) in
    Ensures-bind Sound (λ (out : ℕ × Kernel). Sound out.1) (account k1 rsp t) _
      (Ensures-map (Frame k1) Sound (account k1 rsp t) (λ k2 f. Sound-Frame s1 f)
        (account-Frame k1 rsp t))
      λ k2 s2.
        Ensures-bind (λ _. Unit {0}) (λ (out : ℕ × Kernel). Sound out.1) (in_millis k2 t) _
          (Ensures-any (in_millis k2 t))
          λ now _.
            let s3 = check_blocked-Sound _ (Sound-Frame s2 (update_timers-Frame now k2)) in
            Ensures-bind Sound (λ (out : ℕ × Kernel). Sound out.1)
              (check_exited (check_blocked (update_timers now k2))) _
              (check_exited-Sound (check_blocked (update_timers now k2)) s3)
              (λ k3 s4. start_count-Sound _ (switch-Sound _ (use_quantum-Sound k3 s4)))
