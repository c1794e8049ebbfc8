-- ===== src/Kernel/Create/First.antt =====
-- The kernel that `createInit` leaves, and the first call of the scheduler on it.
use tp_so.Base.{
  ℕ, ◌<◌, ◌++◌, ◌∙◌, ◌≡◌, refl, ap, ◌≢◌, [], ◌∷◌, arith, ◌==◌, false, if◌then◌else◌, count,
}
use tp_so.Base.Maybe.{◌>>=◌, Returns}
use tp_so.Ipc.Buffer.{null}
use tp_so.Kernel.{Kernel}
use tp_so.Kernel.Process.{concat, init_id, idle_id}
use tp_so.Kernel.Queues.Conserve.{Separate}
use tp_so.Kernel.Create.{Boot, init_standard_buffers, refer_at, init_pcb, idle_pcb, create_init}
use tp_so.Kernel.Scheduler.{start_up, scheduler}

-- A kernel at its start: all queues are empty.
pub record Blank (k : Kernel) : Type 0 where
  pub no_levels : k.levels ≡ [] ∷ [] ∷ [] ∷ [] ∷ [] ∷ [] ∷ []
  pub no_blocked : k.blocked_list ≡ []

-- The kernel that runs init, with idle beside it, and a queue for nobody yet.
pub record Started (o : Boot) (k : Kernel) : Type 0 where
  pub runs_init : k.current ≡ o.init_node
  pub with_idle : k.idle ≡ o.idle_node
  pub init_named : (k.pcb o.init_node).id ≡ init_id
  pub idle_named : (k.pcb o.idle_node).id ≡ idle_id
  pub separate : Separate k

-- A process that runs while nobody waits.
alone-Separate :
    (k : Kernel)
    → k.levels ≡ [] ∷ [] ∷ [] ∷ [] ∷ [] ∷ [] ∷ []
    → k.blocked_list ≡ []
    → k.current ≢ null
    → k.idle ≢ null
    → (k.pcb k.current).id ≢ (k.pcb k.idle).id
    → Separate k
unfolding concat count
alone-Separate k e f h g ne = record {
  six = rw e refl;
  no_null = rw (e, f) refl;
  no_idle = rw (e, f) refl;
  once = λ a. rw (e, f) (ground arith);
  running_one = h;
  idle_there = g;
  idle_alone = λ a m q. ne (ap (λ b. (k.pcb b).id) (runner a (rw (e, f) at m)) ∙ q);
}
  where
    runner :
        (a : ℕ)
        → 0 < count a ((if k.current == k.idle then [] else k.current ∷ []) ++ [])
        → k.current ≡ a
    runner a m = ground arith

-- From empty queues, `createInit`, with blocks for two processes at different addresses and a clock
-- whose ratio has a denominator, and the first call of `scheduler` after it return: init is the
-- current process, init and idle have their identifiers, and the invariant of the queues holds.
pub create_init_starts :
    (o : Boot) (k : Kernel) (rsp : ℕ)
    → Blank k
    → o.init_node ≢ null
    → o.idle_node ≢ null
    → o.init_node ≢ o.idle_node
    → o.tsc_denominator ≢ 0
    → Returns (λ out. Started o out.1) (create_init o k >>= λ k'. scheduler k' rsp)
unfolding create_init scheduler start_up init_pcb idle_pcb refer_at init_standard_buffers
create_init_starts o k rsp b h g apart d =
    rw (ne_false d, b.no_levels, b.no_blocked)
      (record {
        runs_init = refl;
        with_idle = refl;
        init_named = ground arith;
        idle_named = ground arith;
        separate = alone-Separate _ refl refl h g (λ e. ground arith);
      })
  where
    ne_false : {a b : ℕ} → a ≢ b → (a == b) ≡ false
    ne_false h = ground arith
