-- ===== src/Kernel/Semaphores/Lost.antt =====
-- The semaphores that `semOpen` loses.
use tp_so.Base.{ℕ, zero, suc, ◌≡◌, refl, ◌≢◌, some, List, arith, ◌==◌, false}
use tp_so.Base.Maybe.{Returns}
use tp_so.Ipc.Buffer.{null}
use tp_so.Kernel.Semaphores.{Semaphores, is_named, find_named, sem_open}

-- Two semaphores, opened one after the other: the second is at `b`.
pub record TwoOpen (s : Semaphores) (b : ℕ) : Type 0 where
  pub tail_stays : s.tail ≡ s.head
  pub head_there : s.head ≢ null
  pub b_there : b ≢ null
  pub linked : (s.nodes s.head).next_node ≡ b
  pub ends : (s.nodes b).next_node ≡ null

ne_false : {a b : ℕ} → a ≢ b → (a == b) ≡ false
ne_false h = ground arith

find_named-two :
    (limit : ℕ) (s : Semaphores) (sem_id : List ℕ) (b : ℕ)
    → TwoOpen s b
    → is_named s sem_id s.head ≡ false
    → find_named (suc limit) s sem_id s.head ≡ some false
unfolding find_named
find_named-two zero s sem_id b t n = rw (t.linked, ne_false t.b_there, n, t.ends)
find_named-two (suc limit) s sem_id b t n = rw (t.linked, ne_false t.b_there, n, t.ends)

-- With two semaphores open, `semOpen` of a name that the first has not, with a node at another
-- address, links that node behind the first as the last one: the second is no longer in the list.
pub sem_open_loses :
    (limit : ℕ) (s : Semaphores) (sem_id : List ℕ) (value b block : ℕ)
    → TwoOpen s b
    → is_named s sem_id s.head ≡ false
    → block ≢ s.head
    → Returns
        (λ s'.
          (s'.head ≡ s.head)
          × ((s'.nodes s.head).next_node ≡ block)
          × ((s'.nodes block).next_node ≡ null))
        (sem_open (suc limit) s sem_id value block)
unfolding sem_open
sem_open_loses limit s sem_id value b block t n other =
    let tail = t.tail_stays in
    rw (ne_false t.head_there, find_named-two limit s sem_id b t n)
      (refl, ground arith, ground arith)
