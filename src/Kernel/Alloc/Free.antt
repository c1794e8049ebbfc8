-- ===== src/Kernel/Alloc/Free.antt =====
-- What `sysFree` leaves of the chain of allocations.
use tp_so.Base.{ℕ, zero, suc, ◌≡◌, ◌≢◌, ◌∷◌, some, arith, ◌==◌, false}
use tp_so.Base.Maybe.{◌>>=◌}
use tp_so.Ipc.Buffer.{null}
use tp_so.Kernel.{Kernel, release, memory}
use tp_so.Kernel.Exit.{chain_limit, free_chain}
use tp_so.Kernel.Alloc.{find_block, sys_free}

ne_false : {a b : ℕ} → a ≢ b → (a == b) ≡ false
ne_false h = ground arith

find_block-first :
    (n ptr a : ℕ) (k : Kernel)
    → a ≢ null
    → (k.allocs a).allocation ≡ ptr
    → find_block n ptr null a k ≡ some (null, a)
unfolding find_block
find_block-first zero ptr a k h e = ground arith
find_block-first (suc n) ptr a k h e = ground arith

-- Freeing the first block of a process releases it and changes nothing else.
pub sys_free-first :
    (k : Kernel) (a ptr : ℕ)
    → (k.pcb a).first_alloc ≢ null
    → (k.allocs (k.pcb a).first_alloc).allocation ≡ ptr
    → sys_free k a ptr ≡ some (release k (memory (k.pcb a).first_alloc))
unfolding sys_free
sys_free-first k a ptr h e =
    rw (find_block-first chain_limit ptr (k.pcb a).first_alloc k h e, ne_false h)

free_chain-nil : (n a : ℕ) (k : Kernel) → a ≡ null → free_chain n a k ≡ some k
unfolding free_chain
free_chain-nil zero a k e = ground arith
free_chain-nil (suc n) a k e = ground arith

free_chain-alone :
    (n : ℕ) (k : Kernel) (a : ℕ)
    → a ≢ null
    → (k.allocs a).next ≡ null
    → free_chain (suc n) a k ≡ some (release k (memory a))
unfolding free_chain
free_chain-alone n k a h e =
    rw (ne_false h) (free_chain-nil n (k.allocs a).next (release k (memory a)) e)

-- A process that frees the only block it has keeps it as its first block: the end of the process
-- then releases the same block a second time.
pub sys_free_releases_twice :
    (k : Kernel) (a ptr : ℕ)
    → (k.pcb a).first_alloc ≢ null
    → (k.allocs (k.pcb a).first_alloc).allocation ≡ ptr
    → (k.allocs (k.pcb a).first_alloc).next ≡ null
    → (sys_free k a ptr >>= λ k'. free_chain chain_limit (k'.pcb a).first_alloc k')
      ≡ some (record k {
        released = memory (k.pcb a).first_alloc ∷ memory (k.pcb a).first_alloc ∷ k.released;
      })
sys_free_releases_twice k a ptr h e one =
    rw (sys_free-first k a ptr h e)
      (free_chain-alone 255 (release k (memory (k.pcb a).first_alloc)) (k.pcb a).first_alloc h one)
