-- ===== src/Kernel/Buddy/Release.antt =====
-- `freeMemory` takes one block out of those in use, and what was just allocated can be freed.
use tp_so.Base.{
  ℕ, ◌+◌, ◌^◌, ◌≤◌, ◌<◌, ◌≡◌, inl, inr, refl, sym, ap, ◌∙◌, true, false, List, [], ◌∷◌, ◌++◌, ltb,
  ◌==◌, if◌then◌else◌, arith, Bool-cases, ltb→lt,
}
use tp_so.Base.Maybe.{◌>>=◌, Returns, Returns-map, Returns-bind}
use tp_so.Ipc.Buffer.{null}
use tp_so.Kernel.Buddy.{
  MemNode, MemoryStatus, empty, full, partial, is_empty, BuddyMemoryManager, mem_node_size,
  block_size_for, generic_alloc_memory, free_rec, free_memory_at, max_depth,
}
use tp_so.Kernel.Buddy.Tree.{
  Part, free, used, halves, status_of, join_status, left_at, right_at, half_of, Stands, release_at,
  rejoin, blocks,
}
use tp_so.Kernel.Buddy.Frame.{is_empty-eq, Stands-size}
use tp_so.Kernel.Buddy.Blocks.{Apart, blocks-Apart, Adds, nothing, block_at}
use tp_so.Kernel.Buddy.Heap.{Heap, heap_blocks, generic_alloc_memory-Granted}
use tp_so.Kernel.Buddy.Freed.{Freed}
use tp_so.Kernel.Buddy.Free.{free_rec-release}

-- The blocks without the one at `q`.
unfoldable pub without : ℕ → List (ℕ × ℕ) → List (ℕ × ℕ)
without q [] = []
without q (b ∷ bs) = if b.0 == q then without q bs else b ∷ without q bs

without-append :
    (q : ℕ) (xs ys : List (ℕ × ℕ)) → without q (xs ++ ys) ≡ without q xs ++ without q ys
unfolding without
without-append q [] ys = refl
without-append q (x ∷ xs) ys = elim (Bool-cases (x.0 == q)) [
  | inl e ↦ rw e (without-append q xs ys)
  | inr e ↦ rw e (ap (λ (zs : List (ℕ × ℕ)). x ∷ zs) (without-append q xs ys))
]

without-below :
    (q lo hi : ℕ) (xs : List (ℕ × ℕ)) → q < lo + mem_node_size → Apart lo hi xs → without q xs ≡ xs
unfolding without Apart
without-below q lo hi [] h k = refl
without-below q lo hi (x ∷ xs) h k =
    let e : (x.0 == q) ≡ false = ground (arith, k.0) in
    rw e (
      ap (λ (zs : List (ℕ × ℕ)). x ∷ zs)
        (without-below q (x.0 + x.1) hi xs (omega (arith, k.0)) k.1))

le-Apart : (lo hi : ℕ) (xs : List (ℕ × ℕ)) → Apart lo hi xs → lo ≤ hi
unfolding Apart
le-Apart lo hi [] k = k
le-Apart lo hi (x ∷ xs) k = omega (arith, k.0, le-Apart (x.0 + x.1) hi xs k.1)

without-above : (q lo hi : ℕ) (xs : List (ℕ × ℕ)) → hi < q → Apart lo hi xs → without q xs ≡ xs
unfolding without Apart
without-above q lo hi [] h k = refl
without-above q lo hi (x ∷ xs) h k =
    let e : (x.0 == q) ≡ false = ground (arith, le-Apart (x.0 + x.1) hi xs k.1) in
    rw e (ap (λ (zs : List (ℕ × ℕ)). x ∷ zs) (without-above q (x.0 + x.1) hi xs h k.1))

-- An empty part has no block.
join-empty : (l r : MemoryStatus) → join_status l r ≡ empty → (l ≡ empty) × (r ≡ empty)
join-empty empty empty h = (refl, refl)
join-empty empty full h = cc
join-empty empty partial h = cc
join-empty full empty h = cc
join-empty full full h = cc
join-empty full partial h = cc
join-empty partial empty h = cc
join-empty partial full h = cc
join-empty partial partial h = cc

blocks-empty : (a s : ℕ) (p : Part) → status_of p ≡ empty → blocks a s p ≡ []
unfolding blocks status_of
blocks-empty a s free h = refl
blocks-empty a s used h = cc
blocks-empty a s (halves l r) h =
    let e = join-empty (status_of l) (status_of r) h in
    rw (blocks-empty (left_at a) (half_of s) l e.0, blocks-empty (right_at a s) (half_of s) r e.1)
      refl

blocks-rejoin :
    (a s : ℕ) (l r : Part)
    → blocks a s (rejoin l r)
      ≡ blocks (left_at a) (half_of s) l ++ blocks (right_at a s) (half_of s) r
unfolding blocks
blocks-rejoin a s l r = elim (Bool-cases (is_empty (status_of (halves l r)))) [
  | inl e ↦ rw e (sym (blocks-empty a s (halves l r) (is_empty-eq _ e)))
  | inr e ↦ rw e refl
]

pub blocks-release :
    (f : ℕ → MemNode) (a s : ℕ) (p : Part) (q : ℕ)
    → Stands f a s p
    → blocks a s (release_at a s p q) ≡ without q (blocks a s p)
unfolding blocks release_at without Stands
blocks-release f a s free q h = refl
blocks-release f a s used q h = elim (Bool-cases (a + mem_node_size == q)) [
  | inl e ↦ rw e refl
  | inr e ↦ rw e refl
]
blocks-release f a s (halves l r) q h =
    let ls = blocks (left_at a) (half_of s) l in
    let rs = blocks (right_at a s) (half_of s) r in
    let al = blocks-Apart f (left_at a) (half_of s) l h.2 in
    let ar = blocks-Apart f (right_at a s) (half_of s) r h.3 in
    elim (Bool-cases (ltb q (right_at a s + mem_node_size))) [
      | inl e ↦
          rw
            (
              e,
              blocks-rejoin,
              blocks-release f (left_at a) (half_of s) l q h.2,
              without-append q ls rs,
            )
            (ap (λ (zs : List (ℕ × ℕ)). without q ls ++ zs)
              (sym (without-below q _ _ rs (ltb→lt q _ e) ar)))
      | inr e ↦
          rw
            (
              e,
              blocks-rejoin,
              blocks-release f (right_at a s) (half_of s) r q h.3,
              without-append q ls rs,
            )
            (ap (λ (zs : List (ℕ × ℕ)). zs ++ without q rs)
              (sym (without-above q _ _ ls (ground (arith, h.1, e)) al)))
    ]

first-below :
    (lo hi v k : ℕ) (xs ys : List (ℕ × ℕ))
    → Apart lo hi (xs ++ (v, k) ∷ ys)
    → lo + mem_node_size ≤ v
unfolding Apart
first-below lo hi v k [] ys h = h.0
first-below lo hi v k (x ∷ xs) ys h = omega (arith, h.0, first-below (x.0 + x.1) hi v k xs ys h.1)

-- Among blocks that lie apart one has an address of its own.
without-middle :
    (lo hi v k : ℕ) (xs ys : List (ℕ × ℕ))
    → Apart lo hi (xs ++ (v, k) ∷ ys)
    → without v (xs ++ (v, k) ∷ ys) ≡ xs ++ ys
unfolding without Apart
without-middle lo hi v k [] ys h =
    let e : (v == v) ≡ true = ground arith in rw e (without-below v (v + k) hi ys (omega arith) h.1)
without-middle lo hi v k (x ∷ xs) ys h =
    let e : (x.0 == v) ≡ false = ground (arith, first-below (x.0 + x.1) hi v k xs ys h.1) in
    rw e (ap (λ (zs : List (ℕ × ℕ)). x ∷ zs) (without-middle (x.0 + x.1) hi v k xs ys h.1))

undone :
    (need v lo hi : ℕ) (old new : List (ℕ × ℕ))
    → Adds need v old new
    → Apart lo hi new
    → without v new ≡ old
undone need v lo hi old new (nothing e h) k =
    rw e (without-below null lo hi new (omega arith) k ∙ h)
undone need v lo hi old new (block_at n xs ys i j l e h) k =
    ap (without v) h ∙ without-middle lo hi v n xs ys (rw (sym h) k) ∙ sym e

-- What `freeMemory` of `q` leaves of a heap that stands for `t`.
pub record Released (m : BuddyMemoryManager) (t : Part) (q : ℕ) (out : BuddyMemoryManager)
    : Type 0 where
  pub part : Part
  pub stands : Stands out.nodes out.root (out.nodes out.root).size part
  pub others : heap_blocks out part ≡ without q (heap_blocks m t)
  pub before : (c : ℕ) → c < m.root → out.nodes c ≡ m.nodes c
  pub after : (c : ℕ) → m.root + mem_node_size + (m.nodes m.root).size ≤ c → out.nodes c ≡ m.nodes c

module _ (m : BuddyMemoryManager) (t : Part) where
  Freed-Released :
      (q : ℕ) (out : BuddyMemoryManager)
      → Stands m.nodes m.root (m.nodes m.root).size t
      → Freed m m.root (m.nodes m.root).size (release_at m.root (m.nodes m.root).size t q) out
      → Released m t q out
  Freed-Released q out g k =
      let s = (m.nodes m.root).size in
      let same : (out.nodes out.root).size ≡ s =
        rw k.same_root (Stands-size out.nodes m.root s (release_at m.root s t q) k.stands) in
      record {
        part = release_at m.root s t q;
        stands = rw (same, k.same_root) k.stands;
        others = rw (same, k.same_root) (blocks-release m.nodes m.root s t q g);
        before = k.before;
        after = λ c i. k.after c i;
      }

  -- Where the nodes from a root that is not NULL and has less than 2^64 bytes stand for a tree, a call
  -- of `freeMemory` returns and they stand for a tree again. The blocks in use afterwards are those
  -- before without the one that begins at the address it is given, or the same where none does. No node
  -- outside of the memory is changed.
  pub free_memory_at-Released :
      (q : ℕ)
      → Stands m.nodes m.root (m.nodes m.root).size t
      → 0 < m.root
      → (m.nodes m.root).size < 2 ^ 64
      → Returns (Released m t q) (free_memory_at m q)
  unfolding free_memory_at
  free_memory_at-Released q g above high =
      Returns-map _ _ (free_rec max_depth m m.root q) (λ out k. Freed-Released q out g k)
        (free_rec-release 64 m m.root (m.nodes m.root).size t q above g high)

-- On a heap, `freeMemory` of what `genericAllocMemory` has just returned for at most 2^31 bytes, NULL
-- included, leaves the blocks in use that there were before the two calls.
pub generic_alloc_memory-free_memory_at :
    (m : BuddyMemoryManager) (t : Part) (size : ℕ)
    → Heap m t
    → size ≤ 2 ^ 31
    → Returns
        (λ m2.
          (t2 : Part) × Stands m2.nodes m2.root (m2.nodes m2.root).size t2
          × (heap_blocks m2 t2 ≡ heap_blocks m t))
        (generic_alloc_memory m size >>= λ out. free_memory_at out.1 out.0)
generic_alloc_memory-free_memory_at m t size h fits =
    Returns-bind _ _ (generic_alloc_memory m size) (λ out. free_memory_at out.1 out.0)
      (generic_alloc_memory-Granted m t h size fits)
      (λ out k.
        Returns-map (Released out.1 k.part out.0) _ (free_memory_at out.1 out.0)
          (λ m2 r. (
            r.part,
            r.stands,
            r.others ∙ undone (block_size_for size) out.0 m.root _ _ _ k.adds k.apart,
          ))
          (free_memory_at-Released out.1 k.part out.0 k.heap.stands k.heap.above_null k.heap.high))
