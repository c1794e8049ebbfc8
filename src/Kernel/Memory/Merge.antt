-- ===== src/Kernel/Memory/Merge.antt =====
-- `genericFreeMemory` returns a block, and merges it with the free blocks beside it.
use tp_so.Base.{
  ℕ, ◌+◌, ◌^◌, ◌<◌, ◌≡◌, refl, ◌∙◌, ap, ◌≢◌, List, [], ◌∷◌, ◌++◌, true, false, not, ◌&&◌, arith,
  ◌==◌, if◌then◌else◌,
}
use mathlib.Core.List.{append_assoc}
use mathlib.Core.Path.{subst}
use tp_so.Ipc.Buffer.{null}
use tp_so.Kernel.Memory.{
  MemoryManager, node_size, sub64, merge_next, merge_prev, mark_free, generic_free_memory,
}
use tp_so.Kernel.Memory.Blocks.{Block, block, extent, Represents}
use tp_so.Kernel.Memory.Free.{
  absorb, extent-append, put-Represents, here_Represents, merge_next-Represents,
}

extent-absorb : (n : ℕ) (ys : List Block) → extent (absorb n ys) ≡ node_size + n + extent ys
unfolding extent
extent-absorb n [] = refl
extent-absorb n (c ∷ cs) = ground arith

merge_next-other : (m : MemoryManager) (a q : ℕ) → q ≢ a → (merge_next m a).nodes q ≡ m.nodes q
unfolding merge_next
merge_next-other m a q h = ground arith

merge_next-prev : (m : MemoryManager) (a : ℕ) → ((merge_next m a).nodes a).prev ≡ (m.nodes a).prev
unfolding merge_next
merge_next-prev m a = ground arith

merge_prev-quiet :
    (m : MemoryManager) (a : ℕ)
    → (not ((m.nodes a).prev == null) && (m.nodes (m.nodes a).prev).is_free) ≡ false
    → merge_prev m a ≡ m
unfolding merge_prev
merge_prev-quiet m a h = rw h refl

-- A merge with the node in front is that node's merge with the next one.
merge_prev-eq-merge_next :
    (m : MemoryManager) (a q : ℕ)
    → 0 < q
    → 0 < a
    → (m.nodes a).prev ≡ q
    → (m.nodes a).is_free ≡ true
    → (m.nodes q).next ≡ a
    → (m.nodes q).is_free ≡ true
    → merge_prev m a ≡ merge_next m q
unfolding merge_prev merge_next
merge_prev-eq-merge_next m a q p pa e f n g =
    let zq : (q == null) ≡ false = ground arith in
    let za : (a == null) ≡ false = ground arith in rw (e, g, n, f, zq, za) refl

pub free-steps :
    (m : MemoryManager) (a : ℕ)
    → a + node_size < 2 ^ 64
    → generic_free_memory m (a + node_size) ≡ merge_prev (merge_next (mark_free m a) a) a
unfolding generic_free_memory mark_free
free-steps m a h = let e : sub64 (a + node_size) node_size ≡ a = omega arith in rw e refl

module _ (m : MemoryManager) (lo a : ℕ) (xs : List Block) (b : Block) (ys : List Block) (p : 0 < lo)
    (at : a ≡ lo + extent xs) (small : lo + extent (xs ++ b ∷ ys) < 2 ^ 64)
    (r : Represents m.nodes lo (xs ++ b ∷ ys)) where
  fits_here : a + extent (b ∷ ys) < 2 ^ 64
  fits_here = omega (arith, extent-append xs (b ∷ ys))

  mark_free-Represents : Represents (mark_free m a).nodes lo (xs ++ block b.size true ∷ ys)
  unfolding mark_free Represents
  mark_free-Represents =
      let h = here_Represents m.nodes lo a xs (b ∷ ys) at r in
      put-Represents m.nodes lo a xs b ys (block b.size true) ys _ at r h.0 refl h.2 h.3

  merged : MemoryManager
  merged = merge_next (mark_free m a) a

  merged-Represents : Represents merged.nodes lo (xs ++ absorb b.size ys)
  unfolding merged extent
  merged-Represents =
      merge_next-Represents (mark_free m a) lo a b.size xs ys p at fits_here mark_free-Represents

  free-merged : generic_free_memory m (a + node_size) ≡ merge_prev merged a
  unfolding merged extent
  free-merged = free-steps m a (let f = fits_here in omega arith)

  merged-prev : (merged.nodes a).prev ≡ (m.nodes a).prev
  unfolding merged mark_free
  merged-prev = merge_next-prev (mark_free m a) a ∙ ground arith

  merged-other : (q : ℕ) → q ≢ a → merged.nodes q ≡ m.nodes q
  unfolding merged mark_free
  merged-other q h = merge_next-other (mark_free m a) a q h ∙ ground arith

  -- A block at `a` of a list that stands for blocks is freed, and the node that its `prev` names is NULL or
  -- in use and lies in front of `a`. Afterwards the list stands for the same blocks with this one free, and
  -- with the next block taken in if that is free.
  pub generic_free_memory-absorb :
      (m.nodes a).prev < a
      → (not ((m.nodes a).prev == null) && (m.nodes (m.nodes a).prev).is_free) ≡ false
      → Represents (generic_free_memory m (a + node_size)).nodes lo (xs ++ absorb b.size ys)
  generic_free_memory-absorb before quiet =
      let e = merged-prev in
      let o = merged-other (m.nodes a).prev (omega arith) in
      rw (free-merged, merge_prev-quiet merged a (rw (e, o) quiet)) merged-Represents

merge_prev-Represents :
    (m : MemoryManager) (lo q a n k : ℕ) (ws zs : List Block)
    → 0 < lo
    → q ≡ lo + extent ws
    → a ≡ q + node_size + n
    → q + extent (block n true ∷ block k true ∷ zs) < 2 ^ 64
    → (m.nodes a).prev ≡ q
    → Represents m.nodes lo (ws ++ block n true ∷ block k true ∷ zs)
    → Represents (merge_prev m a).nodes lo (ws ++ absorb n (block k true ∷ zs))
unfolding Represents
merge_prev-Represents m lo q a n k ws zs p front at small e r =
    let h = here_Represents m.nodes lo q ws (block n true ∷ block k true ∷ zs) front r in
    let same : q + node_size + n ≡ a = omega arith in
    let next : (m.nodes q).next ≡ a = h.2 ∙ same in
    let free : (m.nodes a).is_free ≡ true = ap (λ x. (m.nodes x).is_free) at ∙ h.3.1 in
    rw (merge_prev-eq-merge_next m a q (omega arith) (omega arith) e free next h.1)
      (merge_next-Represents m lo q n ws (block k true ∷ zs) p front small r)

-- What `absorb` leaves: one free block, and the others.
absorb_size : ℕ → List Block → ℕ
absorb_size n [] = n
absorb_size n (c ∷ cs) = if c.free then n + (c.size + node_size) else n

absorb_rest : List Block → List Block
absorb_rest [] = []
absorb_rest (c ∷ cs) = if c.free then cs else c ∷ cs

absorb-split :
    (n : ℕ) (ys : List Block) → absorb n ys ≡ block (absorb_size n ys) true ∷ absorb_rest ys
unfolding absorb_size absorb_rest
absorb-split n [] = refl
absorb-split n (c ∷ cs) = ground arith

extent-snoc :
    (ws : List Block) (n : ℕ) → extent (ws ++ block n true ∷ []) ≡ extent ws + node_size + n
unfolding extent
extent-snoc ws n = omega (arith, extent-append ws (block n true ∷ []))

module _ (m : MemoryManager) (lo q a n : ℕ) (ws : List Block) (b : Block) (ys : List Block)
    (p : 0 < lo) (front : q ≡ lo + extent ws) (at : a ≡ q + node_size + n)
    (small : lo + extent (ws ++ block n true ∷ b ∷ ys) < 2 ^ 64)
    (r : Represents m.nodes lo (ws ++ block n true ∷ b ∷ ys)) where
  abbrev xs : List Block
  xs = ws ++ block n true ∷ []

  at_end : a ≡ lo + extent xs
  at_end = omega (arith, extent-snoc ws n)

  shape : (zs : List Block) → xs ++ zs ≡ ws ++ block n true ∷ zs
  shape zs = append_assoc ws (block n true ∷ []) zs

  small_xs : lo + extent (xs ++ b ∷ ys) < 2 ^ 64
  small_xs = rw (shape (b ∷ ys)) small

  r_xs : Represents m.nodes lo (xs ++ b ∷ ys)
  r_xs = rw (shape (b ∷ ys)) r

  abbrev freed : MemoryManager
  freed = merged m lo a xs b ys p at_end small_xs r_xs

  freed-Represents :
      Represents freed.nodes lo
        (ws ++ block n true ∷ block (absorb_size b.size ys) true ∷ absorb_rest ys)
  freed-Represents =
      subst (λ zs. Represents freed.nodes lo (ws ++ block n true ∷ zs)) (absorb-split b.size ys)
        (subst (Represents freed.nodes lo) (shape (absorb b.size ys))
          (merged-Represents m lo a xs b ys p at_end small_xs r_xs))

  room : q + extent (block n true ∷ block (absorb_size b.size ys) true ∷ absorb_rest ys) < 2 ^ 64
  unfolding extent
  room =
      let e = ap extent (absorb-split b.size ys) in
      let f = extent-absorb b.size ys in
      let g = extent-append ws (block n true ∷ b ∷ ys) in omega arith

  -- A block at `a` is freed whose `prev` names the block right in front of it, and that one is free.
  -- Afterwards the list stands for the blocks in front, one free block of both, with the next block taken
  -- in if that is free, and the others as they were.
  pub generic_free_memory-join :
      (m.nodes a).prev ≡ q
      → Represents
          (generic_free_memory m (a + node_size)).nodes
          lo
          (ws ++ absorb n (absorb b.size ys))
  generic_free_memory-join e =
      rw (free-merged m lo a xs b ys p at_end small_xs r_xs, absorb-split b.size ys)
        (merge_prev-Represents freed lo q a n (absorb_size b.size ys) ws (absorb_rest ys) p front at
          room (merged-prev m lo a xs b ys p at_end small_xs r_xs ∙ e) freed-Represents)
