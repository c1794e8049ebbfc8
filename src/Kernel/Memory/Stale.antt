-- ===== src/Kernel/Memory/Stale.antt =====
-- A split leaves the node behind the new one with the `prev` it had, and `genericFreeMemory` merges
-- with what `prev` names.
use tp_so.Base.{
  ℕ, ◌+◌, ◌^◌, ◌≤◌, ◌<◌, ◌≡◌, refl, ◌∙◌, ap, ◌≢◌, List, [], ◌∷◌, true, false, arith, lt→ltb,
}
use tp_so.Ipc.Buffer.{null}
use tp_so.Kernel.Memory.{
  MmNode, MemoryManager, node_size, split_node, take_node, merge_next, merge_prev,
  generic_free_memory, mark_free,
}
use tp_so.Kernel.Memory.Blocks.{Block, block, extent, Represents}
use tp_so.Kernel.Memory.Merge.{free-steps}

-- A block at `lo` with another block behind it, whose `prev` names `lo`, is split. Afterwards the new node
-- stands between the two, and the `prev` of the block behind it still names `lo`.
pub take_node-stale :
    (m : MemoryManager) (lo need : ℕ) (b c : Block) (bs : List Block)
    → Represents m.nodes lo (b ∷ c ∷ bs)
    → node_size ≤ need
    → need < b.size
    → (m.nodes (lo + node_size + b.size)).prev ≡ lo
    → let after = (take_node m lo need).nodes in
      ((after (lo + need)).next ≡ lo + node_size + b.size)
      × ((after (lo + node_size + b.size)).prev ≡ lo)
unfolding take_node split_node Represents
take_node-stale m lo need b c bs r low h e =
    let s = r.0 in
    let t = r.2 in rw (lt→ltb need (m.nodes lo).mem_size (omega arith)) (ground arith)

merge_next-null : (m : MemoryManager) (a : ℕ) → (m.nodes a).next ≡ null → merge_next m a ≡ m
unfolding merge_next
merge_next-null m a h = rw h refl

-- The last block is freed, and its `prev` names a free block `q` further in front.
free_last :
    (m : MemoryManager) (q a k n : ℕ)
    → 0 < q
    → q < a
    → n + k + node_size < 2 ^ 64
    → a + node_size < 2 ^ 64
    → (m.nodes a).next ≡ null
    → (m.nodes a).prev ≡ q
    → (m.nodes a).mem_size ≡ k
    → (m.nodes q).is_free ≡ true
    → (m.nodes q).mem_size ≡ n
    → let after = (generic_free_memory m (a + node_size)).nodes in
      ((after q).is_free ≡ true)
      × ((after q).mem_size ≡ n + k + node_size)
      × ((after q).next ≡ null)
      × ((c : ℕ) → c ≢ q → c ≢ a → after c ≡ m.nodes c)
unfolding merge_prev mark_free
free_last m q a k n p behind small fits e f s g t =
    let last : ((mark_free m a).nodes a).next ≡ null = ground arith in
    rw (free-steps m a fits, merge_next-null (mark_free m a) a last)
      (ground arith, ground arith, ground arith, λ c h j. ground arith)

-- Three blocks stand at `lo`, free, in use and any; the `prev` of the third names the first. After
-- `genericFreeMemory` of the third, the list from `lo` on is one free block, which is counted as so many
-- bytes that the header of the second, still in use, stands inside it.
pub generic_free_memory-overlap :
    (m : MemoryManager) (lo n : ℕ) (u b : Block)
    → 0 < lo
    → lo + extent (block n true ∷ u ∷ b ∷ []) < 2 ^ 64
    → Represents m.nodes lo (block n true ∷ u ∷ b ∷ [])
    → u.free ≡ false
    → let a = lo + node_size + n + node_size + u.size in
      (m.nodes a).prev ≡ lo
      → let after = (generic_free_memory m (a + node_size)).nodes in
        ((after lo).is_free ≡ true)
        × ((after lo).mem_size ≡ n + b.size + node_size)
        × ((after lo).next ≡ null)
        × ((after (lo + node_size + n)).is_free ≡ false)
        × (lo + node_size + n < lo + node_size + (after lo).mem_size)
unfolding Represents extent
generic_free_memory-overlap m lo n u b p small r used e =
    let a = lo + node_size + n + node_size + u.size in
    let t = r.3.3 in
    let f =
      free_last m lo a b.size n p (omega arith) (omega arith) (omega arith) t.2 e t.0 r.1 r.0 in
    let same = f.3 (lo + node_size + n) (omega arith) (omega arith) in
    (f.0, f.1, f.2, ap (λ (x : MmNode). x.is_free) same ∙ r.3.1 ∙ used, omega (arith, f.1))
