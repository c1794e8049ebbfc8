-- ===== src/Kernel/Memory/Free.antt =====
-- `genericFreeMemory` on the blocks that the headers stand for.
use tp_so.Base.{
  ℕ, ◌+◌, ◌^◌, ◌<◌, ◌≡◌, refl, ◌∙◌, ap, sym, List, [], ◌∷◌, ◌++◌, true, false, arith, ◌==◌,
  if◌then◌else◌, Bool-cases, inl, inr,
}
use tp_so.Ipc.Buffer.{null}
use tp_so.Kernel.{update}
use tp_so.Kernel.Memory.{MmNode, MemoryManager, node_size, add64, merge_next}
use tp_so.Kernel.Memory.Blocks.{Block, block, extent, start, Represents, Represents-congr}
use tp_so.Kernel.Memory.Alloc.{moved}

pub extent-append : (xs ys : List Block) → extent (xs ++ ys) ≡ extent xs + extent ys
unfolding extent
extent-append [] ys = omega arith
extent-append (x ∷ xs) ys = omega (arith, extent-append xs ys)

-- The blocks behind the first ones stand behind them.
pub Represents-behind :
    (nodes : ℕ → MmNode) (lo : ℕ) (xs ys : List Block)
    → Represents nodes lo (xs ++ ys)
    → Represents nodes (lo + extent xs) ys
unfolding Represents extent
Represents-behind nodes lo [] ys r = moved nodes ys (omega arith) r
Represents-behind nodes lo (x ∷ xs) ys r =
    moved nodes ys (omega arith) (Represents-behind nodes (lo + node_size + x.size) xs ys r.3)

start-middle :
    (e : ℕ) (xs : List Block) (b c : Block) (ys zs : List Block)
    → start e (xs ++ b ∷ ys) ≡ start e (xs ++ c ∷ zs)
start-middle e [] b c ys zs = refl
start-middle e (x ∷ xs) b c ys zs = refl

-- One header is written, and stands for another block, with other blocks behind it.
pub put-Represents :
    (nodes : ℕ → MmNode) (lo a : ℕ) (xs : List Block) (b : Block) (ys : List Block) (c : Block)
    (zs : List Block) (n : MmNode)
    → a ≡ lo + extent xs
    → Represents nodes lo (xs ++ b ∷ ys)
    → n.mem_size ≡ c.size
    → n.is_free ≡ c.free
    → n.next ≡ start (a + node_size + c.size) zs
    → Represents nodes (a + node_size + c.size) zs
    → Represents (update nodes a n) lo (xs ++ c ∷ zs)
unfolding Represents extent
put-Represents nodes lo a [] b ys c zs n at r s f e z =
    let after = update nodes a n in
    let here : a ≡ lo = omega arith in
    let end : a + node_size + c.size ≡ lo + node_size + c.size = omega arith in
    let hit : after lo ≡ n = ground arith in
    (
      ap (λ (k : MmNode). k.mem_size) hit ∙ s,
      ap (λ (k : MmNode). k.is_free) hit ∙ f,
      ap (λ (k : MmNode). k.next) hit ∙ e ∙ ap (λ x. start x zs) end,
      moved after zs end
          (Represents-congr nodes after zs (a + node_size + c.size) (λ x h. ground arith) z),
    )
put-Represents nodes lo a (x ∷ xs) b ys c zs n at r s f e z =
    let end = lo + node_size + x.size in
    let miss : update nodes a n lo ≡ nodes lo = ground arith in
    (
      ap (λ (k : MmNode). k.mem_size) miss ∙ r.0,
      ap (λ (k : MmNode). k.is_free) miss ∙ r.1,
      ap (λ (k : MmNode). k.next) miss ∙ r.2 ∙ start-middle end xs b c ys zs,
      put-Represents nodes end a xs b ys c zs n (omega arith) r.3 s f e z,
    )

-- The free block of `size` bytes takes in the block behind it, if that is free.
abbrev pub absorb : ℕ → List Block → List Block
absorb size [] = block size true ∷ []
absorb size (c ∷ cs) =
    if c.free then block (size + (c.size + node_size)) true ∷ cs else block size true ∷ c ∷ cs

pub here_Represents :
    (nodes : ℕ → MmNode) (lo a : ℕ) (xs ys : List Block)
    → a ≡ lo + extent xs
    → Represents nodes lo (xs ++ ys)
    → Represents nodes a ys
here_Represents nodes lo a xs ys at r = moved nodes ys (sym at) (Represents-behind nodes lo xs ys r)

merge_next-last :
    (m : MemoryManager) (a size : ℕ)
    → Represents m.nodes a (block size true ∷ [])
    → merge_next m a ≡ m
unfolding merge_next Represents
merge_next-last m a size h = let e = h.2 in ground arith

merge_next-used :
    (m : MemoryManager) (a size : ℕ) (c : Block) (cs : List Block)
    → c.free ≡ false
    → Represents m.nodes a (block size true ∷ c ∷ cs)
    → merge_next m a ≡ m
unfolding merge_next Represents
merge_next-used m a size c cs u h = rw (h.2, h.3.1, u) (ground arith)

module _ (m : MemoryManager) (lo a size : ℕ) (xs : List Block) (c : Block) (cs : List Block)
    (p : 0 < lo) (at : a ≡ lo + extent xs) (small : a + extent (block size true ∷ c ∷ cs) < 2 ^ 64)
    (r : Represents m.nodes lo (xs ++ block size true ∷ c ∷ cs)) where
  merge_next-free :
      c.free ≡ true
      → Represents (merge_next m a).nodes lo (xs ++ block (size + (c.size + node_size)) true ∷ cs)
  unfolding merge_next Represents extent
  merge_next-free f =
      let h = here_Represents m.nodes lo a xs (block size true ∷ c ∷ cs) at r in
      let joined = block (size + (c.size + node_size)) true in
      let e : a + node_size + size + node_size + c.size
          ≡ a + node_size + (size + (c.size + node_size)) =
        omega arith in
      let full : ((a + node_size + size) == null) ≡ false = ground arith in
      let wide : add64 size (add64 c.size node_size) ≡ size + (c.size + node_size) = omega arith in
      rw (h.2, h.3.1, f, full)
        (put-Represents m.nodes lo a xs (block size true) (c ∷ cs) joined cs _ at r
          (rw (h.0, h.3.0) wide) h.1 (h.3.2 ∙ ap (λ x. start x cs) e) (moved m.nodes cs e h.3.3))

pub merge_next-Represents :
    (m : MemoryManager) (lo a size : ℕ) (xs ys : List Block)
    → 0 < lo
    → a ≡ lo + extent xs
    → a + extent (block size true ∷ ys) < 2 ^ 64
    → Represents m.nodes lo (xs ++ block size true ∷ ys)
    → Represents (merge_next m a).nodes lo (xs ++ absorb size ys)
merge_next-Represents m lo a size xs [] p at small r =
    rw (merge_next-last m a size (here_Represents m.nodes lo a xs _ at r)) r
merge_next-Represents m lo a size xs (c ∷ cs) p at small r = elim (Bool-cases c.free) [
  | inl f ↦ rw f (merge_next-free m lo a size xs c cs p at small r f)
  | inr u ↦ simp (u, merge_next-used m a size c cs u (here_Represents m.nodes lo a xs _ at r)) r
]
