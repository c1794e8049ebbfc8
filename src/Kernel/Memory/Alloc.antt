-- ===== src/Kernel/Memory/Alloc.antt =====
-- `genericAllocMemory` does first fit.
use mathlib.Core.Path.{subst}
use tp_so.Base.{
  ℕ, ◌+◌, ◌-◌, ◌^◌, ◌≤◌, ◌<◌, ◌≡◌, ap, ◌∙◌, List, ◌∷◌, true, false, arith, ltb, lt→ltb, ltb→lt,
  if◌then◌else◌, Bool-cases, inl, inr,
}
use tp_so.Kernel.Memory.{MmNode, MemoryManager, node_size, split_node, take_node}
use tp_so.Kernel.Memory.Blocks.{Block, block, start, Represents, Represents-congr}

-- What a node that fits becomes.
abbrev pub taken_blocks : ℕ → Block → List Block → List Block
taken_blocks need b bs =
    if ltb need b.size
    then block (need - node_size) false ∷ block (b.size - need) true ∷ bs
    else block b.size false ∷ bs

pub take-same :
    (m : MemoryManager) (lo need a : ℕ) → a < lo → (take_node m lo need).nodes a ≡ m.nodes a
unfolding take_node split_node
take-same m lo need a h = ground arith

-- Behind the node that is taken, the blocks stay as they are.
take-after :
    (m : MemoryManager) (lo need a : ℕ) → lo + need < a → (take_node m lo need).nodes a ≡ m.nodes a
unfolding take_node split_node
take-after m lo need a h = ground arith

pub moved :
    (nodes : ℕ → MmNode) (bs : List Block) {a c : ℕ}
    → a ≡ c
    → Represents nodes a bs
    → Represents nodes c bs
moved nodes bs e r = subst (λ x. Represents nodes x bs) e r

module _ (m : MemoryManager) (lo need : ℕ) (b : Block) (bs : List Block) (low : node_size ≤ need)
    (high : need < 2 ^ 64) (fits : need ≤ b.size) (r : Represents m.nodes lo (b ∷ bs)) where
  size_here : (m.nodes lo).mem_size ≡ b.size
  unfolding Represents
  size_here = r.0

  next_here : (m.nodes lo).next ≡ start (lo + node_size + b.size) bs
  unfolding Represents
  next_here = r.2

  rest_here : Represents m.nodes (lo + node_size + b.size) bs
  unfolding Represents
  rest_here = r.3

  split-first :
      need < b.size
      → (((take_node m lo need).nodes lo).mem_size ≡ need - node_size)
        × (((take_node m lo need).nodes lo).is_free ≡ false)
        × (((take_node m lo need).nodes lo).next ≡ lo + need)
  unfolding take_node split_node
  split-first h = rw (size_here, lt→ltb need b.size h) (ground arith)

  split-second :
      need < b.size
      → (((take_node m lo need).nodes (lo + need)).mem_size ≡ b.size - need)
        × (((take_node m lo need).nodes (lo + need)).is_free ≡ true)
        × (((take_node m lo need).nodes (lo + need)).next ≡ start (lo + node_size + b.size) bs)
  unfolding take_node split_node
  split-second h =
      let e = next_here in
      let s = size_here in rw (lt→ltb need (m.nodes lo).mem_size (omega arith)) (ground arith)

  rest_after : Represents (take_node m lo need).nodes (lo + node_size + b.size) bs
  rest_after =
      Represents-congr m.nodes (take_node m lo need).nodes bs (lo + node_size + b.size)
        (λ a h. take-after m lo need a (omega arith)) rest_here

  second_after :
      need < b.size
      → Represents (take_node m lo need).nodes (lo + need) (block (b.size - need) true ∷ bs)
  unfolding Represents
  second_after h =
      let after = (take_node m lo need).nodes in
      let e : lo + node_size + b.size ≡ lo + need + node_size + (b.size - need) = omega arith in
      let s = split-second h in
      (s.0, s.1, s.2 ∙ ap (λ x. start x bs) e, moved after bs e rest_after)

  take-Represents-split :
      need < b.size
      → Represents
          (take_node m lo need).nodes
          lo
          (block (need - node_size) false ∷ block (b.size - need) true ∷ bs)
  unfolding Represents
  take-Represents-split h =
      let after = (take_node m lo need).nodes in
      let second = block (b.size - need) true ∷ bs in
      let e : lo + need ≡ lo + node_size + (need - node_size) = omega arith in
      let f = split-first h in (f.0, f.1, f.2 ∙ e, moved after second e (second_after h))

  take-Represents-whole :
      need ≡ b.size → Represents (take_node m lo need).nodes lo (block b.size false ∷ bs)
  unfolding Represents take_node split_node
  take-Represents-whole e =
      let s = size_here in
      let n = next_here in (ground arith, ground arith, ground arith, rest_after)

  pub take-Represents : Represents (take_node m lo need).nodes lo (taken_blocks need b bs)
  take-Represents = elim (Bool-cases (ltb need b.size)) [
    | inl h ↦ rw h (take-Represents-split (ltb→lt need b.size h))
    | inr h ↦ rw h (take-Represents-whole (ground arith))
  ]
