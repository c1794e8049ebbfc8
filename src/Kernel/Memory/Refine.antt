-- ===== src/Kernel/Memory/Refine.antt =====
-- The loop of `genericAllocMemory` is first fit on the blocks that the headers stand for.
use tp_so.Base.{
  ℕ, zero, suc, ◌+◌, ◌^◌, ◌≤◌, ◌<◌, ◌≡◌, refl, ◌∙◌, sym, ap, List, [], ◌∷◌, Bool, true, false, ◌&&◌,
  some, arith, leb, if◌then◌else◌, Bool-cases, inl, inr, length,
}
use tp_so.Base.Maybe.{Returns, Returns-map}
use tp_so.Kernel.Memory.{MmNode, MemoryManager, node_size, split_node, take_node, alloc_from}
use tp_so.Kernel.Memory.Blocks.{Block, start, Represents, first_fit}
use tp_so.Kernel.Memory.Alloc.{taken_blocks, take-same, take-Represents}

-- What the search from `lo` on has to return.
abbrev pub Refines : MemoryManager → ℕ → List Block → ℕ → ℕ × MemoryManager → Type 0
Refines m lo bs need out =
    let spec = first_fit need lo bs in
    (out.0 ≡ spec.0)
    × Represents out.1.nodes lo spec.1
    × (out.1.head ≡ m.head)
    × (out.1.total_memory ≡ m.total_memory)
    × ((a : ℕ) → a < lo → out.1.nodes a ≡ m.nodes a)

pub start-first_fit :
    (need lo end : ℕ) (bs : List Block) → start lo (first_fit need end bs).1 ≡ start lo bs
unfolding first_fit
start-first_fit need lo end [] = refl
start-first_fit need lo end (b ∷ bs) = ground arith

take-head :
    (m : MemoryManager) (lo need : ℕ)
    → ((take_node m lo need).head ≡ m.head) × ((take_node m lo need).total_memory ≡ m.total_memory)
unfolding take_node split_node
take-head m lo need = ground arith

module _ (m : MemoryManager) (lo need : ℕ) (b : Block) (bs : List Block) (positive : 0 < lo)
    (low : node_size ≤ need) (high : need < 2 ^ 64) (r : Represents m.nodes lo (b ∷ bs)) where
  abbrev fits : Bool
  fits = b.free && leb need b.size

  first_fit-here :
      fits ≡ true
      → ((first_fit need lo (b ∷ bs)).0 ≡ lo + node_size)
        × ((first_fit need lo (b ∷ bs)).1 ≡ taken_blocks need b bs)
  unfolding first_fit
  first_fit-here h = rw h (refl, refl)

  Refines-here : fits ≡ true → Refines m lo (b ∷ bs) need (lo + node_size, take_node m lo need)
  Refines-here h =
      let t = take-Represents m lo need b bs low high (ground arith) r in
      let e = first_fit-here h in
      let c = take-head m lo need in
      (sym e.0, rw e.1 t, c.0, c.1, λ a below. take-same m lo need a below)

  Refines-later :
      fits ≡ false
      → (out : ℕ × MemoryManager) → Refines m (lo + node_size + b.size) bs need out
      → Refines m lo (b ∷ bs) need out
  unfolding first_fit Represents
  Refines-later h out i =
      let end = lo + node_size + b.size in
      let here = i.4 lo (omega arith) in
      rw h (
        i.0,
        (
          ap (λ (n : MmNode). n.mem_size) here ∙ r.0,
          ap (λ (n : MmNode). n.is_free) here ∙ r.1,
          ap (λ (n : MmNode). n.next) here ∙ r.2 ∙ sym (start-first_fit need end end bs),
          i.1,
        ),
        i.2,
        i.3,
        λ a below. i.4 a (omega arith),
      )

  alloc_from-step :
      (limit : ℕ)
      → alloc_from (suc limit) m lo need ≡ (
          if fits
          then some (lo + node_size, take_node m lo need)
          else alloc_from limit m (start (lo + node_size + b.size) bs) need)
  unfolding alloc_from Represents
  alloc_from-step limit = rw (r.0, r.1, r.2) (ground arith)

-- The loop ends within as many rounds as there are blocks.
pub alloc_from-Refines :
    (m : MemoryManager) (limit need lo : ℕ) (bs : List Block)
    → 0 < lo
    → node_size ≤ need
    → need < 2 ^ 64
    → length bs ≤ limit
    → Represents m.nodes lo bs
    → Returns (Refines m lo bs need) (alloc_from limit m (start lo bs) need)
unfolding alloc_from first_fit Represents
alloc_from-Refines m zero need lo [] p l h e r = (refl, tt, refl, refl, λ a below. refl)
alloc_from-Refines m (suc limit) need lo [] p l h e r = (refl, tt, refl, refl, λ a below. refl)
alloc_from-Refines m zero need lo (b ∷ bs) p l h e r = absurd (omega arith)
alloc_from-Refines m (suc limit) need lo (b ∷ bs) p l h e r =
    let end = lo + node_size + b.size in
    let i = alloc_from-Refines m limit need end bs (omega arith) l h (omega arith) r.3 in
    rw (alloc_from-step m lo need b bs p l h r limit)
      elim (Bool-cases (b.free && leb need b.size)) [
        | inl f ↦ rw f (Refines-here m lo need b bs p l h r f)
        | inr f ↦ rw f (
            Returns-map (Refines m end bs need) (Refines m lo (b ∷ bs) need)
              (alloc_from limit m (start end bs) need)
              (λ out. Refines-later m lo need b bs p l h r f out) i)
      ]
