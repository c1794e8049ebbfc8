-- ===== src/Kernel/Memory/Blocks.antt =====
-- What a list of headers stands for: a memory that is cut into blocks, one behind the other. The
-- specification of the memory manager is in terms of these blocks.
use tp_so.Base.{
  ℕ, ◌+◌, ◌-◌, ◌≤◌, ◌<◌, ◌≡◌, refl, ap, ◌∙◌, List, [], ◌∷◌, Bool, true, false, ◌&&◌, arith, ltb,
  leb, if◌then◌else◌, ◌≢◌,
}
use tp_so.Ipc.Buffer.{null}
use tp_so.Kernel.Memory.{MmNode, node_size}

pub record Block : Type 0 where
  pub size : ℕ
  pub free : Bool

abbrev pub block : ℕ → Bool → Block
block n f = record { size = n; free = f }

-- The bytes that blocks take up, headers included.
unfoldable pub extent : List Block → ℕ
extent [] = 0
extent (b ∷ bs) = node_size + b.size + extent bs

-- The pointer to the first of the blocks that start at `lo`.
abbrev pub start : ℕ → List Block → ℕ
start lo [] = null
start lo (b ∷ bs) = lo

-- The headers from `lo` on stand for the blocks.
unfoldable pub Represents : (ℕ → MmNode) → ℕ → List Block → Type 0
Represents nodes lo [] = Unit
Represents nodes lo (b ∷ bs) =
    let end = lo + node_size + b.size in
    ((nodes lo).mem_size ≡ b.size)
    × ((nodes lo).is_free ≡ b.free)
    × ((nodes lo).next ≡ start end bs)
    × Represents nodes end bs

-- First fit: the address of the bytes, NULL if there are none, and the blocks afterwards. A block
-- that is larger than needed is split, with the header taken off the part that is handed out.
unfoldable pub first_fit : ℕ → ℕ → List Block → ℕ × List Block
first_fit need lo [] = (null, [])
first_fit need lo (b ∷ bs) =
    let rest = first_fit need (lo + node_size + b.size) bs in
    if b.free && leb need b.size
    then (
      lo + node_size,
      if ltb need b.size
          then block (need - node_size) false ∷ block (b.size - need) true ∷ bs
          else block b.size false ∷ bs,
    )
    else (rest.0, b ∷ rest.1)

-- Headers from `lo` on that are the same stand for the same blocks.
pub Represents-congr :
    (nodes other : ℕ → MmNode) (bs : List Block) (lo : ℕ)
    → ((a : ℕ) → lo ≤ a → other a ≡ nodes a)
    → Represents nodes lo bs
    → Represents other lo bs
unfolding Represents
Represents-congr nodes other [] lo same r = tt
Represents-congr nodes other (b ∷ bs) lo same r =
    let here = same lo (omega arith) in
    (
      ap (λ (n : MmNode). n.mem_size) here ∙ r.0,
      ap (λ (n : MmNode). n.is_free) here ∙ r.1,
      ap (λ (n : MmNode). n.next) here ∙ r.2,
      Represents-congr nodes other bs (lo + node_size + b.size) (λ a h. same a (omega arith)) r.3,
    )

-- The memory that is cut stays the same.
pub extent-first_fit :
    (need lo : ℕ) (bs : List Block) → node_size ≤ need → extent (first_fit need lo bs).1 ≡ extent bs
unfolding extent first_fit
extent-first_fit need lo [] h = refl
extent-first_fit need lo (b ∷ bs) h =
    ground (arith, extent-first_fit need (lo + node_size + b.size) bs h)

-- What is handed out lies in the memory that is cut, header and bytes asked for.
pub first_fit-inside :
    (need lo : ℕ) (bs : List Block)
    → 0 < lo
    → (first_fit need lo bs).0 ≢ null
    → (lo + node_size ≤ (first_fit need lo bs).0)
      × ((first_fit need lo bs).0 + need ≤ lo + extent bs + node_size)
unfolding extent first_fit
first_fit-inside need lo [] p h = absurd (h refl)
first_fit-inside need lo (b ∷ bs) p h =
    ground (arith, first_fit-inside need (lo + node_size + b.size) bs)
