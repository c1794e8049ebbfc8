-- ===== src/Kernel/Buddy/Tree.antt =====
-- The tree that the nodes stand for, and what is done to it.
use tp_so.Base.{
  ℕ, zero, suc, ◌+◌, ◌-◌, ◌*◌, ◌/◌, ◌≤◌, ◌≡◌, ◌&&◌, ◌||◌, List, [], ◌∷◌, ◌++◌, ltb, leb, ◌==◌,
  if◌then◌else◌,
}
use tp_so.Ipc.Buffer.{null}
use tp_so.Kernel.Buddy.{
  MemNode, MemoryStatus, empty, partial, full, is_full, is_partial, is_empty, mem_node_size,
}

-- A part of the memory: free, used, or halved.
pub data Part : Type 0 where
  free used : Part
  halves : Part → Part → Part

abbrev pub join_status : MemoryStatus → MemoryStatus → MemoryStatus
join_status l r =
    if is_full l && is_full r
    then full
    else if is_full l || is_full r || is_partial l || is_partial r
    then partial
    else empty

unfoldable pub status_of : Part → MemoryStatus
status_of free = empty
status_of used = full
status_of (halves l r) = join_status (status_of l) (status_of r)

-- Where the halves of a part at `a` of `s` bytes stand, and how many bytes each has.
abbrev pub left_at : ℕ → ℕ
left_at a = a + mem_node_size

abbrev pub right_at : ℕ → ℕ → ℕ
right_at a s = a + s / 2 + mem_node_size

abbrev pub half_of : ℕ → ℕ
half_of s = s / 2 - mem_node_size

abbrev pub Node : MemNode → ℕ → MemoryStatus → ℕ → ℕ → Type 0
Node n s st l r = (n.size ≡ s) × (n.status ≡ st) × (n.left ≡ l) × (n.right ≡ r)

-- The nodes from `a` on stand for the part.
unfoldable pub Stands : (ℕ → MemNode) → ℕ → ℕ → Part → Type 0
Stands nodes a s free = Node (nodes a) s empty null null
Stands nodes a s used = Node (nodes a) s full null null
Stands nodes a s (halves l r) =
    Node (nodes a) s (status_of (halves l r)) (left_at a) (right_at a s)
    × (2 * mem_node_size ≤ s)
    × Stands nodes (left_at a) (half_of s) l
    × Stands nodes (right_at a s) (half_of s) r

-- No pointer stands in what is free, which the nodes of its halves would take for theirs.
unfoldable pub Clean : (ℕ → MemNode) → ℕ → ℕ → Part → Type 0
Clean nodes a s free =
    (c : ℕ)
    → left_at a ≤ c
    → c + mem_node_size ≤ left_at a + s
    → ((nodes c).left ≡ null) × ((nodes c).right ≡ null)
Clean nodes a s used = Unit
Clean nodes a s (halves l r) =
    Clean nodes (left_at a) (half_of s) l × Clean nodes (right_at a s) (half_of s) r

-- The leftmost free part that is large enough, halved as often as both halves stay as large as needed.
unfoldable pub allocate : ℕ → ℕ → ℕ → ℕ → Part → ℕ × Part
allocate d need a s used = (null, used)
allocate zero need a s p = (null, p)
allocate (suc d) need a s free =
    let x = allocate d need (left_at a) (half_of s) free in
    if ltb s need
    then (null, free)
    else if leb need (s / 2)
    then (x.0, halves x.1 free)
    else (a + mem_node_size, used)
allocate (suc d) need a s (halves l r) =
    let x = allocate d need (left_at a) (half_of s) l in
    let y = allocate d need (right_at a s) (half_of s) r in
    if is_full (status_of (halves l r))
    then (null, halves l r)
    else if x.0 == null
    then (y.0, halves x.1 y.1)
    else (x.0, halves x.1 r)

-- The used part whose bytes begin at `p` is freed, and free halves are joined.
abbrev pub rejoin : Part → Part → Part
rejoin l r = if is_empty (status_of (halves l r)) then free else halves l r

unfoldable pub release_at : ℕ → ℕ → Part → ℕ → Part
release_at a s free p = free
release_at a s used p = if a + mem_node_size == p then free else used
release_at a s (halves l r) p =
    if ltb p (right_at a s + mem_node_size)
    then rejoin (release_at (left_at a) (half_of s) l p) r
    else rejoin l (release_at (right_at a s) (half_of s) r p)

-- The blocks that are used: where their bytes begin, and how many they are.
unfoldable pub blocks : ℕ → ℕ → Part → List (ℕ × ℕ)
blocks a s free = []
blocks a s used = (a + mem_node_size, s) ∷ []
blocks a s (halves l r) = blocks (left_at a) (half_of s) l ++ blocks (right_at a s) (half_of s) r
