-- ===== src/Kernel/Buddy/Blocks.antt =====
-- The blocks of the tree: they lie apart from each other, and `allocate` adds one.
use tp_so.Base.{
  ℕ, zero, suc, ◌+◌, ◌*◌, ◌/◌, ◌≤◌, ◌<◌, ◌≡◌, ◌≢◌, inl, inr, refl, sym, ap, true, List, [], ◌∷◌,
  ◌++◌, ◌==◌, arith, Bool-cases, lt→ltb, dec_lt,
}
use mathlib.Core.List.{append_assoc}
use tp_so.Ipc.Buffer.{null}
use tp_so.Kernel.Buddy.{MemNode, mem_node_size, is_full}
use tp_so.Kernel.Buddy.Frame.{le→ltb, le→leb, lt→leb}
use tp_so.Kernel.Buddy.Tree.{
  Part, free, used, halves, status_of, left_at, right_at, half_of, Stands, allocate, blocks,
}

-- Blocks in the order of their addresses, within bounds, none of which reaches into the header of the next.
unfoldable pub Apart : ℕ → ℕ → List (ℕ × ℕ) → Type 0
Apart lo hi [] = lo ≤ hi
Apart lo hi (b ∷ bs) = (lo + mem_node_size ≤ b.0) × Apart (b.0 + b.1) hi bs

Apart-append :
    (lo mid hi : ℕ) (xs ys : List (ℕ × ℕ))
    → Apart lo mid xs
    → Apart mid hi ys
    → Apart lo hi (xs ++ ys)
unfolding Apart
Apart-append lo mid hi [] [] p q = omega (arith, p, q)
Apart-append lo mid hi [] (y ∷ ys) p q = (omega (arith, p, q.0), q.1)
Apart-append lo mid hi (x ∷ xs) ys p q = (p.0, Apart-append (x.0 + x.1) mid hi xs ys p.1 q)

pub Apart-wider :
    (lo lo1 hi hi1 : ℕ) (xs : List (ℕ × ℕ))
    → lo1 ≤ lo
    → hi ≤ hi1
    → Apart lo hi xs
    → Apart lo1 hi1 xs
unfolding Apart
Apart-wider lo lo1 hi hi1 [] p q h = omega (arith, h)
Apart-wider lo lo1 hi hi1 (x ∷ xs) p q h =
    (omega (arith, h.0), Apart-wider (x.0 + x.1) (x.0 + x.1) hi hi1 xs (omega arith) q h.1)

pub blocks-Apart :
    (f : ℕ → MemNode) (a s : ℕ) (p : Part) → Stands f a s p → Apart a (left_at a + s) (blocks a s p)
unfolding Apart Stands blocks
blocks-Apart f a s free h = omega arith
blocks-Apart f a s used h = (omega arith, omega arith)
blocks-Apart f a s (halves l r) h =
    Apart-append a (right_at a s) (left_at a + s) (blocks (left_at a) (half_of s) l)
      (blocks (right_at a s) (half_of s) r)
      (Apart-wider _ _ _ _ (blocks (left_at a) (half_of s) l) (omega arith) (omega (arith, h.1))
        (blocks-Apart f (left_at a) (half_of s) l h.2))
      (Apart-wider _ _ _ _ (blocks (right_at a s) (half_of s) r) (omega arith) (omega (arith, h.1))
        (blocks-Apart f (right_at a s) (half_of s) r h.3))

-- `v` is NULL and the blocks are the same, or there is one block more, at `v`, which is as large as
-- needed and not twice as large.
pub data Adds (need v : ℕ) (old new : List (ℕ × ℕ)) : Type 0 where
  nothing : v ≡ null → new ≡ old → Adds need v old new
  block_at :
      (k : ℕ) (xs ys : List (ℕ × ℕ))
      → v ≢ null
      → need ≤ k
      → k < 2 * need
      → old ≡ xs ++ ys
      → new ≡ xs ++ (v, k) ∷ ys
      → Adds need v old new

Adds-before :
    (need v : ℕ) (old new ws : List (ℕ × ℕ))
    → Adds need v old new
    → Adds need v (ws ++ old) (ws ++ new)
Adds-before need v old new ws (nothing e h) = nothing e (ap (λ (zs : List (ℕ × ℕ)). ws ++ zs) h)
Adds-before need v old new ws (block_at k xs ys n lo hi e h) =
    block_at k (ws ++ xs) ys n lo hi (rw e (sym (append_assoc ws xs ys)))
      (rw h (sym (append_assoc ws xs _)))

Adds-after :
    (need v : ℕ) (old new ws : List (ℕ × ℕ))
    → Adds need v old new
    → Adds need v (old ++ ws) (new ++ ws)
Adds-after need v old new ws (nothing e h) = nothing e (ap (λ (zs : List (ℕ × ℕ)). zs ++ ws) h)
Adds-after need v old new ws (block_at k xs ys n lo hi e h) =
    block_at k xs (ys ++ ws) n lo hi (rw e (append_assoc xs ys ws)) (rw h (append_assoc xs _ ws))

-- What `allocate` does to the blocks.
abbrev AddsTo : ℕ → ℕ → ℕ → Part → ℕ × Part → Type 0
AddsTo need a s p x = Adds need x.0 (blocks a s p) (blocks a s x.1)

allocate-free :
    (d need a s : ℕ)
    → AddsTo need (left_at a) (half_of s) free (allocate d need (left_at a) (half_of s) free)
    → AddsTo need a s free (allocate (suc d) need a s free)
unfolding allocate blocks
allocate-free d need a s ih = elim (dec_lt s need) [
  | yes h ↦ rw (lt→ltb s need h) (nothing refl refl)
  | no h ↦ elim (dec_lt (s / 2) need) [
    | yes i ↦
        rw (le→ltb s need (omega (arith, h)), lt→leb need (s / 2) i)
          (block_at s [] [] (omega arith) (omega (arith, h)) (omega arith) refl refl)
    | no i ↦
        rw (le→ltb s need (omega (arith, h)), le→leb need (s / 2) (omega (arith, i)))
          (Adds-after need _ [] _ [] ih)
  ]
]

Adds-null :
    (need v : ℕ) (old new : List (ℕ × ℕ)) → Adds need v old new → (v == null) ≡ true → new ≡ old
Adds-null need v old new (nothing e h) i = h
Adds-null need v old new (block_at k xs ys n lo hi e h) i = absurd (n (ground arith))

allocate-halves :
    (d need a s : ℕ) (l r : Part)
    → AddsTo need (left_at a) (half_of s) l (allocate d need (left_at a) (half_of s) l)
    → AddsTo need (right_at a s) (half_of s) r (allocate d need (right_at a s) (half_of s) r)
    → AddsTo need a s (halves l r) (allocate (suc d) need a s (halves l r))
unfolding allocate blocks
allocate-halves d need a s l r hl hr =
    let x = allocate d need (left_at a) (half_of s) l in
    let y = allocate d need (right_at a s) (half_of s) r in
    let old = blocks (right_at a s) (half_of s) r in
    elim (Bool-cases (is_full (status_of (halves l r)))) [
      | inl e ↦ rw e (nothing refl refl)
      | inr e ↦ elim (Bool-cases (x.0 == null)) [
        | inl i ↦
            let same = Adds-null need x.0 _ _ hl i in
            rw (e, i, same) (Adds-before need y.0 old _ (blocks (left_at a) (half_of s) l) hr)
        | inr i ↦ rw (e, i) (Adds-after need x.0 _ _ old hl)
      ]
    ]

pub allocate-Adds : (d need a s : ℕ) (p : Part) → AddsTo need a s p (allocate d need a s p)
unfolding allocate blocks
allocate-Adds d need a s used = nothing refl refl
allocate-Adds zero need a s free = nothing refl refl
allocate-Adds zero need a s (halves l r) = nothing refl refl
allocate-Adds (suc d) need a s free =
    allocate-free d need a s (allocate-Adds d need (left_at a) (half_of s) free)
allocate-Adds (suc d) need a s (halves l r) =
    allocate-halves d need a s l r (allocate-Adds d need (left_at a) (half_of s) l)
      (allocate-Adds d need (right_at a s) (half_of s) r)
