-- ===== src/Kernel/Queues/Levels.antt =====
-- How often a node stands in the levels: what linking at the end, taking the first and setting one
-- level do to the count.
use tp_so.Base.{
  ℕ, zero, suc, ◌+◌, ◌<◌, ◌≡◌, refl, ap, ◌≢◌, List, [], ◌∷◌, arith, ◌==◌, if◌then◌else◌, length,
  get_or, set, count, count-append,
}
use tp_so.Ipc.Buffer.{null}
use tp_so.Kernel.Process.{concat}
use tp_so.Kernel.Queues.{link_last, pop_first, level_of}

-- 1 for the node itself, else 0.
abbrev pub one_at : ℕ → ℕ → ℕ
one_at x a = if x == a then 1 else 0

pub level_of-lt : (aging : ℕ) → level_of aging < 6
unfolding level_of
level_of-lt aging = ground arith

pub count-link_last :
    (a node : ℕ) (q : List ℕ) → node ≢ null → count a (link_last q node) ≡ count a q + one_at node a
count-link_last a node q h = ground (arith, count-append a q (node ∷ []), count_one a node)
  where
    count_one : (a x : ℕ) → count a (x ∷ []) ≡ one_at x a
    count_one a x = unfold count in ground arith

pub count-set :
    (a : ℕ) (qs : List (List ℕ)) (i : ℕ) (q : List ℕ)
    → i < length qs
    → count a (concat (set qs i q)) + count a (get_or qs i []) ≡ count a (concat qs) + count a q
unfolding concat
count-set a [] i q h = absurd (omega arith)
count-set a (p ∷ qs) zero q h =
    omega (arith, count-append a q (concat qs), count-append a p (concat qs))
count-set a (p ∷ qs) (suc i) q h = omega (
  arith,
  count-append a p (concat (set qs i q)),
  count-append a p (concat qs),
  count-set a qs i q (omega arith),
)

pub count-link_level :
    (a node i : ℕ) (qs : List (List ℕ))
    → node ≢ null
    → i < length qs
    → count a (concat (set qs i (link_last (get_or qs i []) node)))
      ≡ count a (concat qs) + one_at node a
count-link_level a node i qs h small = omega (
  arith,
  count-set a qs i (link_last (get_or qs i []) node) small,
  count-link_last a node (get_or qs i []) h,
)

pub length-pop_first : (qs : List (List ℕ)) → length (pop_first qs).1 ≡ length qs
unfolding pop_first
length-pop_first [] = refl
length-pop_first ([] ∷ qs) = ap suc (length-pop_first qs)
length-pop_first ((x ∷ q) ∷ qs) = refl

-- The node taken, and the rest, make up the levels; without NULL in them, NULL is taken only where
-- they are all empty.
pub count-pop_first :
    (a : ℕ) (qs : List (List ℕ))
    → count null (concat qs) ≡ 0
    → ((pop_first qs).0 ≢ null
        → count a (concat qs) ≡ one_at (pop_first qs).0 a + count a (concat (pop_first qs).1))
      × ((pop_first qs).0 ≡ null → (concat qs ≡ []) × (concat (pop_first qs).1 ≡ []))
unfolding pop_first concat
count-pop_first a [] h = (λ ne. absurd (ne refl), λ e. (refl, refl))
count-pop_first a ([] ∷ qs) h = count-pop_first a qs h
count-pop_first a ((x ∷ q) ∷ qs) h = unfold count in (λ ne. omega arith, λ e. absurd (ground arith))
