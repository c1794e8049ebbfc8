-- ===== src/Kernel/Buddy/Sizes.antt =====
-- `align`, and the size that `genericAllocMemory` looks for.
use Prim.Native.Nat.{max, digits, bit_or, bit_or-bitwise}
use native.Mathlib.Numerals.{unary_clauses}
use tp_so.Base.{
  ℕ, zero, suc, ◌*◌, ◌/◌, ◌%◌, ◌^◌, ◌≤◌, ◌<◌, ◌≡◌, arith, ltb, if◌then◌else◌, false, inl, inr,
  Bool-cases, sym, ap, ◌∙◌, dec_lt,
}
use tp_so.Kernel.Buddy.{align, or_shifted, is_power_of_2, block_size_for, block}

-- `bit_or` sets no bit that neither of its arguments has, and unsets none.
abbrev or_digits : ℕ → ℕ → ℕ → ℕ
or_digits n a b = digits (λ b. b) max n a b

le-or_digits : (n a b : ℕ) → a ≤ n → a ≤ or_digits n a b
le-or_digits zero a b h = omega arith
le-or_digits (suc n) zero b h = omega arith
le-or_digits (suc n) (suc a) b h = omega (arith, le-or_digits n (suc a / 2) (b / 2) (omega arith))

or_digits-lt : (k n a b : ℕ) → a < 2 ^ k → b < 2 ^ k → or_digits n a b < 2 ^ k
or_digits-lt k zero a b h i = i
or_digits-lt k (suc n) zero b h i = i
or_digits-lt zero (suc n) (suc a) b h i = absurd (omega arith)
or_digits-lt (suc k) (suc n) (suc a) b h i =
    let two : 2 ^ suc k ≡ 2 * 2 ^ k = simp unary_clauses (omega arith) in
    omega (arith, two, or_digits-lt k n (suc a / 2) (b / 2) (omega arith) (omega arith))

le-bit_or : (a b : ℕ) → a ≤ bit_or a b
le-bit_or a b = simp bit_or-bitwise (le-or_digits a a b (omega arith))

bit_or-lt : (k a b : ℕ) → a < 2 ^ k → b < 2 ^ k → bit_or a b < 2 ^ k
bit_or-lt k a b h i = simp bit_or-bitwise (or_digits-lt k a a b h i)

-- One line of `align`.
abbrev Between : ℕ → ℕ → Type 0
Between size x = (size ≤ x) × (x < 2 ^ 31)

or_shifted-Between : (size k x : ℕ) → x / 2 ^ k ≤ x → Between size x → Between size (or_shifted x k)
or_shifted-Between size k x less h = (
  omega (arith, le-bit_or x (x / 2 ^ k), h.0),
  bit_or-lt 31 x (x / 2 ^ k) h.1 (omega (arith, h.1)),
)

align-Between : (size : ℕ) → size < 2 ^ 31 → (size < align size) × (align size ≤ 2 ^ 31)
unfolding align
align-Between size h =
    let h1 = or_shifted-Between size 1 size (omega arith) (omega arith, h) in
    let h2 = or_shifted-Between size 2 (or_shifted size 1) (omega arith) h1 in
    let h3 = or_shifted-Between size 4 (or_shifted (or_shifted size 1) 2) (omega arith) h2 in
    let h4 =
      or_shifted-Between size 8 (or_shifted (or_shifted (or_shifted size 1) 2) 4) (omega arith)
        h3 in
    let h5 =
      or_shifted-Between size 16 (or_shifted (or_shifted (or_shifted (or_shifted size 1) 2) 4) 8)
        (omega arith) h4 in
    (omega (arith, h5.0, h5.1), omega (arith, h5.0, h5.1))

below-top : (x : ℕ) → x ≤ 2 ^ 31 → is_power_of_2 x ≡ false → x < 2 ^ 31
below-top x h e = elim (dec_lt x (2 ^ 31)) [
  | yes p ↦ p
  | no q ↦
      let top : x ≡ 2 ^ 31 = omega (arith, h, q) in
      let power : is_power_of_2 (2 ^ 31) ≡ false = ap is_power_of_2 (sym top) ∙ e in cc
]

aligned :
    (x : ℕ)
    → x ≤ 2 ^ 31
    → let y = (if is_power_of_2 x then x else align x) % 2 ^ 32 in (x ≤ y) × (y ≤ 2 ^ 31)
aligned x h = elim (Bool-cases (is_power_of_2 x)) [
  | inl e ↦ rw e (omega arith, omega arith)
  | inr e ↦
      let a = align-Between x (below-top x h e) in
      rw e (omega (arith, a.0, a.1), omega (arith, a.0, a.1))
]

-- The size that is looked for is not smaller than what is asked for, nor than a page.
pub block_size_for-Between :
    (size : ℕ)
    → size ≤ 2 ^ 31
    → (size ≤ block_size_for size) × (block ≤ block_size_for size) × (block_size_for size ≤ 2 ^ 31)
unfolding block_size_for
block_size_for-Between size h =
    let least = (if ltb size block then block else size) in
    let a = aligned least (ground arith) in (ground (arith, a.0), ground (arith, a.0), a.1)
