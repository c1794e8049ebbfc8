-- ===== src/Kernel/Bytes/Copy.antt =====
-- What `memset` and `memcpy` leave in each byte.
use tp_so.Base.{
  ℕ, zero, suc, ◌+◌, ◌-◌, ◌*◌, ◌/◌, ◌%◌, ◌≤◌, ◌<◌, ◌≡◌, ◌⊎◌, inl, inr, sym, ap, ◌∙◌, ◌&&◌, leb, ltb,
  ◌==◌, if◌then◌else◌, arith, Bool-cases,
}
use tp_so.Kernel.{update}
use tp_so.Kernel.Bytes.{Bytes, set_bytes, memset, copy_word, copy_words, copy_bytes, memcpy}

-- Each of `n` bytes from `d` on holds what the byte at the same place from `s` on held, and the others
-- are as they were.
abbrev pub Copied : Bytes → Bytes → ℕ → ℕ → ℕ → Type 0
Copied m m1 d s n = (a : ℕ) → m1 a ≡ (if leb d a && ltb a (d + n) then m (s + (a - d)) else m a)

abbrev pub Filled : Bytes → Bytes → ℕ → ℕ → ℕ → Type 0
Filled m m1 d v n = (a : ℕ) → m1 a ≡ (if leb d a && ltb a (d + n) then v else m a)

pub set_bytes-Filled :
    (m : Bytes) (dst chr length : ℕ) → Filled m (set_bytes m dst chr length) dst chr length
unfolding set_bytes
set_bytes-Filled m dst chr zero a = ground arith
set_bytes-Filled m dst chr (suc length) a =
    ground (arith, set_bytes-Filled (update m (dst + length) chr) dst chr length a)

pub memset-Filled :
    (m : Bytes) (dst c length : ℕ) → c < 256 → Filled m (memset m dst c length) dst c length
unfolding memset
memset-Filled m dst c length h a =
    let e : c % 256 ≡ c = omega (arith, h) in rw e (set_bytes-Filled m dst c length a)

-- One copy after another, where the second does not read what the first has changed.
module _ (m m1 r : Bytes) (d s k n t : ℕ) (whole : t ≡ k + n) (first : Copied m m1 d s k)
    (next : Copied m1 r (d + k) (s + k) n) where
  unread : (d + k ≤ s) ⊎ (d ≡ s) → (c : ℕ) → s + k ≤ c → m1 c ≡ m c
  unread (inl h) c i = ground (arith, first c)
  unread (inr h) c i = ground (arith, first c)

  then-Copied : (d + k ≤ s) ⊎ (d ≡ s) → Copied m r d s t
  then-Copied h a = elim (Bool-cases (leb (d + k) a)) [
    | inl e ↦
        let same : (s + k) + (a - (d + k)) ≡ s + (a - d) = ground arith in
        let there : m1 ((s + k) + (a - (d + k))) ≡ m (s + (a - d)) =
          unread h _ (omega arith) ∙ ap m same in
        ground (arith, next a, first a, there, e)
    | inr e ↦ ground (arith, next a, first a, e)
  ]

at-offset : (m : Bytes) (d s a i : ℕ) → a ≡ d + i → m (s + i) ≡ m (s + (a - d))
at-offset m d s a i h = let e : s + i ≡ s + (a - d) = omega arith in ap m e

one-Copied : (m : Bytes) (d s : ℕ) → Copied m (update m d (m s)) d s 1
one-Copied m d s a = ground (arith, at-offset m d s a 0)

-- Forwards it is no matter that the target reaches into the source.
pub copy_bytes-Copied : (m : Bytes) (d s n : ℕ) → d ≤ s → Copied m (copy_bytes m d s n) d s n
unfolding copy_bytes
copy_bytes-Copied m d s zero h a = ground arith
copy_bytes-Copied m d s (suc n) h a =
    then-Copied m (update m d (m s)) (copy_bytes (update m d (m s)) (d + 1) (s + 1) n) d s 1 n
      (suc n) (omega arith) (one-Copied m d s)
      (copy_bytes-Copied (update m d (m s)) (d + 1) (s + 1) n (omega arith)) (ground arith) a

word-Copied : (m : Bytes) (d s : ℕ) → Copied m (copy_word m d s) d s 4
unfolding copy_word
word-Copied m d s a =
    ground
      (arith, at-offset m d s a 0, at-offset m d s a 1, at-offset m d s a 2, at-offset m d s a 3)

pub copy_words-Copied :
    (m : Bytes) (d s n : ℕ) → (d + 4 ≤ s) ⊎ (d ≡ s) → Copied m (copy_words m d s n) d s (4 * n)
unfolding copy_words
copy_words-Copied m d s zero h a = ground arith
copy_words-Copied m d s (suc n) h a =
    then-Copied m (copy_word m d s) (copy_words (copy_word m d s) (d + 4) (s + 4) n) d s 4 (4 * n)
      (4 * suc n) (omega arith) (word-Copied m d s)
      (copy_words-Copied (copy_word m d s) (d + 4) (s + 4) n (ground arith)) h a

Copied-length : (m r : Bytes) (d s k n : ℕ) → k ≡ n → Copied m r d s k → Copied m r d s n
Copied-length m r d s k n e h = rw (sym e) h

apart-words : (d s : ℕ) → d ≤ s → d % 4 ≡ 0 → s % 4 ≡ 0 → (d + 4 ≤ s) ⊎ (d ≡ s)
apart-words d s h i j = ground arith

-- `memcpy` to an address that is not behind the source, in words or in bytes: the bytes of the target
-- hold what those of the source held, and the others are as they were.
pub memcpy-Copied : (m : Bytes) (d s n : ℕ) → d ≤ s → Copied m (memcpy m d s n) d s n
unfolding memcpy
memcpy-Copied m d s n h a = elim (Bool-cases (d % 4 == 0 && s % 4 == 0 && n % 4 == 0)) [
  | inl e ↦
      let words : (d + 4 ≤ s) ⊎ (d ≡ s) = apart-words d s h (ground arith) (ground arith) in
      let whole : 4 * (n / 4) ≡ n = ground arith in
      rw e (
        Copied-length m (copy_words m d s (n / 4)) d s (4 * (n / 4)) n whole
          (copy_words-Copied m d s (n / 4) words) a)
  | inr e ↦ rw e (copy_bytes-Copied m d s n h a)
]
