-- ===== src/Ipc/Buffer/Read.antt =====
-- `readBuffer` and `copyFromBuffer` take from the front of the queue that a buffer holds.
use mathlib.Core.Path.{subst, subst₂}
use tp_so.Base.{
  ℕ, zero, suc, ◌<◌, ◌≡◌, refl, sym, ap, ◌∙◌, ◌⊎◌, inl, inr, true, false, List, [], ◌∷◌, arith, ltb,
  ◌==◌, if◌then◌else◌, length, take, drop, Bool-cases, lt→ltb, ltb→lt, ℕ_discrete,
}
use tp_so.Ipc.Buffer.{
  Buffer, can_read, advance, front, prepend, drain, drain_all, read_buffer, copy_from_buffer,
}
use tp_so.Ipc.Buffer.Window.{
  IsValid, contents, length-window, contents-advance, contents-empty, advance-IsValid,
}

-- The bytes before the first zero byte, `count` at most.
unfoldable pub text_of : ℕ → List ℕ → List ℕ
text_of zero xs = []
text_of (suc k) [] = []
text_of (suc k) (x ∷ xs) = if x == 0 then [] else x ∷ text_of k xs

-- The queue without the bytes before its first zero byte, `count` of them at most.
unfoldable pub rest_of : ℕ → List ℕ → List ℕ
rest_of zero xs = xs
rest_of (suc k) [] = []
rest_of (suc k) (x ∷ xs) = if x == 0 then x ∷ xs else rest_of k xs

-- What a read has done: the bytes, the queue that is left, and all that it leaves alone.
pub record Removed (b : Buffer) (bytes left : List ℕ) (out : List ℕ × Buffer) : Type 0 where
  pub bytes_read : out.0 ≡ bytes
  pub left_over : contents out.1 ≡ left
  pub valid : IsValid out.1
  pub same_id : out.1.buff_id ≡ b.buff_id
  pub same_state : out.1.state ≡ b.state
  pub same_end : out.1.opposite_end ≡ b.opposite_end
  pub same_references : out.1.references ≡ b.references

Removed-none :
    (b : Buffer) (left : List ℕ) → IsValid b → contents b ≡ left → Removed b [] left ([], b)
Removed-none b left v e = record {
  bytes_read = refl;
  left_over = e;
  valid = v;
  same_id = refl;
  same_state = refl;
  same_end = refl;
  same_references = refl;
}

Removed-more :
    (b : Buffer) (bytes left : List ℕ) (out : List ℕ × Buffer)
    → Removed (advance b) bytes left out
    → Removed b (front b ∷ bytes) left (prepend (front b) out)
Removed-more b bytes left (bs, c) r = record {
  bytes_read = ap (◌∷◌ (front b)) r.bytes_read;
  left_over = r.left_over;
  valid = r.valid;
  same_id = r.same_id;
  same_state = r.same_state;
  same_end = r.same_end;
  same_references = r.same_references;
}

-- The loop while no end-of-file mark stands alone (`dim` is the number of bytes at the start).
drain-Removed :
    (k dim : ℕ) (b : Buffer)
    → IsValid b
    → ((dim == 1) ≡ false) ⊎ (b.buffer_dim ≡ 0)
    → Removed b (text_of k (contents b)) (rest_of k (contents b)) (drain k dim b)
unfolding drain text_of rest_of
drain-Removed zero dim b v h = Removed-none b (contents b) v refl
drain-Removed (suc k) dim b v h = elim (Bool-cases (ltb 0 b.buffer_dim)) [
  | inr empty ↦
      rw (empty, contents-empty b (ground arith))
        (Removed-none b [] v (contents-empty b (ground arith)))
  | inl more ↦
      let pos : 0 < b.buffer_dim = ltb→lt 0 b.buffer_dim more in
      let many : (dim == 1) ≡ false = ground arith in
      elim (Bool-cases (front b == 0)) [
        | inl zero_byte ↦
            rw (more, contents-advance b pos, zero_byte, many)
              (Removed-none b (front b ∷ contents (advance b)) v (contents-advance b pos))
        | inr byte ↦
            rw (more, contents-advance b pos, byte)
              (Removed-more b (text_of k (contents (advance b))) (rest_of k (contents (advance b)))
                (drain k dim (advance b))
                (drain-Removed k dim (advance b) (advance-IsValid b v) (inl many)))
      ]
]

ltb_irrefl : (a b : ℕ) → b ≡ a → ltb a b ≡ false
ltb_irrefl a b e = ground arith

rest_of-nil : (k : ℕ) → rest_of k [] ≡ []
unfolding rest_of
rest_of-nil zero = refl
rest_of-nil (suc k) = refl

-- The loop on a buffer of one byte: that byte goes, whether it is an end-of-file mark or not.
drain_one :
    (k : ℕ) (b : Buffer)
    → IsValid b
    → b.buffer_dim ≡ 1
    → Removed b (text_of (suc k) (contents b)) [] (drain (suc k) 1 b)
unfolding drain text_of
drain_one k b v one =
    let pos : 0 < b.buffer_dim = omega arith in
    let none_left : contents (advance b) ≡ [] = contents-empty (advance b) (omega arith) in
    elim (Bool-cases (front b == 0)) [
      | inl zero_byte ↦
          rw (contents-advance b pos, lt→ltb 0 b.buffer_dim pos, zero_byte)
            (record {
              bytes_read = refl;
              left_over = none_left;
              valid = advance-IsValid b v;
              same_id = refl;
              same_state = refl;
              same_end = refl;
              same_references = refl;
            })
      | inr byte ↦
          rw (contents-advance b pos, lt→ltb 0 b.buffer_dim pos, byte)
            (Removed-more b (text_of k (contents (advance b))) [] (drain k 1 (advance b)) (
              subst
                (λ l.
                  Removed (advance b) (text_of k (contents (advance b))) l (drain k 1 (advance b)))
                (ap (rest_of k) none_left ∙ rest_of-nil k)
                (drain-Removed k 1 (advance b) (advance-IsValid b v) (inr (omega arith)))))
    ]

-- The queue after a read of `count` bytes: a byte that stands alone goes, also an end-of-file mark;
-- from more bytes, those read go.
unfoldable pub left_after : ℕ → List ℕ → List ℕ
left_after zero xs = xs
left_after (suc k) [] = []
left_after (suc k) (x ∷ []) = []
left_after (suc k) (x ∷ y ∷ xs) = rest_of (suc k) (x ∷ y ∷ xs)

left_after_many : (k : ℕ) (xs : List ℕ) → 1 < length xs → left_after (suc k) xs ≡ rest_of (suc k) xs
unfolding left_after
left_after_many k [] h = absurd (omega arith)
left_after_many k (x ∷ []) h = absurd (omega arith)
left_after_many k (x ∷ y ∷ xs) h = refl

left_after_one : (k : ℕ) (xs : List ℕ) → length xs ≡ 1 → left_after (suc k) xs ≡ []
unfolding left_after
left_after_one k [] h = refl
left_after_one k (x ∷ []) h = refl
left_after_one k (x ∷ y ∷ xs) h = absurd (omega arith)

drain_start :
    (k : ℕ) (b : Buffer)
    → IsValid b
    → 0 < b.buffer_dim
    → Removed b
        (text_of (suc k) (contents b))
        (left_after (suc k) (contents b))
        (drain (suc k) b.buffer_dim b)
drain_start k b v pos =
    let len : length (contents b) ≡ b.buffer_dim = length-window b.buffer b.cursor b.buffer_dim in
    elim (ℕ_discrete b.buffer_dim 1) [
      | yes one ↦
          subst₂ (λ l d. Removed b (text_of (suc k) (contents b)) l (drain (suc k) d b))
            (sym (left_after_one k (contents b) (len ∙ one))) (sym one) (drain_one k b v one)
      | no many ↦
          subst (λ l. Removed b (text_of (suc k) (contents b)) l (drain (suc k) b.buffer_dim b))
            (sym (left_after_many k (contents b) (omega arith)))
            (drain-Removed (suc k) b.buffer_dim b v (inl (ground arith)))
    ]

read-eq-drain :
    (b : Buffer) (k : ℕ)
    → can_read b.state ≡ true
    → 0 < b.buffer_dim
    → read_buffer b (suc k) ≡ drain (suc k) b.buffer_dim b
unfolding read_buffer
read-eq-drain b k r pos = rw (lt→ltb 0 (suc k) (omega arith), lt→ltb 0 b.buffer_dim pos, r)

-- A read that a guard refuses (no bytes wanted, none there, or a buffer that is not readable)
-- returns nothing and leaves the buffer as it was.
pub read_buffer_refuses :
    (b : Buffer) (count : ℕ)
    → (count ≡ 0) ⊎ ((b.buffer_dim ≡ 0) ⊎ (can_read b.state ≡ false))
    → read_buffer b count ≡ ([], b)
unfolding read_buffer
read_buffer_refuses b count h = ground arith

-- A read from a valid buffer that may be read returns the bytes before the first zero byte, `count`
-- at most, and takes them out of the queue; a zero byte (the end-of-file mark) ends the read and
-- stays, unless it stands alone. The buffer stays valid and its other fields do not change.
pub read_buffer-Removed :
    (b : Buffer) (count : ℕ)
    → IsValid b
    → can_read b.state ≡ true
    → Removed b (text_of count (contents b)) (left_after count (contents b)) (read_buffer b count)
read_buffer-Removed b zero v r =
    rw (read_buffer_refuses b zero (inl refl))
      (unfold text_of left_after in Removed-none b (contents b) v refl)
read_buffer-Removed b (suc k) v r = elim (ℕ_discrete b.buffer_dim 0) [
  | yes empty ↦
      rw (read_buffer_refuses b (suc k) (inr (inl empty)), contents-empty b empty)
        (unfold text_of left_after in Removed-none b [] v (contents-empty b empty))
  | no more ↦ rw (read-eq-drain b k r (omega arith)) (drain_start k b v (omega arith))
]

drain_all-Removed :
    (k : ℕ) (b : Buffer)
    → IsValid b
    → Removed b (take k (contents b)) (drop k (contents b)) (drain_all k b)
unfolding drain_all
drain_all-Removed zero b v = Removed-none b (contents b) v refl
drain_all-Removed (suc k) b v = elim (ℕ_discrete b.buffer_dim 0) [
  | yes empty ↦
      rw (contents-empty b empty, ltb_irrefl 0 b.buffer_dim empty)
        (Removed-none b [] v (contents-empty b empty))
  | no more ↦
      let pos : 0 < b.buffer_dim = omega arith in
      rw (contents-advance b pos, lt→ltb 0 b.buffer_dim pos)
        (Removed-more b (take k (contents (advance b))) (drop k (contents (advance b)))
          (drain_all k (advance b)) (drain_all-Removed k (advance b) (advance-IsValid b v)))
]

-- `copyFromBuffer` takes the first `count` bytes, or all if there are fewer, zero bytes included.
pub copy_from_buffer-Removed :
    (b : Buffer) (count : ℕ)
    → IsValid b
    → Removed b (take count (contents b)) (drop count (contents b)) (copy_from_buffer b count)
unfolding copy_from_buffer
copy_from_buffer-Removed b zero v = Removed-none b (contents b) v refl
copy_from_buffer-Removed b (suc k) v = elim (ℕ_discrete b.buffer_dim 0) [
  | yes empty ↦
      rw (contents-empty b empty, lt→ltb 0 (suc k) (omega arith), ltb_irrefl 0 b.buffer_dim empty)
        (Removed-none b [] v (contents-empty b empty))
  | no more ↦
      rw (lt→ltb 0 (suc k) (omega arith), lt→ltb 0 b.buffer_dim (omega arith))
        (drain_all-Removed (suc k) b v)
]
