-- ===== src/Ipc/Buffer/Write.antt =====
-- `writeBuffer` and `copyToBuffer`: where they behave as a bounded queue, and where they store
-- outside the array.
use tp_so.Base.{
  ℕ, zero, suc, ◌+◌, ◌-◌, ◌≤◌, ◌<◌, min, ◌≡◌, refl, ap, ◌∙◌, ◌⊎◌, inl, inr, true, false, none, some,
  List, [], ◌∷◌, ◌++◌, arith, ltb, length, take, Bool-cases, lt→ltb, tests, ◌↔◌, sym,
}
use mathlib.Core.Path.{subst}
use mathlib.Core.List.{append-nil, append_assoc}
use tp_so.Base.Maybe.{Returns, Returns-map}
use tp_so.Ipc.Buffer.{Buffer, can_write, buff_size, slot, put, fill, write_buffer, copy_to_buffer}
use tp_so.Ipc.Buffer.Window.{IsValid, contents, contents-put, put-IsValid}

-- How many of `n` more bytes a buffer has room for.
abbrev pub room_for : Buffer → ℕ → ℕ
room_for b n = min n (buff_size - b.buffer_dim)

-- The stores all fall inside the array.
abbrev pub Fits : Buffer → ℕ → Type 0
Fits b n = b.cursor + b.buffer_dim + room_for b n ≤ buff_size

-- What a copy into a buffer has done: the count, the bytes, and all that it leaves alone.
pub record Appended (b : Buffer) (bytes : List ℕ) (n : ℕ) (out : ℕ × Buffer) : Type 0 where
  pub number : out.0 ≡ n + room_for b (length bytes)
  pub holds : contents out.1 ≡ contents b ++ take (buff_size - b.buffer_dim) bytes
  pub valid : IsValid out.1
  pub same_cursor : out.1.cursor ≡ b.cursor
  pub same_id : out.1.buff_id ≡ b.buff_id
  pub same_state : out.1.state ≡ b.state
  pub same_end : out.1.opposite_end ≡ b.opposite_end
  pub same_references : out.1.references ≡ b.references

take-suc_of_pos : (n x : ℕ) (xs : List ℕ) → 0 < n → take n (x ∷ xs) ≡ x ∷ take (n - 1) xs
take-suc_of_pos zero x xs h = absurd (omega arith)
take-suc_of_pos (suc n) x xs h = ap (λ k. x ∷ take k xs) (omega arith)

take-nil : (n : ℕ) → take {A = ℕ} n [] ≡ []
take-nil zero = refl
take-nil (suc n) = refl

take-none : (n : ℕ) (xs : List ℕ) → n ≡ 0 → take n xs ≡ []
take-none zero xs h = refl
take-none (suc n) xs h = absurd (omega arith)

take_full :
    (b : Buffer) (xs : List ℕ)
    → room_for b (length xs) ≡ 0
    → take (buff_size - b.buffer_dim) xs ≡ []
take_full b [] h = take-nil (buff_size - b.buffer_dim)
take_full b (x ∷ xs) h = take-none (buff_size - b.buffer_dim) (x ∷ xs) (omega arith)

Appended-more :
    (b : Buffer) (x : ℕ) (xs : List ℕ) (n : ℕ) (out : ℕ × Buffer)
    → IsValid b
    → b.buffer_dim < buff_size
    → slot b < buff_size
    → Appended (put b x) xs (n + 1) out
    → Appended b (x ∷ xs) n out
Appended-more b x xs n out v more small a = record {
  number = omega (arith, a.number);
  holds =
      a.holds
      ∙ ap (λ c. c ++ take (buff_size - (put b x).buffer_dim) xs) (contents-put b x v small more)
      ∙ append_assoc (contents b) (x ∷ []) (take (buff_size - (put b x).buffer_dim) xs)
      ∙ ap (λ k. contents b ++ x ∷ take k xs) (omega arith)
      ∙ ap (◌++◌ (contents b))
          (sym (take-suc_of_pos (buff_size - b.buffer_dim) x xs (omega arith)));
  valid = a.valid;
  same_cursor = a.same_cursor;
  same_id = a.same_id;
  same_state = a.same_state;
  same_end = a.same_end;
  same_references = a.same_references;
}

Appended-none :
    (b : Buffer) (xs : List ℕ) (n : ℕ)
    → IsValid b
    → room_for b (length xs) ≡ 0
    → Appended b xs n (n, b)
Appended-none b xs n v full = record {
  number = omega arith;
  holds = sym (ap (◌++◌ (contents b)) (take_full b xs full) ∙ append-nil (contents b));
  valid = v;
  same_cursor = refl;
  same_id = refl;
  same_state = refl;
  same_end = refl;
  same_references = refl;
}

pub fill-Appended :
    (xs : List ℕ) (n : ℕ) (b : Buffer)
    → IsValid b
    → Fits b (length xs)
    → Returns (Appended b xs n) (fill xs n b)
unfolding fill
fill-Appended [] n b v fit = Appended-none b [] n v (omega arith)
fill-Appended (x ∷ xs) n b v fit = elim (Bool-cases (ltb b.buffer_dim buff_size)) [
  | inr full ↦ rw full (Appended-none b (x ∷ xs) n v (ground arith))
  | inl more ↦
      let room : b.buffer_dim < buff_size = omega tests in
      let small : slot b < buff_size = omega arith in
      rw (more, lt→ltb (slot b) buff_size small)
        (Returns-map (Appended (put b x) xs (n + 1)) (Appended b (x ∷ xs) n)
          (fill xs (n + 1) (put b x)) (λ out. Appended-more b x xs n out v room small)
          (fill-Appended xs (n + 1) (put b x) (put-IsValid b x v room) (omega arith)))
]

-- A copy that does not fit stores outside the array.
fill_overruns :
    (xs : List ℕ) (n : ℕ) (b : Buffer)
    → b.buffer_dim ≤ buff_size
    → ¬ Fits b (length xs)
    → 0 < room_for b (length xs)
    → fill xs n b ≡ none
unfolding fill
fill_overruns [] n b v fit some_room = absurd (omega arith)
fill_overruns (x ∷ xs) n b v fit some_room = elim (Bool-cases (ltb (slot b) buff_size)) [
  | inr out ↦ rw (lt→ltb b.buffer_dim buff_size (omega arith), out)
  | inl small ↦
      let inside : slot b < buff_size = omega tests in
      rw (lt→ltb b.buffer_dim buff_size (omega arith), small)
        (fill_overruns xs (n + 1) (put b x) (omega arith) (omega arith) (omega arith))
]

-- What the two callers need before they copy: some bytes, and two free bytes.
module _ (b : Buffer) (bytes : List ℕ) (some_bytes : 0 < length bytes)
    (room : b.buffer_dim < 1023) where
  write-eq-fill : can_write b.state ≡ true → write_buffer b bytes ≡ fill bytes 0 b
  unfolding write_buffer
  write-eq-fill w = rw (lt→ltb 0 (length bytes) some_bytes, lt→ltb b.buffer_dim 1023 room, w)

  copy-eq-fill : copy_to_buffer b bytes ≡ fill bytes 0 b
  unfolding copy_to_buffer
  copy-eq-fill = rw (lt→ltb 0 (length bytes) some_bytes, lt→ltb b.buffer_dim 1023 room)

-- A write of some bytes to a valid, writable buffer with two bytes free, whose stores stay inside
-- the array, appends as many bytes as there is room for, in order, and returns their number; the
-- buffer stays valid and nothing but its bytes and their number changes.
pub write_buffer_appends :
    (b : Buffer) (bytes : List ℕ)
    → IsValid b
    → can_write b.state ≡ true
    → 0 < length bytes
    → b.buffer_dim < 1023
    → Fits b (length bytes)
    → Returns (Appended b bytes 0) (write_buffer b bytes)
write_buffer_appends b bytes v w more room fit =
    rw (write-eq-fill b bytes more room w) (fill-Appended bytes 0 b v fit)

pub copy_to_buffer_appends :
    (b : Buffer) (bytes : List ℕ)
    → IsValid b
    → 0 < length bytes
    → b.buffer_dim < 1023
    → Fits b (length bytes)
    → Returns (Appended b bytes 0) (copy_to_buffer b bytes)
copy_to_buffer_appends b bytes v more room fit =
    rw (copy-eq-fill b bytes more room) (fill-Appended bytes 0 b v fit)

-- The same write stores outside the array exactly when the bytes it has room for do not fit behind
-- `cursor + buffer_dim`: the index is not reduced modulo BUFF_SIZE.
pub write_buffer_overruns :
    (b : Buffer) (bytes : List ℕ)
    → IsValid b
    → can_write b.state ≡ true
    → 0 < length bytes
    → b.buffer_dim < 1023
    → (write_buffer b bytes ≡ none) ↔ (¬ Fits b (length bytes))
write_buffer_overruns b bytes v w more room = (
  λ e fit.
      subst (λ r. Returns (Appended b bytes 0) r) e
        (write_buffer_appends b bytes v w more room fit),
  λ unfit. write-eq-fill b bytes more room w ∙ fill_overruns bytes 0 b v.dim_in unfit (omega arith),
)

-- A write that a guard refuses (no bytes, fewer than two free bytes, or a buffer that is not
-- writable) returns 0 and leaves the buffer as it was.
pub write_buffer_refuses :
    (b : Buffer) (bytes : List ℕ)
    → (length bytes ≡ 0) ⊎ ((1023 ≤ b.buffer_dim) ⊎ (can_write b.state ≡ false))
    → write_buffer b bytes ≡ some (0, b)
unfolding write_buffer
write_buffer_refuses b bytes h = ground arith

pub copy_to_buffer_refuses :
    (b : Buffer) (bytes : List ℕ)
    → (length bytes ≡ 0) ⊎ (1023 ≤ b.buffer_dim)
    → copy_to_buffer b bytes ≡ some (0, b)
unfolding copy_to_buffer
copy_to_buffer_refuses b bytes h = ground arith
