-- ===== src/Userland/Shell/Editing.antt =====
-- The line that `awaitCommand` leaves.
use mathlib.Core.Path.{subst}
use mathlib.Core.List.{append_assoc}
use tp_so.Base.{
  ℕ, zero, suc, ◌+◌, ◌-◌, ◌*◌, ◌≤◌, ◌<◌, ◌≡◌, refl, ap, ◌∙◌, sym, false, ◌||◌, some, List, [], ◌∷◌,
  ◌++◌, arith, ltb, ◌==◌, if◌then◌else◌, length, take, set, Bool-cases, inl, inr, length-set,
  lt→ltb, ltb→lt,
}
use tp_so.Base.Maybe.{◌>>=◌, Returns, Returns-map, Returns-bind}
use tp_so.Userland.Copy.{store, text_of}
use tp_so.Userland.Shell.{Editor, append_char, read_char, read_chars}

-- The text without its last byte.
unfoldable pub without_last : List ℕ → List ℕ
without_last [] = []
without_last (c ∷ []) = []
without_last (c ∷ (d ∷ ds)) = c ∷ without_last (d ∷ ds)

-- What a byte does to the text that is edited.
unfoldable pub edit : List ℕ → ℕ → List ℕ
edit text c =
    if c == 0xFF || c == b'&'
    then text
    else if c == 8
    then without_last text
    else if c == 9
    then text ++ b' ' ∷ b' ' ∷ b' ' ∷ []
    else text ++ c ∷ []

unfoldable pub edit_all : List ℕ → List ℕ → List ℕ
edit_all text [] = text
edit_all text (c ∷ cs) = edit_all (edit text c) cs

-- The text stands in front of the array.
pub record Holds (text : List ℕ) (e : Editor) : Type 0 where
  pub prefix : take e.buffer_count e.last_command ≡ text
  pub within : e.buffer_count ≤ length e.last_command

take-set_next :
    (xs : List ℕ) (n v : ℕ) → n < length xs → take (suc n) (set xs n v) ≡ take n xs ++ v ∷ []
take-set_next [] n v h = absurd (omega arith)
take-set_next (x ∷ xs) zero v h = refl
take-set_next (x ∷ xs) (suc n) v h = ap (◌∷◌ x) (take-set_next xs n v (omega arith))

take-set_after : (xs : List ℕ) (m v : ℕ) → take m (set xs (suc m) v) ≡ take m xs
take-set_after [] m v = refl
take-set_after (x ∷ xs) zero v = refl
take-set_after (x ∷ xs) (suc m) v = ap (◌∷◌ x) (take-set_after xs m v)

without_last-take :
    (xs : List ℕ) (n : ℕ) → suc n ≤ length xs → without_last (take (suc n) xs) ≡ take n xs
unfolding without_last
without_last-take [] n h = absurd (omega arith)
without_last-take (x ∷ xs) zero h = refl
without_last-take (x ∷ []) (suc n) h = absurd (omega arith)
without_last-take (x ∷ (y ∷ ys)) (suc n) h = ap (◌∷◌ x) (without_last-take (y ∷ ys) n (omega arith))

-- The text in the array is `text`, and `n` bytes have been stored at most.
abbrev Edited : List ℕ → ℕ → ℕ → Editor → Type 0
Edited text size n e = Holds text e × (length e.last_command ≡ size) × (e.buffer_count ≤ n)

append_char-Edited :
    (text : List ℕ) (size n : ℕ) (e : Editor) (c : ℕ)
    → Edited text size n e
    → n < size
    → Returns (Edited (text ++ c ∷ []) size (n + 1)) (append_char c e)
unfolding store
append_char-Edited text size n e c h room =
    let p = h.0.prefix in
    let inside : e.buffer_count < length e.last_command = omega (arith, h.1, h.2) in
    let one : e.buffer_count + 1 ≡ suc e.buffer_count = omega arith in
    rw (lt→ltb _ _ inside, one)
      (
        record {
          prefix = take-set_next e.last_command e.buffer_count c inside ∙ ap (λ l. l ++ c ∷ []) p;
          within = omega (arith, length-set e.last_command e.buffer_count c);
        },
        length-set e.last_command e.buffer_count c ∙ h.1,
        omega (arith, h.2),
      )

erase-Edited :
    (text : List ℕ) (size n : ℕ) (e : Editor)
    → Edited text size n e
    → n < size
    → 0 < e.buffer_count
    → Returns (Edited (without_last text) size n) (
        store e.last_command e.buffer_count 0 >>= λ line.
        some (record e { last_command = line; buffer_count = e.buffer_count - 1 }))
unfolding store
erase-Edited text size n e h room more =
    let inside : e.buffer_count < length e.last_command = omega (arith, h.1, h.2) in
    let m = e.buffer_count - 1 in
    let xs = e.last_command in
    let eq : e.buffer_count ≡ suc m = omega arith in
    let shorter : take m (set xs e.buffer_count 0) ≡ without_last text =
      ap (λ k. take m (set xs k 0)) eq
      ∙ take-set_after xs m 0
      ∙ sym (without_last-take xs m (omega arith))
      ∙ ap without_last (ap (λ k. take k xs) (sym eq) ∙ h.0.prefix) in
    rw (lt→ltb _ _ inside) (
      record { prefix = shorter; within = omega (arith, length-set xs e.buffer_count 0) },
      length-set xs e.buffer_count 0 ∙ h.1,
      omega (arith, h.2),
    )

more-Edited :
    (text : List ℕ) (size n k : ℕ) (e : Editor)
    → n ≤ k
    → Edited text size n e
    → Edited text size k e
more-Edited text size n k e l h = (h.0, h.1, omega (arith, h.2))

tab-Edited :
    (text : List ℕ) (size n : ℕ) (e : Editor)
    → Edited text size n e
    → n + 2 < size
    → Returns
        (Edited (text ++ b' ' ∷ b' ' ∷ b' ' ∷ []) size (n + 3))
        (append_char b' ' e >>= λ e1. append_char b' ' e1 >>= λ e2. append_char b' ' e2)
tab-Edited text size n e h room =
    let s : List ℕ = b' ' ∷ [] in
    Returns-bind (Edited (text ++ s) size (n + 1)) _ (append_char b' ' e) _
      (append_char-Edited text size n e b' ' h (omega arith))
      (λ e1 h1.
        Returns-bind (Edited ((text ++ s) ++ s) size (n + 1 + 1)) _ (append_char b' ' e1) _
          (append_char-Edited (text ++ s) size (n + 1) e1 b' ' h1 (omega arith))
          (λ e2 h2.
            Returns-map (Edited (((text ++ s) ++ s) ++ s) size (n + 1 + 1 + 1)) _
              (append_char b' ' e2)
              (λ e3 h3. more-Edited _ size (n + 1 + 1 + 1) (n + 3) e3 (omega arith) (
                subst (λ l. Edited l size (n + 1 + 1 + 1) e3)
                  (append_assoc (text ++ s) s s ∙ append_assoc text s (b' ' ∷ b' ' ∷ [])) h3))
              (append_char-Edited ((text ++ s) ++ s) size (n + 1 + 1) e2 b' ' h2 (omega arith))))

empty-Edited :
    (text : List ℕ) (size n : ℕ) (e : Editor)
    → Edited text size n e
    → e.buffer_count ≡ 0
    → without_last text ≡ text
unfolding without_last
empty-Edited text size n e h z =
    let none_left : text ≡ [] = sym h.0.prefix ∙ ap (λ k. take k e.last_command) z in
    ap without_last none_left ∙ sym none_left

edit_round :
    (text : List ℕ) (size n c : ℕ) (e : Editor)
    → Edited text size n e
    → n + 2 < size
    → Returns (Edited (edit text c) size (n + 3)) (read_char e c)
unfolding edit read_char
edit_round text size n c e h room = elim (Bool-cases (c == 0xFF)) [
  | inl none_read ↦ rw none_read (more-Edited text size n (n + 3) e (omega arith) h)
  | inr n1 ↦ elim (Bool-cases (c == b'&')) [
    | inl amp ↦
        let n8 : (c == 8) ≡ false = ground arith in
        rw (n1, n8, amp)
          (record { prefix = h.0.prefix; within = h.0.within }, h.1, omega (arith, h.2))
    | inr n2 ↦ elim (Bool-cases (c == 8)) [
      | inl back ↦ elim (Bool-cases (ltb 0 e.buffer_count)) [
        | inl more ↦
            rw (n1, n2, back, more)
              (Returns-map (Edited (without_last text) size n) _ _
                (λ e' h'. more-Edited (without_last text) size n (n + 3) e' (omega arith) h')
                (erase-Edited text size n e h room' (ltb→lt 0 e.buffer_count more)))
        | inr none_left ↦
            let z : e.buffer_count ≡ 0 = ground arith in
            rw (n1, n2, back, none_left, empty-Edited text size n e h z)
              (more-Edited text size n (n + 3) e (omega arith) h)
      ]
      | inr n8 ↦ elim (Bool-cases (c == 9)) [
        | inl tab ↦ rw (n1, n2, n8, tab) (tab-Edited text size n e h room)
        | inr n9 ↦
            rw (n1, n2, n8, n9)
              (Returns-map (Edited (text ++ c ∷ []) size (n + 1)) _ (append_char c e)
                (λ e' h'. more-Edited (text ++ c ∷ []) size (n + 1) (n + 3) e' (omega arith) h')
                (append_char-Edited text size n e c h room'))
      ]
    ]
  ]
]
  where
    room' : n < size
    room' = omega arith

text_of-set : (xs : List ℕ) (n : ℕ) → n < length xs → text_of (set xs n 0) ≡ text_of (take n xs)
unfolding text_of
text_of-set [] n h = absurd (omega arith)
text_of-set (x ∷ xs) zero h = refl
text_of-set (zero ∷ xs) (suc n) h = refl
text_of-set (suc x ∷ xs) (suc n) h = ap (◌∷◌ (suc x)) (text_of-set xs n (omega arith))

finish-Edited :
    (text : List ℕ) (size n : ℕ) (e : Editor)
    → Edited text size n e
    → n < size
    → Returns
        (λ e'. text_of e'.last_command ≡ text_of text)
        (store e.last_command e.buffer_count 0 >>= λ line. some (record e { last_command = line }))
unfolding store
finish-Edited text size n e h room =
    let inside : e.buffer_count < length e.last_command = omega (arith, h.1, h.2) in
    rw (lt→ltb _ _ inside)
      (text_of-set e.last_command e.buffer_count inside ∙ ap text_of h.0.prefix)

read_chars-Edited :
    (cs text : List ℕ) (size n : ℕ) (e : Editor)
    → Edited text size n e
    → n + 3 * length cs < size
    → Returns (λ e'. text_of e'.last_command ≡ text_of (edit_all text cs)) (read_chars cs e)
unfolding read_chars edit_all
read_chars-Edited [] text size n e h room = finish-Edited text size n e h (omega arith)
read_chars-Edited (c ∷ cs) text size n e h room =
    Returns-bind (Edited (edit text c) size (n + 3)) _ (read_char e c) _
      (edit_round text size n c e h (omega arith))
      (λ e' h'. read_chars-Edited cs (edit text c) size (n + 3) e' h' (omega arith))

-- While three bytes for each byte of the input, and one more, fit into `lastCommand`, the loop of
-- `awaitCommand` stays inside it from an empty line on, and leaves the line that the bytes edit, up to its
-- first zero byte: a backspace takes off the last byte, a tab adds three spaces, `&` and -1 add nothing, and
-- any other byte is added.
pub read_chars-edit_all :
    (cs : List ℕ) (e : Editor)
    → e.buffer_count ≡ 0
    → 3 * length cs < length e.last_command
    → Returns (λ e'. text_of e'.last_command ≡ text_of (edit_all [] cs)) (read_chars cs e)
read_chars-edit_all cs e z room =
    read_chars-Edited cs [] (length e.last_command) 0 e
      (
        record { prefix = ap (λ k. take k e.last_command) z; within = omega arith },
        refl,
        omega arith,
      )
      (omega arith)
