-- ===== src/Kernel/Keyboard/Typing.antt =====
-- A letter key, from its code to the byte in the standard input.
use tp_so.Base.{
  ℕ, zero, suc, ◌+◌, ◌<◌, ◌≡◌, ◌≢◌, refl, ap, ◌∙◌, Bool, true, false, not, ◌&&◌, ◌||◌, Option, none,
  some, [], ◌∷◌, ◌++◌, arith, ltb, ◌==◌, if◌then◌else◌, get_or, Bool-cases, inl, inr, take_of_le,
  ◌-◌,
}
use tp_so.Base.Maybe.{◌>>=◌, Returns, Returns-map, Returns-bind}
use tp_so.Ipc.Buffer.{Buffer, null, buff_size, copy_to_buffer}
use tp_so.Ipc.Buffer.Window.{contents, IsValid}
use tp_so.Ipc.Buffer.Write.{Fits, Appended, copy_to_buffer_appends}
use tp_so.Kernel.{Kernel, set_buffer}
use tp_so.Kernel.Pipes.{copy_to, set_buffer_references_ready}
use tp_so.Kernel.Pipes.Delivery.{references_ready-buffers, update_self}
use tp_so.Kernel.Keyboard.{
  Keyboard, type_byte, keys, shifted, scan_codes, is_mapped, is_mapped_from, mapped_key, press,
  to_buff, act, add_key,
}

-- The letter that a key stands for: large if one of shift and caps lock is on, not both.
abbrev pub letter : Bool → Bool → ℕ → ℕ
letter true true i = b'a' + i
letter true false i = b'A' + i
letter false true i = b'A' + i
letter false false i = b'a' + i

-- What the tables hold at row `i` of a letter.
found : Option ℕ → ℕ → Bool
found none i = false
found (some j) i = j == i

row_code : ℕ → Bool
row_code i =
    let code = get_or scan_codes i 0 in
    ltb code 0x80
    && not (code == 0x36)
    && not (code == 0x2A)
    && not (code == 0x1D)
    && found (is_mapped code) i

row_letters : ℕ → Bool
row_letters i =
    get_or (keys false) i 0 == b'a' + i
    && get_or (keys true) i 0 == b'A' + i
    && get_or (shifted false) i 0 == b'A' + i
    && get_or (shifted true) i 0 == b'a' + i

rows_below : ℕ → Bool
rows_below zero = true
rows_below (suc n) = row_code n && row_letters n && rows_below n

letter_rows : rows_below 26 ≡ true
unfolding rows_below row_code row_letters found is_mapped is_mapped_from scan_codes keys shifted
letter_rows = refl

row_of_rows : (n i : ℕ) → rows_below n ≡ true → i < n → (row_code i ≡ true) × (row_letters i ≡ true)
unfolding rows_below
row_of_rows zero i h l = absurd (omega arith)
row_of_rows (suc n) i h l = elim (Bool-cases (i == n)) [
  | inl e ↦ let same : i ≡ n = ground arith in rw same (ground arith)
  | inr ne ↦ row_of_rows n i (ground arith) (ground arith)
]

found-eq : (o : Option ℕ) (i : ℕ) → found o i ≡ true → o ≡ some i
unfolding found
found-eq none i h = absurd (no h)
  where
    no : false ≡ true → ⊥
    no e = cc
found-eq (some j) i h = ap some (ground arith)

row_index : (i : ℕ) → row_code i ≡ true → is_mapped (get_or scan_codes i 0) ≡ some i
unfolding row_code
row_index i h = found-eq (is_mapped (get_or scan_codes i 0)) i (ground arith)

press-row :
    (kb : Keyboard) (i : ℕ)
    → row_code i ≡ true
    → press kb (get_or scan_codes i 0) ≡ mapped_key kb (get_or scan_codes i 0) i
unfolding press row_code
press-row kb i h =
    let code = get_or scan_codes i 0 in
    let low : ltb 0x80 code ≡ false = ground arith in
    let s : (code == 0x36 || code == 0x2A) ≡ false = ground arith in
    let c : (code == 0x1D) ≡ false = ground arith in rw (low, s, c, row_index i h) refl

mapped_key-row :
    (kb : Keyboard) (code i : ℕ)
    → kb.left_cntrl ≡ false
    → row_letters i ≡ true
    → i < 26
    → mapped_key kb code i ≡ (kb, type_byte (letter kb.shift_key kb.lock i))
unfolding mapped_key row_letters
mapped_key-row kb code i off h l = ground arith

-- Where the tables hold a letter, pressing its key types it.
press-letter :
    (kb : Keyboard) (i : ℕ)
    → kb.left_cntrl ≡ false
    → i < 26
    → press kb (get_or scan_codes i 0) ≡ (kb, type_byte (letter kb.shift_key kb.lock i))
press-letter kb i off h =
    let r = row_of_rows 26 i letter_rows h in
    press-row kb i r.0 ∙ mapped_key-row kb (get_or scan_codes i 0) i off r.1 h

-- The standard input after a byte is typed.
abbrev pub Typed : Kernel → ℕ → ℕ → Kernel → Type 0
Typed k stdin c k' =
    (contents (k'.buffers stdin) ≡ contents (k.buffers stdin) ++ c ∷ [])
    × IsValid (k'.buffers stdin)

one_byte :
    (b : Buffer) (c : ℕ)
    → IsValid b
    → b.buffer_dim < 1023
    → Fits b 1
    → Returns
        (λ out. (contents out.1 ≡ contents b ++ c ∷ []) × IsValid out.1)
        (copy_to_buffer b (c ∷ []))
one_byte b c v room fit =
    let whole = take_of_le (buff_size - b.buffer_dim) (c ∷ []) (omega arith) in
    Returns-map (Appended b (c ∷ []) 0) _ (copy_to_buffer b (c ∷ []))
      (λ out a. (a.holds ∙ ap (λ l. contents b ++ l) whole, a.valid))
      (copy_to_buffer_appends b (c ∷ []) v (omega arith) room fit)

woken-Typed :
    (k k' : Kernel) (stdin c : ℕ) (wakes : Bool)
    → Typed k stdin c k'
    → Typed k stdin c (if wakes then set_buffer_references_ready k' stdin else k')
woken-Typed k k' stdin c true t = rw (references_ready-buffers k' stdin) t
woken-Typed k k' stdin c false t = t

to_buff-Typed :
    (k : Kernel) (stdin c : ℕ)
    → stdin ≢ null
    → IsValid (k.buffers stdin)
    → (k.buffers stdin).buffer_dim < 1023
    → Fits (k.buffers stdin) 1
    → Returns (Typed k stdin c) (to_buff k stdin c)
unfolding to_buff copy_to
to_buff-Typed k stdin c there v room fit =
    let e : (stdin == null) ≡ false = ground arith in
    let b = k.buffers stdin in
    rw e (
      Returns-bind (Typed k stdin c) _
        (copy_to_buffer b (c ∷ []) >>= λ out. some (set_buffer k stdin out.1)) _
        (Returns-bind _ (Typed k stdin c) (copy_to_buffer b (c ∷ [])) _ (one_byte b c v room fit)
          (λ out a. rw (update_self k.buffers stdin out.1) a))
        (λ k' t. woken-Typed k k' stdin c (b.buffer_dim == 0) t))

-- The key of a letter, pressed while control is not held, puts that letter behind what the standard input
-- holds, large if one of shift and caps lock is on and not both, and changes nothing in the driver;
-- `_int20h` is not called. The standard input is a valid buffer with two bytes free whose store stays
-- inside the array.
pub add_key-letter :
    (kb : Keyboard) (k : Kernel) (stdin i : ℕ)
    → kb.left_cntrl ≡ false
    → i < 26
    → stdin ≢ null
    → IsValid (k.buffers stdin)
    → (k.buffers stdin).buffer_dim < 1023
    → Fits (k.buffers stdin) 1
    → Returns
        (λ out.
          (out.0 ≡ kb) × (out.1 ≡ false) × Typed k stdin (letter kb.shift_key kb.lock i) out.2)
        (add_key kb k stdin (get_or scan_codes i 0))
unfolding add_key act
add_key-letter kb k stdin i off h there v room fit =
    let c = letter kb.shift_key kb.lock i in
    rw (press-letter kb i off h) (
      Returns-bind (λ (out : Bool × Kernel). (out.0 ≡ false) × Typed k stdin c out.1) _
        (to_buff k stdin c >>= λ k'. some (false, k')) _
        (Returns-bind (Typed k stdin c) _ (to_buff k stdin c) _
          (to_buff-Typed k stdin c there v room fit) (λ k' t. (refl, t)))
        (λ out t. (refl, t.0, t.1)))
