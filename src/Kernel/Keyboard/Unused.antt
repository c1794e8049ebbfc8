-- ===== src/Kernel/Keyboard/Unused.antt =====
-- The arrays of the driver: no operation puts a key into them.
use tp_so.Base.{ℕ, ◌≡◌, refl, ◌∙◌, arith, true, none, List, [], ◌∷◌, ltb, inl, inr, Option-cases}
use tp_so.Kernel.Keyboard.{
  Keyboard, press, mapped_key, is_mapped, read_keyboard_buffer, game_read, reset_buffer,
}

-- A call of a function of the driver.
pub data KeyCall : Type 0 where
  pressed : ℕ → KeyCall
  reads read_by_game resets : KeyCall

abbrev pub after_call : KeyCall → Keyboard → Keyboard
after_call (pressed key) kb = (press kb key).0
after_call reads kb = (read_keyboard_buffer kb).1
after_call read_by_game kb = (game_read kb).1
after_call resets kb = reset_buffer kb

unfoldable pub after_calls : List KeyCall → Keyboard → Keyboard
after_calls [] kb = kb
after_calls (call ∷ calls) kb = after_calls calls (after_call call kb)

mapped_key-count :
    (kb : Keyboard) (key idx : ℕ) → (mapped_key kb key idx).0.key_count ≡ kb.key_count
unfolding mapped_key
mapped_key-count kb key idx = ground arith

press-count : (kb : Keyboard) (key : ℕ) → (press kb key).0.key_count ≡ kb.key_count
unfolding press
press-count kb key = elim (Option-cases (is_mapped key)) [
  | inl e ↦ rw e (ground arith)
  | inr (idx, e) ↦ rw e (ground (arith, mapped_key-count kb key idx))
]

call-count :
    (call : KeyCall) (kb : Keyboard) → kb.key_count ≡ 0 → (after_call call kb).key_count ≡ 0
unfolding read_keyboard_buffer game_read reset_buffer
call-count (pressed key) kb h = press-count kb key ∙ h
call-count reads kb h = ground arith
call-count read_by_game kb h = ground arith
call-count resets kb h = refl

calls-count :
    (calls : List KeyCall) (kb : Keyboard) → kb.key_count ≡ 0 → (after_calls calls kb).key_count ≡ 0
unfolding after_calls
calls-count [] kb h = h
calls-count (call ∷ calls) kb h = calls-count calls (after_call call kb) (call-count call kb h)

-- From the start on, where no key is counted, `readKeyboardBuffer` and `gameRead` return -1 and change
-- nothing, whatever keys have been pressed and whatever functions of the driver have been called before.
pub read_keyboard_buffer_never :
    (calls : List KeyCall) (kb : Keyboard)
    → kb.key_count ≡ 0
    → (read_keyboard_buffer (after_calls calls kb) ≡ (none, after_calls calls kb))
      × (game_read (after_calls calls kb) ≡ (none, after_calls calls kb))
unfolding read_keyboard_buffer game_read
read_keyboard_buffer_never calls kb h =
    let n = calls-count calls kb h in
    let e : ltb (after_calls calls kb).key_count 1 ≡ true = ground arith in rw e (refl, refl)
