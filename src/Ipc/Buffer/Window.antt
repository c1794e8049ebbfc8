-- ===== src/Ipc/Buffer/Window.antt =====
-- What a buffer holds: the `buffer_dim` bytes from `cursor` on, going round at BUFF_SIZE.
use tp_so.Base.{
  ℕ, zero, suc, ◌+◌, ◌-◌, ◌%◌, ◌^◌, ◌≤◌, ◌<◌, ◌≡◌, refl, ap, ◌∙◌, List, [], ◌∷◌, ◌++◌, arith,
  length, get_or, set, length-set, get_or-set_self, get_or-set_ne,
}
use mathlib.Core.Path.{ap₂}
use tp_so.Ipc.Buffer.{Buffer, buff_size, pd_size, inc16, slot, put, advance, front}

unfoldable pub window : List ℕ → ℕ → ℕ → List ℕ
window bs h zero = []
window bs h (suc n) = get_or bs (h % buff_size) 0 ∷ window bs (h + 1) n

abbrev pub contents : Buffer → List ℕ
contents b = window b.buffer b.cursor b.buffer_dim

pub record IsValid (b : Buffer) : Type 0 where
  pub size : length b.buffer ≡ buff_size
  pub dim_in : b.buffer_dim ≤ buff_size
  pub cursor_in : b.cursor < 2 ^ 16
  pub slots : length b.references ≡ pd_size

pub length-window : (bs : List ℕ) (h n : ℕ) → length (window bs h n) ≡ n
unfolding window
length-window bs h zero = refl
length-window bs h (suc n) = ap suc (length-window bs (h + 1) n)

window_congr :
    (bs : List ℕ) (h k n : ℕ) → h % buff_size ≡ k % buff_size → window bs h n ≡ window bs k n
unfolding window
window_congr bs h k zero e = refl
window_congr bs h k (suc n) e =
    ap₂ ◌∷◌ (ap (λ i. get_or bs i 0) e) (window_congr bs (h + 1) (k + 1) n (omega arith))

-- Taking one byte out: the rest is the window of the advanced buffer.
pub window_step :
    (bs : List ℕ) (h n : ℕ)
    → window bs h (suc n) ≡ get_or bs (h % buff_size) 0 ∷ window bs (inc16 h) n
unfolding window
window_step bs h n =
    ap (◌∷◌ (get_or bs (h % buff_size) 0)) (window_congr bs (h + 1) (inc16 h) n (omega arith))

-- A store at the first free slot, inside the array, adds its byte at the end.
window_put :
    (bs : List ℕ) (x i h n : ℕ)
    → length bs ≡ buff_size
    → h + n ≡ i
    → i < buff_size
    → window (set bs i x) h (suc n) ≡ window bs h n ++ (x ∷ [])
unfolding window
window_put bs x i h zero size e small =
    ap (◌∷ [])
      (ap (λ k. get_or (set bs i x) k 0) (omega arith) ∙ get_or-set_self bs i x 0 (omega arith))
window_put bs x i h (suc n) size e small =
    ap₂ ◌∷◌ (get_or-set_ne bs i (h % buff_size) x 0 (omega arith))
      (window_put bs x i (h + 1) n size (omega arith) small)

pub contents-put :
    (b : Buffer) (x : ℕ)
    → IsValid b
    → slot b < buff_size
    → b.buffer_dim < buff_size
    → contents (put b x) ≡ contents b ++ (x ∷ [])
contents-put b x v small room =
    ap (window (set b.buffer (slot b) x) b.cursor) (omega arith)
    ∙ window_put b.buffer x (slot b) b.cursor b.buffer_dim v.size (omega arith) small

pub put-IsValid : (b : Buffer) (x : ℕ) → IsValid b → b.buffer_dim < buff_size → IsValid (put b x)
put-IsValid b x v room = ground (arith, length-set b.buffer (slot b) x)

pub advance-IsValid : (b : Buffer) → IsValid b → IsValid (advance b)
advance-IsValid b v = omega arith

window_of_pos :
    (bs : List ℕ) (h n : ℕ)
    → 0 < n
    → window bs h n ≡ get_or bs (h % buff_size) 0 ∷ window bs (inc16 h) (n - 1)
window_of_pos bs h zero p = absurd (omega arith)
window_of_pos bs h (suc n) p =
    window_step bs h n ∙ ap (λ k. get_or bs (h % buff_size) 0 ∷ window bs (inc16 h) k) (omega arith)

pub contents-advance : (b : Buffer) → 0 < b.buffer_dim → contents b ≡ front b ∷ contents (advance b)
contents-advance b p = window_of_pos b.buffer b.cursor b.buffer_dim p

pub contents-empty : (b : Buffer) → b.buffer_dim ≡ 0 → contents b ≡ []
unfolding window
contents-empty b e = ap (window b.buffer b.cursor) e
