-- ===== src/Userland/Copy.antt =====
-- `stringCopy` and `stringnCopy` of Userland/string.c, into an array of bytes; a store outside it is a
-- fault. A source is the list of its bytes before the zero byte.
use mathlib.Core.List.{append_assoc}
use tp_so.Base.{
  ℕ, zero, suc, ◌+◌, ◌-◌, ◌≤◌, ◌<◌, ◌≡◌, refl, ap, ◌∙◌, sym, true, false, Option, none, some, List,
  [], ◌∷◌, ◌++◌, arith, ltb, leb, ◌==◌, if◌then◌else◌, length, set, take, min, Bool-cases, inl, inr,
  get_or, length-append, lt→ltb, leb→le, ◌⊎◌,
}
use tp_so.Base.Maybe.{◌>>=◌, Returns, Returns-bind}
use tp_so.Userland.Numbers.Digits.{set-middle}

unfoldable pub store : List ℕ → ℕ → ℕ → Option (List ℕ)
store dest i c = if ltb i (length dest) then some (set dest i c) else none

-- The loop of `stringCopy` from byte `i` of the target on: a byte is stored before the size is looked at.
pub copy_string_at : List ℕ → ℕ → ℕ → List ℕ → Option (List ℕ)
copy_string_at dest i dest_size [] = (store dest i 0 >>= λ d. store d (i + 1) 0)
copy_string_at dest i dest_size (c ∷ cs) = store dest i c >>= λ d.
    let rest = copy_string_at d (i + 1) (dest_size - 1) cs in
    if dest_size == 0 then store d (i + 1) 0 else rest

-- `stringCopy`, for a size that is not negative.
pub string_copy : List ℕ → ℕ → List ℕ → Option (List ℕ)
string_copy dest dest_size source = copy_string_at dest 0 dest_size source

-- The loop of `stringnCopy`: behind the end of the source, zero bytes are stored.
abbrev pub after_first : List ℕ → List ℕ
after_first [] = []
after_first (c ∷ cs) = cs

pub copyn_string_at : List ℕ → ℕ → ℕ → List ℕ → ℕ → Option (List ℕ)
copyn_string_at dest i dest_size src zero = store dest i 0
copyn_string_at dest i dest_size src (suc count) =
    let rest =
      (store dest i (get_or src 0 0) >>= λ d.
      copyn_string_at d (i + 1) (dest_size - 1) (after_first src) count) in
    if dest_size == 0 then store dest i 0 else rest

-- `stringnCopy`
pub stringn_copy : List ℕ → ℕ → List ℕ → ℕ → Option (List ℕ)
stringn_copy dest dest_size src count = copyn_string_at dest 0 dest_size src count

-- The string that stands in an array.
unfoldable pub text_of : List ℕ → List ℕ
text_of [] = []
text_of (zero ∷ cs) = []
text_of (suc c ∷ cs) = suc c ∷ text_of cs

abbrev pub NoZero : List ℕ → Type 0
NoZero [] = Unit
NoZero (c ∷ cs) = (0 < c) × NoZero cs

pub store-here :
    (xs : List ℕ) (z c : ℕ) (zs : List ℕ) → store (xs ++ z ∷ zs) (length xs) c ≡ some (xs ++ c ∷ zs)
unfolding store
store-here xs z c zs =
    let e : ltb (length xs) (length (xs ++ z ∷ zs)) ≡ true =
      lt→ltb _ _ (omega (arith, length-append xs (z ∷ zs))) in
    rw (e, set-middle xs z c zs) refl

store-end : (xs : List ℕ) (i c : ℕ) → length xs ≤ i → store xs i c ≡ none
unfolding store
store-end xs i c h = ground arith

-- What the loop leaves of the bytes `ys` that it stores in, `none` where they are too few.
unfoldable pub two_in : ℕ → List ℕ → Option (List ℕ)
two_in c [] = none
two_in c (y ∷ []) = none
two_in c (y ∷ (z ∷ zs)) = some (c ∷ (0 ∷ zs))

unfoldable pub stored_in : List ℕ → ℕ → List ℕ → Option (List ℕ)
stored_in ys n [] = two_in 0 ys
stored_in ys zero (c ∷ cs) = two_in c ys
stored_in [] (suc n) (c ∷ cs) = none
stored_in (y ∷ ys) (suc n) (c ∷ cs) = (stored_in ys n cs >>= λ w. some (c ∷ w))

two_stores :
    (xs : List ℕ) (c : ℕ) (ys : List ℕ)
    → (store (xs ++ ys) (length xs) c >>= λ d. store d (length xs + 1) 0)
      ≡ (two_in c ys >>= λ w. some (xs ++ w))
unfolding two_in
two_stores xs c [] =
    rw (store-end (xs ++ []) (length xs) c (omega (arith, length-append xs []))) refl
two_stores xs c (y ∷ []) =
    rw
      (
        store-here xs y c [],
        store-end (xs ++ c ∷ []) (length xs + 1) 0 (omega (arith, length-append xs (c ∷ []))),
      )
      refl
two_stores xs c (y ∷ (z ∷ zs)) =
    let n : length xs + 1 ≡ length (xs ++ c ∷ []) = omega (arith, length-append xs (c ∷ [])) in
    rw
      (
        store-here xs y c (z ∷ zs),
        n,
        sym (append_assoc xs (c ∷ []) (z ∷ zs)),
        store-here (xs ++ c ∷ []) z 0 zs,
      )
      (ap some (append_assoc xs (c ∷ []) (0 ∷ zs)))

bind-prepend :
    (xs : List ℕ) (c : ℕ) (r : Option (List ℕ))
    → (r >>= λ w. some ((xs ++ c ∷ []) ++ w)) ≡ ((r >>= λ w. some (c ∷ w)) >>= λ w. some (xs ++ w))
bind-prepend xs c none = refl
bind-prepend xs c (some w) = ap some (append_assoc xs (c ∷ []) w)

pub copy-stored_in :
    (src : List ℕ) (n : ℕ) (xs ys : List ℕ)
    → copy_string_at (xs ++ ys) (length xs) n src ≡ (stored_in ys n src >>= λ w. some (xs ++ w))
unfolding copy_string_at stored_in
copy-stored_in [] n xs ys = two_stores xs 0 ys
copy-stored_in (c ∷ cs) zero xs ys = two_stores xs c ys
copy-stored_in (c ∷ cs) (suc n) xs [] =
    rw (store-end (xs ++ []) (length xs) c (omega (arith, length-append xs []))) refl
copy-stored_in (c ∷ cs) (suc n) xs (y ∷ ys) =
    let positive : (suc n == 0) ≡ false = ground arith in
    let less : suc n - 1 ≡ n = omega arith in
    let next : length xs + 1 ≡ length (xs ++ c ∷ []) = omega (arith, length-append xs (c ∷ [])) in
    rw
      (
        store-here xs y c ys,
        positive,
        less,
        next,
        sym (append_assoc xs (c ∷ []) ys),
        copy-stored_in cs n (xs ++ c ∷ []) ys,
      )
      (bind-prepend xs c (stored_in ys n cs))

-- What is stored, where there is room.
Stores : List ℕ → ℕ → List ℕ → List ℕ → Type 0
Stores ys n src w = (text_of w ≡ take (suc n) src) × (length w ≡ length ys)

stored_in-Stores :
    (ys : List ℕ) (n : ℕ) (src : List ℕ)
    → NoZero src
    → min (length src) n + 2 ≤ length ys
    → Returns (Stores ys n src) (stored_in ys n src)
unfolding stored_in two_in text_of Stores
stored_in-Stores [] n [] z h = absurd (omega arith)
stored_in-Stores (x ∷ []) n [] z h = absurd (omega arith)
stored_in-Stores (x ∷ (y ∷ ys)) n [] z h = (refl, refl)
stored_in-Stores ys n (zero ∷ cs) z h = absurd (omega arith)
stored_in-Stores [] zero (suc c ∷ cs) z h = absurd (omega arith)
stored_in-Stores (x ∷ []) zero (suc c ∷ cs) z h = absurd (omega arith)
stored_in-Stores (x ∷ (y ∷ ys)) zero (suc c ∷ cs) z h = (refl, refl)
stored_in-Stores [] (suc n) (suc c ∷ cs) z h = absurd (omega arith)
stored_in-Stores (y ∷ ys) (suc n) (suc c ∷ cs) z h =
    Returns-bind (Stores ys n cs) _ (stored_in ys n cs) _
      (stored_in-Stores ys n cs z.1 (omega arith)) (λ w s. (ap (◌∷◌ (suc c)) s.0, ap suc s.1))

stored_in-none :
    (ys : List ℕ) (n : ℕ) (src : List ℕ)
    → length ys < min (length src) n + 2
    → stored_in ys n src ≡ none
unfolding stored_in two_in
stored_in-none [] n [] h = refl
stored_in-none (x ∷ []) n [] h = refl
stored_in-none (x ∷ (y ∷ ys)) n [] h = absurd (omega arith)
stored_in-none [] zero (c ∷ cs) h = refl
stored_in-none (x ∷ []) zero (c ∷ cs) h = refl
stored_in-none (x ∷ (y ∷ ys)) zero (c ∷ cs) h = absurd (omega arith)
stored_in-none [] (suc n) (c ∷ cs) h = refl
stored_in-none (y ∷ ys) (suc n) (c ∷ cs) h = rw (stored_in-none ys n cs (omega arith)) refl

string_copy-stored_in :
    (dest : List ℕ) (size : ℕ) (source : List ℕ)
    → string_copy dest size source ≡ stored_in dest size source
unfolding string_copy
string_copy-stored_in dest size source =
    copy-stored_in source size [] dest ∙ same (stored_in dest size source)
  where
    same : (r : Option (List ℕ)) → (r >>= λ w. some ([] ++ w)) ≡ r
    same none = refl
    same (some w) = refl

-- `stringCopy` stores one byte more than the terminated text, or two more than the size: it stays inside
-- its array exactly if the shorter of text and size leaves two bytes. Then the array holds the first
-- `destSize + 1` bytes of the text; else it stores outside. The bytes of the text are not zero.
pub string_copy-bounds :
    (dest : List ℕ) (dest_size : ℕ) (source : List ℕ)
    → NoZero source
    → ((min (length source) dest_size + 2 ≤ length dest)
        × Returns
            (λ d. (text_of d ≡ take (suc dest_size) source) × (length d ≡ length dest))
            (string_copy dest dest_size source))
      ⊎ ((length dest < min (length source) dest_size + 2)
          × (string_copy dest dest_size source ≡ none))
unfolding Stores
string_copy-bounds dest size source z =
    elim (Bool-cases (leb (min (length source) size + 2) (length dest))) [
      | inl e ↦
          let room = leb→le _ _ e in
          inl (
            room,
            rw (string_copy-stored_in dest size source) (stored_in-Stores dest size source z room),
          )
      | inr ne ↦
          let short : length dest < min (length source) size + 2 = ground arith in
          inr
            (short, string_copy-stored_in dest size source ∙ stored_in-none dest size source short)
    ]
