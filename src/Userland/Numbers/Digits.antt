-- ===== src/Userland/Numbers/Digits.antt =====
-- The digits that `uintToBase` writes, and the number that they stand for.
use mathlib.Core.List.{append_assoc, reverse, reverse-append, reverse-cons}
use mathlib.Core.Path.{subst}
use tp_so.Base.{
  ℕ, zero, suc, ◌+◌, ◌-◌, ◌≤◌, ◌≡◌, refl, sym, ap, ◌∙◌, some, List, [], ◌∷◌, ◌++◌, arith, ltb,
  length, get_or, set, length-append, true,
}
use tp_so.Userland.Numbers.{swap_ends}

get_or-middle : (xs : List ℕ) (v : ℕ) (ys : List ℕ) → get_or (xs ++ v ∷ ys) (length xs) 0 ≡ v
get_or-middle [] v ys = refl
get_or-middle (x ∷ xs) v ys = get_or-middle xs v ys

pub set-middle :
    (xs : List ℕ) (v w : ℕ) (ys : List ℕ) → set (xs ++ v ∷ ys) (length xs) w ≡ xs ++ w ∷ ys
set-middle [] v w ys = refl
set-middle (x ∷ xs) v w ys = ap (◌∷◌ x) (set-middle xs v w ys)

unsnoc : (x : ℕ) (xs : List ℕ) → (m : List ℕ) × (y : ℕ) × (x ∷ xs ≡ m ++ y ∷ [])
unsnoc x [] = ([], x, refl)
unsnoc x (z ∷ xs) = let u = unsnoc z xs in (x ∷ u.0, u.1, ap (◌∷◌ x) u.2)

second_at : (xs : List ℕ) (x : ℕ) (m : List ℕ) → length xs + length m + 1 ≡ length (xs ++ x ∷ m)
second_at xs x m = omega (arith, length-append xs (x ∷ m))

regroup : (xs : List ℕ) (x : ℕ) (m zs : List ℕ) → xs ++ x ∷ (m ++ zs) ≡ (xs ++ x ∷ m) ++ zs
regroup xs x m zs = sym (append_assoc xs (x ∷ m) zs)

get_or-second :
    (xs : List ℕ) (x : ℕ) (m : List ℕ) (y : ℕ) (ys : List ℕ)
    → get_or (xs ++ x ∷ (m ++ y ∷ ys)) (length xs + length m + 1) 0 ≡ y
get_or-second xs x m y ys =
    rw (second_at xs x m, regroup xs x m (y ∷ ys)) (get_or-middle (xs ++ x ∷ m) y ys)

set-second :
    (xs : List ℕ) (x : ℕ) (m : List ℕ) (y w : ℕ) (ys : List ℕ)
    → set (xs ++ x ∷ (m ++ y ∷ ys)) (length xs + length m + 1) w ≡ xs ++ x ∷ (m ++ w ∷ ys)
set-second xs x m y w ys =
    rw (second_at xs x m, regroup xs x m (y ∷ ys), regroup xs x m (w ∷ ys))
      (set-middle (xs ++ x ∷ m) y w ys)

-- One round of the second loop.
swap-step :
    (f : ℕ) (xs : List ℕ) (x y : ℕ) (m ys : List ℕ)
    → swap_ends (suc f) (xs ++ x ∷ (m ++ y ∷ ys)) (length xs) (length xs + length m + 1)
      ≡ swap_ends f (xs ++ y ∷ (m ++ x ∷ ys)) (length xs + 1) (length xs + length m)
unfolding swap_ends
swap-step f xs x y m ys =
    let p1 = length xs in
    let p2 = length xs + length m + 1 in
    let t : ltb p1 p2 ≡ true = ground arith in
    let d : p2 - 1 ≡ length xs + length m = omega arith in
    rw
      (
        t,
        d,
        get_or-second xs x m y ys,
        get_or-middle xs x (m ++ y ∷ ys),
        set-middle xs x y (m ++ y ∷ ys),
        set-second xs y m y x ys,
      )
      refl

reverse-ends : (x y : ℕ) (m : List ℕ) → reverse (x ∷ (m ++ y ∷ [])) ≡ y ∷ (reverse m ++ x ∷ [])
reverse-ends x y m = reverse-append (x ∷ m) (y ∷ []) ∙ ap (◌∷◌ y) (reverse-cons x m)

-- The second loop reverses what is between its pointers.
abbrev pub Reverses : ℕ → List ℕ → List ℕ → List ℕ → Type 0
Reverses f xs mid ys =
    swap_ends f (xs ++ (mid ++ ys)) (length xs) (length xs + length mid - 1)
    ≡ some (xs ++ (reverse mid ++ ys))

ends-case :
    (f : ℕ) (xs : List ℕ) (x y : ℕ) (m ys : List ℕ)
    → Reverses f (xs ++ y ∷ []) m (x ∷ ys)
    → Reverses (suc f) xs (x ∷ (m ++ y ∷ [])) ys
ends-case f xs x y m ys ih =
    let last : length xs + length (x ∷ (m ++ y ∷ [])) - 1 ≡ length xs + length m + 1 =
      omega (arith, length-append m (y ∷ [])) in
    let next : length (xs ++ y ∷ []) ≡ length xs + 1 = omega (arith, length-append xs (y ∷ [])) in
    let prior : length xs + 1 + length m - 1 ≡ length xs + length m = omega arith in
    rw
      (
        last,
        append_assoc m (y ∷ []) ys,
        swap-step f xs x y m ys,
        reverse-ends x y m,
        append_assoc (reverse m) (x ∷ []) ys,
      )
      (rw
        (
          next,
          prior,
          append_assoc xs (y ∷ []) (m ++ x ∷ ys),
          append_assoc xs (y ∷ []) (reverse m ++ x ∷ ys),
        )
        at ih)

pub swap_ends-reverse : (f : ℕ) (xs mid ys : List ℕ) → length mid ≤ f → Reverses f xs mid ys
unfolding swap_ends
swap_ends-reverse zero xs [] ys h = ground arith
swap_ends-reverse (suc f) xs [] ys h = ground arith
swap_ends-reverse zero xs (x ∷ m) ys h = absurd (omega arith)
swap_ends-reverse (suc f) xs (x ∷ []) ys h = ground arith
swap_ends-reverse (suc f) xs (x ∷ (z ∷ mid)) ys h =
    let u = unsnoc z mid in
    let e = ap length u.2 in
    subst (λ l. Reverses (suc f) xs (x ∷ l) ys) (sym u.2)
      (ends-case f xs x u.1 u.0 ys (
        swap_ends-reverse f (xs ++ u.1 ∷ []) u.0 (x ∷ ys)
          (omega (arith, length-append u.0 (u.1 ∷ [])))))
