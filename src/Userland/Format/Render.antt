-- ===== src/Userland/Format/Render.antt =====
-- The text of a format, with the arguments put in.
use mathlib.Core.Option.{some-injective}
use tp_so.Base.{
  ℕ, ◌+◌, ◌%◌, ◌^◌, ◌≤◌, ◌≡◌, inl, inr, refl, sym, ap, Bool, true, false, ◌||◌, Option, none, some,
  List, [], ◌∷◌, ◌++◌, ◌==◌, if◌then◌else◌, length, arith, Bool-cases,
}
use tp_so.Base.Maybe.{◌>>=◌}
use tp_so.Userland.Numbers.{num_to_string, dec_to_hex}
use tp_so.Userland.Copy.{NoZero}
use tp_so.Userland.Format.{Arg, number, text, is_directive, tmp_length}

-- The text that a directive stands for, and the arguments that are left.
unfoldable pub expand : ℕ → List Arg → Option (List ℕ × List Arg)
expand d [] = none
expand d (number n ∷ args) =
    if d == b'c'
    then some ((n % 256) ∷ [], args)
    else if d == b'd'
    then (num_to_string (n % 2 ^ 32) >>= λ out. some (out.1, args))
    else if d == b'x' || d == b'p'
    then (dec_to_hex (n % 2 ^ 32) >>= λ out. some (out.1, args))
    else none
expand d (text source ∷ args) = if d == b's' then some (source, args) else none

-- The whole text of a format, `pending` behind a %.
unfoldable pub render : Bool → List ℕ → List Arg → Option (List ℕ)
render false [] args = some []
render true [] args = none
render false (c ∷ cs) args =
    let rest = render false cs args in
    let directive = render true cs args in
    if c == b'%' then directive else (rest >>= λ t. some (c ∷ t))
render true (d ∷ cs) args = expand d args >>= λ e. render false cs e.1 >>= λ t. some (e.0 ++ t)

-- The strings among the arguments have no zero bytes and fit into `tmp`.
unfoldable pub Short : List Arg → Type 0
Short [] = Unit
Short (number n ∷ args) = Short args
Short (text source ∷ args) = NoZero source × (length source + 2 ≤ tmp_length) × Short args

pub bind-some :
    {A B : Type 0} (m : Option A) (g : A → Option B) (b : B)
    → (m >>= g) ≡ some b
    → (a : A) × (m ≡ some a) × (g a ≡ some b)
bind-some none g b h = cc
bind-some (some a) g b h = (a, refl, h)

-- A directive takes one argument, of the type that it asks for.
pub bind-rest :
    (m : Option (ℕ × List ℕ)) (args : List Arg) (e : List ℕ × List Arg)
    → (m >>= λ o. some (o.1, args)) ≡ some e
    → e.1 ≡ args
bind-rest none args e x = cc
bind-rest (some o) args e x = ap (λ (e : List ℕ × List Arg). e.1) (sym (some-injective _ _ x))

pub expand-rest :
    (d : ℕ) (a : Arg) (args : List Arg) (e : List ℕ × List Arg)
    → expand d (a ∷ args) ≡ some e
    → e.1 ≡ args
unfolding expand
expand-rest d (number v) args e = elim (Bool-cases (d == b'c')) [
  | inl i ↦ rw i (λ x. ap (λ (e : List ℕ × List Arg). e.1) (sym (some-injective _ _ x)))
  | inr i ↦ elim (Bool-cases (d == b'd')) [
    | inl j ↦ rw (i, j) (λ x. bind-rest (num_to_string (v % 2 ^ 32)) args e x)
    | inr j ↦ elim (Bool-cases (d == b'x' || d == b'p')) [
      | inl k ↦ rw (i, j, k) (λ x. bind-rest (dec_to_hex (v % 2 ^ 32)) args e x)
      | inr k ↦ rw (i, j, k) (λ x. cc)
    ]
  ]
]
expand-rest d (text t) args e = elim (Bool-cases (d == b's')) [
  | inl i ↦ rw i (λ x. ap (λ (e : List ℕ × List Arg). e.1) (sym (some-injective _ _ x)))
  | inr i ↦ rw i (λ x. cc)
]

pub expand-none : (d : ℕ) (args : List Arg) → is_directive d ≡ false → expand d args ≡ none
unfolding expand
expand-none d [] h = refl
expand-none d (number v ∷ args) h = ground (arith, h)
expand-none d (text t ∷ args) h = ground (arith, h)

pub expand-directive :
    (d : ℕ) (args : List Arg) (e : List ℕ × List Arg)
    → expand d args ≡ some e
    → is_directive d ≡ true
expand-directive d args e x = elim (Bool-cases (is_directive d)) [
  | inl h ↦ h
  | inr h ↦ let q = expand-none d args h in cc
]

pub Short-expand :
    (d : ℕ) (args : List Arg) (e : List ℕ × List Arg)
    → expand d args ≡ some e
    → Short args
    → Short e.1
unfolding expand Short
Short-expand d [] e x s = cc
Short-expand d (number v ∷ args) e x s = rw (expand-rest d (number v) args e x) s
Short-expand d (text t ∷ args) e x s = rw (expand-rest d (text t) args e x) s.2

pub render-percent :
    (c : ℕ) (cs : List ℕ) (args : List Arg)
    → (c == b'%') ≡ true
    → render false (c ∷ cs) args ≡ render true cs args
unfolding render
render-percent c cs args e = rw e refl

pub render-byte :
    (c : ℕ) (cs : List ℕ) (args : List Arg)
    → (c == b'%') ≡ false
    → render false (c ∷ cs) args ≡ (render false cs args >>= λ t. some (c ∷ t))
unfolding render
render-byte c cs args e = rw e refl
