-- ===== src/Base/Maybe.antt =====
-- Steps that may fault: `none` is a fault of the machine (a store outside an array, a division by
-- zero, a chain that does not end).
use mathlib.Core.Option.{Option, none, some}

infixl 5 ◌>>=◌
abbrev pub ◌>>=◌ {ℓ κ} : {A : Type ℓ} {B : Type κ} → Option A → (A → Option B) → Option B
none >>= f = none
some a >>= f = f a

-- Whatever the step returns satisfies `P`.
abbrev pub Ensures : {A : Type 0} → (A → Type 0) → Option A → Type 0
Ensures P none = Unit
Ensures P (some a) = P a

-- The step does not fault, and what it returns satisfies `P`.
abbrev pub Returns : {A : Type 0} → (A → Type 0) → Option A → Type 0
Returns P none = ⊥
Returns P (some a) = P a

module _ {A : Type 0} (P Q : A → Type 0) where
  pub Returns-map : (r : Option A) → ((a : A) → P a → Q a) → Returns P r → Returns Q r
  Returns-map none f h = h
  Returns-map (some a) f h = f a h

  pub Ensures-map : (r : Option A) → ((a : A) → P a → Q a) → Ensures P r → Ensures Q r
  Ensures-map none f h = h
  Ensures-map (some a) f h = f a h

pub Ensures-bind :
    {A B : Type 0} (P : A → Type 0) (Q : B → Type 0) (m : Option A) (f : A → Option B)
    → Ensures P m
    → ((a : A) → P a → Ensures Q (f a))
    → Ensures Q (m >>= f)
Ensures-bind P Q none f h g = tt
Ensures-bind P Q (some a) f h g = g a h

pub Ensures-any : {A : Type 0} (r : Option A) → Ensures (λ _. Unit {0}) r
Ensures-any none = tt
Ensures-any (some a) = tt

pub Returns-bind :
    {A B : Type 0} (P : A → Type 0) (Q : B → Type 0) (m : Option A) (f : A → Option B)
    → Returns P m
    → ((a : A) → P a → Returns Q (f a))
    → Returns Q (m >>= f)
Returns-bind P Q none f h g = absurd h
Returns-bind P Q (some a) f h g = g a h
