-- ===== src/Userland/Format/Append.antt =====
-- A text and a byte at the end of what is in the buffer.
use mathlib.Core.List.{append_assoc}
use tp_so.Base.{
  ℕ, zero, suc, ◌+◌, ◌-◌, ◌≤◌, ◌≡◌, refl, sym, ◌∙◌, false, some, List, [], ◌∷◌, ◌++◌, length, arith,
  length-append,
}
use tp_so.Base.Maybe.{◌>>=◌}
use tp_so.Userland.Copy.{store, store-here, copy_string_at, stored_in, two_in, copy-stored_in}
use tp_so.Userland.Format.{Arg, Format, next, append_text, buffer_max_length}

-- The buffer holds `out` and has room for `n` bytes more.
pub record Holds (f : Format) (out : List ℕ) (n : ℕ) : Type 0 where
  pub rest : List ℕ
  pub bytes : f.buff ≡ out ++ rest
  pub at : f.j ≡ length out
  pub whole : length rest + length out ≡ buffer_max_length
  pub room : n ≤ length rest

record Fits (ys : List ℕ) (n : ℕ) (src : List ℕ) : Type 0 where
  pub rest : List ℕ
  stored : stored_in ys n src ≡ some (src ++ rest)
  sum : length src + length rest ≡ length ys

stored_in-Fits :
    (ys : List ℕ) (n : ℕ) (src : List ℕ)
    → length src ≤ n
    → length src + 2 ≤ length ys
    → Fits ys n src
unfolding stored_in two_in
stored_in-Fits [] n [] h i = absurd (omega arith)
stored_in-Fits (y ∷ []) n [] h i = absurd (omega arith)
stored_in-Fits (y ∷ (z ∷ zs)) n [] h i = record {
  rest = 0 ∷ (0 ∷ zs);
  stored = refl;
  sum = omega arith;
}
stored_in-Fits ys zero (c ∷ cs) h i = absurd (omega arith)
stored_in-Fits [] (suc n) (c ∷ cs) h i = absurd (omega arith)
stored_in-Fits (y ∷ ys) (suc n) (c ∷ cs) h i =
    let k = stored_in-Fits ys n cs (omega arith) (omega arith) in
    record { rest = k.rest; stored = rw k.stored refl; sum = omega (arith, k.sum) }

-- A text at the end of what is in the buffer.
pub append_text-Holds :
    (f : Format) (args : List Arg) (out t : List ℕ) (n : ℕ)
    → Holds f out (length t + n)
    → 2 ≤ n
    → (f1 : Format) × (append_text f args t ≡ some (next f1))
      × (f1.args ≡ args)
      × (f1.pending ≡ false)
      × Holds f1 (out ++ t) n
unfolding append_text
append_text-Holds f args out t n h two =
    let k =
      stored_in-Fits h.rest (buffer_max_length - f.j) t (omega (arith, h.whole, h.at, h.room))
        (omega (arith, h.room)) in
    let e : copy_string_at f.buff f.j (buffer_max_length - f.j) t ≡ some (out ++ (t ++ k.rest)) =
      (λ i. copy_string_at (h.bytes i) (h.at i) (buffer_max_length - f.j) t)
      ∙ copy-stored_in t (buffer_max_length - f.j) out h.rest
      ∙ rw k.stored refl in
    (
      record { buff = out ++ (t ++ k.rest); j = f.j + length t; args = args; pending = false },
      rw e refl,
      refl,
      refl,
      record {
        rest = k.rest;
        bytes = sym (append_assoc out t k.rest);
        at = omega (arith, h.at, length-append out t);
        whole = omega (arith, h.whole, k.sum, length-append out t);
        room = omega (arith, h.room, k.sum);
      },
    )

-- One byte at the end of what is in the buffer.
byte_stored :
    (f : Format) (out : List ℕ) (c n : ℕ)
    → Holds f out (1 + n)
    → (rest : List ℕ) × (store f.buff f.j c ≡ some (out ++ c ∷ rest))
      × (suc (length rest) + length out ≡ buffer_max_length)
      × (n ≤ length rest)
byte_stored f out c n h = first h.rest h.bytes h.whole h.room
  where
    first :
        (rest : List ℕ)
        → f.buff ≡ out ++ rest
        → length rest + length out ≡ buffer_max_length
        → 1 + n ≤ length rest
        → (r : List ℕ) × (store f.buff f.j c ≡ some (out ++ c ∷ r))
          × (suc (length r) + length out ≡ buffer_max_length)
          × (n ≤ length r)
    first [] e w l = absurd (omega arith)
    first (z ∷ zs) e w l =
        (zs, (λ i. store (e i) (h.at i) c) ∙ store-here out z c zs, w, omega arith)

pub byte-Holds :
    (f : Format) (args : List Arg) (out : List ℕ) (c n : ℕ)
    → Holds f out (1 + n)
    → (f1 : Format) × ((store f.buff f.j c >>= λ b.
          some (next (record { buff = b; j = f.j + 1; args = args; pending = false })))
        ≡ some (next f1))
      × (f1.args ≡ args)
      × (f1.pending ≡ false)
      × Holds f1 (out ++ c ∷ []) n
byte-Holds f args out c n h =
    let k = byte_stored f out c n h in
    (
      record { buff = out ++ c ∷ k.0; j = f.j + 1; args = args; pending = false },
      rw k.1 refl,
      refl,
      refl,
      record {
        rest = k.0;
        bytes = sym (append_assoc out (c ∷ []) k.0);
        at = omega (arith, h.at, length-append out (c ∷ []));
        whole = omega (arith, k.2, length-append out (c ∷ []));
        room = k.3;
      },
    )

pub Holds-less : (f : Format) (out : List ℕ) (n k : ℕ) → k ≤ n → Holds f out n → Holds f out k
Holds-less f out n k l h = record {
  rest = h.rest;
  bytes = h.bytes;
  at = h.at;
  whole = h.whole;
  room = omega (arith, l, h.room);
}
