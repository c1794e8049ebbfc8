-- ===== src/Userland/Format/Directives.antt =====
-- A directive puts its text at the end of what is in the buffer.
use mathlib.Core.Path.{subst}
use mathlib.Core.Option.{some-injective}
use tp_so.Base.{
  ℕ, zero, suc, ◌+◌, ◌%◌, ◌^◌, ◌≤◌, ◌≡◌, inl, inr, refl, ap, ◌∙◌, false, ◌||◌, Option, none, some,
  List, [], ◌∷◌, ◌++◌, ◌==◌, length, replicate, take, arith, Bool-cases,
}
use tp_so.Base.Maybe.{◌>>=◌, Returns}
use tp_so.Userland.Numbers.{num_to_string, dec_to_hex}
use tp_so.Userland.Copy.{store, string_copy, text_of, NoZero, string_copy-bounds}
use tp_so.Userland.Format.{
  Arg, number, text, Format, Step, next, append_text, append_number, append_string, take_argument,
  tmp_length,
}
use tp_so.Userland.Format.Render.{expand, Short}
use tp_so.Userland.Format.Append.{Holds, append_text-Holds, byte-Holds}

pub take_all : (n : ℕ) (cs : List ℕ) → length cs ≤ n → take n cs ≡ cs
take_all zero [] h = refl
take_all zero (c ∷ cs) h = absurd (omega arith)
take_all (suc n) [] h = refl
take_all (suc n) (c ∷ cs) h = ap (λ (ds : List ℕ). c ∷ ds) (take_all n cs (omega arith))

-- `stringCopy` of a short string into `tmp`.
pub copied :
    (t : List ℕ)
    → NoZero t
    → length t + 2 ≤ tmp_length
    → (tmp : List ℕ) × (string_copy (replicate tmp_length 0) tmp_length t ≡ some tmp)
      × (text_of tmp ≡ t)
copied t z short = elim (string_copy-bounds (replicate tmp_length 0) tmp_length t z) [
  | inl k ↦ from (string_copy (replicate tmp_length 0) tmp_length t) k.1
  | inr k ↦ absurd (omega (arith, k.0, short))
]
  where
    from :
        (r : Option (List ℕ))
        → Returns (λ d. (text_of d ≡ take (suc tmp_length) t) × (length d ≡ tmp_length)) r
        → (tmp : List ℕ) × (r ≡ some tmp) × (text_of tmp ≡ t)
    from none h = absurd h
    from (some d) h = (d, refl, h.0 ∙ take_all (suc tmp_length) t (omega arith))

-- A step puts a text behind `out`, and leaves arguments.
abbrev pub Puts : Option Step → List ℕ → List Arg → ℕ → Type 0
Puts r out args n =
    (f1 : Format) × (r ≡ some (next f1)) × (f1.args ≡ args) × (f1.pending ≡ false) × Holds f1 out n

abbrev pub Expands : ℕ → Format → List Arg → List ℕ → ℕ → List ℕ × List Arg → Type 0
Expands d f args out n e =
    Holds f out (length e.0 + n) → Puts (take_argument d f args) (out ++ e.0) e.1 n

module _ (d : ℕ) (f : Format) (args : List Arg) (out : List ℕ) (n : ℕ) (two : 2 ≤ n) where
  -- Both sides look at the same text.
  same-text :
      (m : Option (ℕ × List ℕ)) (e : List ℕ × List Arg)
      → (m >>= λ o. some (o.1, args)) ≡ some e
      → Holds f out (length e.0 + n)
      → Puts (m >>= λ o. append_text f args o.1) (out ++ e.0) e.1 n
  same-text none e x = cc
  same-text (some o) e x =
      subst
        (λ (e : List ℕ × List Arg).
          Holds f out (length e.0 + n) → Puts (append_text f args o.1) (out ++ e.0) e.1 n)
        (some-injective _ _ x) (λ h. append_text-Holds f args out o.1 n h two)

  number-Expands :
      (v : ℕ) (e : List ℕ × List Arg)
      → expand d (number v ∷ args) ≡ some e
      → Expands d f (number v ∷ args) out n e
  unfolding take_argument append_number expand
  number-Expands v e = elim (Bool-cases (d == b'c')) [
    | inl i ↦ rw i (λ x.
        subst
          (λ (e : List ℕ × List Arg).
            Holds f out (length e.0 + n)
            → Puts
                (store f.buff f.j (v % 256) >>= λ b.
                  some (next (record { buff = b; j = f.j + 1; args = args; pending = false })))
                (out ++ e.0) e.1 n)
          (some-injective _ _ x) (λ h. byte-Holds f args out (v % 256) n h))
    | inr i ↦ elim (Bool-cases (d == b'd')) [
      | inl j ↦ rw (i, j) (λ x. same-text (num_to_string (v % 2 ^ 32)) e x)
      | inr j ↦ elim (Bool-cases (d == b'x' || d == b'p')) [
        | inl k ↦ rw (i, j, k) (λ x. same-text (dec_to_hex (v % 2 ^ 32)) e x)
        | inr k ↦ rw (i, j, k) (λ x. cc)
      ]
    ]
  ]

  through_tmp :
      (t : List ℕ)
      → NoZero t
      → length t + 2 ≤ tmp_length
      → Holds f out (length t + n)
      → Puts
          (string_copy (replicate tmp_length 0) tmp_length t >>= λ tmp.
            append_text f args (text_of tmp))
          (out ++ t)
          args
          n
  through_tmp t z short h =
      let k = copied t z short in rw k.1 (rw k.2 (append_text-Holds f args out t n h two))

  string-Expands :
      (t : List ℕ) (e : List ℕ × List Arg)
      → NoZero t
      → length t + 2 ≤ tmp_length
      → expand d (text t ∷ args) ≡ some e
      → Expands d f (text t ∷ args) out n e
  unfolding take_argument append_string expand
  string-Expands t e z short = elim (Bool-cases (d == b's')) [
    | inl i ↦ rw i (λ x.
        subst
          (λ (e : List ℕ × List Arg).
            Holds f out (length e.0 + n)
            → Puts
                (string_copy (replicate tmp_length 0) tmp_length t >>= λ tmp.
                  append_text f args (text_of tmp))
                (out ++ e.0) e.1 n)
          (some-injective _ _ x) (λ h. through_tmp t z short h))
    | inr i ↦ rw i (λ x. cc)
  ]

pub args-Expands :
    (d : ℕ) (f : Format) (args : List Arg) (out : List ℕ) (n : ℕ) (e : List ℕ × List Arg)
    → 2 ≤ n
    → Short args
    → expand d args ≡ some e
    → Expands d f args out n e
unfolding Short expand
args-Expands d f [] out n e two s x = cc
args-Expands d f (number v ∷ args) out n e two s x = number-Expands d f args out n two v e x
args-Expands d f (text t ∷ args) out n e two s x = string-Expands d f args out n two t e s.0 s.1 x
