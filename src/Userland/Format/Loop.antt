-- ===== src/Userland/Format/Loop.antt =====
-- The loop puts the text of a format into the buffer.
use mathlib.Core.List.{append_assoc, append-nil}
use mathlib.Core.Path.{subst}
use mathlib.Core.Option.{some-injective}
use tp_so.Base.{
  ℕ, ◌+◌, ◌<◌, ◌≡◌, inl, inr, refl, sym, ap, ◌∙◌, Bool, true, false, some, List, [], ◌∷◌, ◌++◌, leb,
  ◌==◌, length, arith, Bool-cases, length-append,
}
use tp_so.Base.Maybe.{◌>>=◌}
use tp_so.Userland.Copy.{store}
use tp_so.Userland.Format.{
  Arg, Format, next, take_argument, is_directive, format_byte, format_from, buffer_max_length,
}
use tp_so.Userland.Format.Render.{
  expand, render, Short, bind-some, expand-directive, Short-expand, render-percent, render-byte,
}
use tp_so.Userland.Format.Append.{Holds, Holds-less, byte-Holds}
use tp_so.Userland.Format.Directives.{args-Expands}

-- The rounds of the loop.
module _ (f f1 : Format) (c : ℕ) (cs : List ℕ) where
  from_percent :
      f.pending ≡ false
      → f.j < buffer_max_length
      → (c == b'%') ≡ true
      → format_from f (c ∷ cs) ≡ format_from (record f { pending = true }) cs
  unfolding format_from format_byte
  from_percent p l e =
      let full : leb buffer_max_length f.j ≡ false = ground arith in simp (p, full, e) refl

  from_byte :
      f.pending ≡ false
      → f.j < buffer_max_length
      → (c == b'%') ≡ false
      → (store f.buff f.j c >>= λ b.
          some (next (record { buff = b; j = f.j + 1; args = f.args; pending = false })))
        ≡ some (next f1)
      → format_from f (c ∷ cs) ≡ format_from f1 cs
  unfolding format_from format_byte
  from_byte p l e st =
      let full : leb buffer_max_length f.j ≡ false = ground arith in simp (p, full, e, st) refl

  from_directive :
      f.pending ≡ true
      → is_directive c ≡ true
      → take_argument c f f.args ≡ some (next f1)
      → format_from f (c ∷ cs) ≡ format_from f1 cs
  unfolding format_from format_byte
  from_directive p e st = simp (p, e, st) refl

abbrev pub Renders : Format → List ℕ → List ℕ → List ℕ → Type 0
Renders f str out t = (f1 : Format) × (format_from f str ≡ some (next f1)) × Holds f1 (out ++ t) 2

pub round-Renders :
    (f f1 : Format) (str cs out u v t : List ℕ)
    → u ++ v ≡ t
    → format_from f str ≡ format_from f1 cs
    → Renders f1 cs (out ++ u) v
    → Renders f str out t
round-Renders f f1 str cs out u v t q e r = (
  r.0,
  e ∙ r.1,
  subst (λ (z : List ℕ). Holds r.0 z 2) (append_assoc out u v ∙ ap (λ (z : List ℕ). out ++ z) q)
      r.2,
)

pub end-Renders :
    (f : Format) (out t : List ℕ)
    → f.pending ≡ false
    → [] ≡ t
    → Holds f out (length t + 2)
    → Renders f [] out t
unfolding format_from
end-Renders f out t p q h = (
  f,
  simp p refl,
  subst (λ (z : List ℕ). Holds f z 2) (sym (append-nil out) ∙ ap (λ (z : List ℕ). out ++ z) q)
      (Holds-less f out (length t + 2) 2 (omega arith) h),
)

-- The loop puts the text of the format behind `out`.
pub format_from-render :
    (str : List ℕ) (pending : Bool) (f : Format) (args : List Arg) (out t : List ℕ)
    → f.pending ≡ pending
    → f.args ≡ args
    → Short args
    → render pending str args ≡ some t
    → Holds f out (length t + 2)
    → Renders f str out t
unfolding render
format_from-render [] false f args out t p a s x h = end-Renders f out t p (some-injective _ _ x) h
format_from-render [] true f args out t p a s x h = cc
format_from-render (c ∷ cs) false f args out t p a s x h =
    let low : f.j < buffer_max_length = omega (arith, h.at, h.whole, h.room) in
    elim (Bool-cases (c == b'%')) [
      | inl e ↦
          let f1 : Format = record f { pending = true } in
          let h1 : Holds f1 out (length t + 2) = record {
            rest = h.rest;
            bytes = h.bytes;
            at = h.at;
            whole = h.whole;
            room = h.room;
          } in
          let r =
            format_from-render cs true f1 args out t refl a s (sym (render-percent c cs args e) ∙ x)
              h1 in
          (r.0, from_percent f f1 c cs p low e ∙ r.1, r.2)
      | inr e ↦
          let b =
            bind-some (render false cs args) (λ t. some (c ∷ t)) t
              (sym (render-byte c cs args e) ∙ x) in
          let q = some-injective _ _ b.2 in
          let h1 =
            Holds-less f out (length t + 2) (1 + (length b.0 + 2)) (omega (arith, ap length q)) h in
          let k = byte-Holds f f.args out c (length b.0 + 2) h1 in
          let r =
            format_from-render cs false k.0 args (out ++ c ∷ []) b.0 k.3 (k.2 ∙ a) s b.1 k.4 in
          round-Renders f k.0 (c ∷ cs) cs out (c ∷ []) b.0 t q (from_byte f k.0 c cs p low e k.1) r
    ]
format_from-render (d ∷ cs) true f args out t p a s x h =
    let b = bind-some (expand d args) (λ e. render false cs e.1 >>= λ t. some (e.0 ++ t)) t x in
    let b2 = bind-some (render false cs b.0.1) (λ t. some (b.0.0 ++ t)) t b.2 in
    let q = some-injective _ _ b2.2 in
    let sum = length-append b.0.0 b2.0 in
    let h1 =
      Holds-less f out (length t + 2) (length b.0.0 + (length b2.0 + 2))
        (omega (arith, ap length q, sum)) h in
    let k = args-Expands d f args out (length b2.0 + 2) b.0 (omega arith) s b.1 h1 in
    let taken = (λ i. take_argument d f (a i)) ∙ k.1 in
    let r =
      format_from-render cs false k.0 b.0.1 (out ++ b.0.0) b2.0 k.3 k.2
        (Short-expand d args b.0 b.1 s) b2.1 k.4 in
    round-Renders f k.0 (d ∷ cs) cs out b.0.0 b2.0 t q
      (from_directive f k.0 d cs p (expand-directive d args b.0 b.1) taken) r
