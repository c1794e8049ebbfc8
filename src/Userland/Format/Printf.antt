-- ===== src/Userland/Format/Printf.antt =====
-- What `printf` writes.
use tp_so.Base.{
  ℕ, ◌+◌, ◌≤◌, ◌≡◌, refl, ap, ◌∙◌, false, some, List, [], ◌∷◌, ◌++◌, ltb, length, replicate, take,
  arith,
}
use tp_so.Userland.Format.{Arg, Format, next, written, printf, report, start, buffer_max_length}
use tp_so.Userland.Format.Render.{render, Short}
use tp_so.Userland.Format.Append.{Holds}
use tp_so.Userland.Format.Loop.{format_from-render}

take-prefix : (xs ys : List ℕ) → take (length xs) (xs ++ ys) ≡ xs
take-prefix [] ys = refl
take-prefix (x ∷ xs) ys = ap (λ (zs : List ℕ). x ∷ zs) (take-prefix xs ys)

report-written : (f : Format) (t : List ℕ) → Holds f t 2 → report (next f) ≡ written t
report-written f t h =
    let small : ltb buffer_max_length f.j ≡ false = ground (arith, h.at, h.whole) in
    let text = (λ i. take (h.at i) (h.bytes i)) ∙ take-prefix t h.rest in
    simp (small) (ap written text)

-- For a format of at most 250 bytes, behind each % of which stands a letter that `printf` knows and for
-- which there is an argument of its type, with no zero byte and at most 148 bytes in each string among
-- the arguments and at most 248 bytes in the whole text, `printf` stores inside its arrays and writes the
-- format with the texts of the arguments in the place of the directives.
pub printf-render :
    (str : List ℕ) (args : List Arg) (t : List ℕ)
    → length str ≤ buffer_max_length
    → Short args
    → render false str args ≡ some t
    → length t + 2 ≤ buffer_max_length
    → printf str args ≡ some (written t)
unfolding printf
printf-render str args t fits short x room =
    let first : Holds (start args) [] (length t + 2) = record {
      rest = replicate buffer_max_length 0;
      bytes = refl;
      at = refl;
      whole = refl;
      room = room;
    } in
    let r = format_from-render str false (start args) args [] t refl refl short x first in
    let small : ltb buffer_max_length (length str) ≡ false = ground (arith, fits) in
    simp (small, r.1) (ap some (report-written r.0 t r.2))
