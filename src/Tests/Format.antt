-- ===== src/Tests/Format.antt =====
-- Runs of the formatted output.
use tp_so.Base.{◌≡◌, refl, false, [], ◌∷◌, arith, some, List, ℕ}
use tp_so.Userland.Format.{Arg, number, text, written, printf}
use tp_so.Userland.Format.Render.{expand, render, Short}
use tp_so.Userland.Format.Printf.{printf-render}

-- "a%s-%c" with "bc" and 'd'
abbrev format : List ℕ
format = b'a' ∷ b'%' ∷ b's' ∷ b'-' ∷ b'%' ∷ b'c' ∷ []

abbrev arguments : List Arg
arguments = text (b'b' ∷ b'c' ∷ []) ∷ number b'd' ∷ []

format-render : render false format arguments ≡ some (b'a' ∷ b'b' ∷ b'c' ∷ b'-' ∷ b'd' ∷ [])
unfolding render expand
format-render = refl

arguments-Short : Short arguments
unfolding Short
arguments-Short = omega arith

printf-render_example :
    printf format arguments ≡ some (written (b'a' ∷ b'b' ∷ b'c' ∷ b'-' ∷ b'd' ∷ []))
printf-render_example =
    printf-render format arguments (b'a' ∷ b'b' ∷ b'c' ∷ b'-' ∷ b'd' ∷ []) (omega arith)
      arguments-Short format-render (omega arith)
