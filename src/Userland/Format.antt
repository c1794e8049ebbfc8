-- ===== src/Userland/Format.antt =====
-- `printf`, `stringFormat`, `printString` and `putChar` of Userland/stdio.c. A string is the list of its
-- bytes before the zero byte. `none` is a store outside of an array, or an argument that is missing or not
-- of the type that the format asks for.
pub mod Render
pub mod Append
pub mod Directives
pub mod Loop
pub mod Printf
use tp_so.Base.{
  ℕ, zero, suc, ◌+◌, ◌-◌, ◌%◌, ◌^◌, Bool, true, false, not, ◌&&◌, ◌||◌, Option, none, some, List,
  [], ◌∷◌, ltb, leb, ◌==◌, if◌then◌else◌, length, replicate, take,
}
use tp_so.Base.Maybe.{◌>>=◌}
use tp_so.Userland.Numbers.{num_to_string, dec_to_hex}
use tp_so.Userland.Copy.{store, copy_string_at, string_copy, text_of}

-- `BUFFER_MAX_LENGTH`, `TMP_LENGTH`
abbrev pub buffer_max_length : ℕ
buffer_max_length = 250

abbrev pub tmp_length : ℕ
tmp_length = 150

-- An argument behind the format.
pub data Arg : Type 0 where
  number : ℕ → Arg
  text : List ℕ → Arg

-- What the loop keeps: `buff` and `j`, the arguments that are left, and whether the byte before was a %.
pub record Format : Type 0 where
  pub buff : List ℕ
  pub j : ℕ
  pub args : List Arg
  pub pending : Bool

-- The loop goes on, or a byte behind a % is none that it knows.
pub data Step : Type 0 where
  next : Format → Step
  bad_argument : Step

-- `stringCopy` of what stands in `tmp` to the end of what is in the buffer.
pub append_text : Format → List Arg → List ℕ → Option Step
append_text f args tmp = copy_string_at f.buff f.j (buffer_max_length - f.j) tmp >>= λ b.
    some (next (record { buff = b; j = f.j + length tmp; args = args; pending = false }))

-- The cases of the switch, by the type of the next argument. What stood in `tmp` before is not read.
pub append_number : ℕ → Format → List Arg → ℕ → Option Step
append_number d f args n =
    if d == b'c'
    then (store f.buff f.j (n % 256) >>= λ b.
        some (next (record { buff = b; j = f.j + 1; args = args; pending = false })))
    else if d == b'd'
    then (num_to_string (n % 2 ^ 32) >>= λ out. append_text f args out.1)
    else if d == b'x' || d == b'p'
    then (dec_to_hex (n % 2 ^ 32) >>= λ out. append_text f args out.1)
    else none

pub append_string : ℕ → Format → List Arg → List ℕ → Option Step
append_string d f args source =
    if d == b's'
    then (string_copy (replicate tmp_length 0) tmp_length source >>= λ tmp.
        append_text f args (text_of tmp))
    else none

pub take_argument : ℕ → Format → List Arg → Option Step
take_argument d f [] = none
take_argument d f (number n ∷ args) = append_number d f args n
take_argument d f (text source ∷ args) = append_string d f args source

abbrev pub is_directive : ℕ → Bool
is_directive d = d == b'c' || d == b'd' || d == b'x' || d == b's' || d == b'p'

-- One byte of the format.
pub format_byte : Format → ℕ → Option Step
format_byte f c =
    if f.pending
    then (if is_directive c then take_argument c f f.args else some bad_argument)
    else if c == b'%'
    then some (next (record f { pending = true }))
    else (store f.buff f.j c >>= λ b.
        some (next (record { buff = b; j = f.j + 1; args = f.args; pending = false })))

abbrev pub go_on : (Format → Option Step) → Step → Option Step
go_on again bad_argument = some bad_argument
go_on again (next f) = again f

-- The loop of `printf` and `stringFormat`.
pub format_from : Format → List ℕ → Option Step
format_from f [] = some (if f.pending then bad_argument else next f)
format_from f (c ∷ cs) =
    let rest = (format_byte f c >>= go_on (λ f1. format_from f1 cs)) in
    if not f.pending && leb buffer_max_length f.j then some (next f) else rest

abbrev pub start : List Arg → Format
start args = record { buff = replicate buffer_max_length 0; j = 0; args = args; pending = false }

-- What `printf` writes: the text to the standard output, or a message to the standard error output.
pub data Printed : Type 0 where
  written : List ℕ → Printed
  too_long argument_error overflow : Printed

abbrev pub report : Step → Printed
report bad_argument = argument_error
report (next f) = if ltb buffer_max_length f.j then overflow else written (take f.j f.buff)

-- `printf`
pub printf : List ℕ → List Arg → Option Printed
printf str args =
    if ltb buffer_max_length (length str)
    then some too_long
    else (format_from (start args) str >>= λ s. some (report s))

-- The end of `stringFormat`.
pub copy_out : List ℕ → ℕ → Step → Option (List ℕ × Option Printed)
copy_out dest dest_size bad_argument = some (dest, some argument_error)
copy_out dest dest_size (next f) =
    if ltb buffer_max_length f.j
    then some (dest, some overflow)
    else (string_copy dest dest_size (text_of f.buff) >>= λ d. some (d, none))

-- `stringFormat`: what stands in the target then, and the message it writes, if any.
pub string_format : List ℕ → ℕ → List ℕ → List Arg → Option (List ℕ × Option Printed)
string_format dest dest_size str args =
    if ltb buffer_max_length (length str) || ltb buffer_max_length dest_size
    then some (dest, some too_long)
    else (format_from (start args) str >>= copy_out dest dest_size)
