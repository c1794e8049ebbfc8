-- ===== src/Userland/Shell.antt =====
-- Userland/programs/sh.c: how a line is typed, and how the shell finds the command and the arguments in it. A line is the list
-- of its bytes before the zero byte. `stringnCompare` and `stringLength` of Userland/string.c have the
-- same code as those of Kernel/string.c.
use tp_so.Base.{
  ℕ, zero, suc, ◌+◌, ◌-◌, Bool, true, false, ◌&&◌, Option, none, some, List, [], ◌∷◌, ltb, ◌==◌,
  if◌then◌else◌, drop, length, set,
}
use tp_so.Base.Maybe.{◌>>=◌}
use tp_so.Kernel.Strings.{stringn_compare, string_length, is_zero}
use tp_so.Userland.Tokens.{strtok}
use tp_so.Userland.Copy.{string_copy, store}
pub mod Commands
pub mod Arguments
pub mod Editing

-- `MAX_ARGS_COUNT`, `BUFFER_MAX_LENGTH`
abbrev pub max_args_count : ℕ
max_args_count = 5

abbrev pub buffer_max_length : ℕ
buffer_max_length = 250

-- What stands behind the name of a command: a space or the end.
abbrev pub ends_name : List ℕ → Bool
ends_name [] = true
ends_name (c ∷ cs) = c == b' '

-- The loop of `checkCommand` from command `i` on; `none` is -1.
pub check_command_from : ℕ → List (List ℕ) → List ℕ → Option ℕ
check_command_from i [] last_command = none
check_command_from i (name ∷ names) last_command =
    let n = string_length name in
    let rest = check_command_from (i + 1) names last_command in
    if is_zero (stringn_compare name last_command n) && ends_name (drop n last_command)
    then some i
    else rest

-- `checkCommand`, with the names that `loadCommands` has set.
pub check_command : List (List ℕ) → List ℕ → Option ℕ
check_command commands_name last_command = check_command_from 0 commands_name last_command

-- `getArguments`: spaces in front are skipped.
pub skip_spaces : List ℕ → List ℕ
skip_spaces [] = []
skip_spaces (c ∷ cs) = let rest = skip_spaces cs in if c == b' ' then rest else c ∷ cs

abbrev pub is_pipe : List ℕ → Bool
is_pipe [] = false
is_pipe (c ∷ cs) = c == b'|'

-- The loop of `getArguments`: the token is copied into the next row of `lastArguments`, while there is
-- one; the rows that are filled are returned.
pub read_arguments : List (List ℕ) → Option (List ℕ) → Option (List ℕ) → Option (List (List ℕ))
read_arguments [] token next = some []
read_arguments (row ∷ rows) none next = some []
read_arguments (row ∷ rows) (some token) next =
    let out = strtok next none (b' ' ∷ []) in
    let rest = read_arguments rows out.0 out.1 in
    if is_pipe token
    then some []
    else (string_copy row buffer_max_length token >>= λ filled.
        rest >>= λ others. some (filled ∷ others))

pub get_arguments : List (List ℕ) → Option (List ℕ) → List ℕ → Option (List (List ℕ))
get_arguments last_arguments token [] = some []
get_arguments last_arguments token (c ∷ cs) =
    let cadena = skip_spaces (c ∷ cs) in
    let out = strtok token (some cadena) (b' ' ∷ []) in
    elim cadena [ [] ↦ some [] | d ∷ ds ↦ read_arguments last_arguments out.0 out.1 ]

-- The line editor of `awaitCommand`: `lastCommand`, `bufferCount`, `isBackground`.
pub record Editor : Type 0 where
  pub last_command : List ℕ
  pub buffer_count : ℕ
  pub is_background : Bool

-- `lastCommand[bufferCount++] = c`
abbrev pub append_char : ℕ → Editor → Option Editor
append_char c e = store e.last_command e.buffer_count c >>= λ line.
    some (record e { last_command = line; buffer_count = e.buffer_count + 1 })

-- One round of the loop of `awaitCommand`, for a byte of the input; 0xFF is -1.
pub read_char : Editor → ℕ → Option Editor
read_char e c =
    if c == 0xFF
    then some e
    else if c == 8 && ltb 0 e.buffer_count
    then (store e.last_command e.buffer_count 0 >>= λ line.
        some (record e { last_command = line; buffer_count = e.buffer_count - 1 }))
    else if c == b'&'
    then some (record e { is_background = true })
    else if c == 8
    then some e
    else if c == 9
    then (append_char b' ' e >>= λ e1. append_char b' ' e1 >>= λ e2. append_char b' ' e2)
    else append_char c e

-- The loop of `awaitCommand` over the bytes before the line feed, and the end of the string behind it.
pub read_chars : List ℕ → Editor → Option Editor
read_chars [] e =
    store e.last_command e.buffer_count 0 >>= λ line. some (record e { last_command = line })
read_chars (c ∷ cs) e = (read_char e c >>= λ e'. read_chars cs e')
