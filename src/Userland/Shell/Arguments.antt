-- ===== src/Userland/Shell/Arguments.antt =====
-- The arguments that `getArguments` finds.
use mathlib.Core.Path.{ap₂, subst}
use tp_so.Base.{
  ℕ, zero, suc, ◌+◌, ◌≤◌, ◌≡◌, refl, ap, ◌∙◌, sym, Option, none, some, List, [], ◌∷◌, arith,
  if◌then◌else◌, Bool-cases, inl, inr, length, take, map, take_of_le, elem,
}
use tp_so.Base.Maybe.{Returns, Returns-map, Returns-bind}
use tp_so.Userland.Tokens.{
  strtok, find_token, skip_delims, cut_token, words, words-skip_delims, words-cut_token, words-nil,
  skip_delims-cases,
}
use tp_so.Userland.Copy.{string_copy, text_of, NoZero, string_copy-bounds}
use tp_so.Userland.Shell.{buffer_max_length, is_pipe, read_arguments, get_arguments, skip_spaces}

-- The words in front of the first one that begins with a bar.
unfoldable pub before_pipe : List (List ℕ) → List (List ℕ)
before_pipe [] = []
before_pipe (w ∷ ws) = if is_pipe w then [] else w ∷ before_pipe ws

-- The words fit into the rows, with two bytes behind them, as `stringCopy` needs.
abbrev pub AllShort : List (List ℕ) → Type 0
AllShort [] = Unit
AllShort (w ∷ ws) = (NoZero w × (length w + 2 ≤ buffer_max_length)) × AllShort ws

abbrev pub Rows : List (List ℕ) → Type 0
Rows [] = Unit
Rows (r ∷ rows) = (length r ≡ buffer_max_length) × Rows rows

abbrev spaces : List ℕ
spaces = b' ' ∷ []

copy_short :
    (row token : List ℕ)
    → length row ≡ buffer_max_length
    → NoZero token
    → length token + 2 ≤ buffer_max_length
    → Returns (λ d. text_of d ≡ token) (string_copy row buffer_max_length token)
copy_short row token e z short = elim (string_copy-bounds row buffer_max_length token z) [
  | inl (room, r) ↦
      Returns-map _ _ (string_copy row buffer_max_length token)
        (λ d s. s.0 ∙ take_of_le (suc buffer_max_length) token (omega arith)) r
  | inr (long, r) ↦ absurd (omega arith)
]

abbrev Read : List (List ℕ) → List (List ℕ) → List (List ℕ) → Type 0
Read rows ws out = map text_of out ≡ take (length rows) (before_pipe ws)

before_pipe-cons :
    (w : List ℕ) (ws : List (List ℕ))
    → before_pipe (w ∷ ws) ≡ (if is_pipe w then [] else w ∷ before_pipe ws)
unfolding before_pipe
before_pipe-cons w ws = refl

Read-token :
    (row : List ℕ) (rows : List (List ℕ)) (token : List ℕ) (ws : List (List ℕ))
    (next : Option (List ℕ))
    → length row ≡ buffer_max_length
    → NoZero token × (length token + 2 ≤ buffer_max_length)
    → Returns (Read rows ws) (let out = strtok next none spaces in read_arguments rows out.0 out.1)
    → Returns (Read (row ∷ rows) (token ∷ ws)) (read_arguments (row ∷ rows) (some token) next)
unfolding read_arguments
Read-token row rows token ws next e s ih = elim (Bool-cases (is_pipe token)) [
  | inl p ↦ rw (p, before_pipe-cons token ws, p) refl
  | inr np ↦
      let out = strtok next none spaces in
      let shape : before_pipe (token ∷ ws) ≡ token ∷ before_pipe ws =
        before_pipe-cons token ws ∙ rw np refl in
      rw np (
        Returns-bind (λ d. text_of d ≡ token) _ (string_copy row buffer_max_length token) _
          (copy_short row token e s.0 s.1)
          (λ d t.
            Returns-bind (Read rows ws) _ (read_arguments rows out.0 out.1) _ ih
              (λ others i. ap₂ ◌∷◌ t i ∙ sym (ap (take (suc (length rows))) shape))))
]

-- From the state of `strtok` on a text.
read_arguments-words :
    (rows : List (List ℕ)) (text : List ℕ)
    → Rows rows
    → AllShort (words spaces text)
    → Returns
        (Read rows (words spaces text))
        (let out = find_token spaces (skip_delims spaces text) in read_arguments rows out.0 out.1)
unfolding read_arguments strtok find_token before_pipe
read_arguments-words [] text r short = refl
read_arguments-words (row ∷ rows) text r short = elim (skip_delims-cases spaces text) [
  | inl e ↦ rw (sym (words-skip_delims spaces text), e, words-nil spaces) refl
  | inr (c, cs, e, ne) ↦
      let cut = cut_token spaces (c ∷ cs) in
      let w : words spaces text ≡ cut.0 ∷ words spaces cut.1 =
        sym (words-skip_delims spaces text)
        ∙ ap (words spaces) e
        ∙ words-cut_token spaces c cs ne in
      let s : AllShort (cut.0 ∷ words spaces cut.1) = subst AllShort w short in
      rw (w, e)
        (Read-token row rows cut.0 (words spaces cut.1) (some cut.1) r.0 s.0
          (read_arguments-words rows cut.1 r.1 s.1))
]

skip_spaces-eq-skip_delims : (text : List ℕ) → skip_spaces text ≡ skip_delims spaces text
unfolding skip_spaces skip_delims elem
skip_spaces-eq-skip_delims [] = refl
skip_spaces-eq-skip_delims (c ∷ cs) = ground (arith, skip_spaces-eq-skip_delims cs)

no_words : (n : ℕ) → take n (before_pipe (words spaces [])) ≡ []
unfolding before_pipe
no_words zero = refl
no_words (suc n) = rw (words-nil spaces) refl

abbrev arguments_at : List (List ℕ) → Option (List ℕ) → List ℕ → Option (List (List ℕ))
arguments_at rows token cadena =
    let out = strtok token (some cadena) spaces in
    elim cadena [ [] ↦ some [] | d ∷ ds ↦ read_arguments rows out.0 out.1 ]

arguments_at-words :
    (rows : List (List ℕ)) (token : Option (List ℕ)) (cadena : List ℕ)
    → Rows rows
    → AllShort (words spaces cadena)
    → Returns (Read rows (words spaces cadena)) (arguments_at rows token cadena)
unfolding strtok
arguments_at-words rows token [] r short = sym (no_words (length rows))
arguments_at-words rows token (d ∷ ds) r short = read_arguments-words rows (d ∷ ds) r short

-- `getArguments` fills one row for each of the words of the line, in order, up to the first word that
-- begins with a bar and to as many as there are rows, and each row holds its word; whatever the static
-- pointer of `strtok` was. The rows have `BUFFER_MAX_LENGTH` bytes; a word has no zero byte and leaves
-- two bytes of its row.
pub get_arguments-words :
    (rows : List (List ℕ)) (token : Option (List ℕ)) (text : List ℕ)
    → Rows rows
    → AllShort (words spaces text)
    → Returns
        (λ out. map text_of out ≡ take (length rows) (before_pipe (words spaces text)))
        (get_arguments rows token text)
unfolding get_arguments
get_arguments-words rows token [] r short = sym (no_words (length rows))
get_arguments-words rows token (c ∷ cs) r short =
    let text = c ∷ cs in
    let same : words spaces (skip_spaces text) ≡ words spaces text =
      ap (words spaces) (skip_spaces-eq-skip_delims text) ∙ words-skip_delims spaces text in
    subst (λ ws. Returns (Read rows ws) (arguments_at rows token (skip_spaces text))) same
      (arguments_at-words rows token (skip_spaces text) r (subst AllShort (sym same) short))
