-- ===== src/Userland/Tokens.antt =====
-- `strtok` of Userland/string.c. A string is the list of its bytes before the zero byte; `token`, the
-- static pointer, is what is left of the string, `none` for NULL.
use tp_so.Base.{
  ℕ, zero, suc, ◌≡◌, ◌<◌, refl, ap, sym, false, Option, none, some, List, [], ◌∷◌, arith,
  if◌then◌else◌, length, elem, Bool-cases, inl, inr, ◌⊎◌, ◌≤◌,
}
use tp_so.Base.Maybe.{◌>>=◌}

-- The first loop: delimiters in front are skipped.
unfoldable pub skip_delims : List ℕ → List ℕ → List ℕ
skip_delims delim [] = []
skip_delims delim (c ∷ cs) =
    let rest = skip_delims delim cs in if elem c delim then rest else c ∷ cs

-- The second loop: the string is cut at the next delimiter, which is overwritten.
pub cut_token : List ℕ → List ℕ → List ℕ × List ℕ
cut_token delim [] = ([], [])
cut_token delim (c ∷ cs) =
    let rest = cut_token delim cs in if elem c delim then ([], cs) else (c ∷ rest.0, rest.1)

unfoldable pub find_token : List ℕ → List ℕ → Option (List ℕ) × Option (List ℕ)
find_token delim [] = (none, some [])
find_token delim (c ∷ cs) = let cut = cut_token delim (c ∷ cs) in (some cut.0, some cut.1)

-- `strtok`: the token that it returns, and the pointer afterwards.
unfoldable pub strtok :
    Option (List ℕ) → Option (List ℕ) → List ℕ → Option (List ℕ) × Option (List ℕ)
strtok token none delim = elim token [
  | none ↦ (none, none)
  | some t ↦ find_token delim (skip_delims delim t)
]
strtok token (some str) delim = find_token delim (skip_delims delim str)

-- The tokens that calls with NULL return up to the first NULL, `calls` at most.
abbrev pub add_token : Option (List ℕ) → Option (List (List ℕ)) → Option (List (List ℕ))
add_token none rest = some []
add_token (some t) rest = (rest >>= λ ts. some (t ∷ ts))

pub later_tokens : ℕ → Option (List ℕ) → List ℕ → Option (List (List ℕ))
later_tokens zero token delim = none
later_tokens (suc calls) token delim =
    let out = strtok token none delim in add_token out.0 (later_tokens calls out.1 delim)

-- The words of a text, from its end: the word that begins it, and the words behind.
abbrev pub add_word : List ℕ → List (List ℕ) → List (List ℕ)
add_word [] ws = ws
add_word (c ∷ cs) ws = (c ∷ cs) ∷ ws

unfoldable pub split_words : List ℕ → List ℕ → List ℕ × List (List ℕ)
split_words delim [] = ([], [])
split_words delim (c ∷ cs) =
    let rest = split_words delim cs in
    if elem c delim then ([], add_word rest.0 rest.1) else (c ∷ rest.0, rest.1)

unfoldable pub words : List ℕ → List ℕ → List (List ℕ)
words delim text = let s = split_words delim text in add_word s.0 s.1

pub words-skip_delims :
    (delim text : List ℕ) → words delim (skip_delims delim text) ≡ words delim text
unfolding words skip_delims split_words
words-skip_delims delim [] = refl
words-skip_delims delim (c ∷ cs) = ground (arith, words-skip_delims delim cs)

split_words-cut_token :
    (delim text : List ℕ)
    → ((split_words delim text).0 ≡ (cut_token delim text).0)
      × ((split_words delim text).1 ≡ words delim (cut_token delim text).1)
unfolding words split_words cut_token
split_words-cut_token delim [] = (refl, refl)
split_words-cut_token delim (c ∷ cs) = ground (arith, split_words-cut_token delim cs)

length-skip_delims : (delim text : List ℕ) → length (skip_delims delim text) ≤ length text
unfolding skip_delims
length-skip_delims delim [] = omega arith
length-skip_delims delim (c ∷ cs) = ground (arith, length-skip_delims delim cs)

length-cut_token : (delim text : List ℕ) → length (cut_token delim text).1 ≤ length text
unfolding cut_token
length-cut_token delim [] = omega arith
length-cut_token delim (c ∷ cs) = ground (arith, length-cut_token delim cs)

-- What the first loop stops at.
pub skip_delims-cases :
    (delim text : List ℕ)
    → (skip_delims delim text ≡ [])
      ⊎ ((c : ℕ) × (cs : List ℕ) × (skip_delims delim text ≡ c ∷ cs) × (elem c delim ≡ false))
unfolding skip_delims
skip_delims-cases delim [] = inl refl
skip_delims-cases delim (c ∷ cs) = elim (Bool-cases (elem c delim)) [
  | inl e ↦ rw e (skip_delims-cases delim cs)
  | inr ne ↦ rw ne (inr (c, cs, refl, ne))
]

-- A text that begins with a word: the word, and the words of what is behind its delimiter.
pub words-cut_token :
    (delim : List ℕ) (c : ℕ) (cs : List ℕ)
    → elem c delim ≡ false
    → words delim (c ∷ cs) ≡ (cut_token delim (c ∷ cs)).0 ∷ words delim (cut_token delim (c ∷ cs)).1
unfolding words split_words cut_token
words-cut_token delim c cs ne =
    let s = split_words-cut_token delim cs in rw (ne, s.0, s.1, words) refl

find_token-shorter :
    (delim : List ℕ) (c : ℕ) (cs : List ℕ)
    → elem c delim ≡ false
    → length (cut_token delim (c ∷ cs)).1 ≤ length cs
unfolding cut_token
find_token-shorter delim c cs ne = rw ne (length-cut_token delim cs)

pub words-nil : (delim : List ℕ) → words delim [] ≡ []
unfolding words split_words
words-nil delim = refl

pub later_tokens-words :
    (calls : ℕ) (text delim : List ℕ)
    → length text < calls
    → later_tokens calls (some text) delim ≡ some (words delim text)
unfolding later_tokens strtok find_token
later_tokens-words zero text delim h = absurd (omega arith)
later_tokens-words (suc calls) text delim h = elim (skip_delims-cases delim text) [
  | inl e ↦ rw (sym (words-skip_delims delim text), e, words-nil delim) refl
  | inr (c, cs, e, ne) ↦
      let cut = cut_token delim (c ∷ cs) in
      let short : length cut.1 < calls =
        omega
          (arith, ap length e, length-skip_delims delim text, find_token-shorter delim c cs ne) in
      rw
        (
          sym (words-skip_delims delim text),
          e,
          words-cut_token delim c cs ne,
          later_tokens-words calls cut.1 delim short,
        )
        refl
]

-- The tokens that `strtok` returns, called with a string and then with NULL until it returns NULL, are
-- the words of the string, in order: the longest runs of bytes that are no delimiters. One call more
-- than the string has bytes is enough, whatever the static pointer was before.
pub strtok-words :
    (calls : ℕ) (token : Option (List ℕ)) (str delim : List ℕ)
    → length str ≤ calls
    → let first = strtok token (some str) delim in
      add_token first.0 (later_tokens calls first.1 delim) ≡ some (words delim str)
unfolding strtok later_tokens
strtok-words calls token str delim h = later_tokens-words (suc calls) str delim (omega arith)
