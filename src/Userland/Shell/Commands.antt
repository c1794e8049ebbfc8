-- ===== src/Userland/Shell/Commands.antt =====
-- Which command `checkCommand` finds.
use tp_so.Base.{
  ℕ, suc, ◌+◌, ◌≡◌, ◌≢◌, refl, Bool, true, false, ◌&&◌, Option, none, some, List, [], ◌∷◌, arith,
  ltb, ◌==◌, if◌then◌else◌, drop, Bool-cases, inl, inr,
}
use tp_so.Base.Int.{pos, negsuc}
use tp_so.Kernel.Strings.{stringn_compare, string_length, is_zero}
use tp_so.Userland.Shell.{ends_name, check_command_from, check_command}

-- The part of a line before the first space.
unfoldable pub first_word : List ℕ → List ℕ
first_word [] = []
first_word (c ∷ cs) = if c == b' ' then [] else c ∷ first_word cs

-- Texts are the same, by their bytes.
unfoldable pub same_text : List ℕ → List ℕ → Bool
same_text [] [] = true
same_text [] (d ∷ ds) = false
same_text (c ∷ cs) [] = false
same_text (c ∷ cs) (d ∷ ds) = c == d && same_text cs ds

-- The number of the first name that is the word, counted from `i`.
unfoldable pub index_of : ℕ → List ℕ → List (List ℕ) → Option ℕ
index_of i word [] = none
index_of i word (name ∷ names) = if same_text name word then some i else index_of (i + 1) word names

abbrev pub NoSpace : List ℕ → Type 0
NoSpace [] = Unit
NoSpace (c ∷ cs) = (c ≢ b' ') × NoSpace cs

abbrev pub NamesOf : List (List ℕ) → Type 0
NamesOf [] = Unit
NamesOf (name ∷ names) = NoSpace name × NamesOf names

-- What the loop tests for one name.
abbrev tests : ℕ → List ℕ → List ℕ → Bool
tests n name line = is_zero (stringn_compare name line n) && ends_name (drop n line)

differs : (t : Bool) → is_zero (if t then negsuc 0 else pos 1) ≡ false
differs true = refl
differs false = refl

same_text-cons :
    (c d : ℕ) (cs ds : List ℕ) → same_text (c ∷ cs) (d ∷ ds) ≡ (c == d && same_text cs ds)
unfolding same_text
same_text-cons c d cs ds = refl

tests-same_text :
    (name line : List ℕ)
    → NoSpace name
    → tests (string_length name) name line ≡ same_text name (first_word line)
unfolding stringn_compare string_length same_text first_word
tests-same_text [] [] h = refl
tests-same_text [] (d ∷ ds) h = ground arith
tests-same_text (c ∷ cs) [] h =
    let n : string_length cs + 1 ≡ suc (string_length cs) = omega arith in rw n refl
tests-same_text (c ∷ cs) (d ∷ ds) h =
    let n : string_length cs + 1 ≡ suc (string_length cs) = omega arith in
    elim (Bool-cases (c == d)) [
      | inl e ↦
          let f : (d == b' ') ≡ false = ground arith in
          rw (n, e, f, same_text-cons c d cs (first_word ds), e) (tests-same_text cs ds h.1)
      | inr ne ↦ elim (Bool-cases (d == b' ')) [
        | inl f ↦ rw (n, ne, f, differs (ltb c d)) refl
        | inr f ↦ rw (n, ne, f, differs (ltb c d), same_text-cons c d cs (first_word ds), ne) refl
      ]
    ]

check_command_from-index_of :
    (i : ℕ) (names : List (List ℕ)) (line : List ℕ)
    → NamesOf names
    → check_command_from i names line ≡ index_of i (first_word line) names
unfolding check_command_from index_of
check_command_from-index_of i [] line h = refl
check_command_from-index_of i (name ∷ names) line h =
    rw (tests-same_text name line h.0, check_command_from-index_of (i + 1) names line h.1) refl

-- `checkCommand` finds the first command whose name is the first word of the line, all of it, and -1 where
-- there is none, if no name has a space.
pub check_command-index_of :
    (names : List (List ℕ)) (line : List ℕ)
    → NamesOf names
    → check_command names line ≡ index_of 0 (first_word line) names
unfolding check_command
check_command-index_of names line h = check_command_from-index_of 0 names line h
