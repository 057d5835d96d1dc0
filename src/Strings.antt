-- ===== src/Strings.antt =====
-- pintos/src/lib/string.c: strings, each its bytes before the NUL. A pointer into a string that a
-- function returns is the rest of the string from there on.
pub mod Comparing
pub mod Memory
use ospersonal.Common.{
  Bool, List, Option, [], false, if◌then◌else◌, length, ltb, none, some, true, ℕ, ◌==◌, ◌∷◌,
}

-- Whether a byte other than NUL is in a string.
unfoldable pub contains : List ℕ → ℕ → Bool
contains [] c = false
contains (x ∷ s) c = if x == c then true else contains s c

-- `strtok_r` skips the delimiters that it starts at.
unfoldable pub skip_delimiters : List ℕ → List ℕ → List ℕ
skip_delimiters [] delimiters = []
skip_delimiters (c ∷ s) delimiters =
    let rest = skip_delimiters s delimiters in if contains delimiters c then rest else c ∷ s

-- The bytes up to the next delimiter, and what follows it.
unfoldable pub next_token : List ℕ → List ℕ → List ℕ × List ℕ
next_token [] delimiters = ([], [])
next_token (c ∷ s) delimiters =
    let (token, rest) = next_token s delimiters in
    if contains delimiters c then ([], s) else (c ∷ token, rest)

abbrev pub token_answer : List ℕ → List ℕ → Option (List ℕ × List ℕ)
token_answer [] delimiters = none
token_answer (c ∷ s) delimiters = some (next_token (c ∷ s) delimiters)

-- The token, and where `*save_ptr` is left.
unfoldable pub strtok_r : List ℕ → List ℕ → Option (List ℕ × List ℕ)
strtok_r s delimiters = token_answer (skip_delimiters s delimiters) delimiters

-- The sign of an `int` result.
pub data Sign : Type 0 where
  negative equal positive : Sign

unfoldable pub strcmp : List ℕ → List ℕ → Sign
strcmp [] [] = equal
strcmp [] (b ∷ t) = negative
strcmp (a ∷ s) [] = positive
strcmp (a ∷ s) (b ∷ t) =
    let rest = strcmp s t in if a == b then rest else (if ltb a b then negative else positive)

abbrev pub is_equal : Sign → Bool
is_equal negative = false
is_equal equal = true
is_equal positive = false

abbrev pub strlen : List ℕ → ℕ
strlen s = length s
