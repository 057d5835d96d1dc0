-- ===== src/Loader/Stack/Words.antt =====
-- pintos/src/lib/string.c: the words that strtok_r finds in a command line.
use ospersonal.Common.{
  List, [], ap, arith, false, length, length-append, refl, some, suc, zero, ℕ, ◌++◌, ◌<◌, ◌∙◌, ◌∷◌,
  ◌≡◌, ◌≢◌, ◌≤◌,
}
use ospersonal.Strings.{contains, skip_delimiters, next_token, strtok_r}
use ospersonal.Loader.Stack.{tokens, tokens_loop}

-- Bytes none of which is a space, and a word: one such byte at least.
abbrev pub Plain : List ℕ → Type 0
Plain [] = Unit
Plain (c ∷ s) = (c ≢ 32) × Plain s

abbrev pub IsWord : List ℕ → Type 0
IsWord [] = ⊥
IsWord (c ∷ s) = (c ≢ 32) × Plain s

abbrev pub AllWords : List (List ℕ) → Type 0
AllWords [] = Unit
AllWords (w ∷ ws) = IsWord w × AllWords ws

abbrev pub rest_of_line : List (List ℕ) → List ℕ
rest_of_line [] = []
rest_of_line (w ∷ ws) = 32 ∷ w ++ rest_of_line ws

-- Words with a space between each two.
abbrev pub line : List (List ℕ) → List ℕ
line [] = []
line (w ∷ ws) = w ++ rest_of_line ws

contains-ne : (c : ℕ) → c ≢ 32 → contains (32 ∷ []) c ≡ false
unfolding contains
contains-ne c ne = ground arith

next_token-line :
    (w : List ℕ) (ws : List (List ℕ))
    → Plain w
    → next_token (w ++ rest_of_line ws) (32 ∷ []) ≡ (w, line ws)
unfolding next_token contains
next_token-line [] [] h = refl
next_token-line [] (v ∷ ws) h = refl
next_token-line (c ∷ w) ws h =
    let other = contains-ne c h.0 in rw (next_token-line w ws h.1) (rw other refl)

strtok_r-line :
    (w : List ℕ) (ws : List (List ℕ))
    → IsWord w
    → strtok_r (w ++ rest_of_line ws) (32 ∷ []) ≡ some (w, line ws)
unfolding strtok_r skip_delimiters
strtok_r-line [] ws h = absurd h
strtok_r-line (c ∷ w) ws h =
    let other = contains-ne c h.0 in rw other (ap some (next_token-line (c ∷ w) ws h))

tokens_loop-step :
    (n : ℕ) (s t rest : List ℕ)
    → strtok_r s (32 ∷ []) ≡ some (t, rest)
    → tokens_loop (suc n) s ≡ t ∷ tokens_loop n rest
unfolding tokens_loop
tokens_loop-step n s t rest e = rw (e, tokens_loop) refl

tokens_loop-line :
    (n : ℕ) (ws : List (List ℕ)) → length ws < n → AllWords ws → tokens_loop n (line ws) ≡ ws
unfolding tokens_loop strtok_r skip_delimiters
tokens_loop-line zero ws h all = absurd (omega arith)
tokens_loop-line (suc n) [] h all = refl
tokens_loop-line (suc n) (w ∷ ws) h all =
    tokens_loop-step n (line (w ∷ ws)) w (line ws) (strtok_r-line w ws all.0)
    ∙ ap (λ (r : List (List ℕ)). w ∷ r) (tokens_loop-line n ws (omega arith) all.1)

length-rest_of_line : (ws : List (List ℕ)) → length ws ≤ length (rest_of_line ws)
length-rest_of_line [] = omega arith
length-rest_of_line (w ∷ ws) =
    omega (arith, length-append w (rest_of_line ws), length-rest_of_line ws)

length-line : (ws : List (List ℕ)) → AllWords ws → length ws ≤ length (line ws)
length-line [] all = omega arith
length-line ([] ∷ ws) all = absurd all.0
length-line ((c ∷ w) ∷ ws) all =
    omega (arith, length-append w (rest_of_line ws), length-rest_of_line ws)

pub tokens-line : (ws : List (List ℕ)) → AllWords ws → tokens (line ws) ≡ ws
tokens-line ws all =
    tokens_loop-line (suc (length (line ws))) ws (omega (arith, length-line ws all)) all
