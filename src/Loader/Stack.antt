-- ===== src/Loader/Stack.antt =====
-- pintos/src/userprog/process.c: setup_stack, the first page of a process's stack. Memory is bytes by
-- address, and `none` is a 101st argument, which would be written past the end of `arg_locations`.
-- The command line is a string with no NUL, and is shorter than a page.
pub mod Layout
pub mod Pushes
pub mod Arguments
pub mod Words
use ospersonal.Common.{
  Bool, List, Option, [], if◌then◌else◌, length, ltb, none, some, suc, zero, ℕ, ◌%◌, ◌&&◌, ◌*◌,
  ◌++◌, ◌+◌, ◌-◌, ◌/◌, ◌==◌, ◌∷◌,
}
use ospersonal.Strings.{strtok_r}
use ospersonal.Loader.{phys_base, sub32}

abbrev pub ByteMemory : Type 0
ByteMemory = ℕ → ℕ

abbrev pub store : ByteMemory → ℕ → ℕ → ByteMemory
store m a v x = if x == a then v else m x

-- `strlcpy` of a whole string, the NUL included.
unfoldable pub store_string : ByteMemory → ℕ → List ℕ → ByteMemory
store_string m a [] = store m a 0
store_string m a (c ∷ s) = store_string (store m a c) (suc a) s

-- A 32-bit number, its lowest byte first.
unfoldable pub store_word : ByteMemory → ℕ → ℕ → ByteMemory
store_word m a w =
    store (store (store (store m a (w % 256)) (a + 1) (w / 256 % 256)) (a + 2) (w / 65536 % 256))
      (a + 3) (w / 16777216 % 256)

unfoldable pub load_word : ByteMemory → ℕ → ℕ
load_word m a = m a + 256 * m (a + 1) + 65536 * m (a + 2) + 16777216 * m (a + 3)

-- The memory, `*esp`, and the addresses of what was pushed.
pub record Pushed : Type 0 where
  pub memory : ByteMemory
  pub esp : ℕ
  pub locations : List ℕ

-- The tokens of `stack_args`, one after the other.
unfoldable pub push_strings : ByteMemory → ℕ → List (List ℕ) → Pushed
push_strings m esp [] = record { memory = m; esp = esp; locations = [] }
push_strings m esp (t ∷ ts) =
    let at = esp - (length t + 1) in
    let later = push_strings (store_string m at t) at ts in
    record later { locations = at ∷ later.locations }

-- `argv[]`, from its last element to its first.
unfoldable pub push_words : ByteMemory → ℕ → List ℕ → ByteMemory × ℕ
push_words m esp [] = (m, esp)
push_words m esp (w ∷ ws) =
    let (m', esp') = push_words m esp ws in (store_word m' (esp' - 4) w, esp' - 4)

-- The calls of `strtok_r` on the command line, with one more than its length for fuel.
unfoldable pub tokens_loop : ℕ → List ℕ → List (List ℕ)
tokens_loop zero s = []
tokens_loop (suc n) s = elim (strtok_r s (b' ' ∷ [])) [
  | none ↦ []
  | some (token, rest) ↦ token ∷ tokens_loop n rest
]

abbrev pub tokens : List ℕ → List (List ℕ)
tokens s = tokens_loop (suc (length s)) s

-- The part after the strings are pushed: alignment, `argv[]`, `argv`, `argc` and the return address.
unfoldable pub push_arguments : Pushed → ByteMemory × ℕ
push_arguments p =
    let argc = length p.locations in
    let address = sub32 p.esp ((argc + 3) * 4) in
    let start = p.esp - address % 16 in
    let (m, esp) = push_words p.memory start (p.locations ++ 0 ∷ []) in
    let with_argv = store_word m (esp - 4) (esp - 4 + 4) in
    let with_argc = store_word with_argv (esp - 4 - 4) argc in (with_argc, esp - 4 - 4 - 4)

-- Whether there is a frame, and whether it can be mapped, are the first arguments; the inner `none`
-- is the answer false.
unfoldable pub setup_stack : Bool → Bool → ByteMemory → List ℕ → Option (Option (ByteMemory × ℕ))
setup_stack frame installed m stack_args =
    if frame && installed
    then (let p = push_strings m phys_base (tokens stack_args) in
        if ltb 100 (length p.locations) then none else some (some (push_arguments p)))
    else some none
