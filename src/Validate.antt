-- ===== src/Validate.antt =====
-- pintos/src/userprog/syscall.c: the checks of the arguments of a system call. A failed check ends the
-- process with -1, and with it the call.
pub mod Strings
use ospersonal.Common.{
  ℕ, zero, suc, ◌+◌, ◌%◌, ◌^◌, Bool, true, false, not, ◌&&◌, ◌||◌, ltb, ◌==◌, if◌then◌else◌,
}

abbrev pub phys_base : ℕ
phys_base = 0xc0000000

-- The process's memory: whether `pagedir_get_page` finds the address, and the byte there.
pub record UserMemory : Type 0 where
  pub present : ℕ → Bool
  pub byte : ℕ → ℕ

-- Addition to a pointer.
abbrev pub plus : ℕ → ℕ → ℕ
plus pointer n = (pointer + n) % 2 ^ 32

-- `true` where `validate_pointer` returns.
unfoldable pub validate_pointer : UserMemory → ℕ → Bool
validate_pointer m pointer =
    not (pointer == 0)
    && (ltb pointer phys_base
        && (ltb (plus pointer 3) phys_base && (m.present pointer && m.present (plus pointer 3))))

-- The loop of `validate_string`, with the rounds left first.
unfoldable pub string_loop : ℕ → UserMemory → ℕ → Bool
string_loop zero m pointer = false
string_loop (suc n) m pointer =
    let rest = string_loop n m (plus pointer 1) in
    if validate_pointer m pointer then (if m.byte pointer == 0 then true else rest) else false

abbrev pub max_string : ℕ
max_string = 512

abbrev pub validate_string : UserMemory → ℕ → Bool
validate_string m file = string_loop max_string m file

-- The numbers of the system calls, from lib/syscall-nr.h, that take no, two or three arguments.
abbrev pub argument_count : ℕ → ℕ
argument_count number =
    if number == 0
    then 0
    else if number == 4 || (number == 10 || (number == 14 || number == 18))
    then 2
    else if number == 8 || number == 9
    then 3
    else 1

-- The checks of the words of `args`, the rounds left first and the next word's address second.
unfoldable pub words_loop : ℕ → UserMemory → ℕ → Bool
words_loop zero m pointer = true
words_loop (suc n) m pointer =
    let rest = words_loop n m (plus pointer 4) in if validate_pointer m pointer then rest else false

-- The start of `syscall_handler`: the number, and then each argument's word. `number` is what the word
-- at `args` holds.
unfoldable pub validate_arguments : UserMemory → ℕ → ℕ → Bool
validate_arguments m args number =
    if validate_pointer m args then words_loop (argument_count number) m (plus args 4) else false
