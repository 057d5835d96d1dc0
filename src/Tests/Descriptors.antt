-- ===== src/Tests/Descriptors.antt =====
-- pintos/src/userprog/syscall.c: a process that opens and closes one file.
use ospersonal.Common.{
  ℕ, ◌≡◌, ◌≢◌, true, Option, none, some, replicate, arith, refl, if◌then◌else◌, ◌==◌,
}
use ospersonal.Syscall.{
  Process, Files, init_process, syscall_open, syscall_close, open_global, open_finish, close_found,
  insert_global, delete_global, search_global, search_fd, lowest_fd, delete_fd, read_target,
  refused, minus_one,
}
use ospersonal.Syscall.Descriptors.{opens, closes, start, more, syscall_open-IsLowest, never_reused}
use ospersonal.Syscall.Lowest.{IsLowest, in_use}
use ospersonal.Syscall.Globals.{open_after_close}
use ospersonal.Syscall.Stdin.{stdin_refused}

abbrev no_files : Files
no_files = record { heap = λ a. none; global_files = replicate 4 none }

abbrev new_process : Process
new_process = init_process no_files

abbrev answer_or {ℓ} : {A : Type ℓ} → A → Option A → A
answer_or d none = d
answer_or d (some r) = r

-- It opens file 50, whose global file is made at 80.
abbrev opened : ℕ × Process
opened = answer_or (0, new_process) (syscall_open new_process (some 50) (some 80) true)

abbrev closed_again : Process
closed_again = answer_or new_process (syscall_close opened.1 2)

abbrev reopened : ℕ × Process
reopened = answer_or (0, new_process) (syscall_open opened.1 (some 60) (some 90) true)

opened_answer : syscall_open new_process (some 50) (some 80) true ≡ some opened
unfolding syscall_open lowest_fd open_global insert_global search_global open_finish init_process
opened_answer = refl

closed_answer : syscall_close opened.1 2 ≡ some closed_again
unfolding syscall_open lowest_fd open_global insert_global search_global open_finish init_process
    syscall_close close_found delete_global search_fd delete_fd
closed_answer = refl

syscall_open-IsLowest_example :
    IsLowest new_process 2
    × ((k : ℕ) → in_use opened.1 k ≡ (if k == 2 then true else in_use new_process k))
unfolding syscall_open lowest_fd open_global insert_global search_global open_finish init_process
syscall_open-IsLowest_example =
    syscall_open-IsLowest new_process refl 50 (some 80) true opened_answer
      (λ e. absurd (omega arith))

never_reused_example : reopened.0 ≢ 2
unfolding syscall_open lowest_fd open_global insert_global search_global open_finish init_process
never_reused_example =
    never_reused new_process opened.1 opened.1 reopened.1 50 60 2 reopened.0 (some 80) (some 90)
      true true refl refl (λ e. absurd (omega arith)) start refl (λ e. absurd (omega arith))

open_after_close_example : syscall_open closed_again (some 60) (some 90) true ≡ none
unfolding syscall_open lowest_fd open_global insert_global search_global open_finish init_process
    search_fd
open_after_close_example =
    open_after_close opened.1 closed_again 2 50 60 80 (record { refcount = 1; file = 50 }) (some 90)
      true refl refl refl refl refl closed_answer

stdin_refused_example : read_target closed_again 0 ≡ some (refused minus_one)
unfolding syscall_open lowest_fd init_process open_global search_global insert_global open_finish
stdin_refused_example = stdin_refused no_files closed_again (
    more opened.1 closed_again
      (more new_process opened.1 start (opens (some 50) (some 80) true 2 opened.1 opened_answer))
      (closes 2 closed_again closed_answer))
