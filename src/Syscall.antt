-- ===== src/Syscall.antt =====
-- pintos/src/userprog/syscall.c: the descriptors of a process and the kernel's table of open files.
-- `struct file *` and `struct global_file *` are addresses. `none` is a fault: a read through freed
-- or null memory, or past the end of an array. A descriptor is the 32-bit pattern of an `int`.
pub mod Lowest
pub mod Descriptors
pub mod Globals
pub mod Stdin
use ospersonal.Common.{
  ℕ, zero, suc, ◌+◌, ◌-◌, ◌^◌, Bool, true, false, not, ◌&&◌, ◌||◌, Option, none, some, List, [],
  ◌∷◌, ◌++◌, leb, ltb, ◌==◌, if◌then◌else◌, ◌>>=◌, ◌>>◌, assert, length, get_elem?, set, replicate,
  drop,
}
use ospersonal.Thread.{update}

pub record GlobalFile : Type 0 where
  pub refcount : ℕ
  pub file : ℕ

-- `struct file_descriptor`.
pub record Descriptor : Type 0 where
  pub value : ℕ
  pub global_file : ℕ

-- The heap of `struct global_file`, `none` for what is not allocated, and the static array.
pub record Files : Type 0 where
  pub heap : ℕ → Option GlobalFile
  pub global_files : List (Option ℕ)

-- `fds` and `closed_files` of `struct thread`, with the table; `closed` lists the files given to
-- `file_close`.
pub record Process : Type 0 where
  pub fds : List Descriptor
  pub closed_files : List ℕ
  pub files : Files
  pub open files use *
  pub closed : List ℕ

abbrev pub max_global_files : ℕ
max_global_files = 1024

-- `init_thread`: no descriptor is in use; all bits of `closed_files` are zero.
unfoldable pub init_process : Files → Process
init_process f = record { fds = []; closed_files = replicate 128 0; files = f; closed = [] }

-- The file of a descriptor; the inner `none` is NULL.
unfoldable pub search_fd : (ℕ → Option GlobalFile) → List Descriptor → ℕ → Option (Option ℕ)
search_fd heap [] value = some none
search_fd heap (fd ∷ fds) value =
    let rest = search_fd heap fds value in
    if fd.value == value then (heap fd.global_file >>= λ g. some (some g.file)) else rest

unfoldable pub delete_fd : List Descriptor → ℕ → List Descriptor
delete_fd [] value = []
delete_fd (fd ∷ fds) value = if fd.value == value then fds else fd ∷ delete_fd fds value

search_slots : (ℕ → Option GlobalFile) → List (Option ℕ) → ℕ → Option (Option ℕ)
search_slots heap [] file = some none
search_slots heap (none ∷ slots) file = search_slots heap slots file
search_slots heap (some a ∷ slots) file = heap a >>= λ g.
    let rest = search_slots heap slots file in if g.file == file then some (some a) else rest

-- The address of the first global file that stands for the file; the inner `none` is NULL.
unfoldable pub search_global : Files → ℕ → Option (Option ℕ)
unfolding search_slots
search_global f file = search_slots f.heap f.global_files file

free_slot : List (Option ℕ) → ℕ → Option ℕ
free_slot [] i = none
free_slot (none ∷ slots) i = some i
free_slot (some a ∷ slots) i = free_slot slots (i + 1)

-- `fresh` is what `malloc` returned, NULL being `none`: the code writes through it unchecked.
unfoldable pub insert_global : Files → ℕ → Option ℕ → Option (Option ℕ × Files)
unfolding free_slot
insert_global f file fresh = elim (free_slot f.global_files 0) [
  | none ↦ some (none, f)
  | some i ↦ fresh >>= λ a. some (
    some a,
    record {
      heap = update f.heap a (some (record { refcount = 1; file = file }));
      global_files = set f.global_files i (some a);
    },
  )
]

-- The slot of the array keeps the address, also of a global file that is freed.
unfoldable pub delete_global : Files → ℕ → Option Files
delete_global f file = search_global f file >>= λ found. found >>= λ a. f.heap a >>= λ g.
    if g.refcount == 1
    then some (record f { heap = update f.heap a none })
    else if ltb 1 g.refcount
    then some (record f { heap = update f.heap a (some (record g { refcount = g.refcount - 1 })) })
    else some f

-- `while (closed_files[fd] && fd <= 128) fd++`, over the array from `fd` on.
unfoldable pub lowest_fd : List ℕ → ℕ → Option ℕ
lowest_fd [] fd = none
lowest_fd (c ∷ cs) fd =
    let rest = lowest_fd cs (fd + 1) in
    if c == 0 then some fd else if leb fd 128 then rest else some fd

-- The result of a call: the answer, and the process after it.
abbrev pub minus_one : ℕ
minus_one = 2 ^ 32 - 1

-- The global file for a file: the known one, or a new one.
unfoldable pub open_global : Files → ℕ → Option ℕ → Option (Option ℕ × Files)
open_global f file fresh = search_global f file >>= λ known. elim known [
  | some a ↦ some (some a, f)
  | none ↦ insert_global f file fresh
]

-- The end of `syscall_open`, once the descriptor `fd` is chosen and marked.
unfoldable pub open_finish : Process → ℕ → Bool → Option ℕ → Files → ℕ × Process
open_finish p fd fd_memory none f =
    (minus_one, record p { closed_files = set p.closed_files fd 1; files = f })
open_finish p fd fd_memory (some a) f =
    if fd_memory
    then (
      fd,
      record p {
        fds = p.fds ++ record { value = fd; global_file = a } ∷ [];
        closed_files = set p.closed_files fd 1;
        files = f;
      },
    )
    else (minus_one, record p { closed_files = set p.closed_files fd 1; files = f })

-- `opened` is what `filesys_open` returned; `fresh` and `fd_memory` are the answers of `malloc`.
unfoldable pub syscall_open : Process → Option ℕ → Option ℕ → Bool → Option (ℕ × Process)
syscall_open p none fresh fd_memory = some (minus_one, p)
syscall_open p (some file) fresh fd_memory = lowest_fd (drop 2 p.closed_files) 2 >>= λ fd.
    open_global p.files file fresh >>= λ r. some (open_finish p fd fd_memory r.0 r.1)

-- `delete_global` runs before `file_close`; the file is `none` when no descriptor was found.
unfoldable pub close_found : Process → ℕ → Option ℕ → Option Process
close_found p fd none = some p
close_found p fd (some file) = delete_global p.files file >>= λ f. some (record p {
  fds = delete_fd p.fds fd;
  closed_files = set p.closed_files fd 1;
  files = f;
  closed = file ∷ p.closed;
})

unfoldable pub syscall_close : Process → ℕ → Option Process
syscall_close p fd = search_fd p.heap p.fds fd >>= λ found. close_found p fd found

-- `fd < 0` for an `int`.
abbrev pub is_negative : ℕ → Bool
is_negative fd = leb (2 ^ 31) fd

-- The branch of `syscall_handler` for SYS_CLOSE; the inner `none` is `system_exit (f, -1)`.
unfoldable pub handle_close : Process → ℕ → Option (Option Process)
handle_close p fd =
    if fd == 0 || (fd == 1 || (is_negative fd || ltb 128 fd))
    then some none
    else (search_fd p.heap p.fds fd >>= λ found. elim found [
      | none ↦ some none
      | some file ↦ syscall_close p fd >>= λ q. some (some q)
    ])

-- `free_thread`: every descriptor of a dying process is dropped.
unfoldable pub free_thread : List Descriptor → Files → Option Files
free_thread [] f = some f
free_thread (fd ∷ fds) f =
    f.heap fd.global_file >>= λ g. delete_global f g.file >>= λ f'. free_thread fds f'

-- Where `syscall_read` and `syscall_write` take a call: to the answer that they give at once, to the
-- keyboard or console, or to the file.
pub data Target : Type 0 where
  refused : ℕ → Target
  device : Target
  file_of : ℕ → Target

unfoldable pub read_target : Process → ℕ → Option Target
read_target p fd =
    if is_negative fd || (ltb 128 fd || fd == 1)
    then some (refused minus_one)
    else (search_fd p.heap p.fds fd >>= λ found. elim found [
      | none ↦ some (refused minus_one)
      | some file ↦ some (if fd == 0 then device else file_of file)
    ])

unfoldable pub write_target : Process → ℕ → Option Target
write_target p fd =
    if fd == 1
    then some device
    else if is_negative fd || (fd == 0 || ltb 128 fd)
    then some (refused 0)
    else (search_fd p.heap p.fds fd >>= λ found. elim found [
      | none ↦ some (refused 0)
      | some file ↦ some (file_of file)
    ])
