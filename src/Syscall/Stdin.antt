-- ===== src/Syscall/Stdin.antt =====
-- pintos/src/userprog/syscall.c: `read` on descriptor 0.
use ospersonal.Common.{
  some_injective, ℕ, ◌≡◌, ◌≤◌, Option, refl, >>=-eq-some, drop, ◌+◌, none, some, List, [], ◌∷◌,
  ◌++◌, ◌==◌, Bool-cases, inl, inr, arith, subst, sym, bind_some, Bool, true, false,
}
use ospersonal.Syscall.{
  Files, Process, Descriptor, GlobalFile, search_fd, delete_fd, lowest_fd, open_global,
  syscall_open, open_finish, read_target, refused, minus_one, init_process,
}
use ospersonal.Syscall.Descriptors.{
  FdStep, FdReach, opens, closes, start, more, syscall_close-Closed,
}

-- All the descriptors are past those of the console.
data AboveConsole : List Descriptor → Type 0 where
  no_more : AboveConsole []
  and_next :
      (d : Descriptor) (ds : List Descriptor)
      → 2 ≤ d.value
      → AboveConsole ds
      → AboveConsole (d ∷ ds)

append-AboveConsole :
    (ds : List Descriptor) (d : Descriptor)
    → AboveConsole ds
    → 2 ≤ d.value
    → AboveConsole (ds ++ d ∷ [])
append-AboveConsole [] d no_more h = and_next d [] h no_more
append-AboveConsole (x ∷ xs) d (and_next x' xs' l a) h =
    and_next x (xs ++ d ∷ []) l (append-AboveConsole xs d a h)

delete_fd-AboveConsole :
    (ds : List Descriptor) (fd : ℕ) → AboveConsole ds → AboveConsole (delete_fd ds fd)
unfolding delete_fd
delete_fd-AboveConsole [] fd a = a
delete_fd-AboveConsole (x ∷ xs) fd (and_next x' xs' l a) = elim (Bool-cases (x.value == fd)) [
  | inl here ↦ rw here a
  | inr there ↦ rw there (and_next x (delete_fd xs fd) l (delete_fd-AboveConsole xs fd a))
]

search_fd-console :
    (heap : ℕ → Option GlobalFile) (ds : List Descriptor)
    → AboveConsole ds
    → search_fd heap ds 0 ≡ some none
unfolding search_fd
search_fd-console heap [] no_more = refl
search_fd-console heap (x ∷ xs) (and_next x' xs' l a) =
    ground (arith, l, search_fd-console heap xs a)

lowest_fd-above : (cs : List ℕ) (fd k : ℕ) → lowest_fd cs fd ≡ some k → fd ≤ k
unfolding lowest_fd
lowest_fd-above [] fd k e = absurd (cc)
lowest_fd-above (c ∷ cs) fd k e = ground (arith, lowest_fd-above cs (fd + 1) k)

open_finish-AboveConsole :
    (p : Process) (fd : ℕ) (mem : Bool) (a : Option ℕ) (f : Files)
    → AboveConsole p.fds
    → 2 ≤ fd
    → AboveConsole ((open_finish p fd mem a f).1.fds)
unfolding open_finish
open_finish-AboveConsole p fd mem none f all l = all
open_finish-AboveConsole p fd true (some a) f all l = append-AboveConsole p.fds _ all l
open_finish-AboveConsole p fd false (some a) f all l = all

FdStep-AboveConsole : (p q : Process) → FdStep p q → AboveConsole p.fds → AboveConsole q.fds
unfolding syscall_open
FdStep-AboveConsole p q (opens none fresh mem r q' e) all =
    subst (λ (o : ℕ × Process). AboveConsole o.1.fds) (some_injective e) all
FdStep-AboveConsole p q (opens (some file) fresh mem r q' e) all =
    let (fd, e1, e2) = >>=-eq-some (lowest_fd (drop 2 p.closed_files) 2) _ e in
    let (slot, e3, e4) = >>=-eq-some (open_global p.files file fresh) _ e2 in
    subst (λ (o : ℕ × Process). AboveConsole o.1.fds) (some_injective e4)
      (open_finish-AboveConsole p fd mem slot.0 slot.1 all (lowest_fd-above _ 2 fd e1))
FdStep-AboveConsole p q (closes fd q' e) all = elim (syscall_close-Closed p q fd e) [
  | inl same ↦ subst (λ (x : Process). AboveConsole x.fds) (sym same) all
  | inr c ↦
      subst (λ (x : Process). AboveConsole x.fds) (sym c.result)
        (delete_fd-AboveConsole p.fds fd all)
]

FdReach-AboveConsole : (p q : Process) → FdReach p q → AboveConsole p.fds → AboveConsole q.fds
FdReach-AboveConsole p q start all = all
FdReach-AboveConsole p q (more m r path step) all =
    FdStep-AboveConsole m q step (FdReach-AboveConsole p m path all)

-- After any sequence of `open` and `close` of a new process, `read` on descriptor 0 answers -1 and
-- never takes the branch that reads the keyboard.
pub stdin_refused :
    (f : Files) (p : Process)
    → FdReach (init_process f) p
    → read_target p 0 ≡ some (refused minus_one)
unfolding read_target init_process
stdin_refused f p path =
    let all = FdReach-AboveConsole (init_process f) p path no_more in
    bind_some _ (search_fd-console p.heap p.fds all)
