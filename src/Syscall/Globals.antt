-- ===== src/Syscall/Globals.antt =====
-- pintos/src/userprog/syscall.c: the table of open files after `delete_global` freed an entry.
use ospersonal.Common.{
  some_injective, ℕ, Option, none, some, List, [], ◌∷◌, ◌≡◌, ◌==◌, >>=-eq-some, Bool-cases, inl,
  inr, arith, sym, ◌>>=◌, ◌∙◌, bind_some, Bool, drop, refl, ap,
}
use ospersonal.Thread.{update}
use ospersonal.Syscall.{
  Files, Process, GlobalFile, search_slots, search_global, delete_global, syscall_close,
  syscall_open, lowest_fd, open_finish, open_global, close_found, search_fd,
}

freed_slot :
    (heap : ℕ → Option GlobalFile) (slots : List (Option ℕ)) (file other a : ℕ)
    → search_slots heap slots file ≡ some (some a)
    → search_slots heap slots other ≡ some none
    → search_slots (update heap a none) slots other ≡ none
unfolding search_slots
freed_slot heap [] file other a e z = absurd (cc)
freed_slot heap (none ∷ slots) file other a e z = freed_slot heap slots file other a e z
freed_slot heap (some b ∷ slots) file other a e z =
    let (g, e1, e2) = >>=-eq-some (heap b) _ e in
    let (g', e1', e2') = >>=-eq-some (heap b) _ z in
    elim (Bool-cases (g.file == file)) [
      | inl here ↦ ground (arith, e1, e2, here)
      | inr there ↦ ground (arith, e1, e2, e1', e2', there, freed_slot heap slots file other a)
    ]

module _ (f : Files) (file a : ℕ) (known : search_global f file ≡ some (some a)) (g : GlobalFile)
    (last : f.heap a ≡ some g) (one : g.refcount ≡ 1) where
  delete_global-last : delete_global f file ≡ some (record f { heap = update f.heap a none })
  unfolding delete_global
  delete_global-last = bind_some _ known ∙ bind_some _ last ∙ ground (arith, one)

  search_freed :
      (other : ℕ)
      → search_global f other ≡ some none
      → search_global (record f { heap = update f.heap a none }) other ≡ none
  unfolding search_global
  search_freed other z = freed_slot f.heap f.global_files file other a known z

open_unknown :
    (q : Process) (other : ℕ) (fresh : Option ℕ) (mem : Bool)
    → search_global q.files other ≡ none
    → syscall_open q (some other) fresh mem ≡ none
unfolding syscall_open open_global
open_unknown q other fresh mem h = go (lowest_fd (drop 2 q.closed_files) 2)
  where
    go :
        (o : Option ℕ)
        → (o >>= λ fd. open_global q.files other fresh >>= λ r. some (open_finish q fd mem r.0 r.1))
          ≡ none
    go none = refl
    go (some fd) = ground (arith, h)

-- Closing the last descriptor of a file leaves its freed entry in the table: the next `open` of a file
-- that the table does not hold reads freed memory, or finds no descriptor.
pub open_after_close :
    (p q : Process) (fd file other a : ℕ) (g : GlobalFile) (fresh : Option ℕ) (mem : Bool)
    → search_fd p.heap p.fds fd ≡ some (some file)
    → search_global p.files file ≡ some (some a)
    → p.heap a ≡ some g
    → g.refcount ≡ 1
    → search_global p.files other ≡ some none
    → syscall_close p fd ≡ some q
    → syscall_open q (some other) fresh mem ≡ none
unfolding syscall_close close_found
open_after_close p q fd file other a g fresh mem found known last one z e =
    let closed =
      sym e
      ∙ (bind_some _ found ∙ bind_some _ (delete_global-last p.files file a known g last one)) in
    open_unknown q other fresh mem (
      ap (λ (x : Process). search_global x.files other) (some_injective closed)
      ∙ search_freed p.files file a known g last one other z)
