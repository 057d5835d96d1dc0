-- ===== src/Syscall/Descriptors.antt =====
-- pintos/src/userprog/syscall.c: the descriptors that `open` gives out and `close` takes back.
use ospersonal.Common.{
  >>=-eq-some, Bool, Bool-cases, List, Option, [], ap, arith, get_or, get_or-set_ne,
  get_or-set_self, if◌then◌else◌, inl, inr, length, length-set, none, refl, set, some,
  some_injective, subst, suc, sym, true, zero, ℕ, ◌==◌, ◌∙◌, ◌∷◌, ◌≡◌, ◌≢◌, ◌⊎◌,
}
use ospersonal.Syscall.{
  Process, Files, syscall_open, minus_one, syscall_close, search_fd, delete_global, delete_fd,
  close_found,
}
use ospersonal.Syscall.Lowest.{IsLowest, in_use, lowest_fd-IsLowest, syscall_open-Opened}

module _ (p : Process) (n : length p.closed_files ≡ 128) where
  -- For a process with an array of 128 marks, a descriptor that `open` answers with is the least that the
  -- array marks free; afterwards the array marks it too, and marks no other anew.
  pub syscall_open-IsLowest :
      (file : ℕ) (fresh : Option ℕ) (mem : Bool) {fd : ℕ} {q : Process}
      → syscall_open p (some file) fresh mem ≡ some (fd, q)
      → fd ≢ minus_one
      → IsLowest p fd × ((k : ℕ) → in_use q k ≡ (if k == fd then true else in_use p k))
  syscall_open-IsLowest file fresh mem {fd} {q} e h =
      let o = syscall_open-Opened p file fresh mem e in
      let same : fd ≡ o.fd = elim o.answer [ inl s ↦ s | inr m ↦ absurd (h m) ] in
      let least = lowest_fd-IsLowest p fd n (o.found ∙ ap some (sym same)) in
      (
        least,
        λ k. elim (Bool-cases (k == fd)) [
          | inl here ↦ ground (arith, o.marked, least.upper, get_or-set_self p.closed_files fd 1 0)
          | inr there ↦ ground (arith, o.marked, get_or-set_ne p.closed_files fd k 1 0)
        ],
      )

-- A call of `open` or of `close` by the process, with whatever the file system and `malloc` answer.
pub data FdStep (p : Process) : Process → Type 0 where
  opens :
      (opened : Option ℕ) (fresh : Option ℕ) (mem : Bool) (r : ℕ) (q : Process)
      → syscall_open p opened fresh mem ≡ some (r, q)
      → FdStep p q
  closes : (fd : ℕ) (q : Process) → syscall_close p fd ≡ some q → FdStep p q

pub data FdReach (p : Process) : Process → Type 0 where
  start : FdReach p p
  more : (q r : Process) → FdReach p q → FdStep q r → FdReach p r

-- Every descriptor that is in use in the first process is in use in the second, of as long an array.
record Keeps (p q : Process) : Type 0 where
  same_length : length q.closed_files ≡ length p.closed_files
  kept : (k : ℕ) → in_use p k ≡ true → in_use q k ≡ true

in_use_set : (cs : List ℕ) (fd k : ℕ) → get_or cs k 0 ≢ 0 → get_or (set cs fd 1) k 0 ≢ 0
in_use_set [] fd k h = h
in_use_set (c ∷ cs) zero zero h = ground arith
in_use_set (c ∷ cs) zero (suc k) h = h
in_use_set (c ∷ cs) (suc fd) zero h = h
in_use_set (c ∷ cs) (suc fd) (suc k) h = in_use_set cs fd k h

set-Keeps : (p q : Process) (fd : ℕ) → q.closed_files ≡ set p.closed_files fd 1 → Keeps p q
set-Keeps p q fd e = record {
  same_length = ap length e ∙ length-set p.closed_files fd 1;
  kept = λ k h. ground (arith, e, in_use_set p.closed_files fd k);
}

-- A call of `close` on a descriptor that the process has.
pub record Closed (p : Process) (fd : ℕ) (q : Process) : Type 0 where
  pub file : ℕ
  pub left : Files
  pub found : search_fd p.heap p.fds fd ≡ some (some file)
  pub dropped : delete_global p.files file ≡ some left
  pub result : q ≡ record p {
    fds = delete_fd p.fds fd;
    closed_files = set p.closed_files fd 1;
    files = left;
    closed = file ∷ p.closed;
  }

Closed-by :
    (p q : Process) (fd : ℕ) (found : Option ℕ)
    → search_fd p.heap p.fds fd ≡ some found
    → close_found p fd found ≡ some q
    → (q ≡ p) ⊎ Closed p fd q
unfolding close_found
Closed-by p q fd none e1 e2 = inl (sym (some_injective e2))
Closed-by p q fd (some file) e1 e2 =
    let (left, e3, e4) = >>=-eq-some (delete_global p.files file) _ e2 in
    inr (record {
      file = file;
      left = left;
      found = e1;
      dropped = e3;
      result = sym (some_injective e4);
    })

pub syscall_close-Closed :
    (p q : Process) (fd : ℕ) → syscall_close p fd ≡ some q → (q ≡ p) ⊎ Closed p fd q
unfolding syscall_close
syscall_close-Closed p q fd e =
    let (found, e1, e2) = >>=-eq-some (search_fd p.heap p.fds fd) _ e in
    Closed-by p q fd found e1 e2

FdStep-Keeps : (p q : Process) → FdStep p q → Keeps p q
unfolding syscall_open
FdStep-Keeps p q (opens none fresh mem r q' e) =
    subst (λ (o : ℕ × Process). Keeps p o.1) (some_injective e)
      (record { same_length = refl; kept = λ k h. h })
FdStep-Keeps p q (opens (some file) fresh mem r q' e) =
    let o = syscall_open-Opened p file fresh mem e in set-Keeps p q o.fd o.marked
FdStep-Keeps p q (closes fd q' e) = elim (syscall_close-Closed p q fd e) [
  | inl same ↦
      subst (λ (x : Process). Keeps p x) (sym same) (record { same_length = refl; kept = λ k h. h })
  | inr c ↦ set-Keeps p q fd (ap (λ (x : Process). x.closed_files) c.result)
]

FdReach-Keeps : (p q : Process) → FdReach p q → Keeps p q
FdReach-Keeps p q start = record { same_length = refl; kept = λ k h. h }
FdReach-Keeps p q (more m r path step) =
    let a = FdReach-Keeps p m path in
    let b = FdStep-Keeps m q step in
    record { same_length = b.same_length ∙ a.same_length; kept = λ k h. b.kept k (a.kept k h) }

-- A process with an array of 128 marks whose `open` answered with a descriptor never gets that
-- descriptor from `open` again, no matter which descriptors it opens and closes in between.
pub never_reused :
    (p q r s : Process) (file other fd again : ℕ) (fresh fresh' : Option ℕ) (mem mem' : Bool)
    → length p.closed_files ≡ 128
    → syscall_open p (some file) fresh mem ≡ some (fd, q)
    → fd ≢ minus_one
    → FdReach q r
    → syscall_open r (some other) fresh' mem' ≡ some (again, s)
    → again ≢ minus_one
    → again ≢ fd
never_reused p q r s file other fd again fresh fresh' mem mem' n e h path e' h' same =
    let first = FdStep-Keeps p q (opens (some file) fresh mem fd q e) in
    let later = FdReach-Keeps q r path in
    let n' : length r.closed_files ≡ 128 = later.same_length ∙ first.same_length ∙ n in
    let marked : in_use q fd ≡ true =
      (syscall_open-IsLowest p n file fresh mem e h).1 fd ∙ ground arith in
    let least = (syscall_open-IsLowest r n' other fresh' mem' e' h').0 in
    absurd (ground (arith, later.kept fd marked, least.free, same))
