-- ===== src/Syscall/Lowest.antt =====
-- pintos/src/userprog/syscall.c: the search for the least free descriptor.
use ospersonal.Common.{
  >>=-eq-some, Bool, Bool-cases, List, Option, [], arith, drop, false, get_or, inl, inr, length,
  length-drop, none, not, refl, set, some, some_injective, subst, suc, true, zero, ℕ, ◌+◌, ◌-◌, ◌<◌,
  ◌==◌, ◌∷◌, ◌≡◌, ◌≢◌, ◌≤◌, ◌⊎◌,
}
use ospersonal.Syscall.{
  open_global, open_finish, Process, Files, lowest_fd, syscall_open, minus_one,
}

-- Whether the array marks the descriptor as in use.
abbrev pub in_use : Process → ℕ → Bool
in_use p fd = not (get_or p.closed_files fd 0 == 0)

-- A descriptor that the search finds is marked free, inside the array.
lowest_fd-free :
    (cs : List ℕ) (fd k : ℕ)
    → fd + length cs ≤ 128
    → lowest_fd cs fd ≡ some k
    → (j : ℕ) × (k ≡ fd + j) × (j < length cs) × (get_or cs j 1 ≡ 0)
unfolding lowest_fd
lowest_fd-free [] fd k h e = absurd (cc)
lowest_fd-free (c ∷ cs) fd k h e = elim (Bool-cases (c == 0)) [
  | inl free ↦ (0, ground arith, omega arith, ground arith)
  | inr taken ↦
      (let (j, q, l, z) = lowest_fd-free cs (fd + 1) k (omega arith) (ground arith) in
        (suc j, omega arith, omega arith, z))
]

lowest_fd-lower :
    (cs : List ℕ) (fd k j : ℕ)
    → fd + length cs ≤ 128
    → lowest_fd cs fd ≡ some k
    → fd + j < k
    → get_or cs j 0 ≢ 0
unfolding lowest_fd
lowest_fd-lower [] fd k j h e q = absurd (cc)
lowest_fd-lower (c ∷ cs) fd k zero h e q = ground arith
lowest_fd-lower (c ∷ cs) fd k (suc j) h e q = ground (arith, lowest_fd-lower cs (fd + 1) k j)

lowest_fd-none :
    (cs : List ℕ) (fd : ℕ)
    → fd + length cs ≤ 128
    → ((j : ℕ) → j < length cs → get_or cs j 0 ≢ 0)
    → lowest_fd cs fd ≡ none
unfolding lowest_fd
lowest_fd-none [] fd h all = refl
lowest_fd-none (c ∷ cs) fd h all =
    let rest = lowest_fd-none cs (fd + 1) (omega arith) (λ j q. all (suc j) (omega arith)) in
    ground (arith, rest, all 0)

get_or-drop_two : (xs : List ℕ) (j d : ℕ) → get_or (drop 2 xs) j d ≡ get_or xs (suc (suc j)) d
get_or-drop_two [] j d = refl
get_or-drop_two (x ∷ []) j d = refl
get_or-drop_two (x ∷ y ∷ xs) j d = refl

get_or-default : (xs : List ℕ) (j d e : ℕ) → j < length xs → get_or xs j d ≡ get_or xs j e
get_or-default [] j d e h = absurd (omega arith)
get_or-default (x ∷ xs) zero d e h = refl
get_or-default (x ∷ xs) (suc j) d e h = get_or-default xs j d e (omega arith)

-- What a successful search of a process's array says of the array.
pub record IsLowest (p : Process) (fd : ℕ) : Type 0 where
  pub lower : 2 ≤ fd
  pub upper : fd < 128
  pub free : in_use p fd ≡ false
  pub others : (k : ℕ) → 2 ≤ k → k < fd → in_use p k ≡ true

pub lowest_fd-IsLowest :
    (p : Process) (fd : ℕ)
    → length p.closed_files ≡ 128
    → lowest_fd (drop 2 p.closed_files) 2 ≡ some fd
    → IsLowest p fd
lowest_fd-IsLowest p fd n e =
    let len : length (drop 2 p.closed_files) ≡ 126 = omega (arith, length-drop 2 p.closed_files) in
    let (j, q, l, z) = lowest_fd-free (drop 2 p.closed_files) 2 fd (omega (arith, len)) e in
    record {
      lower = omega arith;
      upper = omega (arith, len);
      free =
          (let at : fd ≡ suc (suc j) = omega arith in
            rw at (
              ground (
                arith,
                z,
                get_or-drop_two p.closed_files j 1,
                get_or-default p.closed_files (suc (suc j)) 0 1,
              )));
      others = λ k a b.
          (let at : k ≡ suc (suc (k - 2)) = omega arith in
            rw at (
              ground (
                arith,
                lowest_fd-lower (drop 2 p.closed_files) 2 fd (k - 2) (omega (arith, len)) e
                    (omega arith),
                get_or-drop_two p.closed_files (k - 2) 0,
              )));
    }

-- A call of `open` on a file that exists marks one descriptor, and answers with it or with -1.
pub record Opened (p : Process) (r : ℕ) (q : Process) : Type 0 where
  pub fd : ℕ
  pub found : lowest_fd (drop 2 p.closed_files) 2 ≡ some fd
  pub marked : q.closed_files ≡ set p.closed_files fd 1
  pub answer : (r ≡ fd) ⊎ (r ≡ minus_one)

open_answer :
    (p : Process) (fd : ℕ) (mem : Bool) (a : Option ℕ) (f : Files)
    → ((open_finish p fd mem a f).1.closed_files ≡ set p.closed_files fd 1)
      × (((open_finish p fd mem a f).0 ≡ fd) ⊎ ((open_finish p fd mem a f).0 ≡ minus_one))
unfolding open_finish
open_answer p fd mem none f = (refl, inr refl)
open_answer p fd true (some a) f = (refl, inl refl)
open_answer p fd false (some a) f = (refl, inr refl)

pub syscall_open-Opened :
    (p : Process) (file : ℕ) (fresh : Option ℕ) (mem : Bool) {r : ℕ} {q : Process}
    → syscall_open p (some file) fresh mem ≡ some (r, q)
    → Opened p r q
unfolding syscall_open
syscall_open-Opened p file fresh mem {r} {q} e =
    let (fd, e1, e2) = >>=-eq-some (lowest_fd (drop 2 p.closed_files) 2) _ e in
    let (slot, e3, e4) = >>=-eq-some (open_global p.files file fresh) _ e2 in
    subst (λ (o : ℕ × Process). Opened p o.0 o.1) (some_injective e4)
      (record {
        fd = fd;
        found = e1;
        marked = (open_answer p fd mem slot.0 slot.1).0;
        answer = (open_answer p fd mem slot.0 slot.1).1;
      })
