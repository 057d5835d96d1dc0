-- ===== src/Validate/Strings.antt =====
-- pintos/src/userprog/syscall.c: which strings and argument words pass.
use ospersonal.Common.{
  ℕ, zero, suc, ◌*◌, ◌^◌, ◌<◌, ◌≤◌, ◌≡◌, ◌≢◌, ◌↔◌, true, ◌==◌, arith, Bool-cases, inl, inr, subst,
}
use ospersonal.Validate.{
  UserMemory, plus, validate_pointer, string_loop, validate_string, words_loop, validate_arguments,
  argument_count,
}

-- A string of `len` bytes before its first null byte, all of it at addresses that pass.
pub record IsString (m : UserMemory) (file len : ℕ) : Type 0 where
  pub allowed : (i : ℕ) → i ≤ len → validate_pointer m (plus file i) ≡ true
  pub before : (i : ℕ) → i < len → m.byte (plus file i) ≢ 0
  pub ends : m.byte (plus file len) ≡ 0

plus-plus : (p i : ℕ) → plus (plus p 1) i ≡ plus p (suc i)
plus-plus p i = omega arith

plus-zero : (p : ℕ) → p < 2 ^ 32 → plus p 0 ≡ p
plus-zero p h = omega arith

module _ (m : UserMemory) (p : ℕ) (h : p < 2 ^ 32) where
  empty-IsString : validate_pointer m p ≡ true → m.byte p ≡ 0 → IsString m p 0
  empty-IsString ok nul = record {
    allowed = λ i q. (let none_before : i ≡ 0 = omega arith in rw (none_before, plus-zero p h) ok);
    before = λ i q. absurd (omega arith);
    ends = rw (plus-zero p h) nul;
  }

  longer-IsString :
      (len : ℕ)
      → validate_pointer m p ≡ true
      → m.byte p ≢ 0
      → IsString m (plus p 1) len
      → IsString m p (suc len)
  longer-IsString len ok more s = record {
    allowed = all_allowed;
    before = all_before;
    ends = rw (← plus-plus p len) s.ends;
  }
    where
      all_allowed : (i : ℕ) → i ≤ suc len → validate_pointer m (plus p i) ≡ true
      all_allowed zero q = rw (plus-zero p h) ok
      all_allowed (suc i) q = rw (← plus-plus p i) (s.allowed i (omega arith))

      all_before : (i : ℕ) → i < suc len → m.byte (plus p i) ≢ 0
      all_before zero q = rw (plus-zero p h) more
      all_before (suc i) q = rw (← plus-plus p i) (s.before i (omega arith))

  shorter-IsString : (len : ℕ) → IsString m p (suc len) → IsString m (plus p 1) len
  shorter-IsString len s = record {
    allowed = λ i q. rw (plus-plus p i) (s.allowed (suc i) (omega arith));
    before = λ i q. rw (plus-plus p i) (s.before (suc i) (omega arith));
    ends = rw (plus-plus p len) s.ends;
  }

  first_allowed : (len : ℕ) → IsString m p len → validate_pointer m p ≡ true
  first_allowed len s =
      subst (λ (a : ℕ). validate_pointer m a ≡ true) (plus-zero p h) (s.allowed 0 (omega arith))

string_loop-IsString :
    (n : ℕ) (m : UserMemory) (p : ℕ)
    → p < 2 ^ 32
    → string_loop n m p ≡ true
    → (len : ℕ) × (len < n) × IsString m p len
unfolding string_loop
string_loop-IsString zero m p h e = absurd (cc)
string_loop-IsString (suc n) m p h e = elim (Bool-cases (validate_pointer m p)) [
  | inl ok ↦ elim (Bool-cases (m.byte p == 0)) [
    | inl nul ↦ (0, omega arith, empty-IsString m p h ok (ground arith))
    | inr more ↦
        (let rest : string_loop n m (plus p 1) ≡ true = ground arith in
          let (len, l, s) = string_loop-IsString n m (plus p 1) (omega arith) rest in
          (suc len, omega arith, longer-IsString m p h len ok (λ z. ground arith) s))
  ]
  | inr bad ↦ absurd (ground arith)
]

IsString-string_loop :
    (n : ℕ) (m : UserMemory) (p len : ℕ)
    → p < 2 ^ 32
    → len < n
    → IsString m p len
    → string_loop n m p ≡ true
unfolding string_loop
IsString-string_loop zero m p len h l s = absurd (omega arith)
IsString-string_loop (suc n) m p zero h l s =
    let nul : m.byte p ≡ 0 = subst (λ (a : ℕ). m.byte a ≡ 0) (plus-zero p h) s.ends in
    ground (arith, first_allowed m p h 0 s, nul)
IsString-string_loop (suc n) m p (suc len) h l s =
    let rest =
      IsString-string_loop n m (plus p 1) len (omega arith) (omega arith)
        (shorter-IsString m p h len s) in
    ground (arith, first_allowed m p h (suc len) s, rest)

-- A string argument passes exactly when it has a null byte among its first 512 and every byte up to
-- that one is at an address that validate_pointer lets pass.
pub validate_string-IsString :
    (m : UserMemory) (file : ℕ)
    → file < 2 ^ 32
    → (validate_string m file ≡ true) ↔ ((len : ℕ) × (len < 512) × IsString m file len)
validate_string-IsString m file h =
    (string_loop-IsString 512 m file h, λ (len, l, s). IsString-string_loop 512 m file len h l s)

words_loop-all :
    (n : ℕ) (m : UserMemory) (p i : ℕ)
    → p < 2 ^ 32
    → words_loop n m p ≡ true
    → i < n
    → validate_pointer m (plus p (4 * i)) ≡ true
unfolding words_loop
words_loop-all zero m p i h e q = absurd (omega arith)
words_loop-all (suc n) m p zero h e q =
    let here : plus p (4 * 0) ≡ p = omega arith in rw here (ground arith)
words_loop-all (suc n) m p (suc i) h e q =
    let next : plus p (4 * suc i) ≡ plus (plus p 4) (4 * i) = omega arith in
    let rest : words_loop n m (plus p 4) ≡ true = ground arith in
    rw next (words_loop-all n m (plus p 4) i (omega arith) rest (omega arith))

-- When the checks at the start of syscall_handler pass, the word of the call's number and the word of
-- each argument that the call takes are at addresses that validate_pointer lets pass.
pub validate_arguments-all :
    (m : UserMemory) (args number i : ℕ)
    → args < 2 ^ 32
    → validate_arguments m args number ≡ true
    → i ≤ argument_count number
    → validate_pointer m (plus args (4 * i)) ≡ true
unfolding validate_arguments
validate_arguments-all m args number zero h e q =
    let here : plus args (4 * 0) ≡ args = omega arith in rw here (ground arith)
validate_arguments-all m args number (suc i) h e q =
    let next : plus args (4 * suc i) ≡ plus (plus args 4) (4 * i) = omega arith in
    let rest : words_loop (argument_count number) m (plus args 4) ≡ true = ground arith in
    rw next
      (words_loop-all (argument_count number) m (plus args 4) i (omega arith) rest (omega arith))
