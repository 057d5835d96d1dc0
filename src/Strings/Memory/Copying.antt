-- ===== src/Strings/Memory/Copying.antt =====
-- pintos/src/lib/string.c: what strlcpy leaves in memory.
use ospersonal.Common.{
  ap, arith, false, if◌then◌else◌, inl, inr, leb, length, ltb, refl, some, suc, sym, true, zero, ℕ,
  ◌&&◌, ◌+◌, ◌-◌, ◌<◌, ◌==◌, ◌∙◌, ◌≡◌, ◌≤◌, ◌⊎◌,
}
use ospersonal.Strings.Memory.{Bytes, put, copy_up, memcpy, length_up, strlen_at, strlcpy}
use ospersonal.Strings.Memory.Moving.{moved, copy_up-moved}

-- A string of `length` bytes before its NUL.
pub record IsString (m : Bytes) (string length : ℕ) : Type 0 where
  pub bytes : (i : ℕ) → i < length → (m (string + i) == 0) ≡ false
  pub end : (m (string + length) == 0) ≡ true

length_up-IsString :
    (n : ℕ) (m : Bytes) (string length : ℕ)
    → IsString m string length
    → length < n
    → length_up n m string ≡ some length
unfolding length_up
length_up-IsString zero m string length v h = absurd (omega arith)
length_up-IsString (suc n) m string zero v h =
    let here : string + 0 ≡ string = omega arith in
    let first : (m string == 0) ≡ true = ap (λ (a : ℕ). m a == 0) (sym here) ∙ v.end in
    rw first refl
length_up-IsString (suc n) m string (suc length) v h =
    let here : string + 0 ≡ string = omega arith in
    let first : (m string == 0) ≡ false =
      ap (λ (a : ℕ). m a == 0) (sym here) ∙ v.bytes 0 (omega arith) in
    let later =
      length_up-IsString n m (string + 1) length (IsString-suc m string length v) (omega arith) in
    rw (first, later) refl
  where
    IsString-suc :
        (m : Bytes) (string length : ℕ)
        → IsString m string (suc length)
        → IsString m (string + 1) length
    IsString-suc m string length v =
        let at : (i : ℕ) → string + 1 + i ≡ string + suc i = λ i. omega arith in
        record {
          bytes = λ i h. ap (λ (a : ℕ). m a == 0) (at i) ∙ v.bytes (suc i) (omega arith);
          end = ap (λ (a : ℕ). m a == 0) (at length) ∙ v.end;
        }

-- How much of a string of `length` bytes goes into `size`, its NUL not counted.
abbrev pub kept : ℕ → ℕ → ℕ
kept length size = if ltb length (size - 1) then length else size - 1

-- With a buffer of one byte or more, strlcpy of a string that does not overlap it answers with the
-- string's length and leaves a string in the buffer: the bytes of the source, as many as fit with
-- the NUL. No byte outside the buffer changes.
pub strlcpy-IsString :
    (n : ℕ) (m : Bytes) (dst src size length : ℕ)
    → (dst == 0) ≡ false
    → (src == 0) ≡ false
    → IsString m src length
    → length < n
    → 0 < size
    → (dst + size ≤ src) ⊎ (src + length < dst)
    → (m' : Bytes) × (strlcpy n m dst src size ≡ some (length, m'))
      × IsString m' dst (kept length size)
      × ((i : ℕ) → i < kept length size → m' (dst + i) ≡ m (src + i))
      × ((j : ℕ) → (j < dst) ⊎ (dst + size ≤ j) → m' j ≡ m j)
unfolding strlcpy strlen_at memcpy
strlcpy-IsString n m dst src size length at_dst at_src v enough room apart =
    let cnt = kept length size in
    let few : cnt ≤ length = ground arith in
    let fits : cnt < size = ground arith in
    let after = (copy_up cnt m dst src).1 in
    let up : (j : ℕ) → after j ≡ moved m dst src cnt j =
      copy_up-moved cnt m dst src
        (elim apart [ inl le ↦ inl (omega arith) | inr lt ↦ inr (omega arith) ]) in
    let some_size : (size == 0) ≡ false = ground arith in
    let m' : Bytes = put after (dst + cnt) 0 in
    let copied : (i : ℕ) → i < cnt → m' (dst + i) ≡ m (src + i) = λ i h.
      let other : (dst + i == dst + cnt) ≡ false = ground arith in
      let within : (leb dst (dst + i) && ltb (dst + i) (dst + cnt)) ≡ true = ground arith in
      let place : dst + i - dst ≡ i = omega arith in
      rw other (up (dst + i) ∙ rw (within, place) refl) in
    (
      m',
      rw (at_dst, at_src, length_up-IsString n m src length v enough, some_size) refl,
      record {
        bytes = λ i h. ap (λ (c : ℕ). c == 0) (copied i h) ∙ v.bytes i (omega arith);
        end = ground arith;
      },
      copied,
      λ j outside.
          let other : (j == dst + cnt) ≡ false = ground arith in
          let without : (leb dst j && ltb j (dst + cnt)) ≡ false = ground arith in
          rw other (up j ∙ rw without refl),
    )
