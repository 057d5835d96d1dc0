-- ===== src/Strings/Memory/Moving.antt =====
-- pintos/src/lib/string.c: memcpy and memmove on blocks that may overlap.
use ospersonal.Common.{
  Bool-cases, ap, arith, false, if◌then◌else◌, inl, inr, leb, ltb, refl, some, suc, true, zero, ℕ,
  ◌&&◌, ◌+◌, ◌-◌, ◌==◌, ◌∙◌, ◌≡◌, ◌≤◌, ◌⊎◌,
}
use ospersonal.Strings.Memory.{Bytes, put, is_block, copy_up, copy_down, memmove}

-- The bytes of a block as they were at another, and nothing else changed.
abbrev pub moved : Bytes → ℕ → ℕ → ℕ → ℕ → ℕ
moved m dst src size j = if leb dst j && ltb j (dst + size) then m (src + (j - dst)) else m j

moved-first :
    (m : Bytes) (dst src size j : ℕ)
    → (dst ≤ src) ⊎ (src + suc size ≤ dst)
    → moved (put m dst (m src)) (dst + 1) (src + 1) size j ≡ moved m dst src (suc size) j
moved-first m dst src size j apart = elim (Bool-cases (leb (dst + 1) j && ltb j (dst + 1 + size))) [
  | inl inside ↦
      let within : (leb dst j && ltb j (dst + suc size)) ≡ true = ground arith in
      let other : (src + 1 + (j - (dst + 1)) == dst) ≡ false = ground arith in
      let place : src + 1 + (j - (dst + 1)) ≡ src + (j - dst) = ground arith in
      rw (inside, within, other, place) refl
  | inr outside ↦ elim (Bool-cases (j == dst)) [
    | inl first ↦
        let within : (leb dst j && ltb j (dst + suc size)) ≡ true = ground arith in
        let place : src ≡ src + (j - dst) = ground arith in rw (outside, within, first) (ap m place)
    | inr other ↦
        let without : (leb dst j && ltb j (dst + suc size)) ≡ false = ground arith in
        rw (outside, without, other) refl
  ]
]

pub copy_up-moved :
    (size : ℕ) (m : Bytes) (dst src : ℕ)
    → (dst ≤ src) ⊎ (src + size ≤ dst)
    → (j : ℕ) → (copy_up size m dst src).1 j ≡ moved m dst src size j
unfolding copy_up
copy_up-moved zero m dst src apart j = ground arith
copy_up-moved (suc size) m dst src apart j =
    let apart' : (dst + 1 ≤ src + 1) ⊎ (src + 1 + size ≤ dst + 1) = elim apart [
      | inl le ↦ inl (omega arith)
      | inr le ↦ inr (omega arith)
    ] in
    copy_up-moved size (put m dst (m src)) (dst + 1) (src + 1) apart' j
    ∙ moved-first m dst src size j apart

moved-last :
    (m : Bytes) (dst src size j : ℕ)
    → src ≤ dst
    → moved (put m (dst + size) (m (src + size))) dst src size j ≡ moved m dst src (suc size) j
moved-last m dst src size j le = elim (Bool-cases (leb dst j && ltb j (dst + size))) [
  | inl inside ↦
      let within : (leb dst j && ltb j (dst + suc size)) ≡ true = ground arith in
      let other : (src + (j - dst) == dst + size) ≡ false = ground arith in
      rw (inside, within, other) refl
  | inr outside ↦ elim (Bool-cases (j == dst + size)) [
    | inl last ↦
        let within : (leb dst j && ltb j (dst + suc size)) ≡ true = ground arith in
        let place : src + size ≡ src + (j - dst) = ground arith in
        rw (outside, within, last) (ap m place)
    | inr other ↦
        let without : (leb dst j && ltb j (dst + suc size)) ≡ false = ground arith in
        rw (outside, without, other) refl
  ]
]

copy_up-end : (size : ℕ) (m : Bytes) (dst src : ℕ) → (copy_up size m dst src).0 ≡ dst + size
unfolding copy_up
copy_up-end zero m dst src = omega arith
copy_up-end (suc size) m dst src =
    copy_up-end size (put m dst (m src)) (dst + 1) (src + 1) ∙ omega arith

copy_down-suc :
    (size : ℕ) (m : Bytes) (dst src d s : ℕ)
    → dst - 1 ≡ d
    → src - 1 ≡ s
    → copy_down (suc size) m dst src ≡ copy_down size (put m d (m s)) d s
unfolding copy_down
copy_down-suc size m dst src d s e f = rw (e, f) refl

copy_down-moved :
    (size : ℕ) (m : Bytes) (dst src : ℕ)
    → src ≤ dst
    → ((copy_down size m (dst + size) (src + size)).0 ≡ dst)
      × ((j : ℕ) → (copy_down size m (dst + size) (src + size)).1 j ≡ moved m dst src size j)
unfolding copy_down
copy_down-moved zero m dst src le = (omega arith, λ j. ground arith)
copy_down-moved (suc size) m dst src le =
    let step =
      copy_down-suc size m (dst + suc size) (src + suc size) (dst + size) (src + size) (omega arith)
        (omega arith) in
    let (e, f) = copy_down-moved size (put m (dst + size) (m (src + size))) dst src le in
    (
      ap (λ (r : ℕ × Bytes). r.0) step ∙ e,
      λ j. ap (λ (r : ℕ × Bytes). r.1 j) step ∙ f j ∙ moved-last m dst src size j le,
    )

-- Between blocks that are not at NULL, or of no bytes, memmove passes its ASSERTs and leaves at the
-- destination what was at the source, however the two overlap, and all else as it was. It answers with
-- the start of the destination where that is not below the source, and else with its end.
pub memmove-moved :
    (m : Bytes) (dst src size : ℕ)
    → is_block dst size ≡ true
    → is_block src size ≡ true
    → (m' : Bytes) × (memmove m dst src size ≡ some (if ltb dst src then dst + size else dst, m'))
      × ((j : ℕ) → m' j ≡ moved m dst src size j)
unfolding memmove
memmove-moved m dst src size dst_block src_block = elim (Bool-cases (ltb dst src)) [
  | inl below ↦ (
    (copy_up size m dst src).1,
    rw (dst_block, src_block, below)
        (ap (λ (a : ℕ). some (a, (copy_up size m dst src).1)) (copy_up-end size m dst src)),
    copy_up-moved size m dst src (inl (ground arith)),
  )
  | inr above ↦
      let (e, f) = copy_down-moved size m dst src (ground arith) in
      (
        (copy_down size m (dst + size) (src + size)).1,
        rw (dst_block, src_block, above)
            (ap (λ (a : ℕ). some (a, (copy_down size m (dst + size) (src + size)).1)) e),
        f,
      )
]
