-- ===== src/Inode/Sectors.antt =====
-- pintos/src/filesys/inode.c: the pointers that byte_to_sector follows.
use ospersonal.Common.{
  ℕ, zero, suc, ◌+◌, ◌-◌, ◌/◌, ◌%◌, ◌<◌, ◌≤◌, ◌≡◌, refl, ◌∙◌, false, none, some, List, [], ◌∷◌, ltb,
  length, get_elem?, arith, bind_some, ◌*◌, ◌↔◌, Bool-cases, inl, inr,
}
use ospersonal.Inode.{InodeDisk, Disk, block_sector}

-- The arrays have the lengths of their declarations.
pub record IsBlocks (d : Disk) (inode : InodeDisk) : Type 0 where
  pub direct : length inode.direct_ptrs ≡ 123
  pub words : (sector : ℕ) → length (d.blocks sector) ≡ 128

get_elem-inside : (xs : List ℕ) (i : ℕ) → i < length xs → (x : ℕ) × (get_elem? xs i ≡ some x)
get_elem-inside [] i h = absurd (omega arith)
get_elem-inside (x ∷ xs) zero h = (x, refl)
get_elem-inside (x ∷ xs) (suc i) h = get_elem-inside xs i (omega arith)

get_elem-outside : (xs : List ℕ) (i : ℕ) → length xs ≤ i → get_elem? xs i ≡ none
get_elem-outside [] i h = refl
get_elem-outside (x ∷ xs) zero h = absurd (omega arith)
get_elem-outside (x ∷ xs) (suc i) h = get_elem-outside xs i (omega arith)

module _ (d : Disk) (inode : InodeDisk) (v : IsBlocks d inode) (n : ℕ)
    (h : n < 251 + 128 * 128) where
  found : (n - 251) % 512 < 128 → (s : ℕ) × (block_sector d inode n ≡ some s)
  unfolding block_sector
  found m = elim (Bool-cases (ltb n 123)) [
    | inl direct ↦
        rw direct (get_elem-inside inode.direct_ptrs n (ground (arith, direct, v.direct)))
    | inr more ↦ elim (Bool-cases (ltb n 251)) [
      | inl single ↦
          rw (more, single)
            (get_elem-inside (d.blocks inode.singly_indirect_ptr) (n - 123)
              (ground (arith, more, single, v.words inode.singly_indirect_ptr)))
      | inr double ↦
          (let (p, e) =
              get_elem-inside (d.blocks inode.doubly_indirect_ptr) ((n - 251) / 128)
                (omega (arith, v.words inode.doubly_indirect_ptr)) in
            let (s, e') =
              get_elem-inside (d.blocks p) ((n - 251) % 512) (omega (arith, v.words p)) in
            (s, rw (more, double) (bind_some _ e ∙ e')))
    ]
  ]

  missed : 128 ≤ (n - 251) % 512 → block_sector d inode n ≡ none
  unfolding block_sector
  missed m =
      let (p, e) =
        get_elem-inside (d.blocks inode.doubly_indirect_ptr) ((n - 251) / 128)
          (omega (arith, v.words inode.doubly_indirect_ptr)) in
      let far : ltb n 123 ≡ false = ground arith in
      let farther : ltb n 251 ≡ false = ground arith in
      rw (far, farther)
        (bind_some _ e ∙ get_elem-outside (d.blocks p) ((n - 251) % 512) (omega (arith, v.words p)))

  -- Of the blocks that the pointers of an inode can reach, byte_to_sector reads past an array for just
  -- those whose number below the doubly indirect block, modulo the sector's 512 bytes instead of the
  -- 128 words of an indirect block, is 128 or more.
  pub block_sector-none : (block_sector d inode n ≡ none) ↔ (128 ≤ (n - 251) % 512)
  block_sector-none = (
    λ e. elim (Bool-cases (ltb ((n - 251) % 512) 128)) [
      | inl low ↦ (let (s, e') = found (ground arith) in absurd (cc (e, e')))
      | inr high ↦ ground arith
    ],
    missed,
  )
