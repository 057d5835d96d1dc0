-- ===== src/File/Position.antt =====
-- pintos/src/filesys/file.c: reads in sequence, and the position between them.
use ospersonal.Common.{
  ℕ, ◌+◌, ◌-◌, ◌%◌, ◌^◌, ◌<◌, ◌≤◌, ◌≡◌, refl, ◌∙◌, false, none, some, List, ◌++◌, ltb, length,
  arith, if◌then◌else◌, bind_some, ap, sym, Bool-cases, inl, inr,
}
use ospersonal.Inode.{Disk, InodeDisk}
use ospersonal.Inode.Reading.{
  IsMapped, file_bytes, length-file_bytes, file_bytes-append, inode_read_at-file_bytes,
}
use ospersonal.File.{File, is_before_start, file_read_at, file_read}

module _ (d : Disk) (inode : InodeDisk) (v : IsMapped d inode) where
  read_at_pos :
      (f : File) (size : ℕ)
      → f.pos + size < 2 ^ 31
      → file_read_at d inode size f.pos ≡ (
          if ltb inode.length (f.pos + size)
          then some none
          else some (some (file_bytes d v.sector_of size f.pos)))
  unfolding file_read_at
  read_at_pos f size p =
      let after_start : is_before_start f.pos ≡ false = ground arith in
      rw after_start (inode_read_at-file_bytes d inode v size f.pos p)

  -- A read of a range that ends below 2^31: within the length it gives the bytes from the position on and
  -- moves the position past them; else it answers -1 and moves the position back by one.
  pub file_read-Moves :
      (f : File) (size : ℕ)
      → f.pos + size < 2 ^ 31
      → file_read d inode f size ≡ (
          if ltb inode.length (f.pos + size)
          then some (none, record f { pos = (f.pos + (2 ^ 32 - 1)) % 2 ^ 32 })
          else some (some (file_bytes d v.sector_of size f.pos), record f { pos = f.pos + size }))
  unfolding file_read
  file_read-Moves f size p = elim (Bool-cases (ltb inode.length (f.pos + size))) [
    | inl past ↦
        (let answer : file_read_at d inode size f.pos ≡ some none =
            read_at_pos f size p ∙ rw past refl in
          rw past (bind_some _ answer))
    | inr fits ↦
        (let at : (f.pos + length (file_bytes d v.sector_of size f.pos)) % 2 ^ 32 ≡ f.pos + size =
            ground (arith, length-file_bytes d v.sector_of size f.pos, p) in
          let answer : file_read_at d inode size f.pos
              ≡ some (some (file_bytes d v.sector_of size f.pos)) =
            read_at_pos f size p ∙ rw fits refl in
          rw fits (bind_some _ answer ∙ rw at refl))
  ]

module _ (d : Disk) (inode : InodeDisk) (v : IsMapped d inode) (small : inode.length < 2 ^ 31) where
  within :
      (f : File) (size : ℕ)
      → f.pos + size ≤ inode.length
      → file_read d inode f size
        ≡ some (some (file_bytes d v.sector_of size f.pos), record f { pos = f.pos + size })
  within f size fits =
      let inside : ltb inode.length (f.pos + size) ≡ false = ground arith in
      file_read-Moves d inode v f size (omega arith) ∙ rw inside refl

  -- Two reads in sequence, of a range within the file, give what one read of both lengths gives, and
  -- leave the same position.
  pub file_read-append :
      (f : File) (n m : ℕ)
      → f.pos + (n + m) ≤ inode.length
      → (xs ys : List ℕ) × (g h : File) × (file_read d inode f n ≡ some (some xs, g))
        × (file_read d inode g m ≡ some (some ys, h))
        × (file_read d inode f (n + m) ≡ some (some (xs ++ ys), h))
  file_read-append f n m fits =
      let g = record f { pos = f.pos + n } in
      let h = record f { pos = f.pos + (n + m) } in
      let at : f.pos + n + m ≡ f.pos + (n + m) = omega arith in
      (
        file_bytes d v.sector_of n f.pos,
        file_bytes d v.sector_of m (f.pos + n),
        g,
        h,
        within f n (omega arith),
        within g m (omega arith)
            ∙ ap
                (λ (i : ℕ).
                  some (some (file_bytes d v.sector_of m (f.pos + n)), record f { pos = i }))
                at,
        within f (n + m) fits
            ∙ ap (λ (xs : List ℕ). some (some xs, h))
                (sym (file_bytes-append d v.sector_of n m f.pos)),
      )
