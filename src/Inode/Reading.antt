-- ===== src/Inode/Reading.antt =====
-- pintos/src/filesys/inode.c: inode_read_at and the bytes of a file.
use ospersonal.Common.{
  Bool-cases, List, [], ap, arith, bind_some, false, get_or, if◌then◌else◌, inl, inr, leb, length,
  ltb, none, refl, some, suc, sym, true, zero, ℕ, ◌%◌, ◌*◌, ◌++◌, ◌+◌, ◌-◌, ◌/◌, ◌<◌, ◌==◌, ◌^◌,
  ◌∙◌, ◌∷◌, ◌≡◌, ◌≤◌,
}
use ospersonal.Bufcache.{read_part}
use ospersonal.Inode.{
  InodeDisk, Disk, block_sector, byte_to_sector, chunk_size, read_loop, inode_read_at,
}

-- Every block of the file has a sector of 512 bytes.
pub record IsMapped (d : Disk) (inode : InodeDisk) : Type 0 where
  pub sector_of : ℕ → ℕ
  pub sectors : (n : ℕ) → n * 512 < inode.length → block_sector d inode n ≡ some (sector_of n)
  pub whole : (n : ℕ) → n * 512 < inode.length → length (d.bytes (sector_of n)) ≡ 512

-- `n` bytes of the file from a position on, each looked up for itself.
pub file_bytes : Disk → (ℕ → ℕ) → ℕ → ℕ → List ℕ
file_bytes d sector_of zero pos = []
file_bytes d sector_of (suc n) pos =
    get_or (d.bytes (sector_of (pos / 512))) (pos % 512) 0 ∷ file_bytes d sector_of n (pos + 1)

pub length-file_bytes : (d : Disk) (f : ℕ → ℕ) (n pos : ℕ) → length (file_bytes d f n pos) ≡ n
unfolding file_bytes
length-file_bytes d f zero pos = refl
length-file_bytes d f (suc n) pos = ap suc (length-file_bytes d f n (pos + 1))

pub file_bytes-append :
    (d : Disk) (f : ℕ → ℕ) (n m pos : ℕ)
    → file_bytes d f n pos ++ file_bytes d f m (pos + n) ≡ file_bytes d f (n + m) pos
unfolding file_bytes
file_bytes-append d f zero m pos =
    let a : pos + 0 ≡ pos = omega arith in let b : 0 + m ≡ m = omega arith in rw (a, b) refl
file_bytes-append d f (suc n) m pos =
    let a : pos + suc n ≡ pos + 1 + n = omega arith in
    let b : suc n + m ≡ suc (n + m) = omega arith in
    rw (a, b)
      (ap (λ (xs : List ℕ). get_or (d.bytes (f (pos / 512))) (pos % 512) 0 ∷ xs)
        (file_bytes-append d f n m (pos + 1)))

pub file_bytes-eq :
    (d : Disk) (f : ℕ → ℕ) (xs : List ℕ) (pos : ℕ)
    → ((i : ℕ)
        → i < length xs
        → get_or (d.bytes (f ((pos + i) / 512))) ((pos + i) % 512) 0 ≡ get_or xs i 0)
    → file_bytes d f (length xs) pos ≡ xs
unfolding file_bytes
file_bytes-eq d f [] pos h = refl
file_bytes-eq d f (x ∷ xs) pos h =
    let here : pos + 0 ≡ pos = omega arith in
    let first = rw here at (h 0 (omega arith)) in
    let later = file_bytes-eq d f xs (pos + 1) (λ i lt.
      let there : pos + suc i ≡ pos + 1 + i = omega arith in
      rw there at (h (suc i) (omega arith))) in
    rw (first, later) refl

read_part-step :
    (xs : List ℕ) (ofs n : ℕ)
    → ofs < length xs
    → read_part xs ofs (suc n) ≡ get_or xs ofs 0 ∷ read_part xs (suc ofs) n
read_part-step [] ofs n h = absurd (omega arith)
read_part-step (x ∷ xs) zero n h = refl
read_part-step (x ∷ xs) (suc ofs) n h = read_part-step xs ofs n (omega arith)

read_part-file_bytes :
    (d : Disk) (f : ℕ → ℕ) (n pos s : ℕ)
    → pos % 512 + n ≤ 512
    → f (pos / 512) ≡ s
    → length (d.bytes s) ≡ 512
    → read_part (d.bytes s) (pos % 512) n ≡ file_bytes d f n pos
unfolding file_bytes
read_part-file_bytes d f zero pos s h e w = refl
read_part-file_bytes d f (suc zero) pos s h e w =
    rw e (read_part-step (d.bytes s) (pos % 512) 0 (omega (arith, w)))
read_part-file_bytes d f (suc (suc n)) pos s h e w =
    let at : (pos + 1) % 512 ≡ suc (pos % 512) = omega arith in
    let block : (pos + 1) / 512 ≡ pos / 512 = omega arith in
    let later = read_part-file_bytes d f (suc n) (pos + 1) s (omega arith) (ap f block ∙ e) w in
    rw e (
      read_part-step (d.bytes s) (pos % 512) (suc n) (omega (arith, w))
      ∙ ap (λ (xs : List ℕ). get_or (d.bytes s) (pos % 512) 0 ∷ xs)
          (ap (λ (o : ℕ). read_part (d.bytes s) o (suc n)) (sym at) ∙ later))

module _ (d : Disk) (inode : InodeDisk) (v : IsMapped d inode) where
  sector_at :
      (pos : ℕ) → pos < inode.length → byte_to_sector d inode pos ≡ some (v.sector_of (pos / 512))
  unfolding byte_to_sector
  sector_at pos h =
      let inside : ltb pos inode.length ≡ true = ground arith in
      rw inside (v.sectors (pos / 512) (omega arith))

  -- What a round copies, and the rest of the loop, are the bytes that were asked for.
  round_bytes :
      (chunk size offset : ℕ)
      → chunk ≤ size
      → offset % 512 + chunk ≤ 512
      → offset < inode.length
      → read_part (d.bytes (v.sector_of (offset / 512))) (offset % 512) chunk
          ++ file_bytes d v.sector_of (size - chunk) (offset + chunk)
        ≡ file_bytes d v.sector_of size offset
  round_bytes chunk size offset le fits inside =
      let whole : chunk + (size - chunk) ≡ size = omega arith in
      ap (λ (xs : List ℕ). xs ++ file_bytes d v.sector_of (size - chunk) (offset + chunk))
        (read_part-file_bytes d v.sector_of chunk offset (v.sector_of (offset / 512)) fits refl
          (v.whole (offset / 512) (omega arith)))
      ∙ file_bytes-append d v.sector_of chunk (size - chunk) offset
      ∙ ap (λ (n : ℕ). file_bytes d v.sector_of n offset) whole

  read_loop-file_bytes :
      (n size offset : ℕ)
      → size ≤ n
      → offset + size ≤ inode.length
      → read_loop n d inode size offset ≡ some (file_bytes d v.sector_of size offset)
  unfolding read_loop file_bytes
  read_loop-file_bytes zero size offset h fits = let z : size ≡ 0 = omega arith in rw z refl
  read_loop-file_bytes (suc n) zero offset h fits = refl
  read_loop-file_bytes (suc n) (suc size) offset h fits =
      let chunk = chunk_size inode (suc size) offset in
      let some_bytes : (chunk == 0) ≡ false = ground arith in
      let rest =
        read_loop-file_bytes n (suc size - chunk) (offset + chunk) (omega arith) (omega arith) in
      let more : (suc size == 0) ≡ false = ground arith in
      rw more (
        bind_some _ (sector_at offset (omega arith))
        ∙ rw some_bytes (
            bind_some _ rest
            ∙ ap some
                (round_bytes chunk (suc size) offset (omega arith) (omega arith) (omega arith))))

  -- `inode_read_at` on a file whose blocks all have sectors, for a range that ends below 2^31: within the length it answers with each
  -- byte of the file from its own sector and place, however the range crosses sectors, and past the
  -- length it answers -1.
  pub inode_read_at-file_bytes :
      (size offset : ℕ)
      → offset + size < 2 ^ 31
      → inode_read_at d inode size offset ≡ (
          if ltb inode.length (offset + size)
          then some none
          else some (some (file_bytes d v.sector_of size offset)))
  unfolding inode_read_at
  inode_read_at-file_bytes size offset small =
      let no_overflow : leb (2 ^ 31) (offset + size) ≡ false = ground arith in
      elim (Bool-cases (ltb inode.length (offset + size))) [
        | inl past ↦ rw (no_overflow, past) refl
        | inr within ↦
            rw (no_overflow, within)
              (bind_some _
                (read_loop-file_bytes size size offset (omega arith) (ground (arith, within))))
      ]
