-- ===== src/Inode/Writing/Written.antt =====
-- pintos/src/filesys/inode.c: what a write leaves in the file.
use ospersonal.Common.{
  List, Option, [], ap, arith, drop, false, get_or, get_or-drop, get_or-take, if◌then◌else◌, leb,
  length, length-drop, length-take, le→leb, ltb, lt→ltb, refl, some, suc, take, true, zero, ℕ, ◌%◌,
  ◌&&◌, ◌*◌, ◌+◌, ◌-◌, ◌/◌, ◌<◌, ◌==◌, ◌^◌, ◌∙◌, ◌∷◌, ◌≡◌, ◌≤◌,
}
use ospersonal.Inode.{InodeDisk, Disk, byte_to_sector, chunk_size}
use ospersonal.Inode.Writing.{write_sector, write_loop, inode_write_within}
use ospersonal.Inode.{inode_read_at}
use ospersonal.Inode.Reading.{IsMapped, file_bytes-eq, inode_read_at-file_bytes}
use ospersonal.Inode.Writing.Sound.{IsSound, file_byte, write_sector-IsSound, write_sector-byte}

pub record Written (d : Disk) (inode : InodeDisk) (f : ℕ → ℕ) (buffer : List ℕ) (offset written : ℕ)
    (r : Option (Disk × ℕ)) : Type 0 where
  pub after : Disk
  pub ends : r ≡ some (after, written + length buffer)
  pub sound : IsSound after inode f
  pub bytes :
      (pos : ℕ)
      → pos < inode.length
      → file_byte after f pos ≡ (
          if leb offset pos && ltb pos (offset + length buffer)
          then get_or buffer (pos - offset) 0
          else file_byte d f pos)

-- A part of the buffer written, then the rest of it.
joined :
    (buffer : List ℕ) (c offset pos old mid new : ℕ)
    → c ≤ length buffer
    → mid ≡ (
        if leb offset pos && ltb pos (offset + length (take c buffer))
        then get_or (take c buffer) (pos - offset) 0
        else old)
    → new ≡ (
        if leb (offset + c) pos && ltb pos (offset + c + length (drop c buffer))
        then get_or (drop c buffer) (pos - (offset + c)) 0
        else mid)
    → new ≡ (
        if leb offset pos && ltb pos (offset + length buffer)
        then get_or buffer (pos - offset) 0
        else old)
joined buffer c offset pos old mid new le first rest = ground (
  arith,
  length-take c buffer,
  length-drop c buffer,
  get_or-take c (pos - offset) buffer,
  get_or-drop c (pos - (offset + c)) buffer,
)

write_loop-step :
    (n : ℕ) (d : Disk) (inode : InodeDisk) (buffer : List ℕ) (offset written s : ℕ)
    → 0 < length buffer
    → byte_to_sector d inode offset ≡ some s
    → 0 < chunk_size inode (length buffer) offset
    → write_loop (suc n) d inode buffer offset written
      ≡ write_loop n
          (write_sector d s (offset % 512) (take (chunk_size inode (length buffer) offset) buffer))
          inode
          (drop (chunk_size inode (length buffer) offset) buffer)
          (offset + chunk_size inode (length buffer) offset)
          (written + chunk_size inode (length buffer) offset)
unfolding write_loop
write_loop-step n d inode buffer offset written s more at some_bytes =
    let busy : (length buffer == 0) ≡ false = ground arith in
    let moves : (chunk_size inode (length buffer) offset == 0) ≡ false = ground arith in
    rw (busy, at, moves) refl

write_loop-end :
    (n : ℕ) (d : Disk) (inode : InodeDisk) (buffer : List ℕ) (offset written : ℕ)
    → length buffer ≡ 0
    → write_loop n d inode buffer offset written ≡ some (d, written)
unfolding write_loop
write_loop-end zero d inode buffer offset written h = refl
write_loop-end (suc n) d inode buffer offset written h = rw h refl

module _ (inode : InodeDisk) (f : ℕ → ℕ) where
  sector_at :
      (d : Disk)
      → IsSound d inode f
      → (pos : ℕ) → pos < inode.length
      → byte_to_sector d inode pos ≡ some (f (pos / 512))
  unfolding byte_to_sector
  sector_at d v pos h =
      let inside : ltb pos inode.length ≡ true = lt→ltb _ _ h in
      rw inside (v.sectors (pos / 512) (omega arith))

  nothing-Written :
      (n : ℕ) (d : Disk) (buffer : List ℕ) (offset written : ℕ)
      → IsSound d inode f
      → length buffer ≡ 0
      → Written d inode f buffer offset written (write_loop n d inode buffer offset written)
  nothing-Written n d buffer offset written v h = record {
    after = d;
    ends =
        write_loop-end n d inode buffer offset written h
        ∙ ap (λ (w : ℕ). some (d, w)) (omega (arith, h));
    sound = v;
    bytes = λ pos lt. ground arith;
  }

  -- One chunk, then the rest.
  chunk-Written :
      (d : Disk) (buffer : List ℕ) (offset written c : ℕ) (r r' : Option (Disk × ℕ))
      → IsSound d inode f
      → c ≤ length buffer
      → offset % 512 + c ≤ 512
      → offset < inode.length
      → r ≡ r'
      → Written
          (write_sector d (f (offset / 512)) (offset % 512) (take c buffer))
          inode
          f
          (drop c buffer)
          (offset + c)
          (written + c)
          r'
      → Written d inode f buffer offset written r
  chunk-Written d buffer offset written c r r' v le fits inside e later =
      let start : offset / 512 * 512 + offset % 512 ≡ offset = omega arith in
      let part : length (take c buffer) ≡ c = omega (arith, length-take c buffer) in
      record {
        after = later.after;
        ends =
            e
            ∙ later.ends
            ∙ ap (λ (w : ℕ). some (later.after, w)) (omega (arith, length-drop c buffer));
        sound = later.sound;
        bytes = λ pos lt.
            joined buffer c offset pos (file_byte d f pos) _ _ le
              (rw start at (
                write_sector-byte d inode f (offset / 512) (offset % 512) (take c buffer) v
                  (omega arith) (omega (arith, part)) pos lt))
              (later.bytes pos lt);
      }

  write_loop-Written :
      (n : ℕ) (d : Disk) (buffer : List ℕ) (offset written : ℕ)
      → length buffer ≤ n
      → IsSound d inode f
      → offset + length buffer ≤ inode.length
      → Written d inode f buffer offset written (write_loop n d inode buffer offset written)
  write_loop-Written zero d buffer offset written h v fits =
      nothing-Written zero d buffer offset written v (omega arith)
  write_loop-Written (suc n) d [] offset written h v fits =
      nothing-Written (suc n) d [] offset written v refl
  write_loop-Written (suc n) d (x ∷ buffer) offset written h v fits =
      let buf = x ∷ buffer in
      let c = chunk_size inode (length buf) offset in
      let left : length (drop c buf) ≡ length buf - c = length-drop c buf in
      let part : length (take c buf) ≡ c = omega (arith, length-take c buf) in
      chunk-Written d buf offset written c _ _ v (omega arith) (omega arith) (omega arith)
        (write_loop-step n d inode buf offset written (f (offset / 512)) (omega arith)
          (sector_at d v offset (omega arith)) (omega arith))
        (write_loop-Written n (write_sector d (f (offset / 512)) (offset % 512) (take c buf))
          (drop c buf) (offset + c) (written + c) (omega (arith, left))
          (write_sector-IsSound d inode f (offset / 512) (offset % 512) (take c buf) v (omega arith)
            (omega (arith, part)))
          (omega (arith, left)))

IsSound-IsMapped : (d : Disk) (inode : InodeDisk) (f : ℕ → ℕ) → IsSound d inode f → IsMapped d inode
IsSound-IsMapped d inode f v = record { sector_of = f; sectors = v.sectors; whole = v.whole }

read_back :
    (d : Disk) (inode : InodeDisk) (f : ℕ → ℕ) (buffer : List ℕ) (offset : ℕ)
    (r : Option (Disk × ℕ)) (w : Written d inode f buffer offset 0 r)
    → offset + length buffer ≤ inode.length
    → offset + length buffer < 2 ^ 31
    → inode_read_at w.after inode (length buffer) offset ≡ some (some buffer)
unfolding IsSound-IsMapped
read_back d inode f buffer offset r w fits small =
    let inside : ltb inode.length (offset + length buffer) ≡ false = ground arith in
    let bytes = file_bytes-eq w.after f buffer offset (λ i lt.
      let from : leb offset (offset + i) ≡ true = le→leb _ _ (omega arith) in
      let to : ltb (offset + i) (offset + length buffer) ≡ true = lt→ltb _ _ (omega arith) in
      let place : offset + i - offset ≡ i = omega arith in
      w.bytes (offset + i) (omega arith) ∙ rw (from, to, place) refl) in
    inode_read_at-file_bytes w.after inode (IsSound-IsMapped w.after inode f w.sound)
      (length buffer) offset small
    ∙ rw (inside, bytes) refl

-- For a file each of whose blocks has a whole sector of its own, none of them a sector of pointers, a
-- write that is not denied and ends within the file, below 2^31, comes to an end with all its bytes
-- written: byte i of the buffer is byte `offset + i` of the file, every other byte of the file is as
-- it was, the blocks keep their sectors, and `inode_read_at` of that range gives the buffer back.
pub inode_write-Written :
    (d : Disk) (inode : InodeDisk) (f : ℕ → ℕ) (buffer : List ℕ) (offset : ℕ)
    → IsSound d inode f
    → offset + length buffer ≤ inode.length
    → offset + length buffer < 2 ^ 31
    → (w : Written d inode f buffer offset 0 (inode_write_within false d inode buffer offset))
      × (inode_read_at w.after inode (length buffer) offset ≡ some (some buffer))
unfolding inode_write_within
inode_write-Written d inode f buffer offset v fits small =
    let w = write_loop-Written inode f (length buffer) d buffer offset 0 (omega arith) v fits in
    (w, read_back d inode f buffer offset _ w fits small)
