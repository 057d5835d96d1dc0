-- ===== src/Inode/Growth/Writes.antt =====
-- pintos/src/filesys/inode.c: inode_write_at, where a write past the end of the file makes it longer first.
use ospersonal.Common.{
  Bool, List, Option, ap, arith, false, get_or, if◌then◌else◌, leb, length, ltb, lt→ltb, refl, some,
  some_injective, subst, sym, true, ℕ, ◌%◌, ◌&&◌, ◌*◌, ◌+◌, ◌/◌, ◌<◌, ◌>>=◌, ◌∙◌, ◌≡◌, ◌≤◌,
}
use ospersonal.Inode.{Disk, inode_read_at}
use ospersonal.Inode.Writing.{write_loop, inode_write_within}
use ospersonal.Inode.Writing.Sound.{file_byte}
use ospersonal.Inode.Writing.Written.{Written, inode_write-Written}
use ospersonal.Inode.Growth.{SectorMap, Growing, extend_file}
use ospersonal.Inode.Growth.Grown.{Owned, Owned-IsSound, Grown, extend_file-Grown}

module _ (sectors : SectorMap) where
  -- The bytes written and the inode afterwards. Whether the growth succeeded is not looked at.
  unfoldable pub inode_write_at : Bool → Growing sectors → List ℕ → ℕ → Option (ℕ × Growing sectors)
  inode_write_at denied g buffer offset =
      if denied
      then some (0, g)
      else ((if ltb g.inode.length (length buffer + offset)
            then extend_file sectors g (length buffer + offset)
            else some (true, g))
          >>= λ r. write_loop (length buffer) r.1.disk r.1.inode buffer offset 0 >>= λ w.
              some (w.1, record (r.1) { disk = w.0 }))

  -- A byte of a file of direct blocks.
  abbrev pub byte_of : Growing sectors → ℕ → ℕ
  byte_of g pos = file_byte g.disk (λ k. get_or g.inode.direct_ptrs k 0) pos

  module _ (g : Growing sectors) (v : Owned sectors g) (buffer : List ℕ) (offset : ℕ)
      (g' : Growing sectors)
      (grown : extend_file sectors g (length buffer + offset) ≡ some (true, g')) where
    inode_write_at-ends :
        (longer : g.inode.length < length buffer + offset)
        (w : Written g'.disk g'.inode
          (λ k. get_or g'.inode.direct_ptrs k 0)
          buffer
          offset
          0
          (inode_write_within false g'.disk g'.inode buffer offset))
        → inode_write_at false g buffer offset ≡ some (length buffer, record g' { disk = w.after })
    unfolding inode_write_at inode_write_within
    inode_write_at-ends longer w =
        let past : ltb g.inode.length (length buffer + offset) ≡ true = lt→ltb _ _ longer in
        let all : 0 + length buffer ≡ length buffer = omega arith in
        rw (past, grown, w.ends, all) refl

    Grown-success :
        (w : Grown sectors g
          (length buffer + offset)
          (extend_file sectors g (length buffer + offset)))
        → (w.success ≡ true) × (w.after ≡ g')
    Grown-success w =
        let e = some_injective (sym w.ends ∙ grown) in
        (ap (λ (r : Bool × Growing sectors). r.0) e, ap (λ (r : Bool × Growing sectors). r.1) e)

    -- A write that is not denied and goes past the end of a file of direct blocks, when the growth that
    -- it asks for succeeds: all of it is written, the file ends where it ends, a read of that range
    -- gives the buffer back, and the bytes of the file before it are as they were.
    pub inode_write_at-past_end :
        g.inode.length < length buffer + offset
        → length buffer + offset ≤ 123 * 512
        → (after : Growing sectors) × (inode_write_at false g buffer offset
            ≡ some (length buffer, after))
          × (after.inode.length ≡ length buffer + offset)
          × (inode_read_at after.disk after.inode (length buffer) offset ≡ some (some buffer))
          × ((pos : ℕ) → pos < g.inode.length → pos < offset → byte_of after pos ≡ byte_of g pos)
    inode_write_at-past_end longer small =
        let made = extend_file-Grown sectors g v (length buffer + offset) (omega arith) small in
        let (success, same) = Grown-success made in
        let owned = subst (λ (t : Growing sectors). Owned sectors t) same made.owned in
        let new_length : g'.inode.length ≡ length buffer + offset =
          ap (λ (t : Growing sectors). t.inode.length) (sym same)
          ∙ made.new_length
          ∙ rw success refl in
        let (w, read) =
          inode_write-Written g'.disk g'.inode (λ k. get_or g'.inode.direct_ptrs k 0) buffer offset
            (Owned-IsSound sectors g' owned) (omega (arith, new_length)) (omega arith) in
        (
          record g' { disk = w.after },
          inode_write_at-ends longer w,
          new_length,
          read,
          λ pos inside before.
              let outside : (leb offset pos && ltb pos (offset + length buffer)) ≡ false =
                ground arith in
              w.bytes pos (omega (arith, new_length))
              ∙ rw outside (
                  ap (λ (t : Growing sectors). byte_of t pos) (sym same)
                  ∙ ap
                      (λ (d : Disk). file_byte d (λ k. get_or made.after.inode.direct_ptrs k 0) pos)
                      made.same_disk
                  ∙ ap (λ (s : ℕ). get_or (g.disk.bytes s) (pos % 512) 0)
                      (made.old (pos / 512) (omega arith))),
        )
