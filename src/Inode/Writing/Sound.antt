-- ===== src/Inode/Writing/Sound.antt =====
-- pintos/src/filesys/inode.c: files whose blocks have sectors of their own, and one write to a sector.
use ospersonal.Common.{
  ==→eq, Bool-cases, List, Option, ap, arith, drop, eq→==, false, get_elem?, get_or,
  get_or-append_left, get_or-append_right, get_or-drop, get_or-take, if◌then◌else◌, inl, inr, leb,
  leb→le, length, length-append, length-drop, length-take, ltb, ltb→lt, ne→==, none,
  not_false_and_true, refl, some, sym, take, ℕ, ◌%◌, ◌&&◌, ◌*◌, ◌++◌, ◌+◌, ◌-◌, ◌/◌, ◌<◌, ◌==◌,
  ◌>>=◌, ◌∙◌, ◌≡◌, ◌≢◌, ◌≤◌,
}
use ospersonal.Bufcache.{write_part}
use ospersonal.Inode.{InodeDisk, Disk, block_sector}
use ospersonal.Inode.Writing.{write_sector}

-- Each block of the file has a whole sector of its own, none of them a sector of pointers where the file
-- is long enough to have those pointers.
pub record IsSound (d : Disk) (inode : InodeDisk) (f : ℕ → ℕ) : Type 0 where
  pub sectors : (n : ℕ) → n * 512 < inode.length → block_sector d inode n ≡ some (f n)
  pub whole : (n : ℕ) → n * 512 < inode.length → length (d.bytes (f n)) ≡ 512
  pub distinct : (n m : ℕ) → n * 512 < inode.length → m * 512 < inode.length → f n ≡ f m → n ≡ m
  pub not_single :
      (n : ℕ) → n * 512 < inode.length → 123 * 512 < inode.length → inode.singly_indirect_ptr ≢ f n
  pub not_double :
      (n : ℕ) → n * 512 < inode.length → 251 * 512 < inode.length → inode.doubly_indirect_ptr ≢ f n
  pub not_below :
      (n m p : ℕ)
      → n * 512 < inode.length
      → 251 * 512 < inode.length
      → get_elem? (d.blocks inode.doubly_indirect_ptr) m ≡ some p
      → p ≢ f n

-- A byte of the file.
abbrev pub file_byte : Disk → (ℕ → ℕ) → ℕ → ℕ
file_byte d f pos = get_or (d.bytes (f (pos / 512))) (pos % 512) 0

bind-agree :
    (o : Option ℕ) (g h : ℕ → Option ℕ) → ((p : ℕ) → o ≡ some p → g p ≡ h p) → (o >>= g) ≡ (o >>= h)
bind-agree none g h e = refl
bind-agree (some p) g h e = e p refl

block_sector-agree :
    (d d' : Disk) (inode : InodeDisk) (n : ℕ)
    → (123 ≤ n → d'.blocks inode.singly_indirect_ptr ≡ d.blocks inode.singly_indirect_ptr)
    → (251 ≤ n → d'.blocks inode.doubly_indirect_ptr ≡ d.blocks inode.doubly_indirect_ptr)
    → ((m p : ℕ)
        → 251 ≤ n
        → get_elem? (d.blocks inode.doubly_indirect_ptr) m ≡ some p
        → d'.blocks p ≡ d.blocks p)
    → block_sector d' inode n ≡ block_sector d inode n
unfolding block_sector
block_sector-agree d d' inode n single double below = elim (Bool-cases (ltb n 123)) [
  | inl direct ↦ rw direct refl
  | inr past ↦ elim (Bool-cases (ltb n 251)) [
    | inl in_single ↦
        rw (past, in_single) (ap (λ (l : List ℕ). get_elem? l (n - 123)) (single (ground arith)))
    | inr in_double ↦
        let far : 251 ≤ n = ground arith in
        rw (past, in_double, double far)
          (bind-agree (get_elem? (d.blocks inode.doubly_indirect_ptr) ((n - 251) / 128)) _ _ (λ p e.
            ap (λ (l : List ℕ). get_elem? l ((n - 251) % 512)) (below ((n - 251) / 128) p far e)))
  ]
]

write_part-byte :
    (xs buf : List ℕ) (ofs i : ℕ)
    → ofs + length buf ≤ length xs
    → get_or (write_part xs ofs buf) i 0
      ≡ (if leb ofs i && ltb i (ofs + length buf) then get_or buf (i - ofs) 0 else get_or xs i 0)
write_part-byte xs buf ofs i fits =
    let before : length (take ofs xs) ≡ ofs = omega (arith, length-take ofs xs) in
    let after = drop (ofs + length buf) xs in
    elim (Bool-cases (leb ofs i)) [
      | inr under ↦
          let lt : i < ofs = ground arith in
          rw under (
            get_or-append_left (take ofs xs) (buf ++ after) i (omega (arith, before))
            ∙ get_or-take ofs i xs lt)
      | inl from ↦
          let le = leb→le ofs i from in
          get_or-append_right (take ofs xs) (buf ++ after) i (omega (arith, before))
          ∙ rw (before, from)
              (elim (Bool-cases (ltb i (ofs + length buf))) [
                | inl within ↦
                    let lt = ltb→lt i (ofs + length buf) within in
                    rw within (get_or-append_left buf after (i - ofs) (omega arith))
                | inr past ↦
                    let place : ofs + length buf + (i - ofs - length buf) ≡ i = ground arith in
                    rw past (
                      get_or-append_right buf after (i - ofs) (ground arith)
                      ∙ get_or-drop (ofs + length buf) (i - ofs - length buf) xs
                      ∙ ap (λ (j : ℕ). get_or xs j 0) place)
              ])
    ]

length-write_part :
    (xs buf : List ℕ) (ofs : ℕ)
    → ofs + length buf ≤ length xs
    → length (write_part xs ofs buf) ≡ length xs
length-write_part xs buf ofs fits = omega (
  arith,
  length-append (take ofs xs) (buf ++ drop (ofs + length buf) xs),
  length-append buf (drop (ofs + length buf) xs),
  length-take ofs xs,
  length-drop (ofs + length buf) xs,
)

module _ (d : Disk) (inode : InodeDisk) (f : ℕ → ℕ) (k ofs : ℕ) (buf : List ℕ) where
  elsewhere : (p : ℕ) → p ≢ f k → (write_sector d (f k) ofs buf).blocks p ≡ d.blocks p
  elsewhere p ne = let e : (p == f k) ≡ false = ne→== p (f k) ne in rw e refl

  pub write_sector-IsSound :
      IsSound d inode f
      → k * 512 < inode.length
      → ofs + length buf ≤ 512
      → IsSound (write_sector d (f k) ofs buf) inode f
  write_sector-IsSound v inside fits = record {
    sectors = λ n h.
        block_sector-agree d (write_sector d (f k) ofs buf) inode n
          (λ far. elsewhere inode.singly_indirect_ptr (v.not_single k inside (omega arith)))
          (λ far. elsewhere inode.doubly_indirect_ptr (v.not_double k inside (omega arith)))
          (λ m p far e. elsewhere p (v.not_below k m p inside (omega arith) e))
        ∙ v.sectors n h;
    whole = λ n h. elim (Bool-cases (f n == f k)) [
      | inl same ↦ rw same (
          length-write_part (d.bytes (f k)) buf ofs (omega (arith, v.whole k inside))
          ∙ v.whole k inside)
      | inr other ↦ rw other (v.whole n h)
    ];
    distinct = v.distinct;
    not_single = v.not_single;
    not_double = v.not_double;
    not_below = λ n m p h far e. v.not_below n m p h far (
        ap (λ (l : List ℕ). get_elem? l m)
          (sym (elsewhere inode.doubly_indirect_ptr (v.not_double k inside far)))
        ∙ e);
  }

  pub write_sector-byte :
      (v : IsSound d inode f)
      → k * 512 < inode.length
      → ofs + length buf ≤ 512
      → (pos : ℕ) → pos < inode.length
      → file_byte (write_sector d (f k) ofs buf) f pos ≡ (
          if leb (k * 512 + ofs) pos && ltb pos (k * 512 + ofs + length buf)
          then get_or buf (pos - (k * 512 + ofs)) 0
          else file_byte d f pos)
  write_sector-byte v inside fits pos within = elim (Bool-cases (f (pos / 512) == f k)) [
    | inl same ↦
        let block : pos / 512 ≡ k =
          v.distinct (pos / 512) k (omega arith) inside (==→eq _ _ same) in
        let low : leb (k * 512 + ofs) pos ≡ leb ofs (pos % 512) = ground arith in
        let high : ltb pos (k * 512 + ofs + length buf) ≡ ltb (pos % 512) (ofs + length buf) =
          ground arith in
        let place : pos - (k * 512 + ofs) ≡ pos % 512 - ofs = omega arith in
        rw (same, low, high, place)
          (write_part-byte (d.bytes (f k)) buf ofs (pos % 512) (omega (arith, v.whole k inside))
            ∙ ap
                (λ (b : ℕ).
                  if leb ofs (pos % 512) && ltb (pos % 512) (ofs + length buf)
                  then get_or buf (pos % 512 - ofs) 0
                  else get_or (d.bytes (f b)) (pos % 512) 0)
                (sym block))
    | inr other ↦
        let ne : pos / 512 ≢ k =
          λ e. not_false_and_true (eq→== (f (pos / 512)) (f k) (ap f e)) other in
        let outside : (leb (k * 512 + ofs) pos && ltb pos (k * 512 + ofs + length buf)) ≡ false =
          ground arith in
        rw (other, outside) refl
  ]

-- What the loop comes to: all of `buffer` is in the file from `offset` on, and nothing else changed.
