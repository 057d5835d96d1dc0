-- ===== src/Loader/Segments.antt =====
-- pintos/src/userprog/process.c: what validate_segment lets load_segment rely on, and the memory of a
-- loaded segment.
use ospersonal.Common.{
  Bool, Bool-cases, List, Option, Option-cases, arith, assert-true, count, false, get_or,
  if◌then◌else◌, inl, inr, length, ltb, ltb→lt, min, none, refl, some, suc, true, zero, ℕ, ◌%◌, ◌*◌,
  ◌+◌, ◌-◌, ◌/◌, ◌<◌, ◌==◌, ◌^◌, ◌∙◌, ◌≡◌, ◌≤◌,
}
use ospersonal.Loader.{
  load_pages, sub32, load_segment, load_phdr, read_bytes, zero_bytes, Phdr, validate_segment,
  load_page, AddressSpace, Answers,
}
use ospersonal.Loader.Pages.{
  Fits, Loaded, Loaded-suc, byte_at, load_page-Paged, load_pages-done, load_pages-step,
  validate_segment-Fits,
}

load_pages-stop :
    (env : Answers) (file : List ℕ) (n pos read rest upage : ℕ) (space : AddressSpace)
    → 0 < read + rest
    → load_page env file pos (min read 4096) upage space ≡ none
    → load_pages (suc n) env file pos read rest upage space ≡ some (false, space)
load_pages-stop env file n pos read rest upage space more failed =
    load_pages-step env file n pos read rest upage space more ∙ rw failed refl

load_pages-next :
    (env : Answers) (file : List ℕ) (n pos read rest upage : ℕ) (space space' : AddressSpace)
    → 0 < read + rest
    → 4096 - min read 4096 ≤ rest
    → rest < 2 ^ 32
    → upage + 4096 < 2 ^ 32
    → load_page env file pos (min read 4096) upage space ≡ some space'
    → load_pages (suc n) env file pos read rest upage space
      ≡ load_pages n env file
          (pos + min read 4096)
          (read - min read 4096)
          (rest - (4096 - min read 4096))
          (upage + 4096)
          space'
load_pages-next env file n pos read rest upage space space' more fits small room loaded =
    let rest_left : sub32 rest (4096 - min read 4096) ≡ rest - (4096 - min read 4096) =
      omega arith in
    let next_page : (upage + 4096) % 2 ^ 32 ≡ upage + 4096 = omega arith in
    load_pages-step env file n pos read rest upage space more
    ∙ rw (loaded, rest_left, next_page) refl

module _ (env : Answers) (file : List ℕ) where
  load_pages-Loaded :
      (count n pos read rest upage : ℕ) (space : AddressSpace)
      → count < n
      → read + rest ≡ 4096 * count
      → upage % 4096 ≡ 0
      → upage + 4096 * count < 2 ^ 32
      → Loaded file pos read count upage space (load_pages n env file pos read rest upage space)
  load_pages-Loaded count zero pos read rest upage space h sum aligned room = absurd (omega arith)
  load_pages-Loaded zero (suc n) pos read rest upage space h sum aligned room =
      let none_left : read ≡ 0 = omega arith in
      let no_zeros : rest ≡ 0 = omega arith in
      record {
        success = true;
        after = space;
        ends = rw (none_left, no_zeros) (load_pages-done env file n pos upage space);
        below = λ a lt. refl;
        above = λ a le. refl;
        image = λ e j lt. absurd (omega arith);
      }
  load_pages-Loaded (suc count) (suc n) pos read rest upage space h sum aligned room =
      let size = min read 4096 in
      elim (Option-cases (load_page env file pos size upage space)) [
        | inl failed ↦ record {
          success = false;
          after = space;
          ends = load_pages-stop env file n pos read rest upage space (omega arith) failed;
          below = λ a lt. refl;
          above = λ a le. refl;
          image = λ e j lt. absurd (cc);
        }
        | inr (space', loaded) ↦
            Loaded-suc file pos read count upage space space' _ aligned
              (load_page-Paged env file pos size upage space space' loaded)
              (load_pages-Loaded count n (pos + size) (read - size) (rest - (4096 - size))
                (upage + 4096) space' (omega arith) (omega arith) (omega arith) (omega arith))
              (load_pages-next env file n pos read rest upage space space' (omega arith)
                (omega arith) (omega arith) (omega arith) loaded)
      ]

-- What loading a segment comes to.
pub record Segment (file : List ℕ) (p : Phdr) (space : AddressSpace)
    (r : Option (Bool × AddressSpace)) : Type 0 where
  pub success : Bool
  pub after : AddressSpace
  pub ends : r ≡ some (success, after)
  pub below : (a : ℕ) → a < p.p_vaddr - p.p_vaddr % 4096 → after a ≡ space a
  pub above : (a : ℕ) → a % 4096 ≡ 0 → p.p_vaddr + p.p_memsz ≤ a → after a ≡ space a
  pub first : after 0 ≡ space 0
  pub kernel : (a : ℕ) → 0xc0000000 ≤ a → after a ≡ space a
  pub image :
      success ≡ true
      → (i : ℕ) → i < p.p_memsz
      → byte_at after (p.p_vaddr + i)
        ≡ some (if ltb i p.p_filesz then get_or file (p.p_offset + i) 0 else 0)

load_segment-ready :
    (env : Answers) (file : List ℕ) (ofs upage read rest : ℕ) (space : AddressSpace)
    → (read + rest) % 4096 ≡ 0
    → read + rest < 2 ^ 32
    → upage % 4096 ≡ 0
    → ofs % 4096 ≡ 0
    → ofs < 2 ^ 31
    → load_segment env file ofs upage read rest space
      ≡ load_pages (suc ((read + rest) / 4096)) env file ofs read rest upage space
unfolding load_segment
load_segment-ready env file ofs upage read rest space whole small aligned page near =
    let a : ((read + rest) % 2 ^ 32 % 4096 == 0) ≡ true = ground arith in
    let b : (upage % 4096 == 0) ≡ true = ground arith in
    let c : (ofs % 4096 == 0) ≡ true = ground arith in
    let d : ltb ofs (2 ^ 31) ≡ true = ground arith in
    assert-true _ a ∙ assert-true _ b ∙ assert-true _ c ∙ assert-true _ d

module _ (env : Answers) (file : List ℕ) (p : Phdr) (space : AddressSpace)
    (f : Fits p (length file)) where
  total : read_bytes p + zero_bytes p ≡ 4096 * ((p.p_vaddr % 4096 + p.p_memsz + 4095) / 4096)
  total = elim (Bool-cases (ltb 0 p.p_filesz)) [
    | inl more ↦
        let pos = ltb→lt 0 p.p_filesz more in
        let a : (p.p_vaddr % 4096 + p.p_filesz) % 2 ^ 32 ≡ p.p_vaddr % 4096 + p.p_filesz =
          omega arith in
        rw (more, a) (omega arith)
    | inr no_more ↦ rw no_more (omega arith)
  ]

  from_file : (i : ℕ) → ltb (p.p_vaddr % 4096 + i) (read_bytes p) ≡ ltb i p.p_filesz
  from_file i = elim (Bool-cases (ltb 0 p.p_filesz)) [
    | inl more ↦
        let pos = ltb→lt 0 p.p_filesz more in
        let a : (p.p_vaddr % 4096 + p.p_filesz) % 2 ^ 32 ≡ p.p_vaddr % 4096 + p.p_filesz =
          omega arith in
        rw (more, a) (ground arith)
    | inr no_more ↦ let z : p.p_filesz ≡ 0 = ground arith in rw no_more (rw z (ground arith))
  ]

  ready-Segment :
      length file < 2 ^ 31
      → validate_segment p (length file) ≡ true
      → Segment file p space (load_phdr env file p space)
  unfolding load_phdr
  ready-Segment near valid =
      let count = (p.p_vaddr % 4096 + p.p_memsz + 4095) / 4096 in
      let upage = p.p_vaddr - p.p_vaddr % 4096 in
      let ofs = p.p_offset - p.p_offset % 4096 in
      let sum = total in
      let ready =
        load_segment-ready env file ofs upage (read_bytes p) (zero_bytes p) space
          (omega (arith, sum)) (omega (arith, sum)) (omega arith) (omega arith) (omega arith) in
      let run =
        load_pages-Loaded env file count (suc ((read_bytes p + zero_bytes p) / 4096)) ofs
          (read_bytes p) (zero_bytes p) upage space (omega (arith, sum)) sum (omega arith)
          (omega arith) in
      record {
        success = run.success;
        after = run.after;
        ends = rw valid (ready ∙ run.ends);
        below = run.below;
        above = λ a page le. run.above a (omega arith);
        first = run.below 0 (omega arith);
        kernel = λ a le. run.above a (omega arith);
        image = λ ok i lt.
            let known = run.image ok (p.p_vaddr % 4096 + i) (omega arith) in
            let place : upage + (p.p_vaddr % 4096 + i) ≡ p.p_vaddr + i = omega arith in
            let origin : ofs + (p.p_vaddr % 4096 + i) ≡ p.p_offset + i = omega arith in
            rw (place, from_file i, origin) at known;
      }

-- For a program header whose words are 32-bit and that `validate_segment` accepts for a file shorter
-- than 2^31 bytes, whatever frames and page tables the kernel can get: `load_segment` is called with
-- no failed ASSERT and comes to an end; it leaves every page below the segment's first page, page 0
-- among them, every page past the segment's end and everything from PHYS_BASE on as it was; and if it
-- succeeds then byte i of the segment in memory is byte `p_offset + i` of the file for i below
-- `p_filesz`, and 0 from there to `p_memsz`.
pub load_phdr-Segment :
    (env : Answers) (file : List ℕ) (p : Phdr) (space : AddressSpace)
    → p.p_memsz < 2 ^ 32
    → length file < 2 ^ 31
    → validate_segment p (length file) ≡ true
    → Segment file p space (load_phdr env file p space)
load_phdr-Segment env file p space small near valid =
    ready-Segment env file p space (validate_segment-Fits p (length file) small valid) near valid
