-- ===== src/Loader/Pages.antt =====
-- pintos/src/userprog/process.c: what validate_segment lets pass, and the pages of a segment.
use ospersonal.Common.{
  Bool, Bool-cases, List, Option, ap, arith, drop, false, get_or, get_or-append_left,
  get_or-append_right, get_or-drop, get_or-take, get_or-zeros, if◌then◌else◌, inl, inr, length,
  length-drop, length-take, ltb, ltb→lt, min, none, refl, replicate, some, suc, take, true, ℕ, ◌%◌,
  ◌&&◌, ◌*◌, ◌++◌, ◌+◌, ◌-◌, ◌<◌, ◌==◌, ◌^◌, ◌∙◌, ◌≡◌, ◌≢◌, ◌≤◌,
}
use ospersonal.Loader.{
  load_pages, sub32, Phdr, validate_segment, load_page, AddressSpace, install_page, Answers,
}

-- A segment that passes lies in user memory above the first page, and its sizes do not overflow.
pub record Fits (p : Phdr) (file_length : ℕ) : Type 0 where
  pub same_offset : p.p_offset % 4096 ≡ p.p_vaddr % 4096
  pub in_file : p.p_offset ≤ file_length
  pub shorter : p.p_filesz ≤ p.p_memsz
  pub above_first : 4096 ≤ p.p_vaddr
  pub below_base : p.p_vaddr + p.p_memsz < 0xc0000000

pub validate_segment-Fits :
    (p : Phdr) (file_length : ℕ)
    → p.p_memsz < 2 ^ 32
    → validate_segment p file_length ≡ true
    → Fits p file_length
unfolding validate_segment
validate_segment-Fits p n small ok = ground arith

abbrev pub in_page : Option (List ℕ) → ℕ → Option ℕ
in_page none i = none
in_page (some page) i = some (get_or page i 0)

-- The byte of memory at an address, where its page is mapped.
abbrev pub byte_at : AddressSpace → ℕ → Option ℕ
byte_at space a = in_page (space (a - a % 4096)) (a % 4096)

-- Byte `i` of a page of which `size` bytes come from the file.
page_byte :
    (file : List ℕ) (pos size i : ℕ)
    → size ≤ 4096
    → pos + size ≤ length file
    → get_or (take size (drop pos file) ++ replicate (4096 - size) 0) i 0
      ≡ (if ltb i size then get_or file (pos + i) 0 else 0)
page_byte file pos size i le fits =
    let taken : length (take size (drop pos file)) ≡ size =
      omega (arith, length-take size (drop pos file), length-drop pos file) in
    elim (Bool-cases (ltb i size)) [
      | inl low ↦
          let lt : i < size = ltb→lt i size low in
          rw low (
            get_or-append_left (take size (drop pos file)) (replicate (4096 - size) 0) i
              (omega (arith, taken))
            ∙ get_or-take size i (drop pos file) lt
            ∙ get_or-drop pos i file)
      | inr high ↦ rw high (
          get_or-append_right (take size (drop pos file)) (replicate (4096 - size) 0) i
            (ground (arith, taken))
          ∙ get_or-zeros (4096 - size) (i - length (take size (drop pos file))))
    ]

-- What one page comes to: it was not mapped, and now holds its part of the file and zeros.
pub record Paged (file : List ℕ) (pos size upage : ℕ) (space : AddressSpace) (space' : AddressSpace)
    : Type 0 where
  pub fresh : space upage ≡ none
  pub part : pos + size ≤ length file
  pub mapped : space' upage ≡ some (take size (drop pos file) ++ replicate (4096 - size) 0)
  pub kept : (a : ℕ) → a ≢ upage → space' a ≡ space a

pub load_page-Paged :
    (env : Answers) (file : List ℕ) (pos size upage : ℕ) (space space' : AddressSpace)
    → load_page env file pos size upage space ≡ some space'
    → Paged file pos size upage space space'
unfolding load_page install_page
load_page-Paged env file pos size upage space space' e = record {
  fresh = ground arith;
  part = ground arith;
  mapped = ground arith;
  kept = λ a ne. ground arith;
}

-- What the loop comes to on `count` pages of which `read` bytes come from the file.
pub record Loaded (file : List ℕ) (pos read count upage : ℕ) (space : AddressSpace)
    (r : Option (Bool × AddressSpace)) : Type 0 where
  pub success : Bool
  pub after : AddressSpace
  pub ends : r ≡ some (success, after)
  pub below : (a : ℕ) → a < upage → after a ≡ space a
  pub above : (a : ℕ) → upage + 4096 * count ≤ a → after a ≡ space a
  pub image :
      success ≡ true
      → (j : ℕ) → j < 4096 * count
      → byte_at after (upage + j) ≡ some (if ltb j read then get_or file (pos + j) 0 else 0)

pub load_pages-done :
    (env : Answers) (file : List ℕ) (n pos upage : ℕ) (space : AddressSpace)
    → load_pages (suc n) env file pos 0 0 upage space ≡ some (true, space)
unfolding load_pages
load_pages-done env file n pos upage space = refl

pub load_pages-step :
    (env : Answers) (file : List ℕ) (n pos read rest upage : ℕ) (space : AddressSpace)
    → 0 < read + rest
    → load_pages (suc n) env file pos read rest upage space
      ≡ elim (load_page env file pos (min read 4096) upage space) [
        | none ↦ some (false, space)
        | some space' ↦
            load_pages n env file
              (pos + min read 4096)
              (read - min read 4096)
              (sub32 rest (4096 - min read 4096))
              ((upage + 4096) % 2 ^ 32)
              space'
      ]
unfolding load_pages
load_pages-step env file n pos read rest upage space more =
    let busy : (read == 0 && rest == 0) ≡ false = ground arith in rw busy refl

byte_at-page :
    (space : AddressSpace) (page : List ℕ) (upage j : ℕ)
    → upage % 4096 ≡ 0
    → j < 4096
    → space upage ≡ some page
    → byte_at space (upage + j) ≡ some (get_or page j 0)
byte_at-page space page upage j aligned small e =
    let start : upage + j - (upage + j) % 4096 ≡ upage = omega arith in
    let inside : (upage + j) % 4096 ≡ j = omega arith in rw (start, e, inside) refl

-- One page, then the pages after it.
module _ (file : List ℕ) (pos read count upage : ℕ) (space space' : AddressSpace)
    (r' : Option (Bool × AddressSpace)) (aligned : upage % 4096 ≡ 0)
    (p : Paged file pos (min read 4096) upage space space')
    (later : Loaded file
      (pos + min read 4096)
      (read - min read 4096)
      count
      (upage + 4096)
      space'
      r') where
  first_page :
      (j : ℕ)
      → j < 4096
      → byte_at later.after (upage + j) ≡ some (if ltb j read then get_or file (pos + j) 0 else 0)
  first_page j small =
      let part = page_byte file pos (min read 4096) j (omega arith) p.part in
      let same : ltb j (min read 4096) ≡ ltb j read = ground arith in
      byte_at-page later.after _ upage j aligned small (later.below upage (omega arith) ∙ p.mapped)
      ∙ ap some (rw same at part)

  later_pages :
      later.success ≡ true
      → (j : ℕ) → 4096 ≤ j
      → j < 4096 * suc count
      → byte_at later.after (upage + j) ≡ some (if ltb j read then get_or file (pos + j) 0 else 0)
  later_pages ok j big lt =
      let place : upage + 4096 + (j - 4096) ≡ upage + j = omega arith in
      let known = later.image ok (j - 4096) (omega arith) in
      elim (Bool-cases (ltb j read)) [
        | inl low ↦
            let lt' : j < read = ltb→lt j read low in
            let still : ltb (j - 4096) (read - min read 4096) ≡ true = ground arith in
            let same : pos + min read 4096 + (j - 4096) ≡ pos + j = omega arith in
            rw low (rw (place, still, same) at known)
        | inr high ↦
            let still : ltb (j - 4096) (read - min read 4096) ≡ false = ground arith in
            rw high (rw (place, still) at known)
      ]

  pub Loaded-suc :
      {r : Option (Bool × AddressSpace)} → r ≡ r' → Loaded file pos read (suc count) upage space r
  Loaded-suc e = record {
    success = later.success;
    after = later.after;
    ends = e ∙ later.ends;
    below = λ a lt. later.below a (omega arith) ∙ p.kept a (omega arith);
    above = λ a le. later.above a (omega arith) ∙ p.kept a (omega arith);
    image = λ ok j lt. elim (Bool-cases (ltb j 4096)) [
      | inl low ↦ first_page j (ltb→lt j 4096 low)
      | inr high ↦ later_pages ok j (ground arith) lt
    ];
  }
