-- ===== src/Loader.antt =====
-- pintos/src/userprog/process.c: loading the segments of an ELF file. An address space gives the
-- content of each mapped page by the page's address. The file is its bytes; numbers are the 32-bit
-- patterns of the source. `none` is a failed ASSERT.
pub mod Pages
pub mod Segments
pub mod Stack
use ospersonal.Common.{
  ℕ, zero, suc, ◌+◌, ◌-◌, ◌*◌, ◌/◌, ◌%◌, ◌^◌, ◌<◌, ◌≡◌, Bool, true, false, not, ◌&&◌, ◌||◌, Option,
  none, some, List, [], ◌∷◌, ◌++◌, ltb, leb, ◌==◌, if◌then◌else◌, ◌>>◌, assert, min, length, take,
  drop, replicate,
}

-- The fields of `struct Elf32_Phdr` that the loader looks at.
pub record Phdr : Type 0 where
  pub p_offset : ℕ
  pub p_vaddr : ℕ
  pub p_filesz : ℕ
  pub p_memsz : ℕ

abbrev pub pgsize : ℕ
pgsize = 4096

abbrev pub phys_base : ℕ
phys_base = 0xc0000000

abbrev pub word : ℕ
word = 2 ^ 32

abbrev pub pg_ofs : ℕ → ℕ
pg_ofs x = x % pgsize

abbrev pub pg_round_down : ℕ → ℕ
pg_round_down x = x - x % pgsize

abbrev pub sub32 : ℕ → ℕ → ℕ
sub32 a b = (a + word - b) % word

-- ROUND_UP to whole pages, of a 32-bit number.
abbrev pub round_up : ℕ → ℕ
round_up x = (x + (pgsize - 1)) % word / pgsize * pgsize

abbrev pub is_user_vaddr : ℕ → Bool
is_user_vaddr a = ltb a phys_base

unfoldable pub validate_segment : Phdr → ℕ → Bool
validate_segment p file_length =
    if not (pg_ofs p.p_offset == pg_ofs p.p_vaddr)
    then false
    else if ltb file_length p.p_offset
    then false
    else if ltb p.p_memsz p.p_filesz
    then false
    else if p.p_memsz == 0
    then false
    else if not (is_user_vaddr p.p_vaddr)
    then false
    else if not (is_user_vaddr ((p.p_vaddr + p.p_memsz) % word))
    then false
    else if ltb ((p.p_vaddr + p.p_memsz) % word) p.p_vaddr
    then false
    else if ltb p.p_vaddr pgsize
    then false
    else true

abbrev pub read_bytes : Phdr → ℕ
read_bytes p = if ltb 0 p.p_filesz then (pg_ofs p.p_vaddr + p.p_filesz) % word else 0

abbrev pub zero_bytes : Phdr → ℕ
zero_bytes p =
    if ltb 0 p.p_filesz
    then sub32 (round_up ((pg_ofs p.p_vaddr + p.p_memsz) % word)) (read_bytes p)
    else round_up ((pg_ofs p.p_vaddr + p.p_memsz) % word)

abbrev pub AddressSpace : Type 0
AddressSpace = ℕ → Option (List ℕ)

abbrev pub map_page : AddressSpace → ℕ → List ℕ → AddressSpace
map_page space upage page a = if a == upage then some page else space a

abbrev pub is_mapped : Option (List ℕ) → Bool
is_mapped none = false
is_mapped (some page) = true

-- What the allocators answer for the page at an address: whether there is a frame for it, and
-- whether there is memory for its page table.
pub record Answers : Type 0 where
  pub frame : ℕ → Bool
  pub table : ℕ → Bool

-- `none` is the answer false.
unfoldable pub install_page : Answers → AddressSpace → ℕ → List ℕ → Option AddressSpace
install_page env space upage kpage =
    if not (is_mapped (space upage)) && env.table upage
    then some (map_page space upage kpage)
    else none

-- `file_read` of a whole number of bytes at the file's position; `none` is a result of another length.
abbrev pub file_part : List ℕ → ℕ → ℕ → Option (List ℕ)
file_part file pos size =
    if leb (pos + size) (length file) then some (take size (drop pos file)) else none

-- A page read and padded, or `none` where there is no frame, no such part of the file, or no mapping.
unfoldable pub load_page : Answers → List ℕ → ℕ → ℕ → ℕ → AddressSpace → Option AddressSpace
load_page env file pos page_read_bytes upage space =
    if env.frame upage
    then elim (file_part file pos page_read_bytes) [
      | none ↦ none
      | some bytes ↦ install_page env space upage (bytes ++ replicate (pgsize - page_read_bytes) 0)
    ]
    else none

-- The loop of `load_segment`, with the rounds left first: whether it succeeds, and the address space.
unfoldable pub load_pages :
    ℕ → Answers → List ℕ → ℕ → ℕ → ℕ → ℕ → AddressSpace → Option (Bool × AddressSpace)
load_pages zero env file pos read rest upage space = none
load_pages (suc n) env file pos read rest upage space =
    if read == 0 && rest == 0
    then some (true, space)
    else elim (load_page env file pos (min read pgsize) upage space) [
      | none ↦ some (false, space)
      | some space' ↦
          load_pages n env file (pos + min read pgsize) (read - min read pgsize)
            (sub32 rest (pgsize - min read pgsize)) ((upage + pgsize) % word) space'
    ]

-- A round loads a page, so there are as many as pages; one more sees that nothing is left.
unfoldable pub load_segment :
    Answers → List ℕ → ℕ → ℕ → ℕ → ℕ → AddressSpace → Option (Bool × AddressSpace)
load_segment env file ofs upage read rest space =
    assert ((read + rest) % word % pgsize == 0)
    >> (assert (pg_ofs upage == 0)
        >> (assert (ofs % pgsize == 0)
            >> (assert (ltb ofs (2 ^ 31))
                >> load_pages (suc ((read + rest) / pgsize)) env file ofs read rest upage space)))

-- The case PT_LOAD of `load`.
unfoldable pub load_phdr : Answers → List ℕ → Phdr → AddressSpace → Option (Bool × AddressSpace)
load_phdr env file p space =
    if validate_segment p (length file)
    then load_segment env file (pg_round_down p.p_offset) (pg_round_down p.p_vaddr) (read_bytes p)
        (zero_bytes p) space
    else some (false, space)
