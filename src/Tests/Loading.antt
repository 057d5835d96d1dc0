-- ===== src/Tests/Loading.antt =====
-- Instances of the theorems on loading a program, and of those on directories.
use ospersonal.Common.{List, [], arith, false, none, refl, some, true, ℕ, ◌∷◌, ◌≡◌}
use ospersonal.Loader.{Phdr, Answers, AddressSpace, validate_segment, load_phdr}
use ospersonal.Loader.Segments.{Segment, load_phdr-Segment}
use ospersonal.Loader.Stack.{ByteMemory, setup_stack}
use ospersonal.Loader.Stack.Words.{line}
use ospersonal.Loader.Stack.Arguments.{Started, setup_stack-Started}
use ospersonal.Directory.{DirEntry}

-- A segment of twelve bytes, four of them from the file, that starts in the middle of a page.
abbrev small_segment : Phdr
small_segment = record { p_offset = 2; p_vaddr = 0x08048002; p_filesz = 4; p_memsz = 12 }

abbrev small_file : List ℕ
small_file = 1 ∷ 2 ∷ 3 ∷ 4 ∷ 5 ∷ 6 ∷ []

abbrev plenty : Answers
plenty = record { frame = λ a. true; table = λ a. true }

abbrev no_pages : AddressSpace
no_pages a = none

load_phdr-Segment_example :
    Segment small_file small_segment no_pages (load_phdr plenty small_file small_segment no_pages)
unfolding validate_segment
load_phdr-Segment_example =
    load_phdr-Segment plenty small_file small_segment no_pages (omega arith) (omega arith) refl

abbrev zeros : ByteMemory
zeros a = 0

-- The words `ls` and `-a`.
abbrev two_words : List (List ℕ)
two_words = (108 ∷ 115 ∷ []) ∷ (45 ∷ 97 ∷ []) ∷ []

setup_stack-Started_example :
    (r : ByteMemory × ℕ) × (setup_stack true true zeros (line two_words) ≡ some (some r))
    × Started zeros two_words r
setup_stack-Started_example =
    setup_stack-Started zeros two_words (omega arith) (omega arith) (omega arith)

-- A directory with the names `a` and `b`, and a free entry between them.
abbrev two_names : List DirEntry
two_names =
    record { inode_sector = 10; name = 97 ∷ []; in_use = true }
    ∷ record { inode_sector = 11; name = 98 ∷ []; in_use = false }
    ∷ record { inode_sector = 12; name = 98 ∷ []; in_use = true }
    ∷ []
