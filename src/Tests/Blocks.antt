-- ===== src/Tests/Blocks.antt =====
-- Witnesses on blocks of memory and strings in it.
use ospersonal.Common.{arith, if◌then◌else◌, inl, ltb, refl, some, ℕ, ◌+◌, ◌<◌, ◌==◌, ◌≡◌, ◌≤◌, ◌⊎◌}
use ospersonal.Strings.Memory.{Bytes, memmove, strlcpy}
use ospersonal.Strings.Memory.Moving.{moved, memmove-moved}
use ospersonal.Strings.Memory.Copying.{IsString, strlcpy-IsString}

-- Each byte is its address, but for a NUL at 105.
abbrev addresses : Bytes
addresses a = if a == 105 then 0 else a

-- Two blocks of five bytes that overlap.
memmove-moved_example :
    (m' : Bytes) × (memmove addresses 20 22 5 ≡ some (if ltb 20 22 then 20 + 5 else 20, m'))
    × ((j : ℕ) → m' j ≡ moved addresses 20 22 5 j)
memmove-moved_example = memmove-moved addresses 20 22 5 refl refl

five_bytes : IsString addresses 100 5
five_bytes = record { bytes = λ i h. ground arith; end = refl }

-- A string of five bytes into a buffer of three.
strlcpy-IsString_example :
    (m' : Bytes) × (strlcpy 10 addresses 20 100 3 ≡ some (5, m'))
    × IsString m' 20 2
    × ((i : ℕ) → i < 2 → m' (20 + i) ≡ addresses (100 + i))
    × ((j : ℕ) → (j < 20) ⊎ (20 + 3 ≤ j) → m' j ≡ addresses j)
strlcpy-IsString_example =
    strlcpy-IsString 10 addresses 20 100 3 5 refl refl five_bytes (omega arith) (omega arith)
      (inl (omega arith))
