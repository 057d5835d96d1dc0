-- ===== src/Tests/Bits.antt =====
-- pintos/src/lib/kernel/bitmap.c: a bitmap of 40 bits, in two elements.
use ospersonal.Common.{ℕ, ◌≡◌, false, Option, some, [], ◌∷◌, arith, refl}
use ospersonal.Bitmap.{Bitmap, bitmap_scan_and_flip}
use ospersonal.Bitmap.Bit.{IsValid}
use ospersonal.Bitmap.Scan.{Flipped, bitmap_scan_and_flip-Flipped}

-- Bits 0, 1 and 3 are set.
abbrev forty_bits : Bitmap
forty_bits = record { bit_cnt = 40; bits = 11 ∷ 0 ∷ [] }

forty_bits-IsValid : IsValid forty_bits
forty_bits-IsValid = record { storage = refl; small = omega arith }

bitmap_scan_and_flip-Flipped_example :
    (r : Option ℕ) × (b' : Bitmap) × (bitmap_scan_and_flip forty_bits 0 30 false ≡ some (r, b'))
    × Flipped forty_bits 0 30 false r b'
bitmap_scan_and_flip-Flipped_example =
    bitmap_scan_and_flip-Flipped forty_bits 0 30 false forty_bits-IsValid (omega arith)
