-- ===== src/Inode/Growth/Mapped.antt =====
-- pintos/src/filesys/inode.c: the map of the sectors in use that allocate_file works on is the free map.
use ospersonal.Common.{
  Bool, Option, ap, arith, bind_some, false, if◌then◌else◌, ltb, none, some, suc, true, ℕ, ◌&&◌,
  ◌+◌, ◌-◌, ◌<◌, ◌==◌, ◌>>=◌, ◌^◌, ◌∙◌, ◌≡◌,
}
use ospersonal.Bitmap.{bit}
use ospersonal.Bitmap.Bit.{IsValid}
use ospersonal.Bitmap.Scan.{first}
use ospersonal.FreeMap.{FreeMap, free_map_allocate, free_map_release}
use ospersonal.FreeMap.Sectors.{
  Allocation, took, full, unwritten, free_map_allocate-Allocation, free_map_allocate-is_open,
  free_map_release-Released, Kept, SameUse,
}
use ospersonal.Inode.Growth.{SectorMap, Taken}

-- The free map, and whether each write of it to its file succeeds, the next one first.
pub record Storage : Type 0 where
  pub state : FreeMap
  pub written : ℕ → Bool

abbrev pub later : (ℕ → Bool) → ℕ → Bool
later written n = written (suc n)

unfoldable pub allocate_one : Storage → Option (Option ℕ × Storage)
allocate_one m = free_map_allocate m.state 1 (m.written 0) >>= λ r.
    some (r.0, record { state = r.1; written = later m.written })

unfoldable pub release_one : Storage → ℕ → Option Storage
release_one m i = free_map_release m.state i 1 (m.written 0) >>= λ f.
    some (record { state = f; written = later m.written })

abbrev pub sector_in_use : FreeMap → ℕ → Bool
sector_in_use f i = ltb i f.free_map.bit_cnt && bit f.free_map i

Kept-in_use : (f g : FreeMap) → Kept f g → (j : ℕ) → sector_in_use g j ≡ sector_in_use f j
unfolding SameUse
Kept-in_use f g k j =
    ap (λ (n : ℕ). ltb j n && bit g.free_map j) k.same_size
    ∙ ap (λ (b : Bool). ltb j f.free_map.bit_cnt && b) (k.same_use j)

pub sector_in_use-lt :
    (f : FreeMap) (i : ℕ) → IsValid f.free_map → sector_in_use f i ≡ true → i < 2 ^ 32 - 1
sector_in_use-lt f i v u = ground (arith, v.small)

Allocation-Taken :
    (f g : FreeMap) (written : Bool) (r : Option ℕ)
    → Allocation f 1 written r g
    → IsValid g.free_map × Taken (sector_in_use f) r (sector_in_use g)
Allocation-Taken f g written none (full g' s k) = (k.valid, Kept-in_use f g k)
Allocation-Taken f g written none (unwritten g' fails k) = (k.valid, Kept-in_use f g k)
Allocation-Taken f g written (some i) (took i' g' works (first i'' le fits run before) filled) =
    let free : bit f.free_map (i + 0) ≡ false = run 0 (omega arith) in
    (filled.valid, (ground arith, λ j. ground (arith, filled.bits_of j, filled.same_size)))

-- The map is valid and its file is open.
pub record IsUsable (m : Storage) : Type 0 where
  pub valid : IsValid m.state.free_map
  pub opened : m.state.is_open ≡ true

pub allocate_one-Taken :
    (m : Storage)
    → IsUsable m
    → (r : Option ℕ) × (m' : Storage) × (allocate_one m ≡ some (r, m'))
      × IsUsable m'
      × Taken (sector_in_use m.state) r (sector_in_use m'.state)
unfolding allocate_one
allocate_one-Taken m v =
    let (r, g, e, a) = free_map_allocate-Allocation m.state 1 (m.written 0) v.valid in
    let (valid, t) = Allocation-Taken m.state g (m.written 0) r a in
    (
      r,
      record { state = g; written = later m.written },
      bind_some _ e,
      record {
        valid = valid;
        opened = free_map_allocate-is_open m.state g 1 (m.written 0) r e ∙ v.opened;
      },
      t,
    )

pub release_one-in_use :
    (m : Storage) (i : ℕ)
    → IsUsable m
    → sector_in_use m.state i ≡ true
    → (m' : Storage) × (release_one m i ≡ some m')
      × IsUsable m'
      × ((j : ℕ) → sector_in_use m'.state j ≡ (if j == i then false else sector_in_use m.state j))
unfolding release_one
release_one-in_use m i v u =
    let (g, e, filled, kept) =
      free_map_release-Released m.state i 1 (m.written 0) v.valid (ground (arith, u))
        (λ k h. ground (arith, u)) v.opened in
    (
      record { state = g; written = later m.written },
      bind_some _ e,
      record { valid = filled.valid; opened = kept ∙ v.opened },
      λ j. ground (arith, filled.bits_of j, filled.same_size),
    )

unfoldable pub free_map_sectors : SectorMap
free_map_sectors = record {
  Map = Storage;
  IsFine = IsUsable;
  in_use = λ m. sector_in_use m.state;
  allocate = allocate_one;
  release = release_one;
  allocate-Taken = allocate_one-Taken;
  release-in_use = release_one-in_use;
  in_use-lt = λ m i v u. sector_in_use-lt m.state i v.valid u;
}
