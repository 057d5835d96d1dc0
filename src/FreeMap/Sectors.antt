-- ===== src/FreeMap/Sectors.antt =====
-- pintos/src/filesys/free-map.c: which sectors a call takes and gives back.
use ospersonal.Common.{
  >>=-eq-some, Bool, Bool-cases, Option, ap, arith, assert-true, bind_some, false, if◌then◌else◌,
  inl, inr, none, not, refl, some, some_injective, subst, sym, true, ℕ, ◌&&◌, ◌+◌, ◌-◌, ◌>>=◌, ◌∙◌,
  ◌≡◌, ◌≤◌,
}
use ospersonal.Bitmap.{Bitmap, bit, bitmap_set_multiple, bitmap_scan_and_flip}
use ospersonal.Bitmap.Bit.{IsValid}
use ospersonal.Bitmap.Range.{IsRun, Filled, bitmap_set_multiple-Filled, bitmap_all-IsRun}
use ospersonal.Bitmap.Scan.{Scanned, first, Flipped, taken, untouched, bitmap_scan_and_flip-Flipped}
use ospersonal.FreeMap.{FreeMap, allocated, free_map_allocate, free_map_release}

-- The same sectors are in use.
unfoldable pub SameUse : FreeMap → FreeMap → Type 0
SameUse f g = (j : ℕ) → bit g.free_map j ≡ bit f.free_map j

-- The same sectors are in use in a map of the same size.
pub record Kept (f g : FreeMap) : Type 0 where
  pub valid : IsValid g.free_map
  pub same_size : g.free_map.bit_cnt ≡ f.free_map.bit_cnt
  pub same_use : SameUse f g

-- What `free_map_allocate` comes to: it takes the first free group, or answers false and leaves the
-- sectors in use as they were, because no group is free or because the map could not be written.
pub data Allocation (f : FreeMap) (cnt : ℕ) (written : Bool) : Option ℕ → FreeMap → Type 0 where
  took :
      (i : ℕ) (g : FreeMap)
      → (f.is_open && not written) ≡ false
      → Scanned f.free_map 0 cnt false (some i)
      → Filled f.free_map i cnt true g.free_map
      → Allocation f cnt written (some i) g
  full :
      (g : FreeMap)
      → Scanned f.free_map 0 cnt false none
      → Kept f g
      → Allocation f cnt written none g
  unwritten :
      (g : FreeMap) → (f.is_open && not written) ≡ true → Kept f g → Allocation f cnt written none g

-- A group that was free, marked and then cleared, leaves every sector as it was.
cleared :
    (b b' b'' : Bitmap) (i cnt : ℕ)
    → IsRun b i cnt false
    → Filled b i cnt true b'
    → Filled b' i cnt false b''
    → (j : ℕ) → bit b'' j ≡ bit b j
cleared b b' b'' i cnt run f g j = ground (arith, f.bits_of j, g.bits_of j, run (j - i))

fits_after :
    (b b' : Bitmap) (i cnt : ℕ)
    → i + cnt ≤ b.bit_cnt
    → Filled b i cnt true b'
    → i + cnt ≤ b'.bit_cnt
fits_after b b' i cnt h f = omega (arith, f.same_size)

allocated-Allocation :
    (f : FreeMap) (cnt : ℕ) (written : Bool) {r : Option ℕ} {b : Bitmap}
    → IsValid f.free_map
    → Flipped f.free_map 0 cnt false r b
    → (answer : Option ℕ) × (g : FreeMap) × (allocated f cnt written r b ≡ some (answer, g))
      × Allocation f cnt written answer g
unfolding allocated SameUse
allocated-Allocation f cnt written v (untouched s) =
    (none, f, refl, full f s (record { valid = v; same_size = refl; same_use = λ j. refl }))
allocated-Allocation f cnt written v (taken i b (first k le fits run before) filled) =
    elim (Bool-cases (f.is_open && not written)) [
      | inl fails ↦
          (let (b', e, back) =
              bitmap_set_multiple-Filled b i cnt false filled.valid
                (fits_after _ b i cnt fits filled) in
            (
              none,
              record f { free_map = b' },
              rw fails (bind_some _ e),
              unwritten _ fails (record {
                valid = back.valid;
                same_size = back.same_size ∙ filled.same_size;
                same_use = cleared f.free_map b b' i cnt run filled back;
              }),
            ))
      | inr works ↦ (
        some i,
        record f { free_map = b; on_disk = if f.is_open then b else f.on_disk },
        rw works refl,
        took i _ works (first i le fits run before) filled,
      )
    ]

-- On a valid map a call takes the first group of free sectors and no other, and reports it; where it
-- reports none, no such group is free or the map's file could not be written, and the sectors in use
-- are those from before the call.
pub free_map_allocate-Allocation :
    (f : FreeMap) (cnt : ℕ) (written : Bool)
    → IsValid f.free_map
    → (answer : Option ℕ) × (g : FreeMap) × (free_map_allocate f cnt written ≡ some (answer, g))
      × Allocation f cnt written answer g
unfolding free_map_allocate
free_map_allocate-Allocation f cnt written v =
    let (r, b, e, flip) = bitmap_scan_and_flip-Flipped f.free_map 0 cnt false v (omega arith) in
    let (answer, g, e', a) = allocated-Allocation f cnt written v flip in
    (answer, g, bind_some _ e ∙ e', a)

all_used : (b b' : Bitmap) (i cnt : ℕ) → Filled b i cnt true b' → IsRun b' i cnt true
all_used b b' i cnt f k q = ground (arith, f.bits_of (i + k))

-- On sectors that are all in use a release does not panic, and clears their bits.
pub free_map_release-Released :
    (g : FreeMap) (i cnt : ℕ) (written : Bool)
    → IsValid g.free_map
    → i + cnt ≤ g.free_map.bit_cnt
    → IsRun g.free_map i cnt true
    → g.is_open ≡ true
    → (h : FreeMap) × (free_map_release g i cnt written ≡ some h)
      × Filled g.free_map i cnt false h.free_map
      × (h.is_open ≡ g.is_open)
unfolding free_map_release
free_map_release-Released g i cnt written v fits run opened =
    let (b, e, back) = bitmap_set_multiple-Filled g.free_map i cnt false v fits in
    let used = bitmap_all-IsRun g.free_map i cnt v fits run in
    (
      record g { free_map = b; on_disk = if written then b else g.on_disk },
      bind_some _ used ∙ bind_some _ e ∙ assert-true _ opened,
      back,
      refl,
    )

Allocation-release :
    (f g : FreeMap) (cnt i : ℕ) (written written' : Bool) {answer : Option ℕ}
    → Allocation f cnt written answer g
    → answer ≡ some i
    → g.is_open ≡ true
    → (h : FreeMap) × (free_map_release g i cnt written' ≡ some h) × SameUse f h
unfolding SameUse
Allocation-release f g cnt i written written' (full g' s u) e opened = absurd (cc)
Allocation-release f g cnt i written written' (unwritten g' s u) e opened = absurd (cc)
Allocation-release f g cnt i written written' (took i' g' w (first k le fits run before) filled) e
      opened =
    let fits' = fits_after f.free_map g.free_map i' cnt fits filled in
    let (h, e', back, kept) =
      free_map_release-Released g i' cnt written' filled.valid fits' (all_used _ _ i' cnt filled)
        opened in
    let same : i' ≡ i = some_injective e in
    (h, rw (← same) e', cleared f.free_map g.free_map h.free_map i' cnt run filled back)

some_is_open :
    (f h g : FreeMap) (r answer : Option ℕ)
    → ◌≡◌ {A = Option (Option ℕ × FreeMap)} (some (r, h)) (some (answer, g))
    → h.is_open ≡ f.is_open
    → g.is_open ≡ f.is_open
some_is_open f h g r answer e same =
    ap (λ (t : Option ℕ × FreeMap). t.1.is_open) (sym (some_injective e)) ∙ same

allocated-is_open :
    (f g : FreeMap) (cnt : ℕ) (written : Bool) (r answer : Option ℕ) (b : Bitmap)
    → allocated f cnt written r b ≡ some (answer, g)
    → g.is_open ≡ f.is_open
unfolding allocated
allocated-is_open f g cnt written none answer b e = some_is_open f _ g none answer e refl
allocated-is_open f g cnt written (some i) answer b e =
    elim (Bool-cases (f.is_open && not written)) [
      | inl fails ↦
          let back : allocated f cnt written (some i) b ≡ (
              bitmap_set_multiple b i cnt false >>= λ b'. some (none, record f { free_map = b' })) =
            rw fails refl in
          let (b', e1, e2) = >>=-eq-some (bitmap_set_multiple b i cnt false) _ (sym back ∙ e) in
          some_is_open f (record f { free_map = b' }) g none answer e2 refl
      | inr works ↦
          let h : FreeMap = record f {
            free_map = b;
            on_disk = if f.is_open then b else f.on_disk;
          } in
          let kept : allocated f cnt written (some i) b ≡ some (some i, h) = rw works refl in
          some_is_open f h g (some i) answer (sym kept ∙ e) refl
    ]

-- Whether the map's file is open does not change.
pub free_map_allocate-is_open :
    (f g : FreeMap) (cnt : ℕ) (written : Bool) (answer : Option ℕ)
    → free_map_allocate f cnt written ≡ some (answer, g)
    → g.is_open ≡ f.is_open
unfolding free_map_allocate
free_map_allocate-is_open f g cnt written answer e =
    let (r, e1, e2) = >>=-eq-some (bitmap_scan_and_flip f.free_map 0 cnt false) _ e in
    allocated-is_open f g cnt written r.0 answer r.1 e2

-- While the map's file is open, sectors that a call took can be released without a panic, whatever
-- happens to the write of the map, and then the sectors in use are those from before the call.
pub free_map_round_trip :
    (f g : FreeMap) (cnt i : ℕ) (written written' : Bool)
    → IsValid f.free_map
    → f.is_open ≡ true
    → free_map_allocate f cnt written ≡ some (some i, g)
    → (h : FreeMap) × (free_map_release g i cnt written' ≡ some h) × SameUse f h
free_map_round_trip f g cnt i written written' v opened e =
    let (answer, g', e', a) = free_map_allocate-Allocation f cnt written v in
    let same = some_injective (sym e' ∙ e) in
    Allocation-release f g cnt i written written'
      (subst (λ (t : Option ℕ × FreeMap). Allocation f cnt written t.0 t.1) same a) refl
      (free_map_allocate-is_open f g cnt written (some i) e ∙ opened)
