-- ===== src/Bufcache/Coherence.antt =====
-- pintos/src/filesys/bufcache.c: what a sector holds, over the cache and the device.
use ospersonal.Common.{
  ℕ, ◌<◌, ◌≡◌, ◌≢◌, inl, inr, refl, sym, ◌∙◌, true, false, ◌||◌, Option, none, some, List,
  if◌then◌else◌, Option-cases, count, ltb,
}
use ospersonal.Bufcache.{Cache, find, invalid_sector, num_entries}
use ospersonal.Bufcache.Find.{find-some, find-none}

-- What a reader of the sector will see: the contents of its entry, unless that is being filled.
abbrev pub entry_view : Cache → ℕ → List ℕ
entry_view c i =
    if (c.entries i).ready || (c.entries i).dirty
    then (c.entries i).contents
    else c.device (c.entries i).sector

abbrev view_of : Cache → ℕ → Option ℕ → List ℕ
view_of c sector none = c.device sector
view_of c sector (some i) = entry_view c i

pub view : Cache → ℕ → List ℕ
view c sector = view_of c sector (find c sector)

-- No two entries hold one sector, a clean entry agrees with the device, an unused entry is clean, and
-- the LRU list has every entry once.
pub record IsCoherent (c : Cache) : Type 0 where
  pub distinct :
      (i j : ℕ)
      → i < num_entries
      → j < num_entries
      → (c.entries i).sector ≡ (c.entries j).sector
      → (c.entries i).sector ≢ invalid_sector
      → i ≡ j
  pub fresh :
      (i : ℕ)
      → i < num_entries
      → (c.entries i).ready ≡ true
      → (c.entries i).dirty ≡ false
      → (c.entries i).sector ≢ invalid_sector
      → (c.entries i).contents ≡ c.device (c.entries i).sector
  pub unused :
      (i : ℕ)
      → i < num_entries
      → (c.entries i).sector ≡ invalid_sector
      → ((c.entries i).ready ≡ true) × ((c.entries i).dirty ≡ false)
  pub listed : (i : ℕ) → count i c.lru_list ≡ (if ltb i num_entries then 1 else 0)

module _ (c : Cache) (v : IsCoherent c) (sector i : ℕ) where
  pub view-held :
      i < num_entries
      → (c.entries i).sector ≡ sector
      → sector ≢ invalid_sector
      → view c sector ≡ entry_view c i
  unfolding view
  view-held h e n = elim (Option-cases (find c sector)) [
    | inl missed ↦ absurd (find-none c sector i missed h e)
    | inr (j, hit) ↦
        (let (hj, ej) = find-some c sector j hit in
          let same : j ≡ i = v.distinct j i hj h (ej ∙ sym e) (λ q. n (sym ej ∙ q)) in
          rw hit (rw same refl))
  ]

pub view-free :
    (c : Cache) (sector : ℕ)
    → ((i : ℕ) → i < num_entries → (c.entries i).sector ≢ sector)
    → view c sector ≡ c.device sector
unfolding view
view-free c sector h = elim (Option-cases (find c sector)) [
  | inl missed ↦ rw missed refl
  | inr (j, hit) ↦ absurd (h j (find-some c sector j hit).0 (find-some c sector j hit).1)
]

-- A change that leaves every entry its sector shows the same contents where each entry does.
pub view-same_sectors :
    (c c' : Cache) (sector : ℕ)
    → IsCoherent c
    → IsCoherent c'
    → sector ≢ invalid_sector
    → ((j : ℕ) → (c'.entries j).sector ≡ (c.entries j).sector)
    → ((j : ℕ) → j < num_entries → (c.entries j).sector ≡ sector → entry_view c' j ≡ entry_view c j)
    → (((j : ℕ) → j < num_entries → (c.entries j).sector ≢ sector)
        → c'.device sector ≡ c.device sector)
    → view c' sector ≡ view c sector
view-same_sectors c c' sector v v' n same shown rest = elim (Option-cases (find c sector)) [
  | inl missed ↦
      (let free = λ (j : ℕ) (h : j < num_entries). find-none c sector j missed h in
        view-free c' sector (λ j h e. free j h (sym (same j) ∙ e))
        ∙ (rest free ∙ sym (view-free c sector free)))
  | inr (j, hit) ↦
      (let (h, e) = find-some c sector j hit in
        view-held c' v' sector j h (same j ∙ e) n
        ∙ (shown j h e ∙ sym (view-held c v sector j h e n)))
]
