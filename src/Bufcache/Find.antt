-- ===== src/Bufcache/Find.antt =====
-- pintos/src/filesys/bufcache.c: the searches of the entry table and of the LRU list.
use mathlib.Core.List.{reverse, reverse-cons}
use ospersonal.Common.{
  ℕ, zero, suc, ◌+◌, ◌-◌, ◌<◌, ◌≤◌, ◌≡◌, ◌≢◌, refl, ap, true, none, some, List, [], ◌∷◌, ◌==◌,
  if◌then◌else◌, arith, count, count-append,
}
use ospersonal.Thread.{list_remove}
use ospersonal.Bufcache.{
  Cache, find, find_from, first_ready, get_eviction_candidate, hit, must_clean, must_replace,
  access_round, num_entries,
}

-- The entry that holds a sector, and that it is the first.
find_from-some :
    (n : ℕ) (c : Cache) (i sector j : ℕ)
    → find_from n c i sector ≡ some j
    → (j < i + n) × ((c.entries j).sector ≡ sector)
unfolding find_from
find_from-some zero c i sector j e = absurd (cc)
find_from-some (suc n) c i sector j e = ground (arith, find_from-some n c (i + 1) sector j)

find_from-none :
    (n : ℕ) (c : Cache) (i sector j : ℕ)
    → find_from n c i sector ≡ none
    → i ≤ j
    → j < i + n
    → (c.entries j).sector ≢ sector
unfolding find_from
find_from-none zero c i sector j e p q = absurd (omega arith)
find_from-none (suc n) c i sector j e p q = ground (arith, find_from-none n c (i + 1) sector j)

-- A sector is found in an entry that holds it, and missed only if no entry holds it.
pub find-some :
    (c : Cache) (sector i : ℕ)
    → find c sector ≡ some i
    → (i < num_entries) × ((c.entries i).sector ≡ sector)
unfolding find
find-some c sector i e = ground (arith, find_from-some 64 c 0 sector i e)

pub find-none :
    (c : Cache) (sector i : ℕ)
    → find c sector ≡ none
    → i < num_entries
    → (c.entries i).sector ≢ sector
unfolding find
find-none c sector i e h = find_from-none 64 c 0 sector i e (omega arith) (omega arith)

first_ready-some :
    (c : Cache) (is : List ℕ) (i : ℕ)
    → first_ready c is ≡ some i
    → (0 < count i is) × ((c.entries i).ready ≡ true)
unfolding first_ready
first_ready-some c [] i e = absurd (cc)
first_ready-some c (j ∷ is) i e = ground (arith, first_ready-some c is i)

count-reverse : (i : ℕ) (xs : List ℕ) → count i (reverse xs) ≡ count i xs
count-reverse i [] = refl
count-reverse i (x ∷ xs) = omega (
  arith,
  ap (count i) (reverse-cons x xs),
  count-append i (reverse xs) (x ∷ []),
  count-reverse i xs,
)

-- An eviction candidate stands on the list, and is ready.
pub candidate_ready :
    (c : Cache) (i : ℕ)
    → get_eviction_candidate c ≡ some i
    → (0 < count i c.lru_list) × ((c.entries i).ready ≡ true)
unfolding get_eviction_candidate
candidate_ready c i e =
    ground (arith, first_ready-some c (reverse c.lru_list) i e, count-reverse i c.lru_list)

-- A hit is a ready entry that holds the sector.
pub access_round-hit :
    (c : Cache) (sector i : ℕ)
    → access_round c sector ≡ hit i
    → (i < num_entries) × ((c.entries i).sector ≡ sector) × ((c.entries i).ready ≡ true)
unfolding access_round
access_round-hit c sector i e = ground (arith, find-some c sector i)

-- An entry is replaced only if no entry holds the sector, and it is a ready one on the list.
pub access_round-must_replace :
    (c : Cache) (sector i : ℕ)
    → access_round c sector ≡ must_replace i
    → (find c sector ≡ none) × (0 < count i c.lru_list) × ((c.entries i).ready ≡ true)
unfolding access_round
access_round-must_replace c sector i e = ground (arith, candidate_ready c i)

pub access_round-must_clean :
    (c : Cache) (sector i : ℕ)
    → access_round c sector ≡ must_clean i
    → (find c sector ≡ none) × (0 < count i c.lru_list) × ((c.entries i).ready ≡ true)
unfolding access_round
access_round-must_clean c sector i e = ground (arith, candidate_ready c i)

-- `list_remove` takes one thread or entry off a list on which it stands once.
pub count-list_remove :
    (i j : ℕ) (xs : List ℕ) → count i (list_remove j xs) ≡ count i xs - (if i == j then 1 else 0)
unfolding list_remove
count-list_remove i j [] = ground arith
count-list_remove i j (x ∷ xs) = ground (arith, count-list_remove i j xs)
