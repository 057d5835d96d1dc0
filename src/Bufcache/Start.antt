-- ===== src/Bufcache/Start.antt =====
-- pintos/src/filesys/bufcache.c: bufcache_init, and the runs that start there.
use ospersonal.Common.{
  ℕ, zero, suc, ◌+◌, ◌≡◌, refl, ◌<◌, true, false, some, ◌&&◌, none, List, [], ◌∷◌, if◌then◌else◌,
  arith, count, ltb, leb,
}
use ospersonal.Bufcache.{
  set_entry, Round, hit, wait_until_ready, wait_until_one_ready, find, get_eviction_candidate,
  Cache, init_lru, bufcache_init, num_entries, must_clean, must_replace, access_round, clean_begin,
  replace_begin, CacheStep,
}
use ospersonal.Bufcache.Find.{access_round-hit}
use ospersonal.Bufcache.Coherence.{IsCoherent}
use ospersonal.Bufcache.Effects.{step_effect, IsReal}

count-init_lru :
    (i n j : ℕ) (lru : List ℕ)
    → count i (init_lru n j lru) ≡ count i lru + (if leb j i && ltb i (j + n) then 1 else 0)
unfolding init_lru
count-init_lru i zero j lru = ground arith
count-init_lru i (suc n) j lru = ground (arith, count-init_lru i n (j + 1) (j ∷ lru))

every_entry : (i : ℕ) → count i (init_lru num_entries 0 []) ≡ (if ltb i num_entries then 1 else 0)
every_entry i = ground (arith, count-init_lru i 64 0 [])

-- The cache starts empty and coherent.
pub bufcache_init-IsCoherent :
    (cached_data device : ℕ → List ℕ) → IsCoherent (bufcache_init cached_data device)
unfolding bufcache_init
bufcache_init-IsCoherent cached_data device = record {
  distinct = λ i j p q e n. absurd (n refl);
  fresh = λ i p r d n. absurd (n refl);
  unused = λ i p e. (refl, refl);
  listed = every_entry;
}

pub data CacheReach (c : Cache) : Cache → Type 0 where
  here : CacheReach c c
  next : {d e : Cache} → CacheReach c d → (st : CacheStep d e) → IsReal st → CacheReach c e

CacheReach-IsCoherent : {c d : Cache} → IsCoherent c → CacheReach c d → IsCoherent d
CacheReach-IsCoherent v here = v
CacheReach-IsCoherent v (next r st n) = (step_effect st (CacheReach-IsCoherent v r) n).coherent

-- What a round of the loop of `bufcache_access` does next, with the ASSERTs that it meets passed.
pub data Proceeds (c : Cache) (sector : ℕ) : Round → Type 0 where
  finds :
      (i : ℕ)
      → i < num_entries
      → (c.entries i).sector ≡ sector
      → (c.entries i).ready ≡ true
      → Proceeds c sector (hit i)
  waits : (i : ℕ) → (c.entries i).ready ≡ false → Proceeds c sector (wait_until_ready i)
  waits_one :
      find c sector ≡ none
      → get_eviction_candidate c ≡ none
      → Proceeds c sector wait_until_one_ready
  cleans : (i : ℕ) (c' : Cache) → clean_begin c i ≡ some c' → Proceeds c sector (must_clean i)
  replaces :
      (i : ℕ) (c' : Cache)
      → find c sector ≡ none
      → replace_begin c i sector ≡ some c'
      → Proceeds c sector (must_replace i)

round-Proceeds :
    (c : Cache) (sector : ℕ) (r : Round) → access_round c sector ≡ r → Proceeds c sector r
unfolding access_round clean_begin replace_begin
round-Proceeds c sector (hit i) a = let (h, q, r) = access_round-hit c sector i a in finds i h q r
round-Proceeds c sector (wait_until_ready i) a = waits i (ground arith)
round-Proceeds c sector wait_until_one_ready a = waits_one (ground arith) (ground arith)
round-Proceeds c sector (must_clean i) a =
    cleans i (set_entry c i (record (c.entries i) { ready = false })) (ground arith)
round-Proceeds c sector (must_replace i) a =
    replaces i (set_entry c i (record (c.entries i) { sector = sector; ready = false }))
      (ground arith) (ground arith)

-- After any mix of steps from `bufcache_init` the cache is coherent, and the next round of
-- `bufcache_access` finds the sector, waits for an entry, or cleans or replaces one with no failed
-- ASSERT.
pub bufcache_runs :
    (cached_data device : ℕ → List ℕ) {c : Cache} (sector : ℕ)
    → CacheReach (bufcache_init cached_data device) c
    → IsCoherent c × Proceeds c sector (access_round c sector)
bufcache_runs cached_data device {c} sector r = (
  CacheReach-IsCoherent (bufcache_init-IsCoherent cached_data device) r,
  round-Proceeds c sector (access_round c sector) refl,
)
