-- ===== src/Tests/Cache.antt =====
-- pintos/src/filesys/bufcache.c: a sector that is read into the cache, and then changed.
use ospersonal.Common.{ℕ, List, [], ◌∷◌, arith, refl, some, none, Option}
use ospersonal.Bufcache.{
  Cache, bufcache_init, CacheStep, replaces, replaced, writes, access_round, replace_begin,
  replace_end, write_hit, find, get_eviction_candidate,
}
use ospersonal.Bufcache.Coherence.{IsCoherent}
use ospersonal.Bufcache.Effects.{StepEffect, after_step, step_effect}
use ospersonal.Bufcache.Start.{CacheReach, here, next, bufcache_runs, Proceeds}

-- A device whose sectors hold their number twice.
abbrev device : ℕ → List ℕ
device s = s ∷ s ∷ []

abbrev empty_cache : Cache
empty_cache = bufcache_init (λ i. 0 ∷ 0 ∷ []) device

abbrev cache_or {ℓ} : {A : Type ℓ} → A → Option A → A
cache_or d none = d
cache_or d (some c) = c

abbrev filling : Cache
filling = cache_or empty_cache (replace_begin empty_cache 0 7)

abbrev filled : Cache
filled = replace_end filling 0

abbrev changed : Cache
changed = cache_or filled (write_hit filled 0 1 (9 ∷ []))

filled-CacheReach : CacheReach empty_cache filled
unfolding bufcache_init replace_begin replace_end access_round find get_eviction_candidate
filled-CacheReach =
    next (next here (replaces 7 0 refl refl) (λ e. absurd (omega arith)))
      (replaced 0 (omega arith) refl refl) tt

filled-IsCoherent : IsCoherent filled
filled-IsCoherent = (bufcache_runs (λ i. 0 ∷ 0 ∷ []) device 7 filled-CacheReach).0

bufcache_runs_example : IsCoherent filled × Proceeds filled 7 (access_round filled 7)
bufcache_runs_example = bufcache_runs (λ i. 0 ∷ 0 ∷ []) device 7 filled-CacheReach

change : CacheStep filled changed
unfolding bufcache_init replace_begin replace_end access_round find get_eviction_candidate write_hit
change = writes 7 0 1 (9 ∷ []) refl refl

step_effect_example : StepEffect filled changed (after_step change)
unfolding change
step_effect_example = step_effect change filled-IsCoherent (λ e. absurd (omega arith))
