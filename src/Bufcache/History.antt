-- ===== src/Bufcache/History.antt =====
-- pintos/src/filesys/bufcache.c: the steps of a hit, a write back and a fill.
use ospersonal.Common.{ℕ, ◌<◌, ◌≡◌, ◌≢◌, refl, true, false, arith}
use ospersonal.Bufcache.{
  Cache, invalid_sector, num_entries, set_entry, clean_end, replace_end, touch,
}
use ospersonal.Bufcache.Find.{count-list_remove}
use ospersonal.Bufcache.Coherence.{view, IsCoherent, view-same_sectors}

-- A step to `c'` keeps the cache coherent and every sector as it is.
pub record Keeps (c c' : Cache) : Type 0 where
  pub coherent : IsCoherent c'
  pub same_view : (sector : ℕ) → sector ≢ invalid_sector → view c' sector ≡ view c sector

module _ (c : Cache) (v : IsCoherent c) (i : ℕ) (h : i < num_entries) where
  pub touch-IsCoherent : IsCoherent (touch c i)
  unfolding touch
  touch-IsCoherent = record {
    distinct = v.distinct;
    fresh = v.fresh;
    unused = v.unused;
    listed = λ j. ground (arith, count-list_remove j i c.lru_list, v.listed j);
  }

  pub touch-Keeps : Keeps c (touch c i)
  unfolding touch
  touch-Keeps = record {
    coherent = touch-IsCoherent;
    same_view = λ s n.
        view-same_sectors c (touch c i) s v touch-IsCoherent n (λ j. refl) (λ j p q. refl)
          (λ p. refl);
  }

  -- Marking a ready dirty entry not ready.
  unfoldable pub begun : Cache
  begun = set_entry c i (record (c.entries i) { ready = false })

  begun-IsCoherent : (c.entries i).dirty ≡ true → IsCoherent begun
  unfolding begun
  begun-IsCoherent d = record {
    distinct = λ j k p q e n. ground (arith, v.distinct j k);
    fresh = λ j p r q n. ground (arith, v.fresh j);
    unused = λ j p e. ground (arith, v.unused j);
    listed = v.listed;
  }

  pub begun-Keeps : (c.entries i).dirty ≡ true → Keeps c begun
  unfolding begun
  begun-Keeps d = record {
    coherent = begun-IsCoherent d;
    same_view = λ s n.
        view-same_sectors c begun s v (begun-IsCoherent d) n (λ j. ground arith)
          (λ j p q. ground arith) (λ p. refl);
  }

  ended-IsCoherent :
      (c.entries i).ready ≡ false → (c.entries i).dirty ≡ true → IsCoherent (clean_end c i)
  unfolding clean_end
  ended-IsCoherent r d = record {
    distinct = λ j k p q e n. ground (arith, v.distinct j k);
    fresh = λ j p r q n. ground (arith, v.fresh j, v.distinct j i);
    unused = λ j p e. ground (arith, v.unused j);
    listed = v.listed;
  }

  pub ended-Keeps :
      (c.entries i).ready ≡ false → (c.entries i).dirty ≡ true → Keeps c (clean_end c i)
  unfolding clean_end
  ended-Keeps r d = record {
    coherent = ended-IsCoherent r d;
    same_view = λ s n.
        view-same_sectors c (clean_end c i) s v (ended-IsCoherent r d) n (λ j. ground arith)
          (λ j p q. ground (arith, v.distinct j i)) (λ free. ground (arith, free i));
  }

  filled-IsCoherent :
      (c.entries i).ready ≡ false → (c.entries i).dirty ≡ false → IsCoherent (replace_end c i)
  unfolding replace_end
  filled-IsCoherent r d = record {
    distinct = λ j k p q e n. ground (arith, v.distinct j k);
    fresh = λ j p r q n. ground (arith, v.fresh j);
    unused = λ j p e. ground (arith, v.unused j);
    listed = v.listed;
  }

  pub filled-Keeps :
      (c.entries i).ready ≡ false → (c.entries i).dirty ≡ false → Keeps c (replace_end c i)
  unfolding replace_end
  filled-Keeps r d = record {
    coherent = filled-IsCoherent r d;
    same_view = λ s n.
        view-same_sectors c (replace_end c i) s v (filled-IsCoherent r d) n (λ j. ground arith)
          (λ j p q. ground arith) (λ free. refl);
  }
