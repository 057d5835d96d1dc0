-- ===== src/Bufcache/Steps.antt =====
-- pintos/src/filesys/bufcache.c: an entry is given to another sector, or written.
use ospersonal.Common.{
  ℕ, ◌<◌, ◌≡◌, ◌≢◌, inl, inr, refl, sym, ◌∙◌, true, false, none, List, ◌==◌, if◌then◌else◌, arith,
  Bool-cases, Option-cases,
}
use ospersonal.Bufcache.{Cache, find, invalid_sector, num_entries, set_entry, touch, write_part}
use ospersonal.Bufcache.Find.{find-some, find-none}
use ospersonal.Bufcache.Coherence.{view, IsCoherent, view-held, view-free, view-same_sectors}
use ospersonal.Bufcache.History.{Keeps, touch-IsCoherent}

module _ (c : Cache) (v : IsCoherent c) (i sector : ℕ) (h : i < num_entries)
    (r : (c.entries i).ready ≡ true) (d : (c.entries i).dirty ≡ false)
    (missed : find c sector ≡ none) (n : sector ≢ invalid_sector) where
  -- A clean entry is given to a sector that no entry holds.
  unfoldable pub given : Cache
  given = set_entry c i (record (c.entries i) { sector = sector; ready = false })

  given-IsCoherent : IsCoherent given
  unfolding given
  given-IsCoherent = record {
    distinct = λ j k p q e m.
        ground (arith, v.distinct j k, find-none c sector j missed, find-none c sector k missed);
    fresh = λ j p a b m. ground (arith, v.fresh j);
    unused = λ j p e. ground (arith, v.unused j);
    listed = v.listed;
  }

  given_held :
      (s j : ℕ)
      → s ≢ invalid_sector
      → j < num_entries
      → (c.entries j).sector ≡ s
      → view given s ≡ view c s
  unfolding given
  given_held s j m p e = elim (Bool-cases (i == j)) [
    | inl same ↦
        view-free given s (λ k q f. ground (arith, v.distinct k i, find-none c sector i missed h))
        ∙ (ground (arith, v.fresh i) ∙ sym (view-held c v s j p e m))
    | inr other ↦
        view-held given given-IsCoherent s j p (ground arith) m
        ∙ (ground arith ∙ sym (view-held c v s j p e m))
  ]

  given_free : (s : ℕ) → s ≢ invalid_sector → find c s ≡ none → view given s ≡ view c s
  unfolding given
  given_free s m free = elim (Bool-cases (sector == s)) [
    | inl same ↦
        view-held given given-IsCoherent s i h (ground arith) m
        ∙ (ground arith ∙ sym (view-free c s (λ k q. find-none c s k free q)))
    | inr other ↦
        view-free given s (λ k q f. ground (arith, find-none c s k free))
        ∙ sym (view-free c s (λ k q. find-none c s k free q))
  ]

  pub given-Keeps : Keeps c given
  unfolding given
  given-Keeps = record {
    coherent = given-IsCoherent;
    same_view = λ s m. elim (Option-cases (find c s)) [
      | inl free ↦ given_free s m free
      | inr (j, held) ↦ given_held s j m (find-some c s j held).0 (find-some c s j held).1
    ];
  }

module _ (c : Cache) (v : IsCoherent c) (sector i offset : ℕ) (buf : List ℕ)
    (n : sector ≢ invalid_sector)
    (at_i : (i < num_entries)
      × ((c.entries i).sector ≡ sector)
      × ((c.entries i).ready ≡ true)) where
  unfoldable pub written : Cache
  written = set_entry (touch c i) i (record (c.entries i) {
    contents = write_part (c.entries i).contents offset buf;
    dirty = true;
  })

  pub written-IsCoherent : IsCoherent written
  unfolding written touch
  written-IsCoherent =
      let t = touch-IsCoherent c v i at_i.0 in
      record {
        distinct = λ j k p q e m. ground (arith, v.distinct j k);
        fresh = λ j p a b m. ground (arith, v.fresh j);
        unused = λ j p e. ground (arith, v.unused j, at_i);
        listed = t.listed;
      }

  pub view-written :
      (s : ℕ)
      → s ≢ invalid_sector
      → view written s ≡ (if s == sector then write_part (view c sector) offset buf else view c s)
  unfolding written touch
  view-written s m = elim (Bool-cases (s == sector)) [
    | inl same ↦ rw same (
        view-held written written-IsCoherent s i at_i.0 (ground arith) m
        ∙ ground (arith, view-held c v sector i at_i.0 at_i.1 n))
    | inr other ↦ rw other (
        view-same_sectors c written s v written-IsCoherent m (λ j. ground arith)
          (λ j p q. ground arith) (λ free. refl))
  ]
