-- ===== src/Bufcache/Effects.antt =====
-- pintos/src/filesys/bufcache.c: the effect of each step on what the sectors hold.
use ospersonal.Common.{ℕ, ◌<◌, ◌≡◌, ◌≢◌, true, false, some, List, ◌==◌, if◌then◌else◌, arith, count}
use ospersonal.Bufcache.{
  Cache, invalid_sector, num_entries, set_entry, clean_begin, replace_begin, touch, read_hit,
  write_hit, write_part, read_part, must_replace, access_round, CacheStep, reads, writes, cleans,
  cleaned, replaces, replaced, flushes,
}
use ospersonal.Bufcache.Find.{access_round-hit, access_round-must_replace, access_round-must_clean}
use ospersonal.Bufcache.Coherence.{view, IsCoherent}
use ospersonal.Bufcache.Steps.{given, given-Keeps, written, written-IsCoherent, view-written}
use ospersonal.Bufcache.History.{Keeps, touch-Keeps, begun, begun-Keeps, ended-Keeps, filled-Keeps}

-- What a sector holds after a step: a write changes a part of one sector.
pub after_step : {c c' : Cache} → CacheStep c c' → ℕ → List ℕ
after_step {c} (writes sector i offset buf a e) s =
    if s == sector then write_part (view c sector) offset buf else view c s
after_step {c} _ s = view c s

-- The sector that the step asks for is one of the device, not the mark of an unused entry.
abbrev pub IsReal : {c c' : Cache} → CacheStep c c' → Type 0
IsReal (reads sector i offset len a e) = sector ≢ invalid_sector
IsReal (writes sector i offset buf a e) = sector ≢ invalid_sector
IsReal (cleans sector i a e) = sector ≢ invalid_sector
IsReal (replaces sector i a e) = sector ≢ invalid_sector
IsReal _ = Unit {0}

-- A step keeps the cache coherent, and leaves each sector as `after_step` says.
pub record StepEffect (c c' : Cache) (after : ℕ → List ℕ) : Type 0 where
  pub coherent : IsCoherent c'
  pub same_view : (sector : ℕ) → sector ≢ invalid_sector → view c' sector ≡ after sector

listed_in : (c : Cache) (v : IsCoherent c) (i : ℕ) → 0 < count i c.lru_list → i < num_entries
listed_in c v i p = ground (arith, v.listed i)

read_hit-touch :
    (c : Cache) (i offset len : ℕ) {out : List ℕ} {c' : Cache}
    → read_hit c i offset len ≡ some (out, c')
    → (out ≡ read_part (c.entries i).contents offset len) × (c' ≡ touch c i)
unfolding read_hit
read_hit-touch c i offset len e = ground arith

write_hit-written :
    (c : Cache) (v : IsCoherent c) (sector i offset : ℕ) (buf : List ℕ)
    (n : sector ≢ invalid_sector)
    (a : (i < num_entries) × ((c.entries i).sector ≡ sector) × ((c.entries i).ready ≡ true))
    {c' : Cache}
    → write_hit c i offset buf ≡ some c'
    → c' ≡ written c v sector i offset buf n a
unfolding write_hit written
write_hit-written c v sector i offset buf n a e = ground arith

clean_begin-begun :
    (c : Cache) (v : IsCoherent c) (i : ℕ) (h : i < num_entries) {c' : Cache}
    → clean_begin c i ≡ some c'
    → (c' ≡ begun c v i h) × ((c.entries i).dirty ≡ true)
unfolding clean_begin begun
clean_begin-begun c v i h e = ground arith

clean_Keeps :
    (c : Cache) (v : IsCoherent c) (i : ℕ) (h : i < num_entries) {c' : Cache}
    → clean_begin c i ≡ some c'
    → Keeps c c'
clean_Keeps c v i h e =
    let (same, d) = clean_begin-begun c v i h e in rw same (begun-Keeps c v i h d)

replace_Keeps :
    (c : Cache) (v : IsCoherent c) (sector i : ℕ) {c' : Cache}
    → sector ≢ invalid_sector
    → access_round c sector ≡ must_replace i
    → replace_begin c i sector ≡ some c'
    → Keeps c c'
unfolding given replace_begin
replace_Keeps c v sector i n a e =
    let (missed, p, r) = access_round-must_replace c sector i a in
    let (d, same) = result e in rw same (given-Keeps c v i sector (listed_in c v i p) r d missed n)
  where
    result :
        {c' : Cache}
        → replace_begin c i sector ≡ some c'
        → ((c.entries i).dirty ≡ false)
          × (c' ≡ set_entry c i (record (c.entries i) { sector = sector; ready = false }))
    result q = ground arith

-- Under every mix of threads the cache is coherent: each step of `bufcache_read`, `bufcache_write`,
-- `clean`, `replace` and `bufcache_flush` that asks for a real sector keeps it so, changes the sector
-- that it writes by the bytes written and at their offset, and no other sector.
pub step_effect :
    {c c' : Cache} (st : CacheStep c c')
    → IsCoherent c
    → IsReal st
    → StepEffect c c' (after_step st)
unfolding after_step
step_effect (reads sector i offset len a e) v n =
    let (h, _, _) = access_round-hit _ sector i a in
    rw ((read_hit-touch _ i offset len e).1)
      (let k = touch-Keeps _ v i h in record { coherent = k.coherent; same_view = k.same_view })
step_effect (writes sector i offset buf a e) v n =
    let p = access_round-hit _ sector i a in
    rw (write_hit-written _ v sector i offset buf n p e) (record {
      coherent = written-IsCoherent _ v sector i offset buf n p;
      same_view = view-written _ v sector i offset buf n p;
    })
step_effect (cleans sector i a e) v n =
    let (_, p, _) = access_round-must_clean _ sector i a in
    let k = clean_Keeps _ v i (listed_in _ v i p) e in
    record { coherent = k.coherent; same_view = k.same_view }
step_effect (cleaned i h r d) v n =
    let k = ended-Keeps _ v i h r d in record { coherent = k.coherent; same_view = k.same_view }
step_effect (replaces sector i a e) v n =
    let k = replace_Keeps _ v sector i n a e in
    record { coherent = k.coherent; same_view = k.same_view }
step_effect (replaced i h r d) v n =
    let k = filled-Keeps _ v i h r d in record { coherent = k.coherent; same_view = k.same_view }
step_effect (flushes i h d r e) v n =
    let k = clean_Keeps _ v i h e in record { coherent = k.coherent; same_view = k.same_view }
