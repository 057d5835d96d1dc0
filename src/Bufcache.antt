-- ===== src/Bufcache.antt =====
-- pintos/src/filesys/bufcache.c: the write-back sector cache. A thread gives up `cache_lock` while it
-- reads or writes the device, so each stretch of code under the lock is one step, and the steps of
-- several threads mix: an entry that is not ready is being written back if it is dirty, and being
-- filled if it is not. The device is a function from sectors to contents.
pub mod Find
pub mod Coherence
pub mod History
pub mod Steps
pub mod Effects
pub mod Start
use ospersonal.Common.{
  ◌<◌, ℕ, zero, suc, ◌+◌, ◌-◌, ◌^◌, ◌≡◌, Bool, true, false, not, ◌&&◌, Option, none, some, List, [],
  ◌∷◌, ◌++◌, leb, ltb, ◌==◌, if◌then◌else◌, ◌>>=◌, ◌>>◌, assert, length, take, drop,
}
use mathlib.Core.List.{reverse}
use ospersonal.Thread.{update, list_remove}

abbrev pub num_entries : ℕ
num_entries = 64

abbrev pub block_sector_size : ℕ
block_sector_size = 512

-- `entries[i].sector = -1`.
abbrev pub invalid_sector : ℕ
invalid_sector = 2 ^ 32 - 1

-- `struct metadata` with the `struct data` that its `entry` points to.
pub record Entry : Type 0 where
  pub sector : ℕ
  pub contents : List ℕ
  pub ready : Bool
  pub dirty : Bool

pub record Cache : Type 0 where
  pub entries : ℕ → Entry
  pub lru_list : List ℕ
  pub device : ℕ → List ℕ

-- `for (i = 0; i < NUM_ENTRIES; i++) list_push_front (...)`, with the rounds left first.
unfoldable pub init_lru : ℕ → ℕ → List ℕ → List ℕ
init_lru zero i lru = lru
init_lru (suc n) i lru = init_lru n (i + 1) (i ∷ lru)

unfoldable pub bufcache_init : (ℕ → List ℕ) → (ℕ → List ℕ) → Cache
unfolding init_lru
bufcache_init cached_data device = record {
  entries = λ i. record {
    sector = invalid_sector;
    contents = cached_data i;
    ready = true;
    dirty = false;
  };
  lru_list = init_lru num_entries 0 [];
  device = device;
}

-- The first ready entry from the back of the list; the argument is the reversed list.
first_ready : Cache → List ℕ → Option ℕ
first_ready c [] = none
first_ready c (i ∷ is) = if (c.entries i).ready then some i else first_ready c is

unfoldable pub get_eviction_candidate : Cache → Option ℕ
unfolding first_ready
get_eviction_candidate c = first_ready c (reverse c.lru_list)

find_from : ℕ → Cache → ℕ → ℕ → Option ℕ
find_from zero c i sector = none
find_from (suc n) c i sector =
    let later = find_from n c (i + 1) sector in
    if sector == (c.entries i).sector then some i else later

unfoldable pub find : Cache → ℕ → Option ℕ
unfolding find_from
find c sector = find_from num_entries c 0 sector

abbrev pub set_entry : Cache → ℕ → Entry → Cache
set_entry c i e = record c { entries = update c.entries i e }

-- The two halves of `clean`, before and after the device write.
unfoldable pub clean_begin : Cache → ℕ → Option Cache
clean_begin c i = do
  assert (c.entries i).dirty
  some (set_entry c i (record (c.entries i) { ready = false }))

unfoldable pub clean_end : Cache → ℕ → Cache
clean_end c i =
    let e = c.entries i in
    record (set_entry c i (record e { ready = true; dirty = false })) {
      device = update c.device e.sector e.contents;
    }

-- The two halves of `replace`, before and after the device read.
unfoldable pub replace_begin : Cache → ℕ → ℕ → Option Cache
replace_begin c i sector = do
  assert (not (c.entries i).dirty)
  some (set_entry c i (record (c.entries i) { sector = sector; ready = false }))

unfoldable pub replace_end : Cache → ℕ → Cache
replace_end c i =
    let e = c.entries i in set_entry c i (record e { contents = c.device e.sector; ready = true })

-- What one round of the loop of `bufcache_access` comes to.
pub data Round : Type 0 where
  hit : ℕ → Round
  wait_until_ready : ℕ → Round
  wait_until_one_ready : Round
  must_clean : ℕ → Round
  must_replace : ℕ → Round

unfoldable pub evict : Cache → Option ℕ → Round
evict c none = wait_until_one_ready
evict c (some i) = if (c.entries i).dirty then must_clean i else must_replace i

unfoldable pub access_round : Cache → ℕ → Round
unfolding evict
access_round c sector = elim (find c sector) [
  | some i ↦ if (c.entries i).ready then hit i else wait_until_ready i
  | none ↦ evict c (get_eviction_candidate c)
]

-- A hit goes to the front of the list.
unfoldable pub touch : Cache → ℕ → Cache
touch c i = record c { lru_list = i ∷ list_remove i c.lru_list }

-- `memcpy (buffer, &contents[offset], length)`.
abbrev pub read_part : List ℕ → ℕ → ℕ → List ℕ
read_part xs offset len = take len (drop offset xs)

-- `memcpy (&contents[offset], buffer, length)`.
abbrev pub write_part : List ℕ → ℕ → List ℕ → List ℕ
write_part xs offset buf = take offset xs ++ (buf ++ drop (offset + length buf) xs)

-- `bufcache_read` and `bufcache_write` from the hit on.
unfoldable pub read_hit : Cache → ℕ → ℕ → ℕ → Option (List ℕ × Cache)
unfolding touch
read_hit c i offset len = do
  assert (leb (offset + len) block_sector_size)
  some (read_part (c.entries i).contents offset len, touch c i)

unfoldable pub write_hit : Cache → ℕ → ℕ → List ℕ → Option Cache
unfolding touch
write_hit c i offset buf = do
  assert (leb (offset + length buf) block_sector_size)
  some (
      set_entry (touch c i) i (record (c.entries i) {
        contents = write_part (c.entries i).contents offset buf;
        dirty = true;
      }))

-- What one thread does between taking `cache_lock` and giving it up.
pub data CacheStep (c : Cache) : Cache → Type 0 where
  reads :
      {c' : Cache} {out : List ℕ} (sector i offset len : ℕ)
      → access_round c sector ≡ hit i
      → read_hit c i offset len ≡ some (out, c')
      → CacheStep c c'
  writes :
      {c' : Cache} (sector i offset : ℕ) (buf : List ℕ)
      → access_round c sector ≡ hit i
      → write_hit c i offset buf ≡ some c'
      → CacheStep c c'
  cleans :
      {c' : Cache} (sector i : ℕ)
      → access_round c sector ≡ must_clean i
      → clean_begin c i ≡ some c'
      → CacheStep c c'
  cleaned :
      (i : ℕ)
      → i < num_entries
      → (c.entries i).ready ≡ false
      → (c.entries i).dirty ≡ true
      → CacheStep c (clean_end c i)
  replaces :
      {c' : Cache} (sector i : ℕ)
      → access_round c sector ≡ must_replace i
      → replace_begin c i sector ≡ some c'
      → CacheStep c c'
  replaced :
      (i : ℕ)
      → i < num_entries
      → (c.entries i).ready ≡ false
      → (c.entries i).dirty ≡ false
      → CacheStep c (replace_end c i)
  -- One round of the loop of `bufcache_flush`.
  flushes :
      {c' : Cache} (i : ℕ)
      → i < num_entries
      → (c.entries i).dirty ≡ true
      → (c.entries i).ready ≡ true
      → clean_begin c i ≡ some c'
      → CacheStep c c'
