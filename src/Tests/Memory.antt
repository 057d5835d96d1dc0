-- ===== src/Tests/Memory.antt =====
-- pintos/src/threads/palloc.c and filesys/free-map.c: pools of four pages, and a map of 40 sectors.
use ospersonal.Common.{
  Option, [], arith, false, inl, none, refl, some, true, ℕ, ◌*◌, ◌+◌, ◌∷◌, ◌≡◌, ◌≤◌, ◌⊎◌,
}
use ospersonal.Bitmap.{
  bitmap_scan_and_flip, bitmap_scan, scan_loop, bitmap_contains, contains_loop, bitmap_test,
  bitmap_all, bitmap_set_multiple, set_loop, bitmap_set, bitmap_mark, bitmap_reset,
}
use ospersonal.Palloc.{
  Memory, PagePool, page_size, palloc_get_multiple, palloc_free_multiple, pool_get, get_answer,
  pool_free, free_in,
}
use ospersonal.Palloc.Pages.{IsMemory, Served, palloc_get_multiple-Served}
use ospersonal.Palloc.Groups.{SamePages, palloc_round_trip}
use ospersonal.Palloc.Owners.{Calls, no_call, and_get, and_free, no_overlap}
use ospersonal.FreeMap.{FreeMap, free_map_allocate, free_map_release, allocated}
use ospersonal.FreeMap.Sectors.{SameUse, free_map_round_trip}

-- Page 0 of each pool is in use.
abbrev four_pages : ℕ → PagePool
four_pages base = record { used_map = record { bit_cnt = 4; bits = 1 ∷ [] }; base = base }

abbrev eight_pages : Memory
eight_pages = record { kernel_pool = four_pages 4096; user_pool = four_pages 20480; bytes = λ a. 0 }

eight_pages-IsMemory : IsMemory eight_pages
eight_pages-IsMemory = record {
  kernel = record {
    valid = record { storage = refl; small = omega arith };
    aligned = refl;
    above = omega arith;
    ends = omega arith;
  };
  user = record {
    valid = record { storage = refl; small = omega arith };
    aligned = refl;
    above = omega arith;
    ends = omega arith;
  };
  apart = omega arith;
}

abbrev value_or {ℓ} : {A : Type ℓ} → A → Option A → A
value_or d none = d
value_or d (some r) = r

abbrev two_taken : ℕ × Memory
two_taken = value_or (0, eight_pages) (palloc_get_multiple eight_pages true true false 2)

-- One page more, and that page back.
abbrev page_taken : ℕ × Memory
page_taken = value_or (0, eight_pages) (palloc_get_multiple two_taken.1 true false false 1)

abbrev page_back : Memory
page_back = value_or eight_pages (palloc_free_multiple page_taken.1 page_taken.0 1)

abbrev third_taken : ℕ × Memory
third_taken = value_or (0, eight_pages) (palloc_get_multiple page_back true false false 1)

palloc_get_multiple-Served_example :
    Served eight_pages true true false 2 (palloc_get_multiple eight_pages true true false 2)
palloc_get_multiple-Served_example =
    palloc_get_multiple-Served eight_pages true true false 2 eight_pages-IsMemory (omega arith)

palloc_round_trip_example :
    (n : Memory) × (palloc_free_multiple two_taken.1 two_taken.0 2 ≡ some n)
    × SamePages eight_pages n
unfolding palloc_get_multiple pool_get get_answer bitmap_scan_and_flip bitmap_scan scan_loop
    bitmap_contains contains_loop bitmap_test bitmap_set_multiple set_loop bitmap_set bitmap_mark
    bitmap_reset
palloc_round_trip_example =
    palloc_round_trip eight_pages true true false 2 two_taken.0 two_taken.1 eight_pages-IsMemory
      (omega arith) refl (λ e. absurd (omega arith))

two_taken-Calls : Calls two_taken.0 2 two_taken.1 page_back
unfolding palloc_get_multiple palloc_free_multiple pool_free free_in pool_get get_answer bitmap_all
    bitmap_scan_and_flip bitmap_scan scan_loop bitmap_contains contains_loop bitmap_test
    bitmap_set_multiple set_loop bitmap_set bitmap_mark bitmap_reset
two_taken-Calls =
    and_free page_taken.1 page_back 1 page_taken.0
      (and_get two_taken.1 page_taken.1 true false false 1 page_taken.0 no_call refl) refl
      (omega arith) (inl (omega arith))

no_overlap_example :
    (two_taken.0 + page_size * 2 ≤ third_taken.0) ⊎ (third_taken.0 + page_size * 1 ≤ two_taken.0)
unfolding palloc_get_multiple palloc_free_multiple pool_free free_in pool_get get_answer bitmap_all
    bitmap_scan_and_flip bitmap_scan scan_loop bitmap_contains contains_loop bitmap_test
    bitmap_set_multiple set_loop bitmap_set bitmap_mark bitmap_reset
no_overlap_example =
    no_overlap eight_pages two_taken.1 page_back third_taken.1 true true false true false false 2
      two_taken.0 1 third_taken.0 eight_pages-IsMemory (omega arith) refl
      (λ e. absurd (omega arith)) two_taken-Calls (omega arith) refl (λ e. absurd (omega arith))

abbrev forty_sectors : FreeMap
forty_sectors = record {
  free_map = record { bit_cnt = 40; bits = 3 ∷ 0 ∷ [] };
  is_open = true;
  on_disk = record { bit_cnt = 40; bits = 3 ∷ 0 ∷ [] };
}

abbrev five_sectors : Option ℕ × FreeMap
five_sectors = value_or (none, forty_sectors) (free_map_allocate forty_sectors 5 true)

free_map_round_trip_example :
    (h : FreeMap) × (free_map_release five_sectors.1 2 5 false ≡ some h) × SameUse forty_sectors h
unfolding free_map_allocate allocated bitmap_scan_and_flip bitmap_scan scan_loop bitmap_contains
    contains_loop bitmap_test bitmap_set_multiple set_loop bitmap_set bitmap_mark bitmap_reset
free_map_round_trip_example =
    free_map_round_trip forty_sectors five_sectors.1 5 2 true false
      (record { storage = refl; small = omega arith }) refl refl
