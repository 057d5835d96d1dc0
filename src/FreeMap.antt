-- ===== src/FreeMap.antt =====
-- pintos/src/filesys/free-map.c: the map of the sectors in use. `free_map_lock` makes each call one
-- step. `free_map_file` is NULL until the file is open; whether a `bitmap_write` of the map to
-- it succeeds is an argument. `none` is a kernel panic, or a use of a NULL pointer.
pub mod Sectors
use ospersonal.Common.{
  Bool, List, Option, assert, false, if◌then◌else◌, none, not, some, ℕ, ◌&&◌, ◌>>=◌, ◌>>◌,
}
use ospersonal.Bitmap.{
  Bitmap, bitmap_create, bitmap_mark, bitmap_scan_and_flip, bitmap_set_multiple, bitmap_all,
}

-- The static variables: the map, whether its file is open, and the map as last written to the file.
pub record FreeMap : Type 0 where
  pub free_map : Bitmap
  pub is_open : Bool
  pub on_disk : Bitmap

abbrev pub free_map_sector : ℕ
free_map_sector = 0

abbrev pub root_dir_sector : ℕ
root_dir_sector = 1

-- `block_size` is the number of sectors; `header` and `old` are what `malloc` answers to
-- `bitmap_create`.
unfoldable pub free_map_init : ℕ → Bool → Option (List ℕ) → Bitmap → Option FreeMap
free_map_init block_size header old disk = bitmap_create block_size header old >>= λ made.
    elim made [
      | none ↦ none
      | some b ↦ some (record {
        free_map = bitmap_mark (bitmap_mark b free_map_sector) root_dir_sector;
        is_open = false;
        on_disk = disk;
      })
    ]

-- The first sector and the map after the call; none for a call that answers false.
unfoldable pub allocated : FreeMap → ℕ → Bool → Option ℕ → Bitmap → Option (Option ℕ × FreeMap)
allocated f cnt written none b = some (none, record f { free_map = b })
allocated f cnt written (some sector) b =
    if f.is_open && not written
    then (bitmap_set_multiple b sector cnt false >>= λ b'. some (none, record f { free_map = b' }))
    else some (some sector, record f { free_map = b; on_disk = if f.is_open then b else f.on_disk })

unfoldable pub free_map_allocate : FreeMap → ℕ → Bool → Option (Option ℕ × FreeMap)
free_map_allocate f cnt written =
    bitmap_scan_and_flip f.free_map 0 cnt false >>= λ r. allocated f cnt written r.0 r.1

-- Whether the write succeeds is not looked at; with `free_map_file` NULL it reads through the pointer.
unfoldable pub free_map_release : FreeMap → ℕ → ℕ → Bool → Option FreeMap
free_map_release f sector cnt written = bitmap_all f.free_map sector cnt >>= λ used.
    assert used
    >> (bitmap_set_multiple f.free_map sector cnt false >>= λ b.
        assert f.is_open
        >> some (record f { free_map = b; on_disk = if written then b else f.on_disk }))
