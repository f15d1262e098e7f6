-- ===== src/Kv/Bitmap.antt =====
-- NVMevirt/bitmap.c: the allocator that gives space out in slots, of 1024 bytes in the lower half of
-- the storage and of 4096 bytes in the upper. The kernel's operations on bitmaps are a parameter.
use xharvest.Base.{
  ℕ, ◌+◌, ◌*◌, ◌/◌, ◌≡◌, ◌<◌, ◌≤◌, Bool, true, false, ltb, if◌then◌else◌, u64, Option, some, none,
  ◌||◌,
}
use xharvest.Kv.Commands.{small_length}

-- `bitmap_zero(map, nbits)`, `bitmap_set(map, start, nr)` and
-- `bitmap_find_next_zero_area(map, size, start, nr, align_mask)`
pub record BitmapCalls : Type 0 where
  pub bitmap_zero : (ℕ → Bool) → ℕ → ℕ → Bool
  pub bitmap_set : (ℕ → Bool) → ℕ → ℕ → ℕ → Bool
  pub bitmap_find_next_zero_area : (ℕ → Bool) → ℕ → ℕ → ℕ → ℕ → ℕ

-- What they do: an area that is found inside the map is free.
pub record IsBitmapCalls (calls : BitmapCalls) : Type 0 where
  pub set : (map : ℕ → Bool) (s n i : ℕ) → s ≤ i → i < s + n → calls.bitmap_set map s n i ≡ true
  pub below : (map : ℕ → Bool) (s n i : ℕ) → i < s → calls.bitmap_set map s n i ≡ map i
  pub above : (map : ℕ → Bool) (s n i : ℕ) → s + n ≤ i → calls.bitmap_set map s n i ≡ map i
  pub found :
      (map : ℕ → Bool) (size start : ℕ)
      → calls.bitmap_find_next_zero_area map size start 1 0 < size
      → map (calls.bitmap_find_next_zero_area map size start 1 0) ≡ false

abbrev pub large_length : ℕ
large_length = 4096

pub record BitmapAllocator : Type 0 where
  pub small_nbits : ℕ
  pub large_nbits : ℕ
  pub small_bitmap : ℕ → Bool
  pub large_bitmap : ℕ → Bool
  pub small_capacity : ℕ
  pub large_capacity : ℕ
  pub small_last_pos : ℕ
  pub large_last_pos : ℕ
  pub dev_size : ℕ
  pub total_written : ℕ

-- The bits of the static arrays, of 600000 and 300000 words.
abbrev pub small_bits : ℕ
small_bits = 600000 * 64

abbrev pub large_bits : ℕ
large_bits = 300000 * 64

-- The bits of a map are zeroed.
unfoldable pub zero_maps : BitmapCalls → BitmapAllocator → ℕ → BitmapAllocator
zero_maps calls a size =
    let small = size / 2 / small_length in
    let large = size / 2 / large_length in
    record a {
      dev_size = size;
      small_nbits = small;
      large_nbits = large;
      small_bitmap = calls.bitmap_zero a.small_bitmap small;
      large_bitmap = calls.bitmap_zero a.large_bitmap large;
    }

-- `none`: a map is past its array.
unfoldable pub bitmap_allocator_init : BitmapCalls → BitmapAllocator → ℕ → Option BitmapAllocator
bitmap_allocator_init calls a size =
    if ltb small_bits (size / 2 / small_length) || ltb large_bits (size / 2 / large_length)
    then none
    else some (zero_maps calls a size)

-- `last_pos`, which starts again when it is past the map.
abbrev pub next_pos : ℕ → ℕ → ℕ
next_pos nbits off = if ltb nbits (u64 (off + 1)) then 0 else u64 (off + 1)

abbrev pub large_slot : BitmapCalls → BitmapAllocator → ℕ
large_slot calls a =
    calls.bitmap_find_next_zero_area a.large_bitmap a.large_nbits a.large_last_pos 1 0

abbrev pub small_slot : BitmapCalls → BitmapAllocator → ℕ
small_slot calls a =
    calls.bitmap_find_next_zero_area a.small_bitmap a.small_nbits a.small_last_pos 1 0

unfoldable pub large_allocate : BitmapCalls → BitmapAllocator → ℕ × BitmapAllocator
large_allocate calls a =
    let off = large_slot calls a in
    (
      u64 (a.dev_size / 2 + off * large_length),
      record a {
        large_bitmap = calls.bitmap_set a.large_bitmap off 1;
        large_last_pos = next_pos a.large_nbits off;
        large_capacity = a.large_capacity + 1;
      },
    )

unfoldable pub small_allocate : BitmapCalls → BitmapAllocator → ℕ × BitmapAllocator
small_allocate calls a =
    let off = small_slot calls a in
    (
      u64 (off * small_length),
      record a {
        small_bitmap = calls.bitmap_set a.small_bitmap off 1;
        small_last_pos = next_pos a.small_nbits off;
        small_capacity = a.small_capacity + 1;
      },
    )

-- A slot of the size that the length asks for. A length past the larger slots is only reported.
unfoldable pub take_slot : BitmapCalls → BitmapAllocator → ℕ → ℕ × BitmapAllocator
take_slot calls a length =
    let counted = record a { total_written = u64 (a.total_written + length) } in
    if ltb small_length length then large_allocate calls counted else small_allocate calls counted

-- `none`: the bit is past its array.
unfoldable pub bitmap_allocate : BitmapCalls → BitmapAllocator → ℕ → Option (ℕ × BitmapAllocator)
bitmap_allocate calls a length =
    let inside =
      if ltb small_length length
      then ltb (large_slot calls a) large_bits
      else ltb (small_slot calls a) small_bits in
    if inside then some (take_slot calls a length) else none
