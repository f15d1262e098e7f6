-- ===== src/Kv/Slots.antt =====
-- NVMevirt/bitmap.c, with the kernel's calls replaced by plain functions: a storage of 16384 bytes,
-- with 8 small slots and 2 large ones.
use xharvest.Base.{
  some, inl, inr, ℕ, zero, suc, ◌+◌, ◌≡◌, ◌<◌, Bool, true, false, [], ◌∷◌, ltb, leb, if◌then◌else◌,
  ◌&&◌, refl, arith, sym, Bool-cases,
}
use mathlib.Core.Path.{subst}
use xharvest.Kv.Bitmap.{
  BitmapCalls, IsBitmapCalls, BitmapAllocator, bitmap_allocator_init, bitmap_allocate, zero_maps,
  take_slot, large_allocate, small_allocate,
}
use xharvest.Kv.Regions.{Given, started, allocated, AreDisjoint, has_room, Given-AreDisjoint}

unfoldable search : ℕ → (ℕ → Bool) → ℕ → ℕ → ℕ
search zero map size i = size
search (suc n) map size i =
    let rest = search n map size (suc i) in if ltb i size then if map i then rest else i else size

search-found :
    (n : ℕ) (map : ℕ → Bool) (size i : ℕ)
    → search n map size i < size
    → map (search n map size i) ≡ false
unfolding search
search-found zero map size i h = absurd (omega (arith, h))
search-found (suc n) map size i h = elim (Bool-cases (ltb i size)) [
  | inr e ↦
      let past : search (suc n) map size i ≡ size = rw e refl in absurd (omega (arith, h, past))
  | inl e ↦ elim (Bool-cases (map i)) [
    | inl t ↦
        let on : search (suc n) map size i ≡ search n map size (suc i) = rw (e, t) refl in
        subst (λ j. map j ≡ false) (sym on)
          (search-found n map size (suc i) (subst (λ j. j < size) on h))
    | inr f ↦ rw (e, f) f
  ]
]

abbrev calls : BitmapCalls
calls = record {
  bitmap_zero = λ map n i. if ltb i n then false else map i;
  bitmap_set = λ map s n i. if leb s i && ltb i (s + n) then true else map i;
  bitmap_find_next_zero_area = λ map size start nr mask. search size map size start;
}

calls-IsBitmapCalls : IsBitmapCalls calls
calls-IsBitmapCalls = record {
  set = λ map s n i h g. ground arith;
  below = λ map s n i h. ground arith;
  above = λ map s n i h. ground arith;
  found = λ map size start h. search-found size map size start h;
}

abbrev before : BitmapAllocator
before = record {
  small_nbits = 0;
  large_nbits = 0;
  small_bitmap = λ i. false;
  large_bitmap = λ i. false;
  small_capacity = 0;
  large_capacity = 0;
  small_last_pos = 0;
  large_last_pos = 0;
  dev_size = 0;
  total_written = 0;
}

abbrev fresh : BitmapAllocator
fresh = zero_maps calls before 16384

abbrev one_given : ℕ × BitmapAllocator
one_given = take_slot calls fresh 16

abbrev two_given : ℕ × BitmapAllocator
two_given = take_slot calls one_given.1 2000

abbrev three_given : ℕ × BitmapAllocator
three_given = take_slot calls two_given.1 500

offsets : (one_given.0 ≡ 0) × (two_given.0 ≡ 8192) × (three_given.0 ≡ 1024)
unfolding zero_maps take_slot large_allocate small_allocate search
offsets = (refl, refl, refl)

given :
    Given calls before 16384 three_given.1
      ((three_given.0, 500) ∷ (two_given.0, 2000) ∷ (one_given.0, 16) ∷ [])
unfolding bitmap_allocator_init bitmap_allocate zero_maps take_slot large_allocate small_allocate
    search has_room
given =
    allocated two_given.1 three_given.1 ((two_given.0, 2000) ∷ (one_given.0, 16) ∷ []) 500
      three_given.0
      (allocated one_given.1 two_given.1 ((one_given.0, 16) ∷ []) 2000 two_given.0
        (allocated fresh one_given.1 [] 16 one_given.0 (started fresh refl) (omega arith) refl refl)
        (omega arith) refl refl)
      (omega arith) refl refl

Given-AreDisjoint_example :
    AreDisjoint 16384 ((three_given.0, 500) ∷ (two_given.0, 2000) ∷ (one_given.0, 16) ∷ [])
    × ((length : ℕ)
        → has_room calls three_given.1 length ≡ true
        → (r : ℕ × BitmapAllocator) × (bitmap_allocate calls three_given.1 length ≡ some r))
Given-AreDisjoint_example =
    Given-AreDisjoint calls before 16384 three_given.1
      ((three_given.0, 500) ∷ (two_given.0, 2000) ∷ (one_given.0, 16) ∷ []) calls-IsBitmapCalls
      (omega arith) given
