-- ===== src/Kv/Regions.antt =====
-- NVMevirt/bitmap.c, bitmap_allocate: no two regions that the bitmap allocator gives out overlap.
use xharvest.Base.{
  ℕ, ◌+◌, ◌*◌, ◌/◌, ◌^◌, ◌≡◌, ◌≢◌, ◌<◌, ◌≤◌, ◌⊎◌, inl, inr, Bool, true, false, List, [], ◌∷◌, ltb,
  if◌then◌else◌, refl, sym, ◌∙◌, ap, arith, Bool-cases, ltb→lt, not_ltb→le, lt→ltb, ◌||◌, some,
  none, some_inj, none≢some, if-eq-some,
}
use mathlib.Core.Path.{subst}
use xharvest.Kv.Commands.{small_length}
use xharvest.Kv.Bitmap.{
  BitmapCalls, IsBitmapCalls, BitmapAllocator, large_length, large_slot, small_slot, large_allocate,
  small_allocate, take_slot, bitmap_allocate, zero_maps, bitmap_allocator_init, small_bits,
  large_bits,
}

ℕ-cases : (i j : ℕ) → (i ≡ j) ⊎ ((i < j) ⊎ (j < i))
ℕ-cases i j = elim (Bool-cases (ltb i j)) [
  | inl e ↦ inr (inl (ltb→lt i j e))
  | inr e ↦ elim (Bool-cases (ltb j i)) [
    | inl q ↦ inr (inr (ltb→lt j i q))
    | inr q ↦ inl (omega (arith, not_ltb→le i j e, not_ltb→le j i q))
  ]
]

true≢false : true ≢ false
true≢false e = cc

-- A region is its offset and its length.
abbrev Region : Type 0
Region = ℕ × ℕ

abbrev pub Apart : Region → Region → Type 0
Apart r s = (r.0 + r.1 ≤ s.0) ⊎ (s.0 + s.1 ≤ r.0)

abbrev pub AllApart : Region → List Region → Type 0
AllApart r [] = Unit
AllApart r (s ∷ rs) = Apart r s × AllApart r rs

-- Inside the storage, and no two overlap.
abbrev pub AreDisjoint : ℕ → List Region → Type 0
AreDisjoint size [] = Unit
AreDisjoint size (r ∷ rs) = (r.0 + r.1 ≤ size) × AllApart r rs × AreDisjoint size rs

-- A slot of the size that the length asks for is found.
unfoldable pub has_room : BitmapCalls → BitmapAllocator → ℕ → Bool
has_room calls a length =
    if ltb small_length length
    then ltb (large_slot calls a) a.large_nbits
    else ltb (small_slot calls a) a.small_nbits

-- The regions that an allocator has given out, the last first.
pub data Given (calls : BitmapCalls) (before : BitmapAllocator) (size : ℕ)
    : BitmapAllocator → List Region → Type 0 where
  started :
      (a : BitmapAllocator)
      → bitmap_allocator_init calls before size ≡ some a
      → Given calls before size a []
  allocated :
      (a a' : BitmapAllocator) (rs : List Region) (length offset : ℕ)
      → Given calls before size a rs
      → length ≤ large_length
      → has_room calls a length ≡ true
      → bitmap_allocate calls a length ≡ some (offset, a')
      → Given calls before size a' ((offset, length) ∷ rs)

-- A region that was given out fits a slot whose bit is set.
data Owned (a : BitmapAllocator) (r : Region) : Type 0 where
  small_owned :
      (i : ℕ)
      → i < a.small_nbits
      → r.0 ≡ i * 1024
      → r.1 ≤ 1024
      → a.small_bitmap i ≡ true
      → Owned a r
  large_owned :
      (i : ℕ)
      → i < a.large_nbits
      → r.0 ≡ a.dev_size / 2 + i * 4096
      → r.1 ≤ 4096
      → a.large_bitmap i ≡ true
      → Owned a r

abbrev AllOwned : BitmapAllocator → List Region → Type 0
AllOwned a [] = Unit
AllOwned a (r ∷ rs) = Owned a r × AllOwned a rs

record IsSized (a : BitmapAllocator) (size : ℕ) : Type 0 where
  fits : size < 2 ^ 64
  dev : a.dev_size ≡ size
  small : a.small_nbits ≡ size / 2 / 1024
  large : a.large_nbits ≡ size / 2 / 4096
  small_array : a.small_nbits ≤ small_bits
  large_array : a.large_nbits ≤ large_bits

Owned-within :
    (a : BitmapAllocator) (size : ℕ) (r : Region) → IsSized a size → Owned a r → r.0 + r.1 ≤ size
Owned-within a size r z (small_owned i h o l b) = omega (arith, h, o, l, z.small)
Owned-within a size r z (large_owned i h o l b) = omega (arith, h, o, l, z.large, z.dev)

-- A region in a slot whose bit is clear.
abbrev Fresh : BitmapAllocator → Region → Type 0
Fresh a r =
    ((i : ℕ) × (r.0 ≡ i * 1024) × (r.1 ≤ 1024) × (i < a.small_nbits) × (a.small_bitmap i ≡ false))
    ⊎ ((i : ℕ) × (r.0 ≡ a.dev_size / 2 + i * 4096)
        × (r.1 ≤ 4096)
        × (i < a.large_nbits)
        × (a.large_bitmap i ≡ false))

-- Two slots of different bits.
Owned-Apart :
    (a : BitmapAllocator) (size : ℕ) (r s : Region)
    → IsSized a size
    → Owned a s
    → Fresh a r
    → Apart r s
Owned-Apart a size r s z (small_owned i h o l b) (inl (j, p, q, g, f)) = elim (ℕ-cases i j) [
  | inl e ↦ absurd (true≢false (sym b ∙ ap a.small_bitmap e ∙ f))
  | inr (inl h) ↦ inr (omega (arith, o, l, p, h))
  | inr (inr h) ↦ inl (omega (arith, o, p, q, h))
]
Owned-Apart a size r s z (small_owned i h o l b) (inr (j, p, q, g, f)) =
    inr (omega (arith, h, o, l, p, z.small, z.dev))
Owned-Apart a size r s z (large_owned i h o l b) (inl (j, p, q, g, f)) =
    inl (omega (arith, g, o, p, q, z.small, z.dev))
Owned-Apart a size r s z (large_owned i h o l b) (inr (j, p, q, g, f)) = elim (ℕ-cases i j) [
  | inl e ↦ absurd (true≢false (sym b ∙ ap a.large_bitmap e ∙ f))
  | inr (inl h) ↦ inr (omega (arith, o, l, p, h))
  | inr (inr h) ↦ inl (omega (arith, o, p, q, h))
]

-- The bits that are set stay set, and nothing else that places a slot changes.
record Grows (a b : BitmapAllocator) : Type 0 where
  dev : b.dev_size ≡ a.dev_size
  small : b.small_nbits ≡ a.small_nbits
  large : b.large_nbits ≡ a.large_nbits
  small_kept : (i : ℕ) → a.small_bitmap i ≡ true → b.small_bitmap i ≡ true
  large_kept : (i : ℕ) → a.large_bitmap i ≡ true → b.large_bitmap i ≡ true

set_kept :
    (calls : BitmapCalls) (map : ℕ → Bool) (s i : ℕ)
    → IsBitmapCalls calls
    → map i ≡ true
    → calls.bitmap_set map s 1 i ≡ true
set_kept calls map s i k b = elim (ℕ-cases i s) [
  | inl e ↦ k.set map s 1 i (omega (arith, e)) (omega (arith, e))
  | inr (inl h) ↦ k.below map s 1 i h ∙ b
  | inr (inr h) ↦ k.above map s 1 i (omega (arith, h)) ∙ b
]

take_slot-Grows :
    (calls : BitmapCalls) (a : BitmapAllocator) (length : ℕ)
    → IsBitmapCalls calls
    → Grows a (take_slot calls a length).1
unfolding take_slot large_allocate small_allocate
take_slot-Grows calls a length k = elim (Bool-cases (ltb small_length length)) [
  | inl e ↦ rw e (record {
    dev = refl;
    small = refl;
    large = refl;
    small_kept = λ i b. b;
    large_kept = λ i b. set_kept calls a.large_bitmap (large_slot calls a) i k b;
  })
  | inr e ↦ rw e (record {
    dev = refl;
    small = refl;
    large = refl;
    small_kept = λ i b. set_kept calls a.small_bitmap (small_slot calls a) i k b;
    large_kept = λ i b. b;
  })
]

Owned-kept : (a b : BitmapAllocator) (r : Region) → Grows a b → Owned a r → Owned b r
Owned-kept a b r g (small_owned i h o l s) =
    small_owned i (subst (λ n. i < n) (sym g.small) h) o l (g.small_kept i s)
Owned-kept a b r g (large_owned i h o l s) =
    large_owned i (subst (λ n. i < n) (sym g.large) h) (o ∙ ap (λ d. d / 2 + i * 4096) (sym g.dev))
      l (g.large_kept i s)

AllOwned-kept :
    (a b : BitmapAllocator) (rs : List Region) → Grows a b → AllOwned a rs → AllOwned b rs
AllOwned-kept a b [] g o = o
AllOwned-kept a b (r ∷ rs) g (o, os) = (Owned-kept a b r g o, AllOwned-kept a b rs g os)

IsSized-kept : (a b : BitmapAllocator) (size : ℕ) → Grows a b → IsSized a size → IsSized b size
IsSized-kept a b size g z = record {
  fits = z.fits;
  dev = g.dev ∙ z.dev;
  small = g.small ∙ z.small;
  large = g.large ∙ z.large;
  small_array = subst (λ n. n ≤ small_bits) (sym g.small) z.small_array;
  large_array = subst (λ n. n ≤ large_bits) (sym g.large) z.large_array;
}

has_room-large :
    (calls : BitmapCalls) (a : BitmapAllocator) (length : ℕ)
    → has_room calls a length ≡ true
    → ltb small_length length ≡ true
    → large_slot calls a < a.large_nbits
unfolding has_room
has_room-large calls a length room e = ltb→lt (large_slot calls a) a.large_nbits (
    sym (
      ap
        (λ b.
          if b
          then ltb (large_slot calls a) a.large_nbits
          else ltb (small_slot calls a) a.small_nbits)
        e)
    ∙ room)

has_room-small :
    (calls : BitmapCalls) (a : BitmapAllocator) (length : ℕ)
    → has_room calls a length ≡ true
    → ltb small_length length ≡ false
    → small_slot calls a < a.small_nbits
unfolding has_room
has_room-small calls a length room e = ltb→lt (small_slot calls a) a.small_nbits (
    sym (
      ap
        (λ b.
          if b
          then ltb (large_slot calls a) a.large_nbits
          else ltb (small_slot calls a) a.small_nbits)
        e)
    ∙ room)

take_slot-Fresh :
    (calls : BitmapCalls) (a : BitmapAllocator) (size length : ℕ)
    → IsBitmapCalls calls
    → IsSized a size
    → length ≤ large_length
    → has_room calls a length ≡ true
    → Fresh a ((take_slot calls a length).0, length)
unfolding take_slot large_allocate small_allocate
take_slot-Fresh calls a size length k z short room = elim (Bool-cases (ltb small_length length)) [
  | inl e ↦
      let h = has_room-large calls a length room e in
      let clear = k.found a.large_bitmap a.large_nbits a.large_last_pos h in
      inr (large_slot calls a, rw e (omega (arith, h, z.large, z.dev, z.fits)), short, h, clear)
  | inr e ↦
      let h = has_room-small calls a length room e in
      let clear = k.found a.small_bitmap a.small_nbits a.small_last_pos h in
      let l = not_ltb→le 1024 length e in
      inl (small_slot calls a, rw e (omega (arith, h, z.small, z.fits)), l, h, clear)
]

-- The bit of the new region is set.
take_slot-Owned :
    (calls : BitmapCalls) (a : BitmapAllocator) (size length : ℕ)
    → IsBitmapCalls calls
    → IsSized a size
    → length ≤ large_length
    → has_room calls a length ≡ true
    → Owned (take_slot calls a length).1 ((take_slot calls a length).0, length)
unfolding take_slot large_allocate small_allocate
take_slot-Owned calls a size length k z short room = elim (Bool-cases (ltb small_length length)) [
  | inl e ↦
      let i = large_slot calls a in
      let h = has_room-large calls a length room e in
      let bit = k.set a.large_bitmap i 1 i (omega arith) (omega arith) in
      rw e (large_owned i h (omega (arith, h, z.large, z.dev, z.fits)) short bit)
  | inr e ↦
      let i = small_slot calls a in
      let h = has_room-small calls a length room e in
      let bit = k.set a.small_bitmap i 1 i (omega arith) (omega arith) in
      rw e (small_owned i h (omega (arith, h, z.small, z.fits)) (not_ltb→le 1024 length e) bit)
]

AllOwned-AllApart :
    (a : BitmapAllocator) (size : ℕ) (r : Region) (rs : List Region)
    → IsSized a size
    → AllOwned a rs
    → Fresh a r
    → AllApart r rs
AllOwned-AllApart a size r [] z o f = o
AllOwned-AllApart a size r (s ∷ rs) z (o, os) f =
    (Owned-Apart a size r s z o f, AllOwned-AllApart a size r rs z os f)

init-IsSized :
    (calls : BitmapCalls) (before : BitmapAllocator) (size : ℕ) (a : BitmapAllocator)
    → size < 2 ^ 64
    → bitmap_allocator_init calls before size ≡ some a
    → IsSized a size
unfolding bitmap_allocator_init zero_maps
init-IsSized calls before size a fits h =
    let past =
      ltb small_bits (size / 2 / small_length) || ltb large_bits (size / 2 / large_length) in
    elim (if-eq-some past none (some (zero_maps calls before size)) h) [
      | inl (e, q) ↦ absurd (none≢some q)
      | inr (e, q) ↦
          subst (λ x. IsSized x size) (some_inj q)
            (record {
              fits = fits;
              dev = refl;
              small = refl;
              large = refl;
              small_array = ground arith;
              large_array = ground arith;
            })
    ]

bitmap_allocate-take_slot :
    (calls : BitmapCalls) (a : BitmapAllocator) (length : ℕ) (r : ℕ × BitmapAllocator)
    → bitmap_allocate calls a length ≡ some r
    → take_slot calls a length ≡ r
unfolding bitmap_allocate
bitmap_allocate-take_slot calls a length r h =
    let inside =
      if ltb small_length length
      then ltb (large_slot calls a) large_bits
      else ltb (small_slot calls a) small_bits in
    elim (if-eq-some inside (some (take_slot calls a length)) none h) [
      | inl (e, q) ↦ some_inj q
      | inr (e, q) ↦ absurd (none≢some q)
    ]

-- A free slot is inside its array.
has_room-bitmap_allocate :
    (calls : BitmapCalls) (a : BitmapAllocator) (size length : ℕ)
    → IsSized a size
    → has_room calls a length ≡ true
    → bitmap_allocate calls a length ≡ some (take_slot calls a length)
unfolding bitmap_allocate has_room
has_room-bitmap_allocate calls a size length z room = elim (Bool-cases (ltb small_length length)) [
  | inl e ↦
      let h = has_room-large calls a length room e in
      let inside : ltb (large_slot calls a) large_bits ≡ true =
        lt→ltb (large_slot calls a) large_bits (omega (arith, h, z.large_array)) in
      rw (e, inside) refl
  | inr e ↦
      let h = has_room-small calls a length room e in
      let inside : ltb (small_slot calls a) small_bits ≡ true =
        lt→ltb (small_slot calls a) small_bits (omega (arith, h, z.small_array)) in
      rw (e, inside) refl
]

Given-sound :
    (calls : BitmapCalls) (before : BitmapAllocator) (size : ℕ) (a : BitmapAllocator)
    (rs : List Region)
    → IsBitmapCalls calls
    → size < 2 ^ 64
    → Given calls before size a rs
    → IsSized a size × AllOwned a rs × AreDisjoint size rs
Given-sound calls before size a rs k fits (started a0 h) =
    (init-IsSized calls before size a fits h, tt, tt)
Given-sound calls before size a rs k fits (allocated a' a1 rs' length offset given short room h) =
    let (z, os, apart) = Given-sound calls before size a' rs' k fits given in
    let same = bitmap_allocate-take_slot calls a' length (offset, a) h in
    let r : Region = (offset, length) in
    let grows =
      subst (λ (x : ℕ × BitmapAllocator). Grows a' x.1) same (take_slot-Grows calls a' length k) in
    let z' = IsSized-kept a' a size grows z in
    let o =
      subst (λ (x : ℕ × BitmapAllocator). Owned x.1 (x.0, length)) same
        (take_slot-Owned calls a' size length k z short room) in
    let fresh =
      subst (λ (x : ℕ × BitmapAllocator). Fresh a' (x.0, length)) same
        (take_slot-Fresh calls a' size length k z short room) in
    (
      z',
      (o, AllOwned-kept a' a rs' grows os),
      (Owned-within a size r z' o, AllOwned-AllApart a' size r rs' z os fresh, apart),
    )

-- The regions that a fresh bitmap allocator gives out, while it finds free slots and no length is past
-- a large slot, lie inside the storage, and no two of them overlap; and where it finds a free slot, the
-- next allocation stays inside the static arrays and is given out. The kernel's calls keep their laws,
-- and the size of the storage is one that the initialisation takes.
pub Given-AreDisjoint :
    (calls : BitmapCalls) (before : BitmapAllocator) (size : ℕ) (a : BitmapAllocator)
    (rs : List Region)
    → IsBitmapCalls calls
    → size < 2 ^ 64
    → Given calls before size a rs
    → AreDisjoint size rs
      × ((length : ℕ)
          → has_room calls a length ≡ true
          → (r : ℕ × BitmapAllocator) × (bitmap_allocate calls a length ≡ some r))
Given-AreDisjoint calls before size a rs k fits given =
    let (z, os, apart) = Given-sound calls before size a rs k fits given in
    (
      apart,
      λ length room.
          (take_slot calls a length, has_room-bitmap_allocate calls a size length z room),
    )
