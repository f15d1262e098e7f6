-- ===== src/Kv/Walk.antt =====
-- Walks along the chains of the mapping table end.
use xharvest.Base.{
  ℕ, zero, suc, ◌+◌, ◌≡◌, ◌≢◌, ◌<◌, ◌≤◌, ◌⊎◌, inl, inr, true, false, Option, none, some, ltb,
  if◌then◌else◌, ◌&&◌, ◌==◌, refl, arith, sym, Bool-cases, ==→≡, not_==→≢, sum_below, ltb→lt,
}
use mathlib.Core.Path.{subst}
use xharvest.Kv.{KvFtl, no_slot, is_used, find_key, find_tail, same_bytes, init_mapping_table}

-- Links lead into the table and, among used slots, from older entries to younger ones: `born` is a
-- time at which the slot was filled, before `now`. A free slot has no link.
pub record IsTable (f : KvFtl) (born : ℕ → ℕ) (now : ℕ) : Type 0 where
  pub some_slots : 0 < f.hash_slots
  pub slots_fit : f.hash_slots ≤ no_slot
  pub linked :
      (i : ℕ)
      → i < f.hash_slots
      → (f.kv_mapping_table i).next_slot ≢ no_slot
      → (f.kv_mapping_table i).next_slot < f.hash_slots
  pub younger :
      (i : ℕ)
      → i < f.hash_slots
      → is_used f i ≡ true
      → is_used f (f.kv_mapping_table i).next_slot ≡ true
      → (f.kv_mapping_table i).next_slot ≢ no_slot
      → born i < born (f.kv_mapping_table i).next_slot
  pub past : (i : ℕ) → i < f.hash_slots → is_used f i ≡ true → born i < now
  pub unlinked :
      (i : ℕ) → i < f.hash_slots → is_used f i ≡ false → (f.kv_mapping_table i).next_slot ≡ no_slot

sum_below-le : (n : ℕ) (a b : ℕ → ℕ) → ((j : ℕ) → a j ≤ b j) → sum_below n a ≤ sum_below n b
unfolding sum_below
sum_below-le zero a b h = omega arith
sum_below-le (suc n) a b h = omega (arith, sum_below-le n a b h, h n)

sum_below-lt :
    (n : ℕ) (a b : ℕ → ℕ) (i : ℕ)
    → ((j : ℕ) → a j ≤ b j)
    → i < n
    → a i < b i
    → sum_below n a < sum_below n b
unfolding sum_below
sum_below-lt zero a b i h l k = absurd (omega (arith, l))
sum_below-lt (suc n) a b i h l k = elim (Bool-cases (ltb i n)) [
  | inl e ↦ omega (arith, sum_below-lt n a b i h (ltb→lt i n e) k, h n)
  | inr e ↦
      let last : n ≡ i = ground arith in
      let here = subst (λ j. a j < b j) (sym last) k in omega (arith, sum_below-le n a b h, here)
]

sum_below-ones : (n : ℕ) → sum_below n (λ j. 1) ≡ n
unfolding sum_below
sum_below-ones zero = refl
sum_below-ones (suc n) = omega (arith, sum_below-ones n)

-- How many used slots are younger than the slot.
abbrev after : KvFtl → (ℕ → ℕ) → ℕ → ℕ → ℕ
after f born i j = if is_used f j && ltb (born i) (born j) then 1 else 0

after-next :
    (f : KvFtl) (born : ℕ → ℕ) (i j : ℕ)
    → is_used f j ≡ true
    → born i < born j
    → after f born j j < after f born i j
after-next f born i j u h = ground arith

-- A bound on the steps of a walk from the slot.
unfoldable pub steps : KvFtl → (ℕ → ℕ) → ℕ → ℕ
steps f born i = if is_used f i then sum_below f.hash_slots (after f born i) + 1 else 0

pub steps-bound :
    (f : KvFtl) (born : ℕ → ℕ) (i : ℕ) → i < f.hash_slots → steps f born i < f.hash_slots + 1
unfolding steps
steps-bound f born i h =
    let fewer =
      sum_below-lt f.hash_slots (after f born i) (λ j. 1) i (λ j. ground arith) h (ground arith) in
    let all = sum_below-ones f.hash_slots in ground arith

-- The walk from a used slot to the next gets shorter.
pub steps-next :
    (f : KvFtl) (born : ℕ → ℕ) (now i : ℕ)
    → IsTable f born now
    → i < f.hash_slots
    → is_used f i ≡ true
    → (f.kv_mapping_table i).next_slot ≢ no_slot
    → steps f born (f.kv_mapping_table i).next_slot < steps f born i
unfolding steps
steps-next f born now i t h u n =
    let next = (f.kv_mapping_table i).next_slot in
    elim (Bool-cases (is_used f next)) [
      | inl e ↦
          let old = t.younger i h u e n in
          let fewer =
            sum_below-lt f.hash_slots (after f born next) (after f born i) next (λ j. ground arith)
              (t.linked i h n) (after-next f born i next e old) in
          rw (u, e) (omega (arith, fewer))
      | inr e ↦ rw (u, e) (omega arith)
    ]

-- The walk for a key ends.
pub find_key-ends :
    (fuel : ℕ) (f : KvFtl) (born : ℕ → ℕ) (now : ℕ) (key : ℕ → ℕ) (key_len slot : ℕ)
    → IsTable f born now
    → slot < f.hash_slots
    → steps f born slot < fuel
    → (r : Option ℕ) × (find_key fuel f key key_len slot ≡ some r)
unfolding find_key
find_key-ends zero f born now key key_len slot t h l = absurd (omega (arith, l))
find_key-ends (suc fuel) f born now key key_len slot t h l =
    let e = f.kv_mapping_table slot in
    elim (Bool-cases (is_used f slot)) [
      | inr u ↦ (none, rw u refl)
      | inl u ↦ elim (Bool-cases (same_bytes key_len key e.key)) [
        | inl s ↦ (some slot, rw (u, s) refl)
        | inr s ↦ elim (Bool-cases (e.next_slot == no_slot)) [
          | inl n ↦ (none, rw (u, s, n) refl)
          | inr n ↦
              let next = not_==→≢ e.next_slot no_slot n in
              let (r, q) =
                find_key-ends fuel f born now key key_len e.next_slot t (t.linked slot h next)
                  (omega (arith, l, steps-next f born now slot t h u next)) in
              (r, rw (u, s, n) q)
        ]
      ]
    ]

-- The end of a chain.
pub record IsTail (f : KvFtl) (p : ℕ) : Type 0 where
  pub in_table : p < f.hash_slots
  pub used : is_used f p ≡ true
  pub last :
      ((f.kv_mapping_table p).next_slot ≡ no_slot)
      ⊎ (is_used f (f.kv_mapping_table p).next_slot ≡ false)

find_tail-free :
    (fuel : ℕ) (f : KvFtl) (slot prevs : ℕ)
    → is_used f slot ≡ false
    → 0 < fuel
    → find_tail fuel f slot prevs ≡ some prevs
unfolding find_tail
find_tail-free zero f slot prevs u l = absurd (omega (arith, l))
find_tail-free (suc fuel) f slot prevs u l = rw u refl

-- From a used slot, the walk to the tail ends there.
pub find_tail-IsTail :
    (fuel : ℕ) (f : KvFtl) (born : ℕ → ℕ) (now slot prevs : ℕ)
    → IsTable f born now
    → slot < f.hash_slots
    → is_used f slot ≡ true
    → steps f born slot < fuel
    → (p : ℕ) × (find_tail fuel f slot prevs ≡ some p) × IsTail f p
unfolding find_tail
find_tail-IsTail zero f born now slot prevs t h u l = absurd (omega (arith, l))
find_tail-IsTail (suc fuel) f born now slot prevs t h u l =
    let e = f.kv_mapping_table slot in
    elim (Bool-cases (e.next_slot == no_slot)) [
      | inl n ↦ (
        slot,
        rw (u, n) refl,
        record { in_table = h; used = u; last = inl (==→≡ e.next_slot no_slot n) },
      )
      | inr n ↦
          let next = not_==→≢ e.next_slot no_slot n in
          let fewer = steps-next f born now slot t h u next in
          elim (Bool-cases (is_used f e.next_slot)) [
            | inl v ↦
                let (p, q, k) =
                  find_tail-IsTail fuel f born now e.next_slot slot t (t.linked slot h next) v
                    (omega (arith, l, fewer)) in
                (p, rw (u, n) q, k)
            | inr v ↦ (
              slot,
              rw (u, n) (find_tail-free fuel f e.next_slot slot v (omega (arith, l, fewer))),
              record { in_table = h; used = u; last = inr v },
            )
          ]
    ]

-- The table is well formed when it is set up.
pub init_mapping_table-IsTable :
    (hash_slots storage_size : ℕ)
    → 0 < hash_slots
    → hash_slots ≤ no_slot
    → IsTable (init_mapping_table hash_slots storage_size) (λ i. 0) 0
unfolding init_mapping_table
init_mapping_table-IsTable hash_slots storage_size h k = record {
  some_slots = h;
  slots_fit = k;
  linked = λ i l n. absurd (n refl);
  younger = λ i l u v n. absurd (n refl);
  past = λ i l u. absurd (free_used u);
  unlinked = λ i l u. refl;
}
  where
    free_used : false ≡ true → ⊥
    free_used e = cc
