-- ===== src/Kv/Probe.antt =====
-- The search for a free slot, in a circle, ends when there is one.
use xharvest.Base.{
  ℕ, zero, suc, ◌+◌, ◌-◌, ◌≡◌, ◌≢◌, ◌<◌, ◌≤◌, inl, inr, Bool, true, false, some, leb, if◌then◌else◌,
  refl, arith, Bool-cases, u32,
}
use mathlib.Core.Path.{subst}
use xharvest.Kv.{KvFtl, no_slot, is_used, find_free}

-- The steps from `slot` on to `goal`.
unfoldable pub distance : ℕ → ℕ → ℕ → ℕ
distance slots slot goal = if leb slot goal then goal - slot else slots - slot + goal

next_in_circle :
    (slots slot goal : ℕ)
    → slots ≤ no_slot
    → slot < slots
    → goal < slots
    → slot ≢ goal
    → ((if leb slots (u32 (slot + 1)) then 0 else u32 (slot + 1)) < slots)
      × (distance slots (if leb slots (u32 (slot + 1)) then 0 else u32 (slot + 1)) goal + 1
          ≡ distance slots slot goal)
unfolding distance
next_in_circle slots slot goal fit h g n = (ground arith, ground arith)

pub clash : (b : Bool) → b ≡ true → b ≡ false → ⊥
clash b t u = cc

pub find_free-ends :
    (fuel : ℕ) (f : KvFtl) (slot goal : ℕ)
    → f.hash_slots ≤ no_slot
    → slot < f.hash_slots
    → goal < f.hash_slots
    → is_used f goal ≡ false
    → distance f.hash_slots slot goal < fuel
    → (s : ℕ) × (find_free fuel f slot ≡ some s) × (s < f.hash_slots) × (is_used f s ≡ false)
unfolding find_free
find_free-ends zero f slot goal fit h g u l = absurd (omega (arith, l))
find_free-ends (suc fuel) f slot goal fit h g u l = elim (Bool-cases (is_used f slot)) [
  | inr v ↦ (slot, rw v refl, h, v)
  | inl v ↦
      let other : slot ≢ goal =
        λ e. clash (is_used f goal) (subst (λ i. is_used f i ≡ true) e v) u in
      let (below, nearer) = next_in_circle f.hash_slots slot goal fit h g other in
      let (s, q, below_s, free) =
        find_free-ends fuel f _ goal fit below g u (omega (arith, l, nearer)) in
      (s, rw v q, below_s, free)
]

pub distance-bound :
    (slots slot goal : ℕ) → slot < slots → goal < slots → distance slots slot goal < slots + 1
unfolding distance
distance-bound slots slot goal h g = ground arith
