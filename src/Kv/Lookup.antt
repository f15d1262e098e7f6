-- ===== src/Kv/Lookup.antt =====
-- Look-ups after a new entry has been added.
use xharvest.Base.{
  ℕ, zero, suc, ◌≡◌, ◌≢◌, ◌<◌, inl, inr, Bool, true, false, Option, none, some, if◌then◌else◌, not,
  ◌==◌, refl, arith, sym, ◌∙◌, ap, Bool-cases, ==→≡, not_==→≢, some_inj,
}
use mathlib.Core.Path.{subst}
use xharvest.Kv.{KvFtl, MappingEntry, no_slot, no_offset, is_used, find_key, find_tail, same_bytes}
use xharvest.Kv.Walk.{IsTable, IsTail}
use xharvest.Kv.Probe.{clash}
use xharvest.Kv.Insert.{IsNew, find_key-new, find_key-tail, find_key-step}

find_key-free :
    (fuel : ℕ) (f : KvFtl) (key : ℕ → ℕ) (key_len slot : ℕ) (r : Option ℕ)
    → is_used f slot ≡ false
    → find_key fuel f key key_len slot ≡ some r
    → r ≡ none
unfolding find_key
find_key-free zero f key key_len slot r u q = absurd (no_result q)
  where
    no_result : {r : Option ℕ} → none ≡ some r → ⊥
    no_result e = cc
find_key-free (suc fuel) f key key_len slot r u q = some_inj (sym q ∙ rw u refl)

pub find_key-end :
    (fuel : ℕ) (f : KvFtl) (key : ℕ → ℕ) (key_len slot : ℕ)
    → is_used f slot ≡ true
    → same_bytes key_len key (f.kv_mapping_table slot).key ≡ false
    → ((f.kv_mapping_table slot).next_slot == no_slot) ≡ true
    → find_key (suc fuel) f key key_len slot ≡ some none
unfolding find_key
find_key-end fuel f key key_len slot u o n = rw (u, o, n) refl

-- At a tail, a key that it does not hold is not found.
find_key-at_tail :
    (fuel : ℕ) (f : KvFtl) (p : ℕ) (key : ℕ → ℕ) (key_len : ℕ) (r : Option ℕ)
    → IsTail f p
    → same_bytes key_len key (f.kv_mapping_table p).key ≡ false
    → find_key (suc fuel) f key key_len p ≡ some r
    → r ≡ none
find_key-at_tail fuel f p key key_len r k o q =
    let n = (f.kv_mapping_table p).next_slot in
    elim (Bool-cases (n == no_slot)) [
      | inl e ↦ some_inj (sym q ∙ find_key-end fuel f key key_len p k.used o e)
      | inr e ↦
          let more = not_==→≢ n no_slot e in
          elim k.last [
            | inl z ↦ absurd (more z)
            | inr u ↦
                find_key-free fuel f key key_len n r u
                  (sym (find_key-step fuel f key key_len p k.used o more) ∙ q)
          ]
    ]

pub find_key-hit :
    (fuel : ℕ) (f : KvFtl) (key : ℕ → ℕ) (key_len slot : ℕ)
    → is_used f slot ≡ true
    → same_bytes key_len key (f.kv_mapping_table slot).key ≡ true
    → find_key (suc fuel) f key key_len slot ≡ some (some slot)
unfolding find_key
find_key-hit fuel f key key_len slot u o = rw (u, o) refl

pub find_key-miss :
    (fuel : ℕ) (f : KvFtl) (key : ℕ → ℕ) (key_len slot : ℕ)
    → is_used f slot ≡ false
    → find_key (suc fuel) f key key_len slot ≡ some none
unfolding find_key
find_key-miss fuel f key key_len slot u = rw u refl

-- The tail is in use, so a slot that is not in use is not the tail.
not_tail : (f f' : KvFtl) (s p j : ℕ) → IsNew f f' s p → j ≢ no_slot → is_used f j ≡ false → j ≢ p
not_tail f f' s p j k n u e =
    clash (is_used f j)
      (subst (λ i. is_used f i ≡ true) (sym e) (k.chosen.tail (λ z. n (e ∙ z))).used) u

pub not_new : (f f' : KvFtl) (s p j : ℕ) → IsNew f f' s p → is_used f j ≡ true → j ≢ s
not_new f f' s p j k u e =
    clash (is_used f j) u (subst (λ i. is_used f i ≡ false) (sym e) k.chosen.free)

abbrev pub used_entry : MappingEntry → Bool
used_entry m = not (m.mem_offset == no_offset)

pub no_fuel :
    (f : KvFtl) (key : ℕ → ℕ) (key_len slot : ℕ) (r : Option ℕ)
    → find_key zero f key key_len slot ≡ some r
    → ⊥
unfolding find_key
no_fuel f key key_len slot r e = cc

-- A used entry stays used, with its key.
pub kept-entry :
    (f f' : KvFtl) (s p j : ℕ)
    → IsNew f f' s p
    → j ≢ no_slot
    → is_used f j ≡ true
    → (is_used f' j ≡ true) × ((f'.kv_mapping_table j).key ≡ (f.kv_mapping_table j).key)
kept-entry f f' s p j k n u = elim (Bool-cases (j == p)) [
  | inl z ↦
      let here = ==→≡ j p z in
      let e = k.chained (λ y. n (here ∙ y)) in
      subst
        (λ i. (is_used f' i ≡ true) × ((f'.kv_mapping_table i).key ≡ (f.kv_mapping_table i).key))
        (sym here) (ap used_entry e ∙ subst (λ i. is_used f i ≡ true) here u, ap MappingEntry.key e)
  | inr z ↦
      let e = k.others j (not_new f f' s p j k u) (not_==→≢ j p z) in
      (ap used_entry e ∙ u, ap MappingEntry.key e)
]

-- A key that the new entry does not match is found where it was.
pub find_key-others :
    (fuel : ℕ) (f f' : KvFtl) (born : ℕ → ℕ) (now s p : ℕ) (key : ℕ → ℕ) (key_len slot : ℕ)
    (r : Option ℕ)
    → IsTable f born now
    → IsNew f f' s p
    → same_bytes key_len key (f'.kv_mapping_table s).key ≡ false
    → slot < f.hash_slots
    → find_key fuel f key key_len slot ≡ some r
    → find_key (suc fuel) f' key key_len slot ≡ some r
find_key-others zero f f' born now s p key key_len slot r t k o h q =
    absurd (no_fuel f key key_len slot r q)
find_key-others (suc fuel) f f' born now s p key key_len slot r t k o h q =
    let e = f.kv_mapping_table slot in
    let entry : slot ≢ no_slot = λ z. omega (arith, t.slots_fit, h, z) in
    let at_new : find_key (suc (suc fuel)) f' key key_len s ≡ some none =
      find_key-new (suc fuel) f f' s p key key_len k ∙ rw o refl in
    elim (Bool-cases (is_used f slot)) [
      | inr u ↦
          let none_r = find_key-free (suc fuel) f key key_len slot r u q in
          elim (Bool-cases (slot == s)) [
            | inl z ↦
                subst (λ i. find_key (suc (suc fuel)) f' key key_len i ≡ some r)
                  (sym (==→≡ slot s z)) (at_new ∙ ap some (sym none_r))
            | inr z ↦
                let same = k.others slot (not_==→≢ slot s z) (not_tail f f' s p slot k entry u) in
                find_key-miss (suc fuel) f' key key_len slot (ap used_entry same ∙ u)
                ∙ ap some (sym none_r)
          ]
      | inl u ↦
          let (used, same_key) = kept-entry f f' s p slot k entry u in
          elim (Bool-cases (same_bytes key_len key e.key)) [
            | inl w ↦
                find_key-hit (suc fuel) f' key key_len slot used
                  (ap (same_bytes key_len key) same_key ∙ w)
                ∙ sym (find_key-hit fuel f key key_len slot u w)
                ∙ q
            | inr w ↦ elim (Bool-cases (slot == p)) [
              | inl z ↦
                  let here = ==→≡ slot p z in
                  let n : p ≢ no_slot = λ y. entry (here ∙ y) in
                  let wp =
                    subst (λ i. same_bytes key_len key (f.kv_mapping_table i).key ≡ false) here w in
                  let qp = subst (λ i. find_key (suc fuel) f key key_len i ≡ some r) here q in
                  let none_r = find_key-at_tail fuel f p key key_len r (k.chosen.tail n) wp qp in
                  subst (λ i. find_key (suc (suc fuel)) f' key key_len i ≡ some r) (sym here)
                    (find_key-tail fuel f f' s p key key_len k n wp ∙ rw o (ap some (sym none_r)))
              | inr z ↦
                  let same = k.others slot (not_new f f' s p slot k u) (not_==→≢ slot p z) in
                  let w' = ap (λ (m : MappingEntry). same_bytes key_len key m.key) same ∙ w in
                  elim (Bool-cases (e.next_slot == no_slot)) [
                    | inl n ↦
                        find_key-end (suc fuel) f' key key_len slot used w'
                          (ap (λ (m : MappingEntry). m.next_slot == no_slot) same ∙ n)
                        ∙ sym (find_key-end fuel f key key_len slot u w n)
                        ∙ q
                    | inr n ↦
                        let more = not_==→≢ e.next_slot no_slot n in
                        find_key-step (suc fuel) f' key key_len slot used w'
                          (λ y. more (sym (ap MappingEntry.next_slot same) ∙ y))
                        ∙ ap (find_key (suc fuel) f' key key_len) (ap MappingEntry.next_slot same)
                        ∙ find_key-others fuel f f' born now s p key key_len e.next_slot r t k o
                            (t.linked slot h more)
                            (sym (find_key-step fuel f key key_len slot u w more) ∙ q)
                  ]
            ]
          ]
    ]

not_held :
    (fuel : ℕ) (f : KvFtl) (key : ℕ → ℕ) (key_len slot : ℕ)
    → is_used f slot ≡ true
    → find_key (suc fuel) f key key_len slot ≡ some none
    → same_bytes key_len key (f.kv_mapping_table slot).key ≡ false
not_held fuel f key key_len slot u q =
    elim (Bool-cases (same_bytes key_len key (f.kv_mapping_table slot).key)) [
      | inr w ↦ w
      | inl w ↦ absurd (held (some_inj (sym q ∙ find_key-hit fuel f key key_len slot u w)))
    ]
  where
    held : {i : ℕ} → none ≡ some i → ⊥
    held e = cc

tail_here :
    (fuel : ℕ) (f : KvFtl) (slot prevs p : ℕ)
    → is_used f slot ≡ true
    → ((f.kv_mapping_table slot).next_slot == no_slot) ≡ true
    → find_tail (suc fuel) f slot prevs ≡ some p
    → slot ≡ p
unfolding find_tail
tail_here fuel f slot prevs p u n g =
    let e : find_tail (suc fuel) f slot prevs ≡ some slot = rw (u, n) refl in some_inj (sym e ∙ g)

tail_next :
    (fuel : ℕ) (f : KvFtl) (slot prevs p : ℕ)
    → is_used f slot ≡ true
    → ((f.kv_mapping_table slot).next_slot == no_slot) ≡ false
    → find_tail (suc fuel) f slot prevs ≡ some p
    → find_tail fuel f (f.kv_mapping_table slot).next_slot slot ≡ some p
unfolding find_tail
tail_next fuel f slot prevs p u n g =
    let e : find_tail (suc fuel) f slot prevs
        ≡ find_tail fuel f (f.kv_mapping_table slot).next_slot slot =
      rw (u, n) refl in
    sym e ∙ g

tail_free :
    (fuel : ℕ) (f : KvFtl) (slot prevs p : ℕ)
    → is_used f slot ≡ false
    → find_tail fuel f slot prevs ≡ some p
    → prevs ≡ p
unfolding find_tail
tail_free zero f slot prevs p u g = absurd (no_result g)
  where
    no_result : {i : ℕ} → none ≡ some i → ⊥
    no_result e = cc
tail_free (suc fuel) f slot prevs p u g =
    let e : find_tail (suc fuel) f slot prevs ≡ some prevs = rw u refl in some_inj (sym e ∙ g)

tail_last :
    (f : KvFtl) (slot p : ℕ)
    → (f.kv_mapping_table slot).next_slot ≢ no_slot
    → is_used f (f.kv_mapping_table slot).next_slot ≡ true
    → IsTail f p
    → slot ≢ p
tail_last f slot p more v k z = elim k.last [
  | inl n ↦ more (ap (λ i. (f.kv_mapping_table i).next_slot) z ∙ n)
  | inr u ↦ clash _ v (ap (λ i. is_used f (f.kv_mapping_table i).next_slot) z ∙ u)
]

-- From a used slot whose chain does not have the key, the walk now comes to the new entry.
pub find_key-added :
    (fuel : ℕ) (f f' : KvFtl) (born : ℕ → ℕ) (now s p : ℕ) (key : ℕ → ℕ) (key_len slot prevs : ℕ)
    → IsTable f born now
    → IsNew f f' s p
    → slot < f.hash_slots
    → is_used f slot ≡ true
    → find_tail fuel f slot prevs ≡ some p
    → find_key fuel f key key_len slot ≡ some none
    → find_key (suc fuel) f' key key_len slot
      ≡ some (if same_bytes key_len key (f'.kv_mapping_table s).key then some s else none)
find_key-added zero f f' born now s p key key_len slot prevs t k h u g q =
    absurd (no_fuel f key key_len slot none q)
find_key-added (suc fuel) f f' born now s p key key_len slot prevs t k h u g q =
    let e = f.kv_mapping_table slot in
    let entry : slot ≢ no_slot = λ z. omega (arith, t.slots_fit, h, z) in
    let w = not_held fuel f key key_len slot u q in
    let here : slot ≡ p
        → find_key (suc (suc fuel)) f' key key_len slot
          ≡ some (if same_bytes key_len key (f'.kv_mapping_table s).key then some s else none) =
      λ z.
        subst
          (λ i.
            find_key (suc (suc fuel)) f' key key_len i
            ≡ some (if same_bytes key_len key (f'.kv_mapping_table s).key then some s else none))
          (sym z)
          (find_key-tail fuel f f' s p key key_len k (λ y. entry (z ∙ y))
            (subst (λ i. same_bytes key_len key (f.kv_mapping_table i).key ≡ false) z w)) in
    elim (Bool-cases (e.next_slot == no_slot)) [
      | inl n ↦ here (tail_here fuel f slot prevs p u n g)
      | inr n ↦
          let more = not_==→≢ e.next_slot no_slot n in
          let rest = tail_next fuel f slot prevs p u n g in
          elim (Bool-cases (is_used f e.next_slot)) [
            | inr v ↦ here (tail_free fuel f e.next_slot slot p v rest)
            | inl v ↦
                let apart : slot ≢ p =
                  λ z. tail_last f slot p more v (k.chosen.tail (λ y. entry (z ∙ y))) z in
                let same = k.others slot (not_new f f' s p slot k u) apart in
                let (used, same_key) = kept-entry f f' s p slot k entry u in
                find_key-step (suc fuel) f' key key_len slot used
                  (ap (same_bytes key_len key) same_key ∙ w)
                  (λ y. more (sym (ap MappingEntry.next_slot same) ∙ y))
                ∙ ap (find_key (suc fuel) f' key key_len) (ap MappingEntry.next_slot same)
                ∙ find_key-added fuel f f' born now s p key key_len e.next_slot slot t k
                    (t.linked slot h more) v rest
                    (sym (find_key-step fuel f key key_len slot u w more) ∙ q)
          ]
    ]
