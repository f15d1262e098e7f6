-- ===== src/Kv/Store.antt =====
-- What storing a new mapping does to look-ups.
use xharvest.Base.{
  ℕ, zero, suc, ◌+◌, ◌≡◌, ◌≢◌, ◌<◌, ◌≤◌, ◌⊎◌, inl, inr, true, false, Option, some, ltb, not, ◌==◌,
  ◌||◌, refl, arith, sym, ◌∙◌, ap, Bool-cases, ≢→==, ==→≡, not_==→≢, update,
}
use mathlib.Core.Path.{subst}
use native.Mathlib.Nat.{mod-lt}
use xharvest.Kv.{
  KvFtl, MappingEntry, no_slot, no_offset, key_size, is_used, find_key, find_tail, same_bytes,
  get_hash_slot, hash_function, write_entry, link_new, new_mapping_entry_by_key,
}
use xharvest.Kv.Walk.{IsTable}
use xharvest.Kv.Probe.{clash}
use xharvest.Kv.Insert.{
  IsChosen, IsAdded, IsNew, choose_slot-IsChosen, link_new-IsAdded, find_key-step,
}
use xharvest.Kv.Lookup.{find_key-miss, find_key-hit, find_key-end, no_fuel, used_entry}

-- The parts of a new mapping: the slot `s` it got and the tail `p` it is chained to.
pub record IsStored (f : KvFtl) (f' : KvFtl) (s p : ℕ) (key : ℕ → ℕ)
    (key_len val_len val_offset : ℕ) : Type 0 where
  pub fresh : IsNew f f' s p
  pub added : IsAdded f f' s p key key_len val_len val_offset
  pub place :
      (p ≡ no_slot)
        × (s ≡ get_hash_slot f key key_len)
        × (is_used f (get_hash_slot f key key_len) ≡ false)
      ⊎ (find_tail (f.hash_slots + 1) f (get_hash_slot f key key_len) no_slot ≡ some p)
        × (is_used f (get_hash_slot f key key_len) ≡ true)

pub get_hash_slot-bound :
    (f : KvFtl) (key : ℕ → ℕ) (key_len : ℕ)
    → 0 < f.hash_slots
    → get_hash_slot f key key_len < f.hash_slots
unfolding get_hash_slot
get_hash_slot-bound f key key_len h = mod-lt (hash_function key key_len) h

added-IsNew :
    (f f' : KvFtl) (born : ℕ → ℕ) (now s p : ℕ) (key : ℕ → ℕ) (key_len val_len val_offset : ℕ)
    → IsTable f born now
    → IsChosen f s p
    → val_offset ≢ no_offset
    → s ≢ p
    → IsAdded f f' s p key key_len val_len val_offset
    → IsNew f f' s p
added-IsNew f f' born now s p key key_len val_len val_offset t c v apart a = record {
  chosen = c;
  apart = apart;
  s_entry = λ z. omega (arith, t.slots_fit, c.in_table, z);
  others = a.others;
  used = ap used_entry a.added ∙ rw (≢→== val_offset no_offset v) refl;
  unlinked = ap MappingEntry.next_slot a.added ∙ t.unlinked s c.in_table c.free;
  chained = a.chained;
}

chosen_apart :
    (f : KvFtl) (born : ℕ → ℕ) (now s p : ℕ) → IsTable f born now → IsChosen f s p → s ≢ p
chosen_apart f born now s p t c z = elim (Bool-cases (p == no_slot)) [
  | inl e ↦ let q = ==→≡ p no_slot e in omega (arith, t.slots_fit, c.in_table, z, q)
  | inr e ↦
      let k = c.tail (not_==→≢ p no_slot e) in
      clash (is_used f s) (subst (λ i. is_used f i ≡ true) (sym z) k.used) c.free
]

pub new_mapping_entry_by_key-IsStored :
    (f : KvFtl) (born : ℕ → ℕ) (now goal : ℕ) (key : ℕ → ℕ) (key_len val_len val_offset : ℕ)
    → IsTable f born now
    → goal < f.hash_slots
    → is_used f goal ≡ false
    → key_len ≤ key_size
    → val_offset < f.storage_size
    → val_offset ≢ no_offset
    → (f' : KvFtl) × (s : ℕ) × (p : ℕ) × (new_mapping_entry_by_key f key key_len val_len val_offset
        ≡ some f')
      × IsStored f f' s p key key_len val_len val_offset
unfolding new_mapping_entry_by_key
new_mapping_entry_by_key-IsStored f born now goal key key_len val_len val_offset t g u fits inside
      v =
    let home = get_hash_slot f key key_len in
    let (s, p, q, c, place) =
      choose_slot-IsChosen f born now home goal t (get_hash_slot-bound f key key_len t.some_slots) g
        u in
    let apart = chosen_apart f born now s p t c in
    let a = link_new-IsAdded f s p key key_len val_len val_offset apart in
    let passes : (not (ltb val_offset f.storage_size) || ltb key_size key_len) ≡ false =
      ground arith in
    (
      link_new (write_entry f s key key_len val_len val_offset) s p,
      s,
      p,
      rw (passes, q) refl,
      record {
        fresh = added-IsNew f _ born now s p key key_len val_len val_offset t c v apart a;
        added = a;
        place = place;
      },
    )

pub find_key-more :
    (fuel : ℕ) (f : KvFtl) (key : ℕ → ℕ) (key_len slot : ℕ) (r : Option ℕ)
    → find_key fuel f key key_len slot ≡ some r
    → find_key (suc fuel) f key key_len slot ≡ some r
find_key-more zero f key key_len slot r q = absurd (no_fuel f key key_len slot r q)
find_key-more (suc fuel) f key key_len slot r q =
    let e = f.kv_mapping_table slot in
    elim (Bool-cases (is_used f slot)) [
      | inr u ↦
          find_key-miss (suc fuel) f key key_len slot u
          ∙ sym (find_key-miss fuel f key key_len slot u)
          ∙ q
      | inl u ↦ elim (Bool-cases (same_bytes key_len key e.key)) [
        | inl w ↦
            find_key-hit (suc fuel) f key key_len slot u w
            ∙ sym (find_key-hit fuel f key key_len slot u w)
            ∙ q
        | inr w ↦ elim (Bool-cases (e.next_slot == no_slot)) [
          | inl n ↦
              find_key-end (suc fuel) f key key_len slot u w n
              ∙ sym (find_key-end fuel f key key_len slot u w n)
              ∙ q
          | inr n ↦
              let more = not_==→≢ e.next_slot no_slot n in
              find_key-step (suc fuel) f key key_len slot u w more
              ∙ find_key-more fuel f key key_len e.next_slot r
                  (sym (find_key-step fuel f key key_len slot u w more) ∙ q)
        ]
      ]
    ]

pub ≡→== : (a b : ℕ) → a ≡ b → (a == b) ≡ true
≡→== a b e = ground arith

-- Which slot of the new table a slot is.
pub data Slot (s p i : ℕ) : Type 0 where
  new_slot : i ≡ s → Slot s p i
  tail_slot : i ≢ s → i ≡ p → Slot s p i
  old_slot : i ≢ s → i ≢ p → Slot s p i

pub Slot-cases : (s p i : ℕ) → Slot s p i
Slot-cases s p i = elim (Bool-cases (i == s)) [
  | inl e ↦ new_slot (==→≡ i s e)
  | inr e ↦ elim (Bool-cases (i == p)) [
    | inl q ↦ tail_slot (not_==→≢ i s e) (==→≡ i p q)
    | inr q ↦ old_slot (not_==→≢ i s e) (not_==→≢ i p q)
  ]
]

-- Any slot but the new one is in use as before.
used-same :
    (f f' : KvFtl) (s p i : ℕ) → IsNew f f' s p → i ≢ no_slot → i ≢ s → is_used f' i ≡ is_used f i
used-same f f' s p i k n h = elim (Slot-cases s p i) [
  | new_slot e ↦ absurd (h e)
  | tail_slot o e ↦
      subst (λ j. is_used f' j ≡ is_used f j) (sym e) (ap used_entry (k.chained (λ y. n (e ∙ y))))
  | old_slot o q ↦ ap used_entry (k.others i o q)
]

-- Where a slot of the new table leads: nowhere, to the new slot, or to where it did.
data Leads (f f' : KvFtl) (s i : ℕ) : Type 0 where
  nowhere : (f'.kv_mapping_table i).next_slot ≡ no_slot → Leads f f' s i
  to_new : i ≢ s → is_used f i ≡ true → (f'.kv_mapping_table i).next_slot ≡ s → Leads f f' s i
  as_before :
      i ≢ s → (f'.kv_mapping_table i).next_slot ≡ (f.kv_mapping_table i).next_slot → Leads f f' s i

Leads-cases : (f f' : KvFtl) (s p i : ℕ) → IsNew f f' s p → i ≢ no_slot → Leads f f' s i
Leads-cases f f' s p i k n = elim (Slot-cases s p i) [
  | new_slot e ↦
      nowhere (subst (λ j. (f'.kv_mapping_table j).next_slot ≡ no_slot) (sym e) k.unlinked)
  | tail_slot o e ↦
      let pn : p ≢ no_slot = λ y. n (e ∙ y) in
      to_new o (subst (λ j. is_used f j ≡ true) (sym e) (k.chosen.tail pn).used) (
        subst (λ j. (f'.kv_mapping_table j).next_slot ≡ s) (sym e)
          (ap MappingEntry.next_slot (k.chained pn)))
  | old_slot o q ↦ as_before o (ap MappingEntry.next_slot (k.others i o q))
]

-- The links of the new table, by where they lead.
module _ (f f' : KvFtl) (born : ℕ → ℕ) (now s p : ℕ) (t : IsTable f born now) (k : IsNew f f' s p)
    (slots : f'.hash_slots ≡ f.hash_slots) where
  in_old : (i : ℕ) → i < f'.hash_slots → i < f.hash_slots
  in_old i h = omega (arith, h, slots)

  is_slot : (i : ℕ) → i < f'.hash_slots → i ≢ no_slot
  is_slot i h z = omega (arith, t.slots_fit, h, z, slots)

  new-linked :
      (i : ℕ)
      → i < f'.hash_slots
      → (f'.kv_mapping_table i).next_slot ≢ no_slot
      → (f'.kv_mapping_table i).next_slot < f'.hash_slots
  new-linked i h n = elim (Leads-cases f f' s p i k (is_slot i h)) [
    | nowhere e ↦ absurd (n e)
    | to_new o u e ↦ omega (arith, e, k.chosen.in_table, slots)
    | as_before o e ↦
        let below = t.linked i (in_old i h) (λ y. n (e ∙ y)) in omega (arith, e, below, slots)
  ]

  used_before : (i : ℕ) → i < f'.hash_slots → i ≢ s → is_used f' i ≡ true → is_used f i ≡ true
  used_before i h o u = sym (used-same f f' s p i k (is_slot i h) o) ∙ u

  new-past : (i : ℕ) → i < f'.hash_slots → is_used f' i ≡ true → update born s now i < suc now
  new-past i h u = elim (Bool-cases (i == s)) [
    | inl e ↦ rw e (omega arith)
    | inr e ↦
        let o = not_==→≢ i s e in
        let before = t.past i (in_old i h) (used_before i h o u) in rw e (omega (arith, before))
  ]

  new-younger :
      (i : ℕ)
      → i < f'.hash_slots
      → is_used f' i ≡ true
      → is_used f' (f'.kv_mapping_table i).next_slot ≡ true
      → (f'.kv_mapping_table i).next_slot ≢ no_slot
      → update born s now i < update born s now (f'.kv_mapping_table i).next_slot
  new-younger i h u v n =
      let next = (f'.kv_mapping_table i).next_slot in
      let below = new-linked i h n in
      elim (Leads-cases f f' s p i k (is_slot i h)) [
        | nowhere e ↦ absurd (n e)
        | to_new o w e ↦
            let before = t.past i (in_old i h) w in rw (≢→== i s o, ≡→== next s e) before
        | as_before o e ↦
            let w = used_before i h o u in
            elim (Bool-cases (next == s)) [
              | inl z ↦ let before = t.past i (in_old i h) w in rw (≢→== i s o, z) before
              | inr z ↦
                  let v' = used_before next below (not_==→≢ next s z) v in
                  let old =
                    t.younger i (in_old i h) w (subst (λ j. is_used f j ≡ true) e v')
                      (λ y. n (e ∙ y)) in
                  rw (≢→== i s o, z) (subst (λ j. born i < born j) (sym e) old)
            ]
      ]

  new-unlinked :
      (i : ℕ)
      → i < f'.hash_slots
      → is_used f' i ≡ false
      → (f'.kv_mapping_table i).next_slot ≡ no_slot
  new-unlinked i h u = elim (Leads-cases f f' s p i k (is_slot i h)) [
    | nowhere e ↦ e
    | to_new o w e ↦ absurd (clash (is_used f' i) (used-same f f' s p i k (is_slot i h) o ∙ w) u)
    | as_before o e ↦
        e ∙ t.unlinked i (in_old i h) (sym (used-same f f' s p i k (is_slot i h) o) ∙ u)
  ]

  pub new-IsTable : IsTable f' (update born s now) (suc now)
  new-IsTable = record {
    some_slots = omega (arith, slots, t.some_slots);
    slots_fit = omega (arith, slots, t.slots_fit);
    linked = new-linked;
    younger = new-younger;
    past = new-past;
    unlinked = new-unlinked;
  }
