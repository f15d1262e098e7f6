-- ===== src/Kv/Insert.antt =====
-- A new entry of the mapping table.
use xharvest.Base.{
  ℕ, zero, suc, ◌+◌, ◌≡◌, ◌≢◌, ◌<◌, ◌≤◌, ◌⊎◌, inl, inr, true, false, none, some, ltb, if◌then◌else◌,
  not, ◌==◌, refl, arith, sym, ◌∙◌, ap, Bool-cases, ≢→==, ==→≡, update_self,
}
use xharvest.Kv.{
  KvFtl, MappingEntry, no_slot, no_offset, is_used, find_key, find_tail, find_next_slot, same_bytes,
  copy_bytes, choose_slot, write_entry, link_new, chain_mapping,
}
use xharvest.Kv.Walk.{IsTable, IsTail, steps-bound, find_tail-IsTail}
use xharvest.Kv.Probe.{find_free-ends, distance-bound}

-- Where a new entry goes: a free slot `s`, chained to the tail `p` or to no one.
pub record IsChosen (f : KvFtl) (s p : ℕ) : Type 0 where
  pub in_table : s < f.hash_slots
  pub free : is_used f s ≡ false
  pub tail : p ≢ no_slot → IsTail f p

pub choose_slot-IsChosen :
    (f : KvFtl) (born : ℕ → ℕ) (now slot goal : ℕ)
    → IsTable f born now
    → slot < f.hash_slots
    → goal < f.hash_slots
    → is_used f goal ≡ false
    → (s : ℕ) × (p : ℕ) × (choose_slot f slot ≡ some (s, p))
      × IsChosen f s p
      × ((p ≡ no_slot) × (s ≡ slot) × (is_used f slot ≡ false)
          ⊎ (find_tail (f.hash_slots + 1) f slot no_slot ≡ some p) × (is_used f slot ≡ true))
unfolding choose_slot find_next_slot
choose_slot-IsChosen f born now slot goal t h g u = elim (Bool-cases (is_used f slot)) [
  | inr v ↦ (
    slot,
    no_slot,
    rw v refl,
    record { in_table = h; free = v; tail = λ n. absurd (n refl) },
    inl (refl, refl, v),
  )
  | inl v ↦
      let (p, q, k) =
        find_tail-IsTail (f.hash_slots + 1) f born now slot no_slot t h v
          (steps-bound f born slot h) in
      let (s, r, below, free) =
        find_free-ends (f.hash_slots + 1) f p goal t.slots_fit k.in_table g u
          (distance-bound f.hash_slots p goal k.in_table g) in
      (s, p, rw (v, q, r) refl, record { in_table = below; free = free; tail = λ n. k }, inr (q, v))
]

-- The table after the entry has been written to `s` and chained to `p`.
pub record IsAdded (f f' : KvFtl) (s p : ℕ) (key : ℕ → ℕ) (key_len val_len val_offset : ℕ)
    : Type 0 where
  pub hash_slots : f'.hash_slots ≡ f.hash_slots
  pub storage_size : f'.storage_size ≡ f.storage_size
  pub others : (j : ℕ) → j ≢ s → j ≢ p → f'.kv_mapping_table j ≡ f.kv_mapping_table j
  pub added : f'.kv_mapping_table s ≡ record (f.kv_mapping_table s) {
    key = copy_bytes key_len key (f.kv_mapping_table s).key;
    mem_offset = val_offset;
    length = val_len;
  }
  pub chained :
      p ≢ no_slot → f'.kv_mapping_table p ≡ record (f.kv_mapping_table p) { next_slot = s }

pub self_test : (n : ℕ) → (n == n) ≡ true
self_test n = ground arith

pub find_key-step :
    (fuel : ℕ) (f : KvFtl) (key : ℕ → ℕ) (key_len slot : ℕ)
    → is_used f slot ≡ true
    → same_bytes key_len key (f.kv_mapping_table slot).key ≡ false
    → (f.kv_mapping_table slot).next_slot ≢ no_slot
    → find_key (suc fuel) f key key_len slot
      ≡ find_key fuel f key key_len (f.kv_mapping_table slot).next_slot
unfolding find_key
find_key-step fuel f key key_len slot u o n =
    rw (u, o, ≢→== (f.kv_mapping_table slot).next_slot no_slot n) refl

pub link_new-IsAdded :
    (f : KvFtl) (s p : ℕ) (key : ℕ → ℕ) (key_len val_len val_offset : ℕ)
    → s ≢ p
    → IsAdded f
        (link_new (write_entry f s key key_len val_len val_offset) s p)
        s
        p
        key
        key_len
        val_len
        val_offset
unfolding link_new write_entry chain_mapping
link_new-IsAdded f s p key key_len val_len val_offset n = elim (Bool-cases (p == no_slot)) [
  | inl e ↦ rw e (record {
    hash_slots = refl;
    storage_size = refl;
    others = λ j h k. rw (≢→== j s h) refl;
    added = update_self f.kv_mapping_table s _;
    chained = λ h. absurd (h (==→≡ p no_slot e));
  })
  | inr e ↦ rw e (record {
    hash_slots = refl;
    storage_size = refl;
    others = λ j h k. rw (≢→== j p k, ≢→== j s h) refl;
    added = rw (≢→== s p n) (update_self f.kv_mapping_table s _);
    chained = λ h. rw (self_test p, ≢→== p s (λ q. n (sym q))) refl;
  })
]

pub same_bytes-copy_bytes :
    (n m : ℕ) (key old : ℕ → ℕ) → n ≤ m → same_bytes n key (copy_bytes m key old) ≡ true
unfolding same_bytes copy_bytes
same_bytes-copy_bytes zero m key old h = refl
same_bytes-copy_bytes (suc n) m key old h =
    let rest = same_bytes-copy_bytes n m key old (omega (arith, h)) in
    let inside : ltb n m ≡ true = ground arith in rw (inside, self_test (key n)) rest

-- What the proofs below share about an entry that has been added.
pub record IsNew (f f' : KvFtl) (s p : ℕ) : Type 0 where
  pub chosen : IsChosen f s p
  pub apart : s ≢ p
  pub s_entry : s ≢ no_slot
  pub others : (j : ℕ) → j ≢ s → j ≢ p → f'.kv_mapping_table j ≡ f.kv_mapping_table j
  pub used : is_used f' s ≡ true
  pub unlinked : (f'.kv_mapping_table s).next_slot ≡ no_slot
  pub chained :
      p ≢ no_slot → f'.kv_mapping_table p ≡ record (f.kv_mapping_table p) { next_slot = s }

-- The new entry, as a walk sees it.
pub find_key-new :
    (fuel : ℕ) (f f' : KvFtl) (s p : ℕ) (key : ℕ → ℕ) (key_len : ℕ)
    → IsNew f f' s p
    → (find_key (suc fuel) f' key key_len s
        ≡ some (if same_bytes key_len key (f'.kv_mapping_table s).key then some s else none))
unfolding find_key
find_key-new fuel f f' s p key key_len k =
    elim (Bool-cases (same_bytes key_len key (f'.kv_mapping_table s).key)) [
      | inl e ↦ rw (k.used, e) refl
      | inr e ↦ rw (k.used, e, k.unlinked) refl
    ]

-- The tail, whose key is another.
pub find_key-tail :
    (fuel : ℕ) (f f' : KvFtl) (s p : ℕ) (key : ℕ → ℕ) (key_len : ℕ)
    → IsNew f f' s p
    → p ≢ no_slot
    → same_bytes key_len key (f.kv_mapping_table p).key ≡ false
    → (find_key (suc (suc fuel)) f' key key_len p
        ≡ some (if same_bytes key_len key (f'.kv_mapping_table s).key then some s else none))
find_key-tail fuel f f' s p key key_len k n other =
    let u = (k.chosen.tail n).used in
    let e = k.chained n in
    let used : is_used f' p ≡ true =
      ap (λ (m : MappingEntry). not (m.mem_offset == no_offset)) e ∙ u in
    let differs : same_bytes key_len key (f'.kv_mapping_table p).key ≡ false =
      ap (λ (m : MappingEntry). same_bytes key_len key m.key) e ∙ other in
    find_key-step (suc fuel) f' key key_len p used differs
      (λ q. k.s_entry (sym (ap MappingEntry.next_slot e) ∙ q))
    ∙ ap (λ i. find_key (suc fuel) f' key key_len i) (ap MappingEntry.next_slot e)
    ∙ find_key-new fuel f f' s p key key_len k
