-- ===== src/Kv/Delete.antt =====
-- Deleting a mapping.
use xharvest.Base.{
  ℕ, zero, suc, ◌+◌, ◌≡◌, ◌≢◌, ◌<◌, ◌≤◌, inl, inr, true, false, none, some, ◌==◌, refl, arith, sym,
  ◌∙◌, ap, Bool-cases, ≢→==, ==→≡, not_==→≢, update_self, some_inj,
}
use mathlib.Core.Path.{subst}
use xharvest.Kv.{
  KvFtl, KvCommand, MappingEntry, no_slot, key_size, is_used, find_key, find_mapping, same_bytes,
  get_hash_slot, cmd_key_length, erased_entry, delete_found, delete_mapping_entry,
}
use xharvest.Kv.Walk.{IsTable}
use xharvest.Kv.Probe.{clash}
use xharvest.Kv.Insert.{find_key-step}
use xharvest.Kv.Lookup.{find_key-miss, find_key-hit, find_key-end, no_fuel, used_entry}
use xharvest.Kv.Map.{none≢some, find_mapping-in}

-- The table without the slot.
record IsErased (f f' : KvFtl) (s : ℕ) : Type 0 where
  pub hash_slots : f'.hash_slots ≡ f.hash_slots
  pub free : is_used f' s ≡ false
  pub unlinked : (f'.kv_mapping_table s).next_slot ≡ no_slot
  pub others : (j : ℕ) → j ≢ s → f'.kv_mapping_table j ≡ f.kv_mapping_table j

delete_found-IsErased : (f : KvFtl) (s : ℕ) → IsErased f (delete_found f (some s)) s
unfolding delete_found erased_entry
delete_found-IsErased f s = record {
  hash_slots = refl;
  free = ap used_entry (update_self f.kv_mapping_table s erased_entry);
  unlinked = ap MappingEntry.next_slot (update_self f.kv_mapping_table s erased_entry);
  others = λ j h. rw (≢→== j s h) refl;
}

erased-IsTable :
    (f f' : KvFtl) (born : ℕ → ℕ) (now s : ℕ)
    → IsTable f born now
    → IsErased f f' s
    → IsTable f' born now
erased-IsTable f f' born now s t k =
    let old : (i : ℕ) → (f'.kv_mapping_table i).next_slot ≢ no_slot → (i ≢ s) =
      λ i n e. n (ap (λ j. (f'.kv_mapping_table j).next_slot) e ∙ k.unlinked) in
    let link : (i : ℕ)
        → i ≢ s
        → (f'.kv_mapping_table i).next_slot ≡ (f.kv_mapping_table i).next_slot =
      λ i o. ap MappingEntry.next_slot (k.others i o) in
    let used : (i : ℕ) → is_used f' i ≡ true → (i ≢ s) × (is_used f i ≡ true) = λ i u.
      let o : i ≢ s = λ e. clash (is_used f' s) (subst (λ j. is_used f' j ≡ true) e u) k.free in
      (o, sym (ap used_entry (k.others i o)) ∙ u) in
    record {
      some_slots = omega (arith, t.some_slots, k.hash_slots);
      slots_fit = omega (arith, t.slots_fit, k.hash_slots);
      linked = λ i h n.
          let e = link i (old i n) in
          let below = t.linked i (omega (arith, h, k.hash_slots)) (λ y. n (e ∙ y)) in
          omega (arith, below, e, k.hash_slots);
      younger = λ i h u v n.
          let e = link i (old i n) in
          subst (λ j. born i < born j) (sym e)
            (t.younger i (omega (arith, h, k.hash_slots)) (used i u).1
              (subst (λ j. is_used f j ≡ true) e (used _ v).1) (λ y. n (e ∙ y)));
      past = λ i h u. t.past i (omega (arith, h, k.hash_slots)) (used i u).1;
      unlinked = λ i h u. elim (Bool-cases (i == s)) [
        | inl e ↦
            subst (λ j. (f'.kv_mapping_table j).next_slot ≡ no_slot) (sym (==→≡ i s e)) k.unlinked
        | inr e ↦
            let o = not_==→≢ i s e in
            link i o
            ∙ t.unlinked i (omega (arith, h, k.hash_slots)) (sym (ap used_entry (k.others i o)) ∙ u)
      ];
    }

-- A walk that ended at the slot now ends without a result.
find_key-erased :
    (fuel : ℕ) (f f' : KvFtl) (s : ℕ) (key : ℕ → ℕ) (key_len slot : ℕ)
    → IsErased f f' s
    → find_key fuel f key key_len slot ≡ some (some s)
    → find_key fuel f' key key_len slot ≡ some none
find_key-erased zero f f' s key key_len slot k q = absurd (no_fuel f key key_len slot (some s) q)
find_key-erased (suc fuel) f f' s key key_len slot k q =
    let e = f.kv_mapping_table slot in
    elim (Bool-cases (slot == s)) [
      | inl z ↦
          find_key-miss fuel f' key key_len slot
            (subst (λ j. is_used f' j ≡ false) (sym (==→≡ slot s z)) k.free)
      | inr z ↦
          let o = not_==→≢ slot s z in
          let same = k.others slot o in
          elim (Bool-cases (is_used f slot)) [
            | inr u ↦
                absurd (none≢some (some_inj (sym (find_key-miss fuel f key key_len slot u) ∙ q)))
            | inl u ↦ elim (Bool-cases (same_bytes key_len key e.key)) [
              | inl w ↦
                  absurd
                    (o (some_inj (some_inj (sym (find_key-hit fuel f key key_len slot u w) ∙ q))))
              | inr w ↦ elim (Bool-cases (e.next_slot == no_slot)) [
                | inl n ↦
                    absurd
                      (none≢some (some_inj (sym (find_key-end fuel f key key_len slot u w n) ∙ q)))
                | inr n ↦
                    let more = not_==→≢ e.next_slot no_slot n in
                    find_key-step fuel f' key key_len slot (ap used_entry same ∙ u)
                      (ap (λ (m : MappingEntry). same_bytes key_len key m.key) same ∙ w)
                      (λ y. more (sym (ap MappingEntry.next_slot same) ∙ y))
                    ∙ ap (find_key fuel f' key key_len) (ap MappingEntry.next_slot same)
                    ∙ find_key-erased fuel f f' s key key_len e.next_slot k
                        (sym (find_key-step fuel f key key_len slot u w more) ∙ q)
              ]
            ]
          ]
    ]

home-same :
    (f f' : KvFtl) (s : ℕ) (key : ℕ → ℕ) (key_len : ℕ)
    → IsErased f f' s
    → get_hash_slot f' key key_len ≡ get_hash_slot f key key_len
unfolding get_hash_slot
home-same f f' s key key_len k = rw k.hash_slots refl

-- Deleting a key that the table holds gives back an erased entry; the table stays well formed and does
-- not hold the key any more.
pub delete_mapping_entry-gone :
    (f : KvFtl) (born : ℕ → ℕ) (now s : ℕ) (cmd : KvCommand)
    → IsTable f born now
    → cmd_key_length cmd ≤ key_size
    → find_mapping f cmd.key (cmd_key_length cmd) ≡ some (some s)
    → (f' : KvFtl) × (delete_mapping_entry f cmd ≡ some (erased_entry, f'))
      × IsTable f' born now
      × (find_mapping f' cmd.key (cmd_key_length cmd) ≡ some none)
unfolding delete_mapping_entry
delete_mapping_entry-gone f born now s cmd t fits q =
    let f' = delete_found f (some s) in
    let n = cmd_key_length cmd in
    let k = delete_found-IsErased f s in
    let walk =
      find_key-erased (f.hash_slots + 1) f f' s cmd.key n (get_hash_slot f cmd.key n) k
        (sym (find_mapping-in f cmd.key n fits) ∙ q) in
    (
      f',
      rw q refl,
      erased-IsTable f f' born now s t k,
      find_mapping-in f' cmd.key n fits
          ∙ ap (λ i. find_key (f'.hash_slots + 1) f' cmd.key n i) (home-same f f' s cmd.key n k)
          ∙ ap (λ i. find_key (i + 1) f' cmd.key n (get_hash_slot f cmd.key n)) k.hash_slots
          ∙ walk,
    )

erased_home :
    (f : KvFtl) (key : ℕ → ℕ) (key_len : ℕ)
    → is_used f (get_hash_slot f key key_len) ≡ false
    → find_key (f.hash_slots + 1) f key key_len (get_hash_slot f key key_len) ≡ some none
erased_home f key key_len u =
    ap (λ n. find_key n f key key_len (get_hash_slot f key key_len)) (one_more f.hash_slots)
    ∙ find_key-miss f.hash_slots f key key_len _ u
  where
    one_more : (n : ℕ) → n + 1 ≡ suc n
    one_more n = omega arith

-- Deleting a key from the slot where another key's chain begins loses that other key: the table held it
-- at another slot, its entry is still there, and it is not found any more.
pub delete_mapping_entry-loses :
    (f : KvFtl) (cmd : KvCommand) (s i : ℕ) (other : ℕ → ℕ) (other_len : ℕ)
    → other_len ≤ key_size
    → find_mapping f cmd.key (cmd_key_length cmd) ≡ some (some s)
    → get_hash_slot f other other_len ≡ s
    → find_mapping f other other_len ≡ some (some i)
    → i ≢ s
    → (f' : KvFtl) × (delete_mapping_entry f cmd ≡ some (erased_entry, f'))
      × (f'.kv_mapping_table i ≡ f.kv_mapping_table i)
      × (find_mapping f' other other_len ≡ some none)
unfolding delete_mapping_entry
delete_mapping_entry-loses f cmd s i other other_len fits q same held n =
    let f' = delete_found f (some s) in
    let k = delete_found-IsErased f s in
    let start = home-same f f' s other other_len k ∙ same in
    (
      f',
      rw q refl,
      k.others i n,
      find_mapping-in f' other other_len fits
          ∙ erased_home f' other other_len (subst (λ j. is_used f' j ≡ false) (sym start) k.free),
    )
