-- ===== src/Kv/Map.antt =====
-- The mapping table as a map from keys of one length to values.
use xharvest.Base.{
  ℕ, zero, suc, ◌+◌, ◌≡◌, ◌≢◌, ◌<◌, ◌≤◌, inl, inr, true, false, Option, none, some, ltb,
  if◌then◌else◌, ◌==◌, refl, arith, sym, ◌∙◌, ap, Bool-cases, not_==→≢, update, some_inj, ◌>>=◌,
}
use mathlib.Core.Path.{subst}
use xharvest.Kv.{
  KvFtl, MappingEntry, no_slot, no_offset, key_size, is_used, find_key, find_mapping, same_bytes,
  copy_bytes, get_hash_slot, new_mapping_entry_by_key,
}
use xharvest.Kv.Walk.{IsTable, steps-bound, find_key-ends}
use xharvest.Kv.Insert.{IsNew, same_bytes-copy_bytes, find_key-new, find_key-step}
use xharvest.Kv.Lookup.{
  find_key-miss, find_key-hit, find_key-end, no_fuel, find_key-others, find_key-added, not_new,
}
use xharvest.Kv.Store.{
  new_mapping_entry_by_key-IsStored, find_key-more, new-IsTable, new_slot, tail_slot, old_slot,
  Slot-cases, get_hash_slot-bound,
}

-- The offset and the length that a slot holds.
unfoldable pub value_at : KvFtl → Option ℕ → Option (ℕ × ℕ)
value_at f none = none
value_at f (some i) = some ((f.kv_mapping_table i).mem_offset, (f.kv_mapping_table i).length)

-- What the table holds for the key; the outer `none` is a walk that does not end.
unfoldable pub lookup : KvFtl → (ℕ → ℕ) → ℕ → Option (Option (ℕ × ℕ))
lookup f key key_len = do found ← find_mapping f key key_len; some (value_at f found)

same_bytes-copied :
    (n m : ℕ) (a key old : ℕ → ℕ)
    → n ≤ m
    → same_bytes n a (copy_bytes m key old) ≡ same_bytes n a key
unfolding same_bytes copy_bytes
same_bytes-copied zero m a key old h = refl
same_bytes-copied (suc n) m a key old h =
    let rest = same_bytes-copied n m a key old (omega (arith, h)) in
    let inside : ltb n m ≡ true = ground arith in rw (inside, rest) refl

pub find_mapping-in :
    (f : KvFtl) (key : ℕ → ℕ) (key_len : ℕ)
    → key_len ≤ key_size
    → find_mapping f key key_len
      ≡ find_key (f.hash_slots + 1) f key key_len (get_hash_slot f key key_len)
unfolding find_mapping
find_mapping-in f key key_len h =
    let fits : ltb key_size key_len ≡ false = ground arith in rw fits refl

-- With `hash_slots` unchanged, homes are too.
get_hash_slot-same :
    (f f' : KvFtl) (key : ℕ → ℕ) (key_len : ℕ)
    → f'.hash_slots ≡ f.hash_slots
    → get_hash_slot f' key key_len ≡ get_hash_slot f key key_len
unfolding get_hash_slot
get_hash_slot-same f f' key key_len e = rw e refl

-- A result with one step more is the result.
find_mapping-result :
    (f' : KvFtl) (born : ℕ → ℕ) (now : ℕ) (key : ℕ → ℕ) (key_len home slots : ℕ) (r : Option ℕ)
    → IsTable f' born now
    → key_len ≤ key_size
    → f'.hash_slots ≡ slots
    → get_hash_slot f' key key_len ≡ home
    → find_key (suc (slots + 1)) f' key key_len home ≡ some r
    → find_mapping f' key key_len ≡ some r
find_mapping-result f' born now key key_len home slots r t fits hs hh q =
    let below = get_hash_slot-bound f' key key_len t.some_slots in
    let (r', e) =
      find_key-ends (f'.hash_slots + 1) f' born now key key_len (get_hash_slot f' key key_len) t
        below (steps-bound f' born _ below) in
    let more = find_key-more _ f' key key_len _ r' e in
    let moved =
      subst (λ n. find_key (suc (n + 1)) f' key key_len home ≡ some r') hs
        (subst (λ i. find_key (suc (f'.hash_slots + 1)) f' key key_len i ≡ some r') hh more) in
    find_mapping-in f' key key_len fits ∙ e ∙ sym moved ∙ q

pub none≢some : {A : Type 0} {a : A} → none ≡ some a → ⊥
none≢some e = cc

-- A slot in which a key is found is one of the table's, and in use.
find_key-used :
    (fuel : ℕ) (f : KvFtl) (born : ℕ → ℕ) (now : ℕ) (key : ℕ → ℕ) (key_len slot i : ℕ)
    → IsTable f born now
    → slot < f.hash_slots
    → find_key fuel f key key_len slot ≡ some (some i)
    → (is_used f i ≡ true) × (i < f.hash_slots)
find_key-used zero f born now key key_len slot i t h q =
    absurd (no_fuel f key key_len slot (some i) q)
find_key-used (suc fuel) f born now key key_len slot i t h q =
    let e = f.kv_mapping_table slot in
    elim (Bool-cases (is_used f slot)) [
      | inr u ↦ absurd (none≢some (some_inj (sym (find_key-miss fuel f key key_len slot u) ∙ q)))
      | inl u ↦ elim (Bool-cases (same_bytes key_len key e.key)) [
        | inl w ↦
            subst (λ j. (is_used f j ≡ true) × (j < f.hash_slots))
              (some_inj (some_inj (sym (find_key-hit fuel f key key_len slot u w) ∙ q))) (u, h)
        | inr w ↦ elim (Bool-cases (e.next_slot == no_slot)) [
          | inl n ↦
              absurd (none≢some (some_inj (sym (find_key-end fuel f key key_len slot u w n) ∙ q)))
          | inr n ↦
              let more = not_==→≢ e.next_slot no_slot n in
              find_key-used fuel f born now key key_len e.next_slot i t (t.linked slot h more)
                (sym (find_key-step fuel f key key_len slot u w more) ∙ q)
        ]
      ]
    ]

-- The value of a used slot is what it was.
value_at-same :
    (f f' : KvFtl) (s p i : ℕ)
    → IsNew f f' s p
    → is_used f i ≡ true
    → i ≢ no_slot
    → value_at f' (some i) ≡ value_at f (some i)
unfolding value_at
value_at-same f f' s p i k u n = elim (Slot-cases s p i) [
  | new_slot e ↦ absurd (not_new f f' s p i k u e)
  | tail_slot o e ↦
      subst (λ j. value_at f' (some j) ≡ value_at f (some j)) (sym e)
        (ap (λ (m : MappingEntry). some (m.mem_offset, m.length)) (k.chained (λ y. n (e ∙ y))))
  | old_slot o q ↦ ap (λ (m : MappingEntry). some (m.mem_offset, m.length)) (k.others i o q)
]

-- The values found are the same.
value_at-found :
    (f f' : KvFtl) (born : ℕ → ℕ) (now s p : ℕ) (key : ℕ → ℕ) (key_len : ℕ) (r : Option ℕ)
    → IsTable f born now
    → IsNew f f' s p
    → find_key (f.hash_slots + 1) f key key_len (get_hash_slot f key key_len) ≡ some r
    → value_at f' r ≡ value_at f r
unfolding value_at
value_at-found f f' born now s p key key_len none t k q = refl
value_at-found f f' born now s p key key_len (some i) t k q =
    let home = get_hash_slot-bound f key key_len t.some_slots in
    let (u, h) = find_key-used _ f born now key key_len _ i t home q in
    value_at-same f f' s p i k u (λ z. omega (arith, t.slots_fit, h, z))

-- The slot of a new mapping.
pub new_mapping_entry_by_key-found :
    (f : KvFtl) (born : ℕ → ℕ) (now goal : ℕ) (key : ℕ → ℕ) (key_len val_len val_offset : ℕ)
    → IsTable f born now
    → goal < f.hash_slots
    → is_used f goal ≡ false
    → key_len ≤ key_size
    → val_offset < f.storage_size
    → val_offset ≢ no_offset
    → find_mapping f key key_len ≡ some none
    → (f' : KvFtl) × (s : ℕ) × (new_mapping_entry_by_key f key key_len val_len val_offset ≡ some f')
      × IsTable f' (update born s now) (suc now)
      × (find_mapping f' key key_len ≡ some (some s))
      × ((f'.kv_mapping_table s).mem_offset ≡ val_offset)
      × ((f'.kv_mapping_table s).length ≡ val_len)
new_mapping_entry_by_key-found f born now goal key key_len val_len val_offset t g u fits inside v
      absent =
    let (f', s, p, q, k) =
      new_mapping_entry_by_key-IsStored f born now goal key key_len val_len val_offset t g u fits
        inside v in
    let t' = new-IsTable f f' born now s p t k.fresh k.added.hash_slots in
    let home = get_hash_slot f key key_len in
    let holds : same_bytes key_len key (f'.kv_mapping_table s).key ≡ true =
      ap (λ (m : MappingEntry). same_bytes key_len key m.key) k.added.added
      ∙ same_bytes-copy_bytes key_len key_len key _ (omega arith) in
    let chosen : (if same_bytes key_len key (f'.kv_mapping_table s).key then some s else none)
        ≡ some s =
      rw holds refl in
    let found : find_key (suc (f.hash_slots + 1)) f' key key_len home ≡ some (some s) =
      elim k.place [
        | inl (pn, e, w) ↦
            subst (λ i. find_key (suc (f.hash_slots + 1)) f' key key_len i ≡ some (some s)) e
              (find_key-new (f.hash_slots + 1) f f' s p key key_len k.fresh ∙ ap some chosen)
        | inr (e, w) ↦
            find_key-added (f.hash_slots + 1) f f' born now s p key key_len home no_slot t k.fresh
              (get_hash_slot-bound f key key_len t.some_slots) w e
              (sym (find_mapping-in f key key_len fits) ∙ absent)
            ∙ ap some chosen
      ] in
    let r =
      find_mapping-result f' _ _ key key_len home f.hash_slots (some s) t' fits k.added.hash_slots
        (get_hash_slot-same f f' key key_len k.added.hash_slots) found in
    (
      f',
      s,
      q,
      t',
      r,
      ap MappingEntry.mem_offset k.added.added,
      ap MappingEntry.length k.added.added,
    )

-- In a well-formed table with a free slot, storing a key of at most 18 bytes that the table does not
-- hold, with a value's offset that is inside the storage and not -1, succeeds and keeps the table well
-- formed; the key then has that offset and length.
pub new_mapping_entry_by_key-lookup :
    (f : KvFtl) (born : ℕ → ℕ) (now goal : ℕ) (key : ℕ → ℕ) (key_len val_len val_offset : ℕ)
    → IsTable f born now
    → goal < f.hash_slots
    → is_used f goal ≡ false
    → key_len ≤ key_size
    → val_offset < f.storage_size
    → val_offset ≢ no_offset
    → find_mapping f key key_len ≡ some none
    → (f' : KvFtl) × (s : ℕ) × (new_mapping_entry_by_key f key key_len val_len val_offset ≡ some f')
      × IsTable f' (update born s now) (suc now)
      × (lookup f' key key_len ≡ some (some (val_offset, val_len)))
unfolding lookup value_at
new_mapping_entry_by_key-lookup f born now goal key key_len val_len val_offset t g u fits inside v
      absent =
    let (f', s, q, t', r, o, l) =
      new_mapping_entry_by_key-found f born now goal key key_len val_len val_offset t g u fits
        inside v absent in
    (f', s, q, t', rw (r, o, l) refl)

-- In a well-formed table with a free slot, storing a key of at most 18 bytes, with a value's offset that
-- is inside the storage and not -1, succeeds and changes no other key of the same length: what the
-- table held for it, it still holds.
pub new_mapping_entry_by_key-others :
    (f : KvFtl) (born : ℕ → ℕ) (now goal : ℕ) (key : ℕ → ℕ) (key_len val_len val_offset : ℕ)
    (other : ℕ → ℕ)
    → IsTable f born now
    → goal < f.hash_slots
    → is_used f goal ≡ false
    → key_len ≤ key_size
    → val_offset < f.storage_size
    → val_offset ≢ no_offset
    → same_bytes key_len other key ≡ false
    → (f' : KvFtl) × (new_mapping_entry_by_key f key key_len val_len val_offset ≡ some f')
      × (lookup f' other key_len ≡ lookup f other key_len)
unfolding lookup
new_mapping_entry_by_key-others f born now goal key key_len val_len val_offset other t g u fits
      inside v differ =
    let (f', s, p, q, k) =
      new_mapping_entry_by_key-IsStored f born now goal key key_len val_len val_offset t g u fits
        inside v in
    let t' = new-IsTable f f' born now s p t k.fresh k.added.hash_slots in
    let home = get_hash_slot f other key_len in
    let below = get_hash_slot-bound f other key_len t.some_slots in
    let (r, e) =
      find_key-ends (f.hash_slots + 1) f born now other key_len home t below
        (steps-bound f born home below) in
    let misses : same_bytes key_len other (f'.kv_mapping_table s).key ≡ false =
      ap (λ (m : MappingEntry). same_bytes key_len other m.key) k.added.added
      ∙ same_bytes-copied key_len key_len other key _ (omega arith)
      ∙ differ in
    let after =
      find_mapping-result f' _ _ other key_len home f.hash_slots r t' fits k.added.hash_slots
        (get_hash_slot-same f f' other key_len k.added.hash_slots)
        (find_key-others (f.hash_slots + 1) f f' born now s p other key_len home r t k.fresh misses
          below e) in
    let before = find_mapping-in f other key_len fits ∙ e in
    (
      f',
      q,
      rw (before, after) (ap some (value_at-found f f' born now s p other key_len r t k.fresh e)),
    )
