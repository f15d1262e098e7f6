-- ===== src/Kv/Batch.antt =====
-- NVMevirt/kv_ftl.c, __do_perform_kv_batched_io: one store of a batch. Its update of a length is
-- commented out there.
use xharvest.Base.{
  ℕ, suc, ◌+◌, ◌-◌, ◌≡◌, ◌≢◌, ◌<◌, ◌≤◌, true, false, Option, none, some, ltb, leb, ◌==◌, ◌&&◌,
  if◌then◌else◌, ◌>>=◌, update, refl, arith, ≢→==,
}
use xharvest.Kv.{
  no_offset, key_size, is_used, find_mapping, erased_entry, copied_entry, get_mapping_entry_by_key,
  new_mapping_entry_by_key,
}
use xharvest.Kv.Walk.{IsTable}
use xharvest.Kv.Map.{lookup, new_mapping_entry_by_key-lookup}
use xharvest.Kv.Commands.{KvDevice, append_only_allocate, kv_store, copy_at, write_storage}

unfoldable pub allocate_mem_offset_by_length : KvDevice → ℕ → ℕ × KvDevice
allocate_mem_offset_by_length d val_len =
    let (offset, a) = append_only_allocate d.allocator val_len in
    (if offset == no_offset then 0 else offset, record d { allocator = a })

unfoldable pub batched_new : KvDevice → (ℕ → ℕ) → ℕ → (ℕ → ℕ) → ℕ → Option KvDevice
batched_new d key key_len value val_len = do
  let (offset, d1) = allocate_mem_offset_by_length d val_len
  d2 ← write_storage d1 offset value val_len
  ftl ← new_mapping_entry_by_key d2.ftl key key_len val_len offset
  some (record d2 { ftl = ftl })

unfoldable pub perform_kv_batched_io : KvDevice → ℕ → (ℕ → ℕ) → ℕ → (ℕ → ℕ) → ℕ → Option KvDevice
perform_kv_batched_io d opcode key key_len value val_len = do
  e ← get_mapping_entry_by_key d.ftl key key_len
  let again = write_storage d e.mem_offset value val_len
  let fresh = batched_new d key key_len value val_len
  if opcode == kv_store then (if e.mem_offset == no_offset then fresh else again) else some d

written_at :
    (storage value : ℕ → ℕ) (offset n j : ℕ)
    → j < n
    → copy_at storage offset value n (offset + j) ≡ value j
written_at storage value offset n j h =
    let back : offset + j - offset ≡ j = omega arith in
    let inside : (leb offset (offset + j) && ltb (offset + j) (offset + n)) ≡ true = ground arith in
    rw (inside, back) refl

-- A batch's store of a key of at most 18 bytes that the table does not hold, when a slot is free and the
-- value fits between the allocator's offset and the end of the storage, keeps the table well formed; the
-- table then has the value's offset and length for the key, and the value is stored there.
pub perform_kv_batched_io-stores :
    (d : KvDevice) (born : ℕ → ℕ) (now goal : ℕ) (key : ℕ → ℕ) (key_len : ℕ) (value : ℕ → ℕ)
    (val_len : ℕ)
    → IsTable d.ftl born now
    → goal < d.ftl.hash_slots
    → is_used d.ftl goal ≡ false
    → key_len ≤ key_size
    → d.allocator.latest < d.ftl.storage_size
    → d.allocator.latest + val_len ≤ d.ftl.storage_size
    → d.allocator.latest ≢ no_offset
    → find_mapping d.ftl key key_len ≡ some none
    → (d' : KvDevice) × (s : ℕ) × (perform_kv_batched_io d kv_store key key_len value val_len
        ≡ some d')
      × IsTable d'.ftl (update born s now) (suc now)
      × (lookup d'.ftl key key_len ≡ some (some (d.allocator.latest, val_len)))
      × ((j : ℕ) → j < val_len → d'.storage (d.allocator.latest + j) ≡ value j)
unfolding perform_kv_batched_io batched_new allocate_mem_offset_by_length append_only_allocate
    get_mapping_entry_by_key copied_entry erased_entry write_storage
perform_kv_batched_io-stores d born now goal key key_len value val_len t g u fits inside whole real
      absent =
    let (f', s, q, t', l) =
      new_mapping_entry_by_key-lookup d.ftl born now goal key key_len val_len d.allocator.latest t g
        u fits inside real absent in
    let room : leb (d.allocator.latest + val_len) d.ftl.storage_size ≡ true = ground arith in
    let d' : KvDevice = record d {
      ftl = f';
      allocator = (append_only_allocate d.allocator val_len).1;
      storage = copy_at d.storage d.allocator.latest value val_len;
    } in
    (
      d',
      s,
      rw (absent, ≢→== d.allocator.latest no_offset real, room, q) refl,
      t',
      l,
      λ j h. written_at d.storage value d.allocator.latest val_len j h,
    )
