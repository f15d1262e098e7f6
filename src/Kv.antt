-- ===== src/Kv.antt =====
-- NVMevirt/kv_ftl.c and kv_ftl.h: the key-value FTL's mapping table, a hash table whose collisions are
-- chained through the table itself. A key is a buffer of bytes with a length. An entry keeps 18 bytes of
-- a key: a longer one is read and written past them, which has no result here.
pub mod Walk
pub mod Probe
pub mod Insert
pub mod Lookup
pub mod Store
pub mod Map
pub mod Delete
pub mod Commands
pub mod Retrieve
pub mod Bitmap
pub mod Regions
pub mod Batch
mod Slots
mod Tests
use xharvest.Base.{
  ℕ, zero, suc, ◌+◌, ◌*◌, ◌%◌, ◌≡◌, Bool, true, false, Option, none, some, ltb, leb, ◌==◌,
  if◌then◌else◌, update, ◌>>=◌, ◌&&◌, ◌||◌, not, u32, u8, ◌/◌,
}

-- The offset and the slot `-1`.
abbrev pub no_offset : ℕ
no_offset = 18446744073709551615

abbrev pub no_slot : ℕ
no_slot = 4294967295

pub record MappingEntry : Type 0 where
  pub key : ℕ → ℕ
  pub mem_offset : ℕ
  pub next_slot : ℕ
  pub length : ℕ

-- The fields of `struct kv_ftl` that the mapping uses, and the configured size of the storage.
pub record KvFtl : Type 0 where
  pub kv_mapping_table : ℕ → MappingEntry
  pub hash_slots : ℕ
  pub storage_size : ℕ

-- `memset(entry, -1, sizeof(*entry))`
unfoldable pub erased_entry : MappingEntry
erased_entry = record {
  key = λ i. 255;
  mem_offset = no_offset;
  next_slot = no_slot;
  length = no_offset;
}

-- `memcmp(a, b, n) == 0`
unfoldable pub same_bytes : ℕ → (ℕ → ℕ) → (ℕ → ℕ) → Bool
same_bytes zero a b = true
same_bytes (suc n) a b = (a n == b n) && same_bytes n a b

-- `memcpy(to, from, n)`
unfoldable pub copy_bytes : ℕ → (ℕ → ℕ) → (ℕ → ℕ) → ℕ → ℕ
copy_bytes n from to i = if ltb i n then from i else to i

-- Exclusive or of two numbers of `w` bits.
unfoldable pub xor_bits : ℕ → ℕ → ℕ → ℕ
xor_bits zero a b = 0
xor_bits (suc w) a b = (a + b) % 2 + 2 * xor_bits w (a / 2) (b / 2)

-- The bytes in their order; each is an unsigned char.
unfoldable pub hash_function : (ℕ → ℕ) → ℕ → ℕ
hash_function key zero = 2166136261
hash_function key (suc length) =
    xor_bits 32 (u32 (hash_function key length * 16777619)) (u8 (key length))

abbrev pub key_size : ℕ
key_size = 18

unfoldable pub get_hash_slot : KvFtl → (ℕ → ℕ) → ℕ → ℕ
get_hash_slot f key key_len = hash_function key key_len % f.hash_slots

abbrev pub is_used : KvFtl → ℕ → Bool
is_used f i = not ((f.kv_mapping_table i).mem_offset == no_offset)

unfoldable pub chain_mapping : KvFtl → ℕ → ℕ → KvFtl
chain_mapping f prev slot = record f {
  kv_mapping_table =
      update f.kv_mapping_table prev (record (f.kv_mapping_table prev) { next_slot = slot });
}

-- The last slot of the chain: the first loop of `find_next_slot`. Here and below, `none` is a loop
-- that does not end within the fuel.
unfoldable pub find_tail : ℕ → KvFtl → ℕ → ℕ → Option ℕ
find_tail zero f tail prevs = none
find_tail (suc fuel) f tail prevs =
    let next = (f.kv_mapping_table tail).next_slot in
    let rest = find_tail fuel f next tail in
    if is_used f tail then if next == no_slot then some tail else rest else some prevs

-- The next free slot, in a circle: the second loop.
unfoldable pub find_free : ℕ → KvFtl → ℕ → Option ℕ
find_free zero f slot = none
find_free (suc fuel) f slot =
    let next = u32 (slot + 1) in
    let rest = find_free fuel f (if leb f.hash_slots next then 0 else next) in
    if is_used f slot then rest else some slot

-- The slot for a new entry, and the one it is chained to.
unfoldable pub find_next_slot : KvFtl → ℕ → Option (ℕ × ℕ)
find_next_slot f original_slot = do
  prev ← find_tail (f.hash_slots + 1) f original_slot no_slot
  slot ← find_free (f.hash_slots + 1) f prev
  some (slot, prev)

-- The fields of a new entry are written; its `next_slot` stays.
unfoldable pub write_entry : KvFtl → ℕ → (ℕ → ℕ) → ℕ → ℕ → ℕ → KvFtl
write_entry f slot key key_len val_len val_offset =
    let e = f.kv_mapping_table slot in
    record f {
      kv_mapping_table = update f.kv_mapping_table slot (record e {
        key = copy_bytes key_len key e.key;
        mem_offset = val_offset;
        length = val_len;
      });
    }

-- The slot that the entry gets, and whom it is chained to (`no_slot` for no one).
unfoldable pub choose_slot : KvFtl → ℕ → Option (ℕ × ℕ)
choose_slot f slot = if is_used f slot then find_next_slot f slot else some (slot, no_slot)

unfoldable pub link_new : KvFtl → ℕ → ℕ → KvFtl
link_new f slot prev = if prev == no_slot then f else chain_mapping f prev slot

-- `none` also stands for the failed `BUG_ON`.
unfoldable pub new_mapping_entry_by_key : KvFtl → (ℕ → ℕ) → ℕ → ℕ → ℕ → Option KvFtl
new_mapping_entry_by_key f key key_len val_len val_offset =
    if not (ltb val_offset f.storage_size) || ltb key_size key_len then none else do
      (slot, prev) ← choose_slot f (get_hash_slot f key key_len)
      some (link_new (write_entry f slot key key_len val_len val_offset) slot prev)

-- A command: its key has `key_len + 1` bytes and its value `value_len` words.
pub record KvCommand : Type 0 where
  pub opcode : ℕ
  pub key : ℕ → ℕ
  pub key_len : ℕ
  pub value_len : ℕ

unfoldable pub cmd_key_length : KvCommand → ℕ
cmd_key_length cmd = cmd.key_len + 1

unfoldable pub cmd_value_length : KvCommand → ℕ
cmd_value_length cmd = u32 (cmd.value_len * 4)

unfoldable pub new_mapping_entry : KvFtl → KvCommand → ℕ → Option KvFtl
new_mapping_entry f cmd val_offset =
    new_mapping_entry_by_key f cmd.key (cmd_key_length cmd) (cmd_value_length cmd) val_offset

-- The loop of the four functions below: the slot that holds the key, if the walk meets it.
unfoldable pub find_key : ℕ → KvFtl → (ℕ → ℕ) → ℕ → ℕ → Option (Option ℕ)
find_key zero f key key_len slot = none
find_key (suc fuel) f key key_len slot =
    let e = f.kv_mapping_table slot in
    let rest = find_key fuel f key key_len e.next_slot in
    if not (is_used f slot)
    then some none
    else if same_bytes key_len key e.key
    then some (some slot)
    else if e.next_slot == no_slot
    then some none
    else rest

unfoldable pub find_mapping : KvFtl → (ℕ → ℕ) → ℕ → Option (Option ℕ)
find_mapping f key key_len =
    if ltb key_size key_len
    then none
    else find_key (f.hash_slots + 1) f key key_len (get_hash_slot f key key_len)

-- What a look-up returns for the slot: an erased entry when there is none.
unfoldable pub copied_entry : KvFtl → ℕ → Option ℕ → MappingEntry
copied_entry f key_len none = erased_entry
copied_entry f key_len (some slot) =
    let e = f.kv_mapping_table slot in record e { key = copy_bytes key_len e.key erased_entry.key }

unfoldable pub get_mapping_entry_by_key : KvFtl → (ℕ → ℕ) → ℕ → Option MappingEntry
get_mapping_entry_by_key f key key_len = do
  found ← find_mapping f key key_len
  some (copied_entry f key_len found)

unfoldable pub get_mapping_entry : KvFtl → KvCommand → Option MappingEntry
get_mapping_entry f cmd = do
  found ← find_mapping f cmd.key (cmd_key_length cmd)
  some (copied_entry f (cmd_key_length cmd) found)

-- The slot's length is set; the number is the function's result.
unfoldable pub update_found : KvFtl → ℕ → Option ℕ → ℕ × KvFtl
update_found f length none = (1, f)
update_found f length (some slot) = (
  0,
  record f {
    kv_mapping_table =
        update f.kv_mapping_table slot (record (f.kv_mapping_table slot) { length = length });
  },
)

unfoldable pub update_mapping_entry : KvFtl → KvCommand → Option (ℕ × KvFtl)
update_mapping_entry f cmd = do
  found ← find_mapping f cmd.key (cmd_key_length cmd)
  some (update_found f (cmd_value_length cmd) found)

unfoldable pub delete_found : KvFtl → Option ℕ → KvFtl
delete_found f none = f
delete_found f (some slot) = record f {
  kv_mapping_table = update f.kv_mapping_table slot erased_entry;
}

-- It returns the erased entry, whatever it deletes.
unfoldable pub delete_mapping_entry : KvFtl → KvCommand → Option (MappingEntry × KvFtl)
delete_mapping_entry f cmd = do
  found ← find_mapping f cmd.key (cmd_key_length cmd)
  some (erased_entry, delete_found f found)

-- `kv_init_namespace`: every slot is free. The table was filled with zeros before.
unfoldable pub init_mapping_table : ℕ → ℕ → KvFtl
init_mapping_table hash_slots storage_size = record {
  kv_mapping_table =
      λ i. record { key = λ j. 0; mem_offset = no_offset; next_slot = no_slot; length = no_offset };
  hash_slots = hash_slots;
  storage_size = storage_size;
}
