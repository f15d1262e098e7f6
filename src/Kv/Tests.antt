-- ===== src/Kv/Tests.antt =====
-- A table of two slots: empty, and with the keys `[1]` and `[3]`, which share a home, in one chain.
use xharvest.Base.{
  ℕ, suc, ◌+◌, ◌≡◌, ◌≢◌, ◌≤◌, ◌<◌, false, none, some, refl, arith, update, ◌==◌, if◌then◌else◌,
}
use xharvest.Kv.{
  KvFtl, KvCommand, MappingEntry, no_slot, no_offset, find_mapping, find_key, get_hash_slot,
  hash_function, xor_bits, same_bytes, init_mapping_table, new_mapping_entry_by_key,
  delete_mapping_entry, erased_entry, cmd_key_length, is_used,
}
use xharvest.Kv.Walk.{IsTable, init_mapping_table-IsTable}
use xharvest.Kv.Map.{lookup, new_mapping_entry_by_key-lookup, new_mapping_entry_by_key-others}
use xharvest.Kv.Delete.{delete_mapping_entry-gone, delete_mapping_entry-loses}
use xharvest.Kv.Commands.{KvDevice, append_only_allocate, append_only_allocator_init}
use xharvest.Kv.Batch.{perform_kv_batched_io, perform_kv_batched_io-stores}

abbrev one : ℕ → ℕ
one i = 1

abbrev three : ℕ → ℕ
three i = 3

abbrev empty : KvFtl
empty = init_mapping_table 2 4096

empty-IsTable : IsTable empty (λ i. 0) 0
empty-IsTable = init_mapping_table-IsTable 2 4096 (omega arith) (omega arith)

same_home : (get_hash_slot empty one 1 ≡ 0) × (get_hash_slot empty three 1 ≡ 0)
unfolding get_hash_slot hash_function xor_bits init_mapping_table
same_home = (refl, refl)

one_absent : find_mapping empty one 1 ≡ some none
unfolding find_mapping find_key get_hash_slot hash_function xor_bits init_mapping_table
one_absent = refl

one_free : is_used empty 0 ≡ false
unfolding init_mapping_table
one_free = refl

in_storage : 100 < empty.storage_size
unfolding init_mapping_table
in_storage = omega arith

in_slots : 0 < empty.hash_slots
unfolding init_mapping_table
in_slots = omega arith

real_offset : 100 ≢ no_offset
real_offset e = omega (arith, e)

short_key : 1 ≤ 18
short_key = omega arith

new_mapping_entry_by_key-lookup_example :
    (f' : KvFtl) × (s : ℕ) × (new_mapping_entry_by_key empty one 1 64 100 ≡ some f')
    × IsTable f' (update (λ i. 0) s 0) 1
    × (lookup f' one 1 ≡ some (some (100, 64)))
new_mapping_entry_by_key-lookup_example =
    new_mapping_entry_by_key-lookup empty (λ i. 0) 0 0 one 1 64 100 empty-IsTable in_slots one_free
      short_key in_storage real_offset one_absent

other_key : same_bytes 1 three one ≡ false
unfolding same_bytes
other_key = refl

new_mapping_entry_by_key-others_example :
    (f' : KvFtl) × (new_mapping_entry_by_key empty one 1 64 100 ≡ some f')
    × (lookup f' three 1 ≡ lookup empty three 1)
new_mapping_entry_by_key-others_example =
    new_mapping_entry_by_key-others empty (λ i. 0) 0 0 one 1 64 100 three empty-IsTable in_slots
      one_free short_key in_storage real_offset other_key

abbrev first_entry : MappingEntry
first_entry = record { key = one; mem_offset = 0; next_slot = 1; length = 64 }

abbrev second_entry : MappingEntry
second_entry = record { key = three; mem_offset = 64; next_slot = no_slot; length = 64 }

abbrev chained : KvFtl
chained = record {
  kv_mapping_table = λ i. if i == 0 then first_entry else second_entry;
  hash_slots = 2;
  storage_size = 4096;
}

chained-IsTable : IsTable chained (λ i. i) 2
chained-IsTable = record {
  some_slots = omega arith;
  slots_fit = omega arith;
  linked = λ i h n. ground arith;
  younger = λ i h u v n. ground arith;
  past = λ i h u. h;
  unlinked = λ i h u. ground arith;
}

abbrev delete_one : KvCommand
delete_one = record { opcode = 161; key = one; key_len = 0; value_len = 0 }

one_found : find_mapping chained one (cmd_key_length delete_one) ≡ some (some 0)
unfolding find_mapping find_key get_hash_slot hash_function xor_bits cmd_key_length same_bytes
one_found = refl

three_found : find_mapping chained three 1 ≡ some (some 1)
unfolding find_mapping find_key get_hash_slot hash_function xor_bits same_bytes
three_found = refl

three_home : get_hash_slot chained three 1 ≡ 0
unfolding get_hash_slot hash_function xor_bits
three_home = refl

delete_fits : cmd_key_length delete_one ≤ 18
unfolding cmd_key_length
delete_fits = omega arith

second_slot : suc 0 ≢ 0
second_slot e = omega (arith, e)

delete_mapping_entry-gone_example :
    (f' : KvFtl) × (delete_mapping_entry chained delete_one ≡ some (erased_entry, f'))
    × IsTable f' (λ i. i) 2
    × (find_mapping f' one (cmd_key_length delete_one) ≡ some none)
delete_mapping_entry-gone_example =
    delete_mapping_entry-gone chained (λ i. i) 2 0 delete_one chained-IsTable delete_fits one_found

delete_mapping_entry-loses_example :
    (f' : KvFtl) × (delete_mapping_entry chained delete_one ≡ some (erased_entry, f'))
    × (f'.kv_mapping_table 1 ≡ second_entry)
    × (find_mapping f' three 1 ≡ some none)
delete_mapping_entry-loses_example =
    delete_mapping_entry-loses chained delete_one 0 1 three 1 short_key one_found three_home
      three_found second_slot

-- After 100 bytes have been allocated.
abbrev device : KvDevice
device = record {
  ftl = empty;
  allocator = (append_only_allocate (append_only_allocator_init 4096) 100).1;
  storage = λ i. 0;
}

abbrev store_one : KvCommand
store_one = record { opcode = 129; key = one; key_len = 0; value_len = 16 }

abbrev get_one : KvCommand
get_one = record { opcode = 144; key = one; key_len = 0; value_len = 3 }

allocated : (device.allocator.latest ≡ 100)
unfolding append_only_allocate append_only_allocator_init
allocated = refl

device_in_storage : device.allocator.latest < empty.storage_size
unfolding init_mapping_table append_only_allocate append_only_allocator_init
device_in_storage = omega arith

batch_fits : device.allocator.latest + 16 ≤ empty.storage_size
unfolding init_mapping_table append_only_allocate append_only_allocator_init
batch_fits = omega arith

device_real_offset : device.allocator.latest ≢ no_offset
device_real_offset e = omega (arith, e, allocated)

perform_kv_batched_io-stores_example :
    (d' : KvDevice) × (s : ℕ) × (perform_kv_batched_io device 129 one 1 (λ i. i) 16 ≡ some d')
    × IsTable d'.ftl (update (λ i. 0) s 0) 1
    × (lookup d'.ftl one 1 ≡ some (some (device.allocator.latest, 16)))
    × ((j : ℕ) → j < 16 → d'.storage (device.allocator.latest + j) ≡ j)
perform_kv_batched_io-stores_example =
    perform_kv_batched_io-stores device (λ i. 0) 0 0 one 1 (λ i. i) 16 empty-IsTable in_slots
      one_free short_key device_in_storage batch_fits device_real_offset one_absent
