-- ===== src/Kv/Commands.antt =====
-- NVMevirt/append_only.c and kv_ftl.c: the allocator of value space, which is the one that
-- ssd_config.h selects, and the commands on single keys. The host's buffer, which the command names by
-- its pages, is an array of bytes, and the bytes are copied at once.
use xharvest.Base.{
  ℕ, ◌+◌, ◌-◌, Option, some, ltb, leb, ◌==◌, if◌then◌else◌, min, ◌>>=◌, ◌&&◌, u64, not, none,
}
use xharvest.Kv.{
  KvFtl, KvCommand, MappingEntry, no_offset, cmd_value_length, get_mapping_entry, new_mapping_entry,
  update_mapping_entry, delete_mapping_entry,
}

pub record AppendOnly : Type 0 where
  pub latest : ℕ
  pub dev_size : ℕ
  pub total_written : ℕ

unfoldable pub append_only_allocator_init : ℕ → AppendOnly
append_only_allocator_init size = record { latest = 0; dev_size = size; total_written = 0 }

unfoldable pub append_only_allocate : AppendOnly → ℕ → ℕ × AppendOnly
append_only_allocate a length = (
  a.latest,
  record a { latest = u64 (a.latest + length); total_written = u64 (a.total_written + length) },
)

-- The mapping table, the allocator and the storage.
pub record KvDevice : Type 0 where
  pub ftl : KvFtl
  pub allocator : AppendOnly
  pub storage : ℕ → ℕ

-- `SMALL_LENGTH`, the opcodes and the status of a missing key.
abbrev pub small_length : ℕ
small_length = 1024

abbrev pub kv_store : ℕ
kv_store = 129

abbrev pub kv_retrieve : ℕ
kv_retrieve = 144

abbrev pub kv_delete : ℕ
kv_delete = 161

abbrev pub kv_exist : ℕ
kv_exist = 179

abbrev pub key_not_exist : ℕ
key_not_exist = 784

unfoldable pub allocate_mem_offset : KvDevice → KvCommand → ℕ × KvDevice
allocate_mem_offset d cmd =
    let (offset, a) = append_only_allocate d.allocator (cmd_value_length cmd) in
    if cmd.opcode == kv_store
    then (if offset == no_offset then 0 else offset, record d { allocator = a })
    else (0, d)

-- `memcpy(to + start, from, n)`
abbrev pub copy_at : (ℕ → ℕ) → ℕ → (ℕ → ℕ) → ℕ → ℕ → ℕ
copy_at to start from n j = if leb start j && ltb j (start + n) then from (j - start) else to j

-- A `memcpy` into the storage. Behind the storage lies the mapping table: past its end is a fault.
unfoldable pub write_storage : KvDevice → ℕ → (ℕ → ℕ) → ℕ → Option KvDevice
write_storage d offset from n =
    let written = record d { storage = copy_at d.storage offset from n } in
    if leb (offset + n) d.ftl.storage_size then some written else none

-- What a command leaves: its status, its result, the device and the host's buffer.
pub record KvReply : Type 0 where
  pub status : ℕ
  pub result : ℕ
  pub device : KvDevice
  pub host : ℕ → ℕ

-- A store of a key that the table does not hold, and of one that it holds: in its place.
unfoldable pub store_new : KvDevice → KvCommand → (ℕ → ℕ) → ℕ → Option KvReply
store_new d cmd host status = do
  let (offset, d1) = allocate_mem_offset d cmd
  d2 ← write_storage d1 offset host (cmd_value_length cmd)
  ftl ← new_mapping_entry d2.ftl cmd offset
  some (record { status = status; result = 0; device = record d2 { ftl = ftl }; host = host })

unfoldable pub store_again : KvDevice → KvCommand → MappingEntry → (ℕ → ℕ) → ℕ → Option KvReply
store_again d cmd e host status = do
  let length = cmd_value_length cmd
  d1 ← write_storage d e.mem_offset host length
  let resized = do
    (code, ftl) ← update_mapping_entry d1.ftl cmd
    some (record { status = status; result = 0; device = record d1 { ftl = ftl }; host = host })
  let small = leb length small_length && leb e.length small_length
  if not (length == e.length) && small
      then resized
      else some (record { status = status; result = 0; device = d1; host = host })

unfoldable pub retrieve : KvDevice → KvCommand → MappingEntry → (ℕ → ℕ) → ℕ → Option KvReply
retrieve d cmd e host status =
    let length = min e.length (cmd_value_length cmd) in
    let reply : KvReply = record {
      status = status;
      result = length;
      device = d;
      host = copy_at host 0 (λ j. d.storage (e.mem_offset + j)) length;
    } in
    if leb (e.mem_offset + length) d.ftl.storage_size then some reply else none

unfoldable pub delete_key : KvDevice → KvCommand → (ℕ → ℕ) → ℕ → Option KvReply
delete_key d cmd host status = do
  (e, ftl) ← delete_mapping_entry d.ftl cmd
  some (record { status = status; result = 0; device = record d { ftl = ftl }; host = host })

-- By the opcode; `e` is what the table holds for the key, and `status` what the caller has put there.
unfoldable pub perform_on : KvDevice → KvCommand → MappingEntry → (ℕ → ℕ) → ℕ → Option KvReply
perform_on d cmd e host status =
    let absent = e.mem_offset == no_offset in
    let same : KvReply = record { status = status; result = 0; device = d; host = host } in
    let missing : KvReply = record same { status = key_not_exist } in
    if cmd.opcode == kv_store
    then if absent then store_new d cmd host status else store_again d cmd e host status
    else if cmd.opcode == kv_retrieve
    then if absent then some missing else retrieve d cmd e host status
    else if cmd.opcode == kv_exist
    then some (if absent then missing else same)
    else if cmd.opcode == kv_delete
    then if absent then some missing else delete_key d cmd host status
    else some same

unfoldable pub perform_kv_io : KvDevice → KvCommand → (ℕ → ℕ) → ℕ → Option KvReply
perform_kv_io d cmd host status = do e ← get_mapping_entry d.ftl cmd; perform_on d cmd e host status
