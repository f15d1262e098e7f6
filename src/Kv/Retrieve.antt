-- ===== src/Kv/Retrieve.antt =====
-- NVMevirt/kv_ftl.c, __do_perform_kv_io: a value that has been stored is retrieved.
