-- ===== src/Lib.antt =====
-- XHarvest's emulated SSD: the parts of NVMevirt, the kernel module that answers NVMe commands from
-- memory with the timing of a real device. An FTL (zoned or conventional) checks a command, changes its
-- tables and asks the SSD model when the NAND operations end; the SSD model asks the channel model of
-- each NAND channel and of the PCIe link when a transfer ends. A request with its end time, or the
-- release of a buffer, then waits in the queue of an I/O worker, which completes it when it is due. The
-- key-value FTL keeps a mapping table from keys to offsets.
--
-- Files and code (paths from the repository's root):
--   Base                  Boolean tests, 8-, 32- and 64-bit arithmetic, arrays as functions
--   Channel               NVMevirt/channel_model.h and channel_model.c, whole; Channel/Transfer and
--                         Channel/Request prove
--   Ssd/Params            NVMevirt/ssd.c, ssd_init_params; the constants of ssd_config.h are a record
--   Ssd/Buffer            NVMevirt/ssd.c, the write buffer
--   Ssd/Nand              NVMevirt/ssd.h and ssd.c, addresses and the tree of channels down to pages
--   Ssd/Timing            NVMevirt/ssd.c, ssd_advance_nand and what it calls, ssd_next_idle_time
--   Conv                  NVMevirt/conv_ftl.h and conv_ftl.c, page numbers, both maps, the walk of the
--                         write pointer over a line; Conv/Index and Conv/Pointer prove
--   Conv/Lines            NVMevirt/conv_ftl.c, the marks of pages and blocks with their counters
--   Conv/Ftl              NVMevirt/conv_ftl.c, the whole state of an instance, its initial value, credits,
--                         write pointers and their lines
--   Conv/Gc               NVMevirt/conv_ftl.c, garbage collection, from do_gc down to gc_write_page
--   Conv/Io               NVMevirt/conv_ftl.c, a namespace of instances, conv_read, the loop of conv_write
--   Conv/Commands         NVMevirt/conv_ftl.c, conv_write, conv_flush, conv_proc_nvme_io_cmd
--   Conv/Mapped           the invariant of the maps, the pages, the pointers and the victims; a child for
--                         each part of the code that keeps it, up to Serving for the commands
--   Kv                    NVMevirt/kv_ftl.c and kv_ftl.h, the mapping table; Kv/Walk, Kv/Probe, Kv/Lookup
--                         and Kv/Store prove what Kv/Map and Kv/Delete state
--   Kv/Commands           NVMevirt/append_only.c, the allocator of value space, and kv_ftl.c,
--                         __do_perform_kv_io; Kv/Retrieve proves
--   Kv/Batch              NVMevirt/kv_ftl.c, __do_perform_kv_batched_io, one store of a batch
--   Kv/Bitmap             NVMevirt/bitmap.c, the allocator of slots, over the kernel's bitmap calls;
--                         Kv/Regions proves
--   WorkQueue             NVMevirt/io.c and nvmev.h, the queues of the I/O workers: allocation, sorted
--                         insertion, reclaiming, set-up; WorkQueue/Spec is the lists that they stand for,
--                         WorkQueue/Chain and WorkQueue/Splice the linked lists in an array
--   WorkQueue/Pass        NVMevirt/io.c, nvmev_io_worker, one pass over the queue
--   WorkQueue/Completion  NVMevirt/io.c, __fill_cq_result
--   Simple                NVMevirt/simple_ftl.c, the times of the I/O units
--   Zns                   NVMevirt/zns_ftl.h and nvme_zns.h, zones, resources, address arithmetic
--   Zns/Init              NVMevirt/zns_ftl.c, the initial state
--   Zns/Manage            NVMevirt/zns_mgmt_send.c, all actions; its children prove
--   Zns/Io                NVMevirt/zns_read_write.c: admission of writes; Zns/Io/Transfer the plain
--                         write, Zns/Io/Zrwa the write to a random write area, Zns/Io/Read the read
--   Tests in each part    the configurations of the Samsung 970 PRO and of the WD ZN540
--
-- Conventions. A definition has the name of the C function without leading underscores; a piece of a
-- long function that has a name of its own says which one it is. State is passed and returned. The
-- result `none` is a fault: a failed assertion, a division by 0, and where a definition says so a place past the
-- end of an array, of the storage or of an `int`. NVMEV_ASSERT
-- is modelled as in a build with CONFIG_ASSERT, where it stops; without it the code goes on. ASSERT is
-- always compiled. Readings of the clock are arguments. Unsigned arithmetic keeps its wrap-around
-- (u8, u32, u64, sub32, sub64). Of the geometry, the quotients of ssd_init_params are cut to the 32 bits
-- of an `int`, and a product past 2^31 is a fault. C arrays are functions of the index; the tree of
-- channels, dies and blocks, and the tables of zones, have no test of the index, and a theorem that needs
-- one to be inside says so. The static maps of the bitmap allocator have the bounds of bitmap.c, and a
-- value of a key that does not fit before the end of the storage is a fault.
-- The write buffer's spin lock is held for each whole operation, so each is one step.
--
-- Bounds and fuel. The loop of chmodel_request has the 98304 entries of its array as fuel; each round
-- moves one entry on and it stops before the head. The loop of a NAND read has its bytes as fuel, since
-- each round transfers at least one. The page loops of zone commands have their pages as fuel, since each
-- round takes at least one. The loop over I/O units has the length in bytes as fuel. The loops over a
-- worker's queue have one step more than there are entries as fuel, since a queue has no entry twice;
-- those over a chain of the mapping table one more than there are slots, since a link leads to an entry
-- that is younger. Times below 2^61 ns, about 73 years, and latencies below 2^32 ns keep sums below 2^64.
--
-- The queue of victim lines is a library's priority queue over the lines, which writes a line's position
-- and priority through callbacks. It is a parameter, with the laws that it touches nothing else, that a
-- line comes in by an insertion alone, and that the first is one of those in it.
--
-- The instances of a conventional namespace share the PCIe link and the write buffer, which the namespace
-- keeps and hands to the instance that is at work. An instance counts its NAND commands; the count picks
-- the readings of the clock that a command makes. The loops of garbage collection and of the commands are
-- structural. A command has no reply if an assertion fails, as when a write finds no free line.
--
-- The worker of a submission queue is its number less 1, modulo the workers, as nvmev.h chooses by
-- CONFIG_NVMEV_IO_WORKER_BY_SQ; the turn is kept but chooses none. A worker's queue is changed by the
-- dispatcher and read by the worker at once; here each operation, and each visit of an entry, is one step.
--
-- Not modelled: memory allocation and freeing, log messages and statistics, copying of the data of a
-- command, the admin commands, the PCI registers, DMA and threads, which are calls of the kernel; the
-- enclave's FTL, which is C++. Of the conventional FTL, the size of the namespace and the functions that
-- nothing calls (should_gc, gc_read_page, clean_one_block) are left out; of the key-value FTL, the payload
-- of a batch, iterators, and the pages that a command lists for its value, which are one array here; of the
-- I/O path, the rings between dispatchers and FTL threads, and the status and result that a command of
-- the key-value SSD writes into the entry of its worker while it is copied. The report of zones is not
-- modelled.
pub mod Base
pub mod Channel
pub mod Conv
pub mod Kv
pub mod Simple
pub mod Ssd
pub mod WorkQueue
pub mod Zns
