-- ===== src/WorkQueue.antt =====
-- NVMevirt/io.c and nvmev.h: the I/O workers' queues. A worker keeps all its entries in one array; the
-- requests in flight are a doubly linked list of indices, the free entries a singly linked one.
-- The fields that only PERF_DEBUG writes are left out. A signed field holds the numbers from 0 on.
pub mod Chain
pub mod Spec
pub mod Splice
pub mod Insert
pub mod Enqueue
pub mod Reclaim
pub mod Order
pub mod Device
pub mod Init
pub mod Pass
pub mod Serve
pub mod Completion
mod Tests
use xharvest.Base.{
  ℕ, zero, suc, ◌+◌, ◌-◌, ◌≡◌, Bool, true, false, Option, none, some, leb, ◌==◌, if◌then◌else◌,
  update, ◌>>=◌, ◌&&◌, not, u32, sub32, ◌%◌,
}

-- `NR_MAX_PARALLEL_IO`, and the index `-1` of an unsigned int.
abbrev pub nr_max_parallel_io : ℕ
nr_max_parallel_io = 16384

abbrev pub no_entry : ℕ
no_entry = 4294967295

pub record IoWork : Type 0 where
  pub sqid : ℕ
  pub cqid : ℕ
  pub sq_entry : ℕ
  pub command_id : ℕ
  pub nsecs_start : ℕ
  pub nsecs_target : ℕ
  pub nsecs_enqueue : ℕ
  pub is_copied : Bool
  pub is_completed : Bool
  pub status : ℕ
  pub result0 : ℕ
  pub result1 : ℕ
  pub is_internal : Bool
  pub write_buffer : ℕ
  pub buffs_to_release : ℕ
  pub next : ℕ
  pub prev : ℕ

pub record IoWorker : Type 0 where
  pub work_queue : ℕ → IoWork
  pub free_seq : ℕ
  pub free_seq_end : ℕ
  pub io_seq : ℕ
  pub io_seq_end : ℕ
  pub latest_nsecs : ℕ

-- `w->next = i` and `w->prev = i`
abbrev pub set_next : (ℕ → IoWork) → ℕ → ℕ → ℕ → IoWork
set_next wq j i = update wq j (record (wq j) { next = i })

abbrev pub set_prev : (ℕ → IoWork) → ℕ → ℕ → ℕ → IoWork
set_prev wq j i = update wq j (record (wq j) { prev = i })

-- The walk from the tail stops at an entry that is due, or that is not after the new one.
abbrev pub stops : ℕ → ℕ → ℕ → Bool
stops latest target t = if leb t latest then true else leb t target

-- `none`: the fuel is used up.
unfoldable pub find_place : ℕ → (ℕ → IoWork) → ℕ → ℕ → ℕ → Option ℕ
find_place zero wq latest target curr = none
find_place (suc fuel) wq latest target curr =
    let rest = find_place fuel wq latest target (wq curr).prev in
    if curr == no_entry
    then some no_entry
    else if stops latest target (wq curr).nsecs_target
    then some curr
    else rest

-- The entry is linked in after `curr`.
unfoldable pub link_entry : IoWorker → ℕ → ℕ → IoWorker
link_entry w entry curr =
    let wq = w.work_queue in
    let after = (wq curr).next in
    let head = set_next (set_prev wq w.io_seq entry) entry w.io_seq in
    let tail = set_next (set_prev wq entry curr) curr entry in
    let between = set_next (set_prev wq entry curr) entry after in
    if curr == no_entry
    then record w { work_queue = head; io_seq = entry }
    else if after == no_entry
    then record w { work_queue = tail; io_seq_end = entry }
    else record w { work_queue = set_next (set_prev between (between entry).next entry) curr entry }

-- The queue has fewer entries than the fuel.
unfoldable pub insert_req_sorted : IoWorker → ℕ → ℕ → Option IoWorker
insert_req_sorted w entry target =
    if w.io_seq == no_entry then some (record w { io_seq = entry; io_seq_end = entry }) else do
      curr ← find_place (nr_max_parallel_io + 1) w.work_queue w.latest_nsecs target w.io_seq_end
      some (link_entry w entry curr)

-- `__allocate_work_queue_entry` on one worker: `none` when one entry is left.
unfoldable pub allocate_entry : IoWorker → Option (ℕ × IoWorker)
allocate_entry w =
    let e = w.free_seq in
    let next = (w.work_queue e).next in
    if leb nr_max_parallel_io next then none else some (e, record w { free_seq = next })

-- The device: its workers, and the turn, which is kept but does not choose a worker.
pub record IoWorkers : Type 0 where
  pub nr_io_workers : ℕ
  pub io_worker_turn : ℕ
  pub io_workers : ℕ → IoWorker

-- The worker of a submission queue, with CONFIG_NVMEV_IO_WORKER_BY_SQ, which nvmev.h defines.
abbrev pub get_io_worker : IoWorkers → ℕ → ℕ
get_io_worker d sqid = sub32 sqid 1 % d.nr_io_workers

unfoldable pub allocate_work_queue_entry : IoWorkers → ℕ → Option (ℕ × ℕ × IoWorkers)
allocate_work_queue_entry d sqid =
    let i = get_io_worker d sqid in
    let turn = u32 (i + 1) in
    do
      (e, w) ← allocate_entry (d.io_workers i)
      some (
        i,
        e,
        record d {
          io_worker_turn = if turn == d.nr_io_workers then 0 else turn;
          io_workers = update d.io_workers i w;
        },
      )

-- The fields of a new entry are set, then it is put in the queue.
unfoldable pub put_work : IoWorkers → ℕ → ℕ → IoWork → Option IoWorkers
put_work d i e work =
    let w = d.io_workers i in
    let w1 = record w { work_queue = update w.work_queue e work } in
    do
      w2 ← insert_req_sorted w1 e work.nsecs_target
      some (record d { io_workers = update d.io_workers i w2 })

-- What the FTL answers: the time at which the command completes, and its status.
pub record IoResult : Type 0 where
  pub nsecs_target : ℕ
  pub status : ℕ

-- The entry of a request; `old` is what it held. `now` is the reading of `local_clock` and `command_id`
-- the one of the submission queue's entry.
unfoldable pub request_work : IoWork → ℕ → ℕ → ℕ → ℕ → ℕ → ℕ → IoResult → IoWork
request_work old sqid cqid sq_entry command_id now nsecs_start ret = record old {
  sqid = sqid;
  cqid = cqid;
  sq_entry = sq_entry;
  command_id = command_id;
  nsecs_start = nsecs_start;
  nsecs_enqueue = now;
  nsecs_target = ret.nsecs_target;
  status = ret.status;
  is_completed = false;
  is_copied = false;
  prev = no_entry;
  next = no_entry;
  is_internal = false;
}

-- The work is put in the entry that was taken; it is dropped when there was none to be had.
unfoldable pub put_in_taken :
    IoWorkers → (IoWork → IoWork) → Option (ℕ × ℕ × IoWorkers) → Option IoWorkers
put_in_taken d fill none = some d
put_in_taken d fill (some (i, e, d')) = put_work d' i e (fill ((d'.io_workers i).work_queue e))

-- `none` is a walk that does not end, or a division by 0.
unfoldable pub enqueue_io_req : IoWorkers → ℕ → ℕ → ℕ → ℕ → ℕ → ℕ → IoResult → Option IoWorkers
enqueue_io_req d sqid cqid sq_entry command_id now nsecs_start ret =
    let fill : IoWork → IoWork =
      λ old. request_work old sqid cqid sq_entry command_id now nsecs_start ret in
    if d.nr_io_workers == 0 then none else put_in_taken d fill (allocate_work_queue_entry d sqid)

-- The entry of a release of the write buffer, which is given by its address.
unfoldable pub internal_work : IoWork → ℕ → ℕ → ℕ → ℕ → ℕ → IoWork
internal_work old sqid now nsecs_target write_buffer buffs_to_release = record old {
  sqid = sqid;
  nsecs_start = now;
  nsecs_enqueue = now;
  nsecs_target = nsecs_target;
  is_completed = false;
  is_copied = true;
  prev = no_entry;
  next = no_entry;
  is_internal = true;
  write_buffer = write_buffer;
  buffs_to_release = buffs_to_release;
}

unfoldable pub schedule_internal_operation : IoWorkers → ℕ → ℕ → ℕ → ℕ → ℕ → Option IoWorkers
schedule_internal_operation d sqid now nsecs_target write_buffer buffs_to_release =
    let fill : IoWork → IoWork =
      λ old. internal_work old sqid now nsecs_target write_buffer buffs_to_release in
    if d.nr_io_workers == 0 then none else put_in_taken d fill (allocate_work_queue_entry d sqid)

-- An entry that the worker is done with.
abbrev pub is_done : ℕ → IoWork → Bool
is_done latest w = w.is_completed && w.is_copied && leb w.nsecs_target latest

-- The last entry of the run of done entries from `curr` on; `last` when there is none.
unfoldable pub last_done : ℕ → (ℕ → IoWork) → ℕ → ℕ → ℕ → Option ℕ
last_done zero wq latest curr last = none
last_done (suc fuel) wq latest curr last =
    let rest = last_done fuel wq latest (wq curr).next curr in
    if curr == no_entry then some last else if is_done latest (wq curr) then rest else some last

-- The entries up to `last` go to the end of the free ones.
unfoldable pub release_entries : IoWorker → ℕ → IoWorker
release_entries w last =
    let wq = w.work_queue in
    let after = (wq last).next in
    let wq1 = if after == no_entry then wq else set_prev wq after no_entry in
    let wq2 = set_prev (set_next wq1 last no_entry) w.io_seq w.free_seq_end in
    record w {
      io_seq = after;
      work_queue = set_next wq2 w.free_seq_end w.io_seq;
      free_seq_end = last;
    }

unfoldable pub reclaim_worker : IoWorker → Option IoWorker
reclaim_worker w = do
  last ← last_done (nr_max_parallel_io + 1) w.work_queue w.latest_nsecs w.io_seq no_entry
  some (if last == no_entry then w else release_entries w last)

-- The workers from the first one on.
unfoldable pub reclaim_workers : ℕ → IoWorkers → Option IoWorkers
reclaim_workers zero d = some d
reclaim_workers (suc n) d = do
  d' ← reclaim_workers n d
  w ← reclaim_worker (d'.io_workers n)
  some (record d' { io_workers = update d'.io_workers n w })

unfoldable pub reclaim_completed_reqs : IoWorkers → Option IoWorkers
reclaim_completed_reqs d = reclaim_workers d.nr_io_workers d

-- A worker after `NVMEV_IO_WORKER_INIT`.
unfoldable pub init_work_queue : (ℕ → IoWork) → ℕ → IoWork
init_work_queue zeroed i = record (zeroed i) {
  next = if i == nr_max_parallel_io - 1 then no_entry else u32 (i + 1);
  prev = if i == 0 then no_entry else i - 1;
}

unfoldable pub init_worker : (ℕ → IoWork) → IoWorker
init_worker zeroed = record {
  work_queue = init_work_queue zeroed;
  free_seq = 0;
  free_seq_end = nr_max_parallel_io - 1;
  io_seq = no_entry;
  io_seq_end = no_entry;
  latest_nsecs = 0;
}
