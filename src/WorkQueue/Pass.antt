-- ===== src/WorkQueue/Pass.antt =====
-- NVMevirt/io.c: one pass of a worker over its queue. `clock i` is what the clock reads when the pass
-- visits entry `i`. The copying of data and the completion's posting, or the release of the buffer,
-- show here as the list of the entries that finish, in the order in which they do.
use xharvest.Base.{
  ℕ, zero, suc, ◌+◌, Option, some, none, List, [], ◌∷◌, ◌==◌, if◌then◌else◌, true, Bool, leb,
  update, not, ◌&&◌,
}
use xharvest.WorkQueue.{no_entry, nr_max_parallel_io, IoWork, IoWorker}

-- The entry is copied if it was not, and completed if it is due. The status and result that a command of
-- the key-value SSD writes into the entry while it is copied are left out.
unfoldable pub serve_work : ℕ → IoWork → IoWork
serve_work now w =
    let copied = record w { is_copied = true } in
    if w.is_completed
    then w
    else if leb w.nsecs_target now
    then record copied { is_completed = true }
    else copied

abbrev pub finishes : ℕ → IoWork → Bool
finishes now w = not w.is_completed && leb w.nsecs_target now

unfoldable pub visit : (ℕ → ℕ) → IoWorker → ℕ → IoWorker
visit clock w curr = record w {
  work_queue = update w.work_queue curr (serve_work (clock curr) (w.work_queue curr));
  latest_nsecs = clock curr;
}

-- The entry is one of those that finish.
unfoldable pub note_finished : Bool → ℕ → Option (IoWorker × List ℕ) → Option (IoWorker × List ℕ)
note_finished b curr none = none
note_finished b curr (some (w, es)) = some (w, if b then curr ∷ es else es)

unfoldable pub serve_queue : ℕ → (ℕ → ℕ) → IoWorker → ℕ → Option (IoWorker × List ℕ)
serve_queue zero clock w curr = none
serve_queue (suc fuel) clock w curr =
    let w1 = visit clock w curr in
    let rest = serve_queue fuel clock w1 (w1.work_queue curr).next in
    if curr == no_entry
    then some (w, [])
    else note_finished (finishes (clock curr) (w.work_queue curr)) curr rest

unfoldable pub serve_worker : (ℕ → ℕ) → IoWorker → Option (IoWorker × List ℕ)
serve_worker clock w = serve_queue (nr_max_parallel_io + 1) clock w w.io_seq

-- The entries of the list that finish.
unfoldable pub finished : (ℕ → ℕ) → (ℕ → IoWork) → List ℕ → List ℕ
finished clock wq [] = []
finished clock wq (x ∷ xs) =
    if finishes (clock x) (wq x) then x ∷ finished clock wq xs else finished clock wq xs
