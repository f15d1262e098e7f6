-- ===== src/WorkQueue/Tests.antt =====
-- A device with one worker that has just been set up, and one whose first entry is served.
use xharvest.Base.{
  Bool, ℕ, suc, ◌+◌, ◌≡◌, ◌<◌, [], ◌∷◌, ◌++◌, true, false, some, refl, arith, ltb, if◌then◌else◌,
  ◌==◌, update, sym, ≢→==, ◌≢◌, ◌∙◌, zero,
}
use mathlib.Core.Path.{subst}
use xharvest.WorkQueue.{
  IoWork, IoWorker, IoWorkers, IoResult, init_worker, init_work_queue, no_entry, enqueue_io_req,
  schedule_internal_operation, reclaim_worker, request_work, internal_work,
}
use xharvest.WorkQueue.Chain.{count, first, last, IsChain, IsLinked, IsLinked-frame}
use xharvest.WorkQueue.Insert.{unlinked}
use xharvest.WorkQueue.Spec.{IsWorker, done_at, done_prefix, done_rest}
use xharvest.WorkQueue.Order.{IsOrdered}
use xharvest.WorkQueue.Init.{
  numbers_from, init_worker-IsWorker, first-numbers_from, count-numbers_from, last-numbers_from,
  IsLinked-numbers_from,
}
use xharvest.WorkQueue.Device.{
  IsTaken, enqueue_io_req-IsTaken, schedule_internal_operation-IsTaken, enqueue_io_req-drops,
}
use xharvest.WorkQueue.Pass.{serve_worker, finished}
use xharvest.WorkQueue.Serve.{IsServed, serve_worker-IsServed}
use xharvest.WorkQueue.Completion.{
  CompletionQueue, IsPosted, fill_cq_result, completion_of, phase_of, fill_cq_result-IsPosted,
}
use xharvest.WorkQueue.Reclaim.{reclaim_worker-IsWorker}

abbrev blank : IoWork
blank = record {
  sqid = 0;
  cqid = 0;
  sq_entry = 0;
  command_id = 0;
  nsecs_start = 0;
  nsecs_target = 0;
  nsecs_enqueue = 0;
  is_copied = false;
  is_completed = false;
  status = 0;
  result0 = 0;
  result1 = 0;
  is_internal = false;
  write_buffer = 0;
  buffs_to_release = 0;
  next = 0;
  prev = 0;
}

abbrev device : IoWorkers
device = record {
  nr_io_workers = 2;
  io_worker_turn = 0;
  io_workers = λ i. init_worker (λ j. blank);
}

abbrev result : IoResult
result = record { nsecs_target = 5000; status = 0 }

fresh-IsWorker : IsWorker (init_worker (λ j. blank)) [] [] (0 ∷ 1 ∷ numbers_from 16382 2)
unfolding numbers_from
fresh-IsWorker = init_worker-IsWorker (λ j. blank)

enqueue_io_req-IsTaken_example :
    (d' : IoWorkers) × (enqueue_io_req device 4 1 0 7 900 800 result ≡ some d')
    × IsTaken device d' 4 0
        (request_work ((device.io_workers 0).work_queue 0) 4 1 0 7 900 800 result)
        []
        (1 ∷ numbers_from 16382 2)
unfolding IsOrdered
enqueue_io_req-IsTaken_example =
    enqueue_io_req-IsTaken device 0 1 [] (numbers_from 16382 2) 4 1 0 7 900 800 result (omega arith)
      fresh-IsWorker tt

-- Entry 0 is in the queue and copied; the others are free.
abbrev serving : Bool → IoWorker
serving completed = record {
  work_queue = update (init_work_queue (λ j. blank)) 0 (record blank {
    next = no_entry;
    prev = no_entry;
    is_copied = true;
    is_completed = completed;
  });
  free_seq = 1;
  free_seq_end = 16383;
  io_seq = 0;
  io_seq_end = 0;
  latest_nsecs = 100;
}

partition :
    (j n : ℕ)
    → 0 + ((if 0 == j then 1 else 0) + 0) + count j (numbers_from n 1)
      ≡ (if ltb j (1 + n) then 1 else 0)
partition j n = ground (arith, count-numbers_from j n 1)

not_zero : (j n : ℕ) → 0 < count j (numbers_from n 1) → j ≢ 0
not_zero j n h q = let c = count-numbers_from j n 1 in ground arith

one_entry : 1 ≢ no_entry
one_entry q = omega (arith, q)

serving-IsWorker :
    (completed : Bool) → IsWorker (serving completed) [] (0 ∷ []) (numbers_from 16383 1)
unfolding count IsChain first last
serving-IsWorker completed = record {
  linked = (refl, refl, tt);
  head = refl;
  tail = λ h. refl;
  free =
      IsLinked-frame _ _ (numbers_from 16383 1) (λ j h. rw (≢→== j 0 (not_zero j 16383 h)) refl)
        (IsLinked-numbers_from (λ j. blank) 16382 1 refl);
  free_head = sym (first-numbers_from 16382 1);
  free_tail = sym (last-numbers_from 16382 1 no_entry);
  some_free = λ q. one_entry (sym (first-numbers_from 16382 1) ∙ q);
  in_one = λ j. partition j 16383;
}

reclaim_worker-IsWorker_example :
    (w' : IoWorker) × (reclaim_worker (serving true) ≡ some w')
    × IsWorker w' []
        (done_rest (done_at (serving true)) (0 ∷ []))
        (numbers_from 16383 1 ++ done_prefix (done_at (serving true)) (0 ∷ []))
    × (w'.latest_nsecs ≡ 100)
    × ((j : ℕ) → unlinked (w'.work_queue j) ≡ unlinked ((serving true).work_queue j))
reclaim_worker-IsWorker_example =
    reclaim_worker-IsWorker (serving true) [] (0 ∷ []) (numbers_from 16383 1)
      (serving-IsWorker true)

reclaim_frees : done_prefix (done_at (serving true)) (0 ∷ []) ≡ 0 ∷ []
unfolding done_prefix done_at
reclaim_frees = refl

schedule_internal_operation-IsTaken_example :
    (d' : IoWorkers) × (schedule_internal_operation device 4 900 5000 64 4096 ≡ some d')
    × IsTaken device d' 4 0
        (internal_work ((device.io_workers 0).work_queue 0) 4 900 5000 64 4096)
        []
        (1 ∷ numbers_from 16382 2)
unfolding IsOrdered
schedule_internal_operation-IsTaken_example =
    schedule_internal_operation-IsTaken device 0 1 [] (numbers_from 16382 2) 4 900 5000 64 4096
      (omega arith) fresh-IsWorker tt

serve_worker-IsServed_example :
    (w' : IoWorker) × (serve_worker (λ i. 200) (serving false)
      ≡ some (w', finished (λ i. 200) (serving false).work_queue (0 ∷ [])))
    × IsServed (λ i. 200) (serving false) w' (0 ∷ [])
    × IsWorker w' [] (0 ∷ []) (numbers_from 16383 1)
serve_worker-IsServed_example =
    serve_worker-IsServed (λ i. 200) (serving false) [] (0 ∷ []) (numbers_from 16383 1)
      (serving-IsWorker false)

serve_finishes : finished (λ i. 200) (serving false).work_queue (0 ∷ []) ≡ 0 ∷ []
unfolding finished
serve_finishes = refl

-- A ring of four entries, of which three have been posted.
abbrev ring : CompletionQueue
ring = record {
  queue_size = 4;
  phase = true;
  cq_head = 3;
  interrupt_ready = false;
  cq = λ i. record { result0 = 0; result1 = 0; sq_head = 0; sq_id = 0; command_id = 0; status = 0 };
}

ring-IsPosted : IsPosted ring 3
unfolding phase_of
ring-IsPosted = record { head = refl; phase = refl }

fill_cq_result-IsPosted_example :
    IsPosted (fill_cq_result ring blank) 4
    × ((fill_cq_result ring blank).cq 3 ≡ completion_of (phase_of 4 3) blank)
    × ((j : ℕ) → j ≢ 3 → (fill_cq_result ring blank).cq j ≡ ring.cq j)
fill_cq_result-IsPosted_example = fill_cq_result-IsPosted ring blank 3 (omega arith) ring-IsPosted

-- All entries but the last are in the queue.
abbrev full : IoWorkers
full = record {
  nr_io_workers = 2;
  io_worker_turn = 0;
  io_workers = λ k. record {
    work_queue =
        update (init_work_queue (λ j. blank)) 16382
          (record blank { next = no_entry; prev = 16381 });
    free_seq = 16383;
    free_seq_end = 16383;
    io_seq = 0;
    io_seq_end = 16382;
    latest_nsecs = 100;
  };
}

full_link : (i : ℕ) → i < 16382 → ((full.io_workers 0).work_queue i).next ≡ i + 1
unfolding init_work_queue
full_link i h = ground arith

full_back : (i p : ℕ) → p + 1 ≡ i → i < 16383 → ((full.io_workers 0).work_queue i).prev ≡ p
unfolding init_work_queue
full_back i p h k = ground arith

full_end : ((full.io_workers 0).work_queue 16382).next ≡ no_entry
full_end = refl

-- From `start` on, where `n` entries follow it and `p` comes before it.
full-IsChain :
    (n start p : ℕ)
    → start + n ≡ 16382
    → p + 1 ≡ start
    → IsChain
        (λ i. ((full.io_workers 0).work_queue i).next)
        (λ i. ((full.io_workers 0).work_queue i).prev)
        p
        (numbers_from (suc n) start)
unfolding IsChain numbers_from first
full-IsChain zero start p h k =
    let here : 16382 ≡ start = omega (arith, h) in
    (
      subst (λ i. ((full.io_workers 0).work_queue i).next ≡ no_entry) here full_end,
      full_back start p k (omega (arith, h)),
      tt,
    )
full-IsChain (suc n) start p h k = (
  full_link start (omega (arith, h)),
  full_back start p k (omega (arith, h)),
  full-IsChain n (start + 1) start (omega (arith, h)) refl,
)

full_head : ((full.io_workers 0).work_queue 0).prev ≡ no_entry
unfolding init_work_queue
full_head = refl

full_queue-IsChain :
    (n : ℕ)
    → n ≡ 16381
    → IsChain
        (λ i. ((full.io_workers 0).work_queue i).next)
        (λ i. ((full.io_workers 0).work_queue i).prev)
        no_entry
        (numbers_from (suc (suc n)) 0)
unfolding IsChain numbers_from first
full_queue-IsChain n h =
    (full_link 0 (omega arith), full_head, full-IsChain n 1 0 (omega (arith, h)) refl)

full_partition :
    (j n : ℕ)
    → 0 + count j (numbers_from n 0) + ((if n == j then 1 else 0) + 0)
      ≡ (if ltb j (suc n) then 1 else 0)
full_partition j n = ground (arith, count-numbers_from j n 0)

last_entry : ((full.io_workers 0).work_queue 16383).next ≡ no_entry
unfolding init_work_queue
last_entry = refl

last_real : suc 16382 ≢ no_entry
last_real q = omega (arith, q)

full-IsWorker : IsWorker (full.io_workers 0) [] (numbers_from 16383 0) (16383 ∷ [])
unfolding count IsLinked first last
full-IsWorker = record {
  linked = full_queue-IsChain 16381 refl;
  head = sym (first-numbers_from 16382 0);
  tail = λ h. sym (last-numbers_from 16382 0 no_entry);
  free = (last_entry, tt);
  free_head = refl;
  free_tail = refl;
  some_free = last_real;
  in_one = λ j. full_partition j 16383;
}

enqueue_io_req-drops_example :
    (enqueue_io_req full 4 1 0 7 900 800 result ≡ some full)
    × (schedule_internal_operation full 4 900 5000 64 4096 ≡ some full)
enqueue_io_req-drops_example =
    enqueue_io_req-drops full 16383 (numbers_from 16383 0) 4 1 0 7 900 800 result 5000 64 4096
      (omega arith) full-IsWorker
