-- ===== src/WorkQueue/Device.antt =====
-- A request takes a free entry of the worker of its submission queue and joins that worker's queue.
use xharvest.Base.{
  ℕ, ◌+◌, ◌≡◌, ◌≢◌, ◌<◌, ◌≤◌, some, none, List, [], ◌∷◌, ◌==◌, if◌then◌else◌, refl, arith, sym, ◌∙◌,
  ap, false, ≢→==, leb, update, u32, update_self, max,
}
use mathlib.Core.Path.{subst, fun_ext}
use xharvest.WorkQueue.{
  no_entry, nr_max_parallel_io, IoWork, IoWorker, IoWorkers, IoResult, allocate_entry,
  allocate_work_queue_entry, put_work, put_in_taken, request_work, internal_work, enqueue_io_req,
  schedule_internal_operation, stops, get_io_worker,
}
use xharvest.WorkQueue.Chain.{
  first, last, count, IsLinked, IsChain-frame, IsLinked-frame, count-here, count-there,
}
use xharvest.WorkQueue.Spec.{IsWorker, inserted, stops_at}
use xharvest.WorkQueue.Splice.{not_member}
use xharvest.WorkQueue.Insert.{unlinked}
use xharvest.WorkQueue.Enqueue.{insert_req_sorted-IsWorker}
use xharvest.WorkQueue.Order.{IsOrdered, Precedes, inserted-IsOrdered}

-- With two free entries the first is taken.
allocate_entry-IsWorker :
    (w : IoWorker) (e f : ℕ) (held xs fs : List ℕ)
    → IsWorker w held xs (e ∷ f ∷ fs)
    → (allocate_entry w ≡ some (e, record w { free_seq = f }))
      × IsWorker (record w { free_seq = f }) (e ∷ held) xs (f ∷ fs)
unfolding allocate_entry count IsLinked first last
allocate_entry-IsWorker w e f held xs fs k =
    let (ef, rest) = k.free in
    let hf = k.in_one f in
    let small : leb nr_max_parallel_io f ≡ false = ground arith in
    (
      rw (k.free_head, ef, small) refl,
      record {
        linked = k.linked;
        head = k.head;
        tail = k.tail;
        free = rest;
        free_head = refl;
        free_tail = k.free_tail;
        some_free = λ q. ground arith;
        in_one = λ j. omega (arith, k.in_one j);
      },
    )

-- The last free entry is kept.
pub allocate_entry-last :
    (w : IoWorker) (f : ℕ) (held xs : List ℕ)
    → IsWorker w held xs (f ∷ [])
    → allocate_entry w ≡ none
unfolding allocate_entry IsLinked first
allocate_entry-last w f held xs k = let (ef, rest) = k.free in rw (k.free_head, ef) refl

allocate_work_queue_entry-last :
    (d : IoWorkers) (sqid f : ℕ) (xs : List ℕ)
    → IsWorker (d.io_workers (get_io_worker d sqid)) [] xs (f ∷ [])
    → allocate_work_queue_entry d sqid ≡ none
unfolding allocate_work_queue_entry
allocate_work_queue_entry-last d sqid f xs k =
    rw (allocate_entry-last (d.io_workers (get_io_worker d sqid)) f [] xs k) refl

-- What a held entry holds does not matter to the lists.
filled-IsWorker :
    (w : IoWorker) (e : ℕ) (work : IoWork) (held xs fs : List ℕ)
    → IsWorker w (e ∷ held) xs fs
    → IsWorker (record w { work_queue = update w.work_queue e work }) (e ∷ held) xs fs
filled-IsWorker w e work held xs fs k =
    let he = k.in_one e in
    let here = count-here e e held refl in
    let not_queued : count e xs ≡ 0 = ground arith in
    let not_free : count e fs ≡ 0 = ground arith in
    let same : (j : ℕ) → j ≢ e → update w.work_queue e work j ≡ w.work_queue j =
      λ j h. rw (≢→== j e h) refl in
    let queued = λ (j : ℕ) (h : 0 < count j xs). same j (not_member j e xs not_queued h) in
    record {
      linked =
          IsChain-frame _ _ _ _ no_entry xs (λ j h. ap IoWork.next (queued j h))
            (λ j h. ap IoWork.prev (queued j h)) k.linked;
      head = k.head;
      tail = k.tail;
      free =
          IsLinked-frame _ _ fs (λ j h. ap IoWork.next (same j (not_member j e fs not_free h)))
            k.free;
      free_head = k.free_head;
      free_tail = k.free_tail;
      some_free = k.some_free;
      in_one = k.in_one;
    }

IsOrdered-frame :
    (R S : ℕ → ℕ → Type 0) (xs : List ℕ)
    → ((i j : ℕ) → 0 < count i xs → 0 < count j xs → R i j → S i j)
    → IsOrdered R xs
    → IsOrdered S xs
unfolding IsOrdered
IsOrdered-frame R S [] h k = tt
IsOrdered-frame R S (x ∷ xs) h (kx, k) = (
  λ j l. h x j (count-here x x xs refl) (count-there j x xs l) (kx j l),
  IsOrdered-frame R S xs (λ i j m l. h i j (count-there i x xs m) (count-there j x xs l)) k,
)

-- The worker `w'` has taken the work into the queue of `w`, in entry `e`.
pub record IsQueued (w w' : IoWorker) (e : ℕ) (work : IoWork) (xs fs : List ℕ) : Type 0 where
  pub worker : IsWorker w' [] (inserted (stops_at w' work.nsecs_target) e xs) fs
  pub ordered : IsOrdered (Precedes w') (inserted (stops_at w' work.nsecs_target) e xs)
  pub stored : unlinked (w'.work_queue e) ≡ unlinked work
  pub others : (j : ℕ) → j ≢ e → unlinked (w'.work_queue j) ≡ unlinked (w.work_queue j)
  pub latest_nsecs : w'.latest_nsecs ≡ w.latest_nsecs

-- The order and the place depend on the times alone.
record InOrder (w : IoWorker) (target e : ℕ) (xs fs : List ℕ) : Type 0 where
  pub worker : IsWorker w [] (inserted (stops_at w target) e xs) fs
  pub ordered : IsOrdered (Precedes w) (inserted (stops_at w target) e xs)

inserted-InOrder :
    (w1 w' : IoWorker) (target e : ℕ) (xs fs : List ℕ)
    → (w'.latest_nsecs ≡ w1.latest_nsecs)
    → ((j : ℕ) → unlinked (w'.work_queue j) ≡ unlinked (w1.work_queue j))
    → IsWorker w' [] (inserted (stops_at w1 target) e xs) fs
    → IsOrdered (Precedes w1) (inserted (stops_at w1 target) e xs)
    → InOrder w' target e xs fs
unfolding Precedes stops_at
inserted-InOrder w1 w' target e xs fs le ce k o =
    let Goal : ℕ → (ℕ → ℕ) → Type 0 = λ l t.
      IsWorker w' [] (inserted (λ i. stops l target (t i)) e xs) fs
      × IsOrdered (λ i j. t i ≤ max l (t j)) (inserted (λ i. stops l target (t i)) e xs) in
    let t' : ℕ → ℕ = λ i. (w'.work_queue i).nsecs_target in
    let t1 : ℕ → ℕ = λ i. (w1.work_queue i).nsecs_target in
    let times : t1 ≡ t' = fun_ext (λ j. ap IoWork.nsecs_target (sym (ce j))) in
    let moved : Goal w'.latest_nsecs t' =
      subst (λ l. Goal l t') (sym le) (subst (λ t. Goal w1.latest_nsecs t) times (k, o)) in
    record { worker = moved.0; ordered = moved.1 }

-- The worker of a device whose turn it is, with its entry `e` taken.
put_work-IsQueued :
    (d : IoWorkers) (i e : ℕ) (w : IoWorker) (work : IoWork) (xs fs : List ℕ)
    → w ≡ d.io_workers i
    → IsWorker w (e ∷ []) xs fs
    → work.next ≡ no_entry
    → work.prev ≡ no_entry
    → IsOrdered (Precedes w) xs
    → (w' : IoWorker) × (put_work d i e work
        ≡ some (record d { io_workers = update d.io_workers i w' }))
      × IsQueued w w' e work xs fs
unfolding put_work Precedes
put_work-IsQueued d i e w work xs fs dw k wn wp o =
    let w1 : IoWorker = record w { work_queue = update w.work_queue e work } in
    let set : w1.work_queue e ≡ work = update_self w.work_queue e work in
    let same : (j : ℕ) → j ≢ e → w1.work_queue j ≡ w.work_queue j = λ j h. rw (≢→== j e h) refl in
    let he = k.in_one e in
    let here = count-here e e [] refl in
    let out : count e xs ≡ 0 = ground arith in
    let k1 = filled-IsWorker w e work [] xs fs k in
    let times : (j : ℕ)
        → 0 < count j xs
        → (w.work_queue j).nsecs_target ≡ (w1.work_queue j).nsecs_target =
      λ j h. ap IoWork.nsecs_target (sym (same j (not_member j e xs out h))) in
    let o1 =
      IsOrdered-frame (Precedes w) (Precedes w1) xs
        (λ a b l m h. omega (arith, h, times a l, times b m)) o in
    let target : (w1.work_queue e).nsecs_target ≡ work.nsecs_target = ap IoWork.nsecs_target set in
    let ins =
      subst (λ t. IsOrdered (Precedes w1) (inserted (stops_at w1 t) e xs)) target
        (inserted-IsOrdered w1 e xs o1) in
    let (w', q, k', l, c) =
      insert_req_sorted-IsWorker w1 e work.nsecs_target [] xs fs k1 (ap IoWork.next set ∙ wn)
        (ap IoWork.prev set ∙ wp) in
    let r = inserted-InOrder w1 w' work.nsecs_target e xs fs l c k' ins in
    (
      w',
      rw (sym dw, q) refl,
      record {
        worker = r.worker;
        ordered = r.ordered;
        stored = c e ∙ ap unlinked set;
        others = λ j h. c j ∙ ap unlinked (same j h);
        latest_nsecs = l;
      },
    )

-- The device after the worker of the submission queue has taken the work.
pub record IsTaken (d d' : IoWorkers) (sqid e : ℕ) (work : IoWork) (xs fs : List ℕ) : Type 0 where
  pub queued :
      IsQueued
        (d.io_workers (get_io_worker d sqid))
        (d'.io_workers (get_io_worker d sqid))
        e
        work
        xs
        fs
  pub other_workers : (j : ℕ) → j ≢ (get_io_worker d sqid) → d'.io_workers j ≡ d.io_workers j
  pub turn : d'.io_worker_turn ≡ (
      if u32 ((get_io_worker d sqid) + 1) == d.nr_io_workers
      then 0
      else u32 ((get_io_worker d sqid) + 1))

-- The steps that requests and releases share.
put_work-IsTaken :
    (d : IoWorkers) (sqid e f : ℕ) (xs fs : List ℕ) (fill : IoWork → IoWork)
    → IsWorker (d.io_workers (get_io_worker d sqid)) [] xs (e ∷ f ∷ fs)
    → IsOrdered (Precedes (d.io_workers (get_io_worker d sqid))) xs
    → ((old : IoWork) → ((fill old).next ≡ no_entry) × ((fill old).prev ≡ no_entry))
    → (d1 : IoWorkers) × (d2 : IoWorkers) × (allocate_work_queue_entry d sqid
        ≡ some ((get_io_worker d sqid), e, d1))
      × (put_work d1
            (get_io_worker d sqid)
            e
            (fill ((d1.io_workers (get_io_worker d sqid)).work_queue e))
          ≡ some d2)
      × IsTaken d d2 sqid e (fill ((d.io_workers (get_io_worker d sqid)).work_queue e)) xs (f ∷ fs)
unfolding allocate_work_queue_entry Precedes
put_work-IsTaken d sqid e f xs fs fill k o free =
    let i = (get_io_worker d sqid) in
    let w = d.io_workers i in
    let turn = u32 (i + 1) in
    let (taken, k1) = allocate_entry-IsWorker w e f [] xs fs k in
    let w1 : IoWorker = record w { free_seq = f } in
    let d1 : IoWorkers = record d {
      io_worker_turn = if turn == d.nr_io_workers then 0 else turn;
      io_workers = update d.io_workers i w1;
    } in
    let here : w1 ≡ d1.io_workers i = sym (update_self d.io_workers i w1) in
    let work = fill (w.work_queue e) in
    let (w', q, r) =
      put_work-IsQueued d1 i e w1 work xs (f ∷ fs) here k1 (free (w.work_queue e)).0
        (free (w.work_queue e)).1 o in
    let d2 : IoWorkers = record d1 { io_workers = update d1.io_workers i w' } in
    let queued : IsQueued w w' e work xs (f ∷ fs) = record {
      worker = r.worker;
      ordered = r.ordered;
      stored = r.stored;
      others = r.others;
      latest_nsecs = r.latest_nsecs;
    } in
    (
      d1,
      d2,
      rw taken refl,
      ap (λ (v : IoWorker). put_work d1 i e (fill (v.work_queue e))) (sym here) ∙ q,
      record {
        queued =
            subst (λ v. IsQueued w v e work xs (f ∷ fs)) (sym (update_self d1.io_workers i w'))
              queued;
        other_workers = λ j h. rw (≢→== j i h) refl;
        turn = refl;
      },
    )

-- If the worker of its submission queue has two free entries and its queue is in order, a request is
-- queued: that worker links the first free entry in at its place, the queue stays in order, the entry
-- holds the request, no other entry changes but in its links, the other workers stay, and the turn
-- becomes that after this worker.
pub enqueue_io_req-IsTaken :
    (d : IoWorkers) (e f : ℕ) (xs fs : List ℕ)
    → (sqid cqid sq_entry command_id now nsecs_start : ℕ) (ret : IoResult) → 0 < d.nr_io_workers
    → IsWorker (d.io_workers (get_io_worker d sqid)) [] xs (e ∷ f ∷ fs)
    → IsOrdered (Precedes (d.io_workers (get_io_worker d sqid))) xs
    → (d' : IoWorkers) × (enqueue_io_req d sqid cqid sq_entry command_id now nsecs_start ret
        ≡ some d')
      × IsTaken d d' sqid e
          (request_work
            ((d.io_workers (get_io_worker d sqid)).work_queue e)
            sqid
            cqid
            sq_entry
            command_id
            now
            nsecs_start
            ret)
          xs
          (f ∷ fs)
unfolding enqueue_io_req request_work put_in_taken
enqueue_io_req-IsTaken d e f xs fs sqid cqid sq_entry command_id now nsecs_start ret some_workers k
      o =
    let fill =
      λ (old : IoWork). request_work old sqid cqid sq_entry command_id now nsecs_start ret in
    let (d1, d2, p, q, t) = put_work-IsTaken d sqid e f xs fs fill k o (λ old. (refl, refl)) in
    (
      d2,
      rw (≢→== d.nr_io_workers 0 (λ z. omega (arith, some_workers, z)))
          (ap (put_in_taken d fill) p ∙ q),
      t,
    )

-- If the worker of its submission queue has two free entries and its queue is in order, the release of
-- a buffer is queued in the same way as a request.
pub schedule_internal_operation-IsTaken :
    (d : IoWorkers) (e f : ℕ) (xs fs : List ℕ)
    → (sqid now nsecs_target write_buffer buffs_to_release : ℕ) → 0 < d.nr_io_workers
    → IsWorker (d.io_workers (get_io_worker d sqid)) [] xs (e ∷ f ∷ fs)
    → IsOrdered (Precedes (d.io_workers (get_io_worker d sqid))) xs
    → (d' : IoWorkers) × (schedule_internal_operation d sqid now nsecs_target write_buffer
          buffs_to_release
        ≡ some d')
      × IsTaken d d' sqid e
          (internal_work
            ((d.io_workers (get_io_worker d sqid)).work_queue e)
            sqid
            now
            nsecs_target
            write_buffer
            buffs_to_release)
          xs
          (f ∷ fs)
unfolding schedule_internal_operation internal_work put_in_taken
schedule_internal_operation-IsTaken d e f xs fs sqid now nsecs_target write_buffer buffs_to_release
      some_workers k o =
    let fill =
      λ (old : IoWork). internal_work old sqid now nsecs_target write_buffer buffs_to_release in
    let (d1, d2, p, q, t) = put_work-IsTaken d sqid e f xs fs fill k o (λ old. (refl, refl)) in
    (
      d2,
      rw (≢→== d.nr_io_workers 0 (λ z. omega (arith, some_workers, z)))
          (ap (put_in_taken d fill) p ∙ q),
      t,
    )

-- If the worker of its submission queue has one free entry left, neither a request nor a release is queued:
-- the device stays as it was.
pub enqueue_io_req-drops :
    (d : IoWorkers) (f : ℕ) (xs : List ℕ)
    → (sqid cqid sq_entry command_id now nsecs_start : ℕ) (ret : IoResult)
    → (nsecs_target write_buffer buffs_to_release : ℕ) → 0 < d.nr_io_workers
    → IsWorker (d.io_workers (get_io_worker d sqid)) [] xs (f ∷ [])
    → (enqueue_io_req d sqid cqid sq_entry command_id now nsecs_start ret ≡ some d)
      × (schedule_internal_operation d sqid now nsecs_target write_buffer buffs_to_release ≡ some d)
unfolding enqueue_io_req schedule_internal_operation put_in_taken
enqueue_io_req-drops d f xs sqid cqid sq_entry command_id now nsecs_start ret nsecs_target
      write_buffer buffs_to_release some_workers k =
    let full : allocate_work_queue_entry d sqid ≡ none =
      allocate_work_queue_entry-last d sqid f xs k in
    let busy = ≢→== d.nr_io_workers 0 (λ z. omega (arith, some_workers, z)) in
    (
      rw busy (
          ap
            (put_in_taken d
              (λ old. request_work old sqid cqid sq_entry command_id now nsecs_start ret))
            full),
      rw busy (
          ap
            (put_in_taken d
              (λ old. internal_work old sqid now nsecs_target write_buffer buffs_to_release))
            full),
    )
