-- ===== src/WorkQueue/Serve.antt =====
-- What one pass of a worker does: it ends, and each entry is visited once.
use xharvest.Base.{
  ℕ, zero, suc, ◌+◌, ◌≡◌, ◌≢◌, ◌<◌, ◌≤◌, some, List, [], ◌∷◌, ◌==◌, if◌then◌else◌, refl, arith, ◌∙◌,
  ap, Bool-cases, inl, inr, ≢→==, ==→≡, update_self, ltb,
}
use mathlib.Core.Path.{subst}
use xharvest.WorkQueue.{no_entry, nr_max_parallel_io, IoWork, IoWorker}
use xharvest.WorkQueue.Chain.{
  first, count, IsChain, IsChain-frame, IsLinked-frame, count-here, count-there,
}
use xharvest.WorkQueue.Spec.{IsWorker}
use xharvest.WorkQueue.Splice.{not_member, count-tail, count-shorter, count-none_shorter}
use xharvest.WorkQueue.Insert.{size}
use xharvest.WorkQueue.Enqueue.{size-nr_max_parallel_io}
use xharvest.WorkQueue.Pass.{
  serve_work, finishes, visit, note_finished, serve_queue, serve_worker, finished,
}

-- The worker after the entries `xs` have been visited.
pub record IsServed (clock : ℕ → ℕ) (w w' : IoWorker) (xs : List ℕ) : Type 0 where
  pub visited : (j : ℕ) → 0 < count j xs → w'.work_queue j ≡ serve_work (clock j) (w.work_queue j)
  pub others : (j : ℕ) → count j xs ≡ 0 → w'.work_queue j ≡ w.work_queue j
  pub io_seq : w'.io_seq ≡ w.io_seq
  pub io_seq_end : w'.io_seq_end ≡ w.io_seq_end
  pub free_seq : w'.free_seq ≡ w.free_seq
  pub free_seq_end : w'.free_seq_end ≡ w.free_seq_end

serve_work-next : (now : ℕ) (w : IoWork) → (serve_work now w).next ≡ w.next
unfolding serve_work
serve_work-next now w = ground arith

serve_work-prev : (now : ℕ) (w : IoWork) → (serve_work now w).prev ≡ w.prev
unfolding serve_work
serve_work-prev now w = ground arith

finished-same :
    (clock : ℕ → ℕ) (v w : ℕ → IoWork) (xs : List ℕ)
    → ((j : ℕ) → 0 < count j xs → v j ≡ w j)
    → finished clock v xs ≡ finished clock w xs
unfolding finished
finished-same clock v w [] h = refl
finished-same clock v w (x ∷ xs) h =
    rw
      (h x (count-here x x xs refl), finished-same clock v w xs (λ j l. h j (count-there j x xs l)))
      refl

visit-same :
    (clock : ℕ → ℕ) (w : IoWorker) (x j : ℕ)
    → j ≢ x
    → (visit clock w x).work_queue j ≡ w.work_queue j
unfolding visit
visit-same clock w x j h = rw (≢→== j x h) refl

visit_self :
    (clock : ℕ → ℕ) (w : IoWorker) (x : ℕ)
    → (visit clock w x).work_queue x ≡ serve_work (clock x) (w.work_queue x)
unfolding visit
visit_self clock w x = update_self w.work_queue x (serve_work (clock x) (w.work_queue x))

visit-next :
    (clock : ℕ → ℕ) (w : IoWorker) (x : ℕ)
    → ((visit clock w x).work_queue x).next ≡ (w.work_queue x).next
visit-next clock w x =
    ap IoWork.next (visit_self clock w x) ∙ serve_work-next (clock x) (w.work_queue x)

serve_queue-step :
    (fuel : ℕ) (clock : ℕ → ℕ) (w : IoWorker) (x : ℕ)
    → x ≢ no_entry
    → serve_queue (suc fuel) clock w x
      ≡ note_finished
          (finishes (clock x) (w.work_queue x))
          x
          (serve_queue fuel clock (visit clock w x) ((visit clock w x).work_queue x).next)
unfolding serve_queue
serve_queue-step fuel clock w x h = rw (≢→== x no_entry h) refl

visit-IsServed :
    (clock : ℕ → ℕ) (w w' : IoWorker) (x : ℕ) (xs : List ℕ)
    → count x xs ≡ 0
    → IsServed clock (visit clock w x) w' xs
    → IsServed clock w w' (x ∷ xs)
unfolding visit count
visit-IsServed clock w w' x xs alone k = record {
  visited = λ j l. elim (Bool-cases (x == j)) [
    | inl e ↦
        subst (λ i. w'.work_queue i ≡ serve_work (clock i) (w.work_queue i)) (==→≡ x j e)
          (k.others x alone ∙ visit_self clock w x)
    | inr e ↦
        let l' : 0 < count j xs = ground arith in
        k.visited j l'
        ∙ ap (serve_work (clock j)) (visit-same clock w x j (not_member j x xs alone l'))
  ];
  others =
      λ j l. k.others j (count-none_shorter j x xs l) ∙ visit-same clock w x j (λ e. ground arith);
  io_seq = k.io_seq;
  io_seq_end = k.io_seq_end;
  free_seq = k.free_seq;
  free_seq_end = k.free_seq_end;
}

free-not_queued :
    (w : IoWorker) (held xs fs : List ℕ)
    → IsWorker w held xs fs
    → (j : ℕ) → 0 < count j fs
    → count j xs ≡ 0
free-not_queued w held xs fs k j l = let h = k.in_one j in ground arith

serve_queue-IsServed :
    (fuel : ℕ) (clock : ℕ → ℕ) (w : IoWorker) (p : ℕ) (xs : List ℕ)
    → count no_entry xs ≡ 0
    → ((j : ℕ) → count j xs ≤ 1)
    → size xs < fuel
    → IsChain (λ i. (w.work_queue i).next) (λ i. (w.work_queue i).prev) p xs
    → (w' : IoWorker) × (serve_queue fuel clock w (first xs)
        ≡ some (w', finished clock w.work_queue xs))
      × IsServed clock w w' xs
unfolding serve_queue note_finished finished first size IsChain count
serve_queue-IsServed zero clock w p xs bounded once h c = absurd (omega (arith, h))
serve_queue-IsServed (suc fuel) clock w p [] bounded once h c = (
  w,
  refl,
  record {
    visited = λ j l. absurd (omega (arith, l));
    others = λ j l. refl;
    io_seq = refl;
    io_seq_end = refl;
    free_seq = refl;
    free_seq_end = refl;
  },
)
serve_queue-IsServed (suc fuel) clock w p (x ∷ xs) bounded once h (ef, eg, c) =
    let wq = w.work_queue in
    let w1 = visit clock w x in
    let entry = not_member x no_entry (x ∷ xs) bounded (count-here x x xs refl) in
    let alone = count-tail x xs (once x) in
    let member : (j : ℕ) → 0 < count j xs → w1.work_queue j ≡ wq j =
      λ j l. visit-same clock w x j (not_member j x xs alone l) in
    let c1 =
      IsChain-frame (λ i. (wq i).next) (λ i. (wq i).prev) (λ i. (w1.work_queue i).next)
        (λ i. (w1.work_queue i).prev) x xs (λ j l. ap IoWork.next (member j l))
        (λ j l. ap IoWork.prev (member j l)) c in
    let (w', q, k) =
      serve_queue-IsServed fuel clock w1 x xs (count-none_shorter no_entry x xs bounded)
        (λ j. count-shorter j x 1 xs (once j)) (omega (arith, h)) c1 in
    (
      w',
      serve_queue-step fuel clock w x entry
          ∙ ap (λ i. note_finished (finishes (clock x) (wq x)) x (serve_queue fuel clock w1 i))
              (visit-next clock w x ∙ ef)
          ∙ ap (note_finished (finishes (clock x) (wq x)) x)
              (q ∙ ap (λ es. some (w', es)) (finished-same clock w1.work_queue wq xs member)),
      visit-IsServed clock w w' x xs alone k,
    )

-- One pass over the queue ends. Each entry of the queue that was not completed is copied, and it is
-- completed if it is due when it is visited; those that finish do so once, in the order of the queue.
-- The entries outside the queue stay, and so do all the lists.
pub serve_worker-IsServed :
    (clock : ℕ → ℕ) (w : IoWorker) (held xs fs : List ℕ)
    → IsWorker w held xs fs
    → (w' : IoWorker) × (serve_worker clock w ≡ some (w', finished clock w.work_queue xs))
      × IsServed clock w w' xs
      × IsWorker w' held xs fs
unfolding serve_worker
serve_worker-IsServed clock w held xs fs k =
    let hn = k.in_one no_entry in
    let bounded : count no_entry xs ≡ 0 = ground arith in
    let once : (j : ℕ) → count j xs ≤ 1 = λ j. let h = k.in_one j in ground arith in
    let few : (j : ℕ) → count j xs ≤ (if ltb j nr_max_parallel_io then 1 else 0) =
      λ j. omega (arith, k.in_one j) in
    let fuel : size xs < nr_max_parallel_io + 1 = omega (arith, size-nr_max_parallel_io xs few) in
    let (w', q, r) =
      serve_queue-IsServed (nr_max_parallel_io + 1) clock w no_entry xs bounded once fuel
        k.linked in
    (
      w',
      ap (serve_queue (nr_max_parallel_io + 1) clock w) k.head ∙ q,
      r,
      record {
        linked =
            IsChain-frame _ _ _ _ no_entry xs
              (λ j l. ap IoWork.next (r.visited j l) ∙ serve_work-next (clock j) (w.work_queue j))
              (λ j l. ap IoWork.prev (r.visited j l) ∙ serve_work-prev (clock j) (w.work_queue j))
              k.linked;
        head = r.io_seq ∙ k.head;
        tail = λ h. r.io_seq_end ∙ k.tail (λ e. h (r.io_seq ∙ e));
        free =
            IsLinked-frame _ _ fs
              (λ j l. ap IoWork.next (r.others j (free-not_queued w held xs fs k j l))) k.free;
        free_head = r.free_seq ∙ k.free_head;
        free_tail = r.free_seq_end ∙ k.free_tail;
        some_free = k.some_free;
        in_one = k.in_one;
      },
    )
