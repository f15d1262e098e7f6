-- ===== src/WorkQueue/Enqueue.antt =====
-- A request joins the queue: the worker's links are those of the new list.
use xharvest.Base.{
  ℕ, zero, suc, ◌+◌, ◌≡◌, ◌≢◌, ◌<◌, ◌≤◌, some, List, [], ◌∷◌, ◌++◌, ◌==◌, if◌then◌else◌, refl,
  arith, sym, ◌∙◌, ap, Bool, Bool-cases, inl, inr, ≢→==, ==→≡, not_==→≢, ltb, sum_below, update,
  sum_below-update,
}
use mathlib.Core.Path.{subst}
use xharvest.WorkQueue.{no_entry, nr_max_parallel_io, IoWorker, link_entry, insert_req_sorted}
use xharvest.WorkQueue.Chain.{
  first, last, count, rev_onto, IsChain, count-append, count-here, count-there, count-last,
  count-rev_onto, IsChain-reverse, first-rev_onto, last-reverse, IsLinked-frame,
}
use xharvest.WorkQueue.Spec.{IsWorker, passed, reached, inserted, stops_at}
use xharvest.WorkQueue.Splice.{IsChain-spliced, IsChain-middle, not_member}
use xharvest.WorkQueue.Insert.{
  size, find_place-reached, IsPlaced, IsFresh, link_entry-head, link_entry-tail, link_entry-between,
  unlinked,
}

pub passed-reached : (stop : ℕ → Bool) (ys : List ℕ) → passed stop ys ++ reached stop ys ≡ ys
unfolding passed reached
passed-reached stop [] = refl
passed-reached stop (y ∷ ys) = elim (Bool-cases (stop y)) [
  | inl e ↦ rw e refl
  | inr e ↦ rw e (ap (λ zs. y ∷ zs) (passed-reached stop ys))
]

pub last-append : (p : ℕ) (xs ys : List ℕ) → last p (xs ++ ys) ≡ last (last p xs) ys
unfolding last
last-append p [] ys = refl
last-append p (x ∷ xs) ys = last-append x xs ys

-- Entries below `n` that differ from each other are at most `n`.
sum_below-same : (n : ℕ) (f g : ℕ → ℕ) → ((j : ℕ) → f j ≡ g j) → sum_below n f ≡ sum_below n g
unfolding sum_below
sum_below-same zero f g h = refl
sum_below-same (suc n) f g h = omega (arith, sum_below-same n f g h, h n)

sum_below-ones : (n : ℕ) (f : ℕ → ℕ) → ((j : ℕ) → f j ≤ 1) → sum_below n f ≤ n
unfolding sum_below
sum_below-ones zero f h = omega arith
sum_below-ones (suc n) f h = omega (arith, sum_below-ones n f h, h n)

count-update :
    (x : ℕ) (xs : List ℕ) (j : ℕ) → count j (x ∷ xs) ≡ update (λ i. count i xs) x (count x xs + 1) j
unfolding count
count-update x xs j = elim (Bool-cases (j == x)) [
  | inl e ↦
      let q = ==→≡ j x e in
      subst (λ i. count i (x ∷ xs) ≡ update (λ i. count i xs) x (count x xs + 1) i) (sym q)
        (ground arith)
  | inr e ↦ let q = not_==→≢ j x e in ground arith
]

size-sum_below :
    (n : ℕ) (xs : List ℕ)
    → ((j : ℕ) → 0 < count j xs → j < n)
    → size xs ≤ sum_below n (λ j. count j xs)
unfolding size
size-sum_below n [] h = omega arith
size-sum_below n (x ∷ xs) h =
    let f : ℕ → ℕ = λ j. count j xs in
    let before = size-sum_below n xs (λ j k. h j (count-there j x xs k)) in
    let added = sum_below-update n f x (f x + 1) (h x (count-here x x xs refl)) in
    let same : sum_below n (λ j. count j (x ∷ xs)) ≡ sum_below n (update f x (f x + 1)) =
      sum_below-same n _ _ (count-update x xs) in
    omega (arith, before, added, same)

-- A list of different entries has no more of them than there are.
pub size-nr_max_parallel_io :
    (xs : List ℕ)
    → ((j : ℕ) → count j xs ≤ (if ltb j nr_max_parallel_io then 1 else 0))
    → size xs ≤ nr_max_parallel_io
size-nr_max_parallel_io xs h =
    let below : (j : ℕ) → 0 < count j xs → j < nr_max_parallel_io =
      λ j k. let hj = h j in ground arith in
    let ones : (j : ℕ) → count j xs ≤ 1 = λ j. let hj = h j in ground arith in
    omega (
      arith,
      size-sum_below nr_max_parallel_io xs below,
      sum_below-ones nr_max_parallel_io (λ j. count j xs) ones,
    )

count-last_left : (x : ℕ) (xs ys : List ℕ) → 0 < count (last x xs) ((x ∷ xs) ++ ys)
count-last_left x xs ys = omega (arith, count-append (last x xs) (x ∷ xs) ys, count-last x xs)

count-first_right : (y : ℕ) (xs ys : List ℕ) → 0 < count y (xs ++ (y ∷ ys))
count-first_right y xs ys = omega (arith, count-append y xs (y ∷ ys), count-here y y ys refl)

link_entry-IsPlaced :
    (w : IoWorker) (e : ℕ) (xs ys : List ℕ)
    → (w.work_queue e).next ≡ no_entry
    → (w.work_queue e).prev ≡ no_entry
    → w.io_seq ≢ no_entry
    → w.io_seq ≡ last no_entry (xs ++ ys)
    → w.io_seq_end ≡ first (xs ++ ys)
    → IsFresh e (xs ++ ys)
    → IsChain (λ i. (w.work_queue i).prev) (λ i. (w.work_queue i).next) no_entry (xs ++ ys)
    → IsPlaced w (link_entry w e (first ys)) e xs ys
unfolding last first
link_entry-IsPlaced w e [] [] en ep some_work hd tl k c = absurd (some_work hd)
link_entry-IsPlaced w e [] (y ∷ ys) en ep some_work hd tl k c =
    let yn = IsChain-middle _ _ no_entry y [] ys c in
    let here = count-here y y ys refl in
    link_entry-tail w e y ys en yn hd k (not_member y e (y ∷ ys) k.absent here)
      (not_member y no_entry (y ∷ ys) k.bounded here)
link_entry-IsPlaced w e (x ∷ xs) [] en ep some_work hd tl k c =
    let l = last-append x xs [] in
    link_entry-head w e x xs en ep (hd ∙ l) tl k
      (not_member (last x xs) e _ k.absent (count-last_left x xs []))
link_entry-IsPlaced w e (x ∷ xs) (y ∷ ys) en ep some_work hd tl k c =
    let here = count-first_right y (x ∷ xs) ys in
    let there = count-last_left x xs (y ∷ ys) in
    link_entry-between w e y x xs ys (IsChain-middle _ _ no_entry y (x ∷ xs) ys c)
      (hd ∙ last-append x xs (y ∷ ys)) tl k (not_member y e _ k.absent here)
      (not_member y no_entry _ k.bounded here) (not_member (last x xs) e _ k.absent there)
      (not_member (last x xs) no_entry _ k.bounded there)

pub first-absent :
    (ys fs : List ℕ)
    → ((j : ℕ) → count j ys + count j fs ≤ (if ltb j nr_max_parallel_io then 1 else 0))
    → count (first ys) fs ≡ 0
unfolding first
first-absent [] fs h = let k = h no_entry in ground arith
first-absent (y ∷ ys) fs h = let k = h y in let here = count-here y y ys refl in ground arith

-- The worker after the entry has been placed.
placed-IsWorker :
    (w w' : IoWorker) (e : ℕ) (held qs xs ys fs : List ℕ)
    → IsWorker w (e ∷ held) qs fs
    → xs ++ ys ≡ rev_onto qs []
    → IsPlaced w w' e xs ys
    → IsWorker w' held (rev_onto (xs ++ (e ∷ ys)) []) fs
unfolding count first last
placed-IsWorker w w' e held qs xs ys fs k split p =
    let new = xs ++ (e ∷ ys) in
    let same : (j : ℕ) → count j (xs ++ ys) ≡ count j qs =
      λ j. omega (arith, count-rev_onto j qs [], ap (count j) split) in
    let once : (j : ℕ) → count j (xs ++ ys) ≤ 1 =
      λ j. let h = k.in_one j in let s = same j in ground arith in
    let bounded : count no_entry (xs ++ ys) ≡ 0 =
      let h = k.in_one no_entry in let s = same no_entry in ground arith in
    let from_tail =
      subst (λ zs. IsChain (λ i. (w.work_queue i).prev) (λ i. (w.work_queue i).next) no_entry zs)
        (sym split) (IsChain-reverse _ _ qs k.linked) in
    let no_head : count (first ys) fs ≡ 0 =
      first-absent ys fs (λ j. omega (arith, k.in_one j, same j, count-append j xs ys)) in
    let no_new : count e fs ≡ 0 = let h = k.in_one e in ground arith in
    record {
      linked =
          IsChain-reverse _ _ new
            (IsChain-spliced _ _ _ _ no_entry e xs ys once bounded bounded p.spliced from_tail);
      head = p.head ∙ sym (first-rev_onto new [] ∙ last-append no_entry xs (e ∷ ys));
      tail = λ h. p.tail ∙ sym (last-reverse new);
      free =
          IsLinked-frame _ _ fs
            (λ j h. p.others j (not_member j e fs no_new h) (not_member j (first ys) fs no_head h))
            k.free;
      free_head = p.free_seq ∙ k.free_head;
      free_tail = p.free_seq_end ∙ k.free_tail;
      some_free = k.some_free;
      in_one = λ j. omega (
        arith,
        k.in_one j,
        same j,
        count-append j xs ys,
        count-append j xs (e ∷ ys),
        count-rev_onto j new [],
      );
    }

entries-IsFresh :
    (w : IoWorker) (e : ℕ) (held qs fs zs : List ℕ)
    → IsWorker w (e ∷ held) qs fs
    → zs ≡ rev_onto qs []
    → IsFresh e zs
unfolding count
entries-IsFresh w e held qs fs zs k split =
    let he = k.in_one e in
    let hn = k.in_one no_entry in
    let ce : count e zs ≡ count e qs = omega (arith, ap (count e) split, count-rev_onto e qs []) in
    let cn : count no_entry zs ≡ count no_entry qs =
      omega (arith, ap (count no_entry) split, count-rev_onto no_entry qs []) in
    record { absent = ground arith; bounded = ground arith; entry = λ q. ground arith }

-- A worker that holds a free-standing entry takes it into its queue: the walk from the tail ends, the
-- entry stands right after the last one that is due or not after it, and the other fields stay.
pub insert_req_sorted-IsWorker :
    (w : IoWorker) (entry target : ℕ) (held xs fs : List ℕ)
    → IsWorker w (entry ∷ held) xs fs
    → (w.work_queue entry).next ≡ no_entry
    → (w.work_queue entry).prev ≡ no_entry
    → (w' : IoWorker) × (insert_req_sorted w entry target ≡ some w')
      × IsWorker w' held (inserted (stops_at w target) entry xs) fs
      × (w'.latest_nsecs ≡ w.latest_nsecs)
      × ((j : ℕ) → unlinked (w'.work_queue j) ≡ unlinked (w.work_queue j))
unfolding insert_req_sorted inserted count first IsChain last stops_at
insert_req_sorted-IsWorker w entry target held [] fs k en ep =
    let hd = k.head in
    (
      record w { io_seq = entry; io_seq_end = entry },
      rw hd refl,
      record {
        linked = (en, ep, tt);
        head = refl;
        tail = λ h. refl;
        free = k.free;
        free_head = k.free_head;
        free_tail = k.free_tail;
        some_free = k.some_free;
        in_one = λ j. omega (arith, k.in_one j);
      },
      refl,
      λ j. refl,
    )
insert_req_sorted-IsWorker w entry target held (x ∷ xs) fs k en ep =
    let qs = x ∷ xs in
    let stop = stops_at w target in
    let ys = rev_onto qs [] in
    let before = passed stop ys in
    let after = reached stop ys in
    let split = passed-reached stop ys in
    let fresh = entries-IsFresh w entry held qs fs (before ++ after) k split in
    let hx = k.in_one x in
    let hn = k.in_one no_entry in
    let here = count-here x x xs refl in
    let no_nil : count no_entry ys ≡ 0 = omega (arith, fresh.bounded, ap (count no_entry) split) in
    let some_work : w.io_seq ≢ no_entry = λ e.
      not_member x no_entry qs (omega (arith, no_nil, count-rev_onto no_entry qs [])) here
        (sym k.head ∙ e) in
    let end = k.tail some_work ∙ sym (first-rev_onto qs []) in
    let back =
      IsChain-reverse (λ i. (w.work_queue i).next) (λ i. (w.work_queue i).prev) qs k.linked in
    let few : (j : ℕ) → count j ys ≤ (if ltb j nr_max_parallel_io then 1 else 0) =
      λ j. omega (arith, k.in_one j, count-rev_onto j qs []) in
    let fuel : size ys < nr_max_parallel_io + 1 = omega (arith, size-nr_max_parallel_io ys few) in
    let walk = find_place-reached (nr_max_parallel_io + 1) w target no_entry ys no_nil fuel back in
    let placed =
      link_entry-IsPlaced w entry before after en ep some_work
        (k.head ∙ sym (last-reverse qs) ∙ ap (last no_entry) (sym split))
        (end ∙ ap first (sym split)) fresh
        (subst (λ zs. IsChain (λ i. (w.work_queue i).prev) (λ i. (w.work_queue i).next) no_entry zs)
          (sym split) back) in
    (
      link_entry w entry (first after),
      rw (≢→== w.io_seq no_entry some_work, end, walk) refl,
      placed-IsWorker w _ entry held qs before after fs k split placed,
      placed.latest_nsecs,
      placed.contents,
    )
