-- ===== src/WorkQueue/Reclaim.antt =====
-- Reclaiming: the done entries at the head of the queue go to the end of the free ones.
use xharvest.Base.{
  ℕ, zero, suc, ◌+◌, ◌≡◌, ◌≢◌, ◌<◌, ◌≤◌, some, List, [], ◌∷◌, ◌++◌, ◌==◌, if◌then◌else◌, refl,
  arith, sym, ◌∙◌, ap, Bool, Bool-cases, inl, inr, ≢→==, ltb,
}
use mathlib.Core.Path.{subst}
use xharvest.WorkQueue.{
  no_entry, nr_max_parallel_io, IoWork, IoWorker, last_done, release_entries, reclaim_worker,
  set_next, set_prev, is_done,
}
use xharvest.WorkQueue.Chain.{
  first, last, count, IsChain, IsLinked, count-append, count-here, count-there, count-last,
  IsChain-frame,
}
use xharvest.WorkQueue.Spec.{IsWorker, done_at, done_prefix, done_rest}
use xharvest.WorkQueue.Splice.{not_member, count-none_shorter, count-tail, count-shorter}
use xharvest.WorkQueue.Insert.{size, unlinked, unlinked-set_next, unlinked-set_prev, either}
use xharvest.WorkQueue.Enqueue.{size-nr_max_parallel_io, last-append}

done_prefix-rest : (done : ℕ → Bool) (xs : List ℕ) → done_prefix done xs ++ done_rest done xs ≡ xs
unfolding done_prefix done_rest
done_prefix-rest done [] = refl
done_prefix-rest done (x ∷ xs) = elim (Bool-cases (done x)) [
  | inl e ↦ rw e (ap (λ zs. x ∷ zs) (done_prefix-rest done xs))
  | inr e ↦ rw e refl
]

last_done-prefix :
    (fuel : ℕ) (w : IoWorker) (l p : ℕ) (xs : List ℕ)
    → count no_entry xs ≡ 0
    → size xs < fuel
    → IsChain (λ i. (w.work_queue i).next) (λ i. (w.work_queue i).prev) p xs
    → last_done fuel w.work_queue w.latest_nsecs (first xs) l
      ≡ some (last l (done_prefix (done_at w) xs))
unfolding last_done first done_prefix done_at size IsChain last
last_done-prefix zero w l p xs bounded h c = absurd (omega (arith, h))
last_done-prefix (suc fuel) w l p [] bounded h c = refl
last_done-prefix (suc fuel) w l p (x ∷ xs) bounded h (ef, eg, c) =
    let entry = not_member x no_entry (x ∷ xs) bounded (count-here x x xs refl) in
    let rest =
      last_done-prefix fuel w x x xs (count-none_shorter no_entry x xs bounded) (omega (arith, h))
        c in
    elim (Bool-cases (is_done w.latest_nsecs (w.work_queue x))) [
      | inl e ↦ rw (≢→== x no_entry entry, e, ef) rest
      | inr e ↦ rw (≢→== x no_entry entry, e) refl
    ]

-- Where a chain is cut.
IsChain-cut :
    (f g : ℕ → ℕ) (p x : ℕ) (xs ys : List ℕ)
    → IsChain f g p ((x ∷ xs) ++ ys)
    → (f (last x xs) ≡ first ys) × IsChain f g (last x xs) ys
unfolding IsChain last
IsChain-cut f g p x [] ys (ef, eg, c) = (ef, c)
IsChain-cut f g p x (x2 ∷ xs) ys (ef, eg, c) = IsChain-cut f g x x2 xs ys c

IsChain-IsLinked : (f g : ℕ → ℕ) (p : ℕ) (xs : List ℕ) → IsChain f g p xs → IsLinked f xs
unfolding IsChain IsLinked
IsChain-IsLinked f g p [] c = tt
IsChain-IsLinked f g p (x ∷ xs) (ef, eg, c) = (ef, IsChain-IsLinked f g x xs c)

append_nil : (xs : List ℕ) → xs ++ [] ≡ xs
append_nil [] = refl
append_nil (x ∷ xs) = ap (λ zs. x ∷ zs) (append_nil xs)

-- The last entry of a list is linked to another list.
IsLinked-relink :
    (f f' : ℕ → ℕ) (p : ℕ) (xs ys zs : List ℕ)
    → ((j : ℕ) → count j xs ≤ 1)
    → ((j : ℕ) → 0 < count j xs → j ≢ last p xs → f' j ≡ f j)
    → (0 < count (last p xs) xs → f' (last p xs) ≡ first zs)
    → IsLinked f (xs ++ ys)
    → IsLinked f' zs
    → IsLinked f' (xs ++ zs)
unfolding IsLinked last first
IsLinked-relink f f' p [] ys zs once same into c d = d
IsLinked-relink f f' p (x ∷ []) ys zs once same into c d = (into (count-here x x [] refl), d)
IsLinked-relink f f' p (x ∷ x2 ∷ xs) ys zs once same into (ef, c) d =
    let alone = count-tail x (x2 ∷ xs) (once x) in
    (
      same x (count-here x x (x2 ∷ xs) refl)
            (λ q. not_member _ x (x2 ∷ xs) alone (count-last x2 xs) (sym q))
          ∙ ef,
      IsLinked-relink f f' x (x2 ∷ xs) ys zs (λ j. count-shorter j x 1 (x2 ∷ xs) (once j))
          (λ j h. same j (count-there j x (x2 ∷ xs) h)) (λ h. into (count-there _ x (x2 ∷ xs) h)) c
          d,
    )

-- What the release does to the links: `l` is the last entry that is done and `a` the one after it.
record IsReleased (w w' : IoWorker) (l a : ℕ) : Type 0 where
  pub next_last : l ≢ w.free_seq_end → (w'.work_queue l).next ≡ no_entry
  pub next_end : (w'.work_queue w.free_seq_end).next ≡ w.io_seq
  pub next_other :
      (j : ℕ) → j ≢ l → j ≢ w.free_seq_end → (w'.work_queue j).next ≡ (w.work_queue j).next
  pub prev_first : a ≢ no_entry → a ≢ w.io_seq → (w'.work_queue a).prev ≡ no_entry
  pub prev_other : (j : ℕ) → j ≢ a → j ≢ w.io_seq → (w'.work_queue j).prev ≡ (w.work_queue j).prev
  pub contents : (j : ℕ) → unlinked (w'.work_queue j) ≡ unlinked (w.work_queue j)

release_entries-contents :
    (w : IoWorker) (l j : ℕ)
    → unlinked ((release_entries w l).work_queue j) ≡ unlinked (w.work_queue j)
unfolding release_entries
release_entries-contents w l j =
    let wq = w.work_queue in
    let P : (ℕ → IoWork) → Type 0 = λ v. unlinked (v j) ≡ unlinked (wq j) in
    let wq1 = if (wq l).next == no_entry then wq else set_prev wq (wq l).next no_entry in
    let wq2 = set_prev (set_next wq1 l no_entry) w.io_seq w.free_seq_end in
    unlinked-set_next wq2 w.free_seq_end w.io_seq j
    ∙ unlinked-set_prev (set_next wq1 l no_entry) w.io_seq w.free_seq_end j
    ∙ unlinked-set_next wq1 l no_entry j
    ∙ either P ((wq l).next == no_entry) _ _ refl (unlinked-set_prev wq (wq l).next no_entry j)

release_entries-latest :
    (w : IoWorker) (l : ℕ) → (release_entries w l).latest_nsecs ≡ w.latest_nsecs
unfolding release_entries
release_entries-latest w l = refl

release_entries-IsReleased :
    (w : IoWorker) (l : ℕ) → IsReleased w (release_entries w l) l (w.work_queue l).next
unfolding release_entries
release_entries-IsReleased w l = record {
  next_last = λ h. ground arith;
  next_end = ground arith;
  next_other = λ j h k. ground arith;
  prev_first = λ h k. ground arith;
  prev_other = λ j h k. ground arith;
  contents = λ j. release_entries-contents w l j;
}

last-nonempty : (p q : ℕ) (xs : List ℕ) → first xs ≢ no_entry → last p xs ≡ last q xs
unfolding last first
last-nonempty p q [] h = absurd (h refl)
last-nonempty p q (x ∷ xs) h = refl

first-append : (xs ys : List ℕ) → first xs ≢ no_entry → first (xs ++ ys) ≡ first xs
unfolding first
first-append [] ys h = absurd (h refl)
first-append (x ∷ xs) ys h = refl

count-last_of : (xs : List ℕ) → first xs ≢ no_entry → 0 < count (last no_entry xs) xs
unfolding last first
count-last_of [] h = absurd (h refl)
count-last_of (x ∷ xs) h = count-last x xs

-- The rest of the queue, once the entry before it is gone.
rest-IsChain :
    (w w' : IoWorker) (l : ℕ) (ks : List ℕ)
    → IsReleased w w' l (first ks)
    → count l ks ≡ 0
    → count w.io_seq ks ≡ 0
    → count w.free_seq_end ks ≡ 0
    → count no_entry ks ≡ 0
    → ((j : ℕ) → count j ks ≤ 1)
    → IsChain (λ i. (w.work_queue i).next) (λ i. (w.work_queue i).prev) l ks
    → IsChain (λ i. (w'.work_queue i).next) (λ i. (w'.work_queue i).prev) no_entry ks
unfolding IsChain first
rest-IsChain w w' l [] r nl nd ne nn once c = tt
rest-IsChain w w' l (y ∷ ks) r nl nd ne nn once (ef, eg, c) =
    let here = count-here y y ks refl in
    let out : (z : ℕ) → count z (y ∷ ks) ≡ 0 → (j : ℕ) → 0 < count j ks → j ≢ z =
      λ z h j k. not_member j z (y ∷ ks) h (count-there j y ks k) in
    (
      r.next_other y (not_member y l _ nl here) (not_member y w.free_seq_end _ ne here) ∙ ef,
      r.prev_first (not_member y no_entry _ nn here) (not_member y w.io_seq _ nd here),
      IsChain-frame _ _ _ _ y ks (λ j h. r.next_other j (out l nl j h) (out w.free_seq_end ne j h))
          (λ j h.
            r.prev_other j (not_member j y ks (count-tail y ks (once y)) h) (out w.io_seq nd j h))
          c,
    )

-- The done entries `x ∷ ds` at the head of the queue, and the others.
release_entries-IsWorker :
    (w : IoWorker) (x : ℕ) (ds ks held fs : List ℕ)
    → IsWorker w held ((x ∷ ds) ++ ks) fs
    → IsWorker (release_entries w (last x ds)) held ks (fs ++ (x ∷ ds))
unfolding first last IsLinked release_entries
release_entries-IsWorker w x ds ks held fs k =
    let l = last x ds in
    let w' = release_entries w l in
    let dd = x ∷ ds in
    let (cut, rest) = IsChain-cut _ _ no_entry x ds ks k.linked in
    let r : IsReleased w w' l (first ks) =
      subst (λ a. IsReleased w w' l a) cut (release_entries-IsReleased w l) in
    let parts : (j : ℕ)
        → count j held + (count j dd + count j ks) + count j fs
          ≡ (if ltb j nr_max_parallel_io then 1 else 0) =
      λ j. omega (arith, k.in_one j, count-append j dd ks) in
    let fe : 0 < count w.free_seq_end fs =
      subst (λ i. 0 < count i fs) (sym k.free_tail) (count-last_of fs k.some_free) in
    let le = count-last x ds in
    let pl = parts l in
    let pe = parts w.free_seq_end in
    let px = parts w.io_seq in
    let pn = parts no_entry in
    let hx : 0 < count w.io_seq dd = count-here w.io_seq x ds k.head in
    let once : (zs : List ℕ)
        → ((j : ℕ) → count j zs ≤ count j dd + count j ks + count j fs)
        → (j : ℕ) → count j zs ≤ 1 =
      λ zs h j. let hj = h j in let pj = parts j in ground arith in
    let no_last : count l fs ≡ 0 = ground arith in
    let no_end : count w.free_seq_end dd ≡ 0 = ground arith in
    let done : IsLinked (λ i. (w'.work_queue i).next) (dd ++ []) =
      IsLinked-relink _ _ no_entry dd ks [] (once dd (λ j. omega arith))
        (λ j h n. r.next_other j n (not_member j w.free_seq_end dd no_end h))
        (λ h. r.next_last (not_member l w.free_seq_end dd no_end le))
        (IsChain-IsLinked _ _ no_entry (dd ++ ks) k.linked) tt in
    record {
      linked =
          rest-IsChain w w' l ks r (ground arith) (ground arith) (ground arith) (ground arith)
            (once ks (λ j. omega arith)) rest;
      head = cut;
      tail = λ h.
          k.tail (not_member w.io_seq no_entry dd (ground arith) hx)
          ∙ last-append x ds ks
          ∙ last-nonempty l no_entry ks (λ q. h (cut ∙ q));
      free =
          IsLinked-relink _ _ no_entry fs [] dd (once fs (λ j. omega arith))
            (λ j h n. r.next_other j (not_member j l fs no_last h) (λ q. n (q ∙ k.free_tail)))
            (λ h. ap (λ i. (w'.work_queue i).next) (sym k.free_tail) ∙ r.next_end ∙ k.head)
            (subst (λ zs. IsLinked (λ i. (w.work_queue i).next) zs) (sym (append_nil fs)) k.free)
            (subst (λ zs. IsLinked (λ i. (w'.work_queue i).next) zs) (append_nil dd) done);
      free_head = k.free_head ∙ sym (first-append fs dd k.some_free);
      free_tail = sym (last-append no_entry fs dd);
      some_free = λ q. k.some_free (sym (first-append fs dd k.some_free) ∙ q);
      in_one = λ j. omega (arith, parts j, count-append j fs dd);
    }

-- With the done entries `ds` and the others `ks`.
reclaimed-IsWorker :
    (w : IoWorker) (held ds ks fs : List ℕ)
    → IsWorker w held (ds ++ ks) fs
    → IsWorker
        (if last no_entry ds == no_entry then w else release_entries w (last no_entry ds))
        held
        ks
        (fs ++ ds)
unfolding last
reclaimed-IsWorker w held [] ks fs k = subst (λ zs. IsWorker w held ks zs) (sym (append_nil fs)) k
reclaimed-IsWorker w held (x ∷ ds) ks fs k =
    let pn = k.in_one no_entry in
    let none : count no_entry (x ∷ ds) ≡ 0 =
      let q = count-append no_entry (x ∷ ds) ks in ground arith in
    let entry = not_member (last x ds) no_entry (x ∷ ds) none (count-last x ds) in
    rw (≢→== (last x ds) no_entry entry) (release_entries-IsWorker w x ds ks held fs k)

-- A worker reclaims: its loop ends, the done entries at the head of the queue are the last of the free
-- ones, in their order, and the others stay in the queue; no other field changes.
pub reclaim_worker-IsWorker :
    (w : IoWorker) (held xs fs : List ℕ)
    → IsWorker w held xs fs
    → (w' : IoWorker) × (reclaim_worker w ≡ some w')
      × IsWorker w' held (done_rest (done_at w) xs) (fs ++ done_prefix (done_at w) xs)
      × (w'.latest_nsecs ≡ w.latest_nsecs)
      × ((j : ℕ) → unlinked (w'.work_queue j) ≡ unlinked (w.work_queue j))
unfolding reclaim_worker
reclaim_worker-IsWorker w held xs fs k =
    let ds = done_prefix (done_at w) xs in
    let ks = done_rest (done_at w) xs in
    let l = last no_entry ds in
    let split = done_prefix-rest (done_at w) xs in
    let pn = k.in_one no_entry in
    let none : count no_entry xs ≡ 0 = ground arith in
    let few : (j : ℕ) → count j xs ≤ (if ltb j nr_max_parallel_io then 1 else 0) =
      λ j. omega (arith, k.in_one j) in
    let fuel : size xs < nr_max_parallel_io + 1 = omega (arith, size-nr_max_parallel_io xs few) in
    let walk =
      subst
        (λ i. last_done (nr_max_parallel_io + 1) w.work_queue w.latest_nsecs i no_entry ≡ some l)
        (sym k.head)
        (last_done-prefix (nr_max_parallel_io + 1) w no_entry no_entry xs none fuel k.linked) in
    let result = if l == no_entry then w else release_entries w l in
    let Same : IoWorker → Type 0 = λ v.
      (v.latest_nsecs ≡ w.latest_nsecs)
      × ((j : ℕ) → unlinked (v.work_queue j) ≡ unlinked (w.work_queue j)) in
    let same : Same result =
      either Same (l == no_entry) w (release_entries w l) (refl, λ j. refl)
        (release_entries-latest w l, release_entries-contents w l) in
    (
      result,
      rw walk refl,
      reclaimed-IsWorker w held ds ks fs (subst (λ zs. IsWorker w held zs fs) (sym split) k),
      same.0,
      same.1,
    )
