-- ===== src/WorkQueue/Spec.antt =====
-- What a worker's queue promises, apart from the links: a list of entries in the order in which they
-- are served, and a list of free ones.
use xharvest.Base.{ℕ, ◌+◌, ◌≡◌, ◌≢◌, Bool, List, [], ◌∷◌, ◌++◌, ltb, if◌then◌else◌}
use xharvest.WorkQueue.{IoWorker, no_entry, nr_max_parallel_io, stops, is_done}
use xharvest.WorkQueue.Chain.{first, last, count, rev_onto, IsChain, IsLinked}

-- The queue `xs`, the free entries `fs` and those that the caller holds are all the entries, each once.
pub record IsWorker (w : IoWorker) (held xs fs : List ℕ) : Type 0 where
  pub linked : IsChain (λ i. (w.work_queue i).next) (λ i. (w.work_queue i).prev) no_entry xs
  pub head : w.io_seq ≡ first xs
  pub tail : w.io_seq ≢ no_entry → w.io_seq_end ≡ last no_entry xs
  pub free : IsLinked (λ i. (w.work_queue i).next) fs
  pub free_head : w.free_seq ≡ first fs
  pub free_tail : w.free_seq_end ≡ last no_entry fs
  pub some_free : first fs ≢ no_entry
  pub in_one :
      (x : ℕ) → count x held + count x xs + count x fs ≡ (if ltb x nr_max_parallel_io then 1 else 0)

-- Seen from the tail: the entries that the walk passes, and those from where it stops.
unfoldable pub passed : (ℕ → Bool) → List ℕ → List ℕ
passed stop [] = []
passed stop (x ∷ xs) = if stop x then [] else x ∷ passed stop xs

unfoldable pub reached : (ℕ → Bool) → List ℕ → List ℕ
reached stop [] = []
reached stop (x ∷ xs) = if stop x then x ∷ xs else reached stop xs

-- The entry goes right after the last one at which the walk stops.
unfoldable pub inserted : (ℕ → Bool) → ℕ → List ℕ → List ℕ
unfolding passed reached rev_onto
inserted stop entry xs =
    let from_tail = rev_onto xs [] in
    rev_onto (passed stop from_tail ++ (entry ∷ reached stop from_tail)) []

-- The entry's test, of a worker.
unfoldable pub stops_at : IoWorker → ℕ → ℕ → Bool
stops_at w target i = stops w.latest_nsecs target (w.work_queue i).nsecs_target

unfoldable pub done_at : IoWorker → ℕ → Bool
done_at w i = is_done w.latest_nsecs (w.work_queue i)

-- The done entries from the head on, and the others.
unfoldable pub done_prefix : (ℕ → Bool) → List ℕ → List ℕ
done_prefix done [] = []
done_prefix done (x ∷ xs) = if done x then x ∷ done_prefix done xs else []

unfoldable pub done_rest : (ℕ → Bool) → List ℕ → List ℕ
done_rest done [] = []
done_rest done (x ∷ xs) = if done x then done_rest done xs else x ∷ xs
