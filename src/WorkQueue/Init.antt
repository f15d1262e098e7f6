-- ===== src/WorkQueue/Init.antt =====
-- A worker as it is set up: all entries are free, in order.
use xharvest.Base.{
  ℕ, zero, suc, ◌+◌, ◌≡◌, ◌≢◌, ◌<◌, List, [], ◌∷◌, if◌then◌else◌, refl, arith, sym, ◌∙◌, ltb, leb,
  ◌&&◌,
}
use xharvest.WorkQueue.{no_entry, nr_max_parallel_io, IoWork, init_work_queue, init_worker}
use xharvest.WorkQueue.Chain.{first, last, count, IsChain, IsLinked}
use xharvest.WorkQueue.Spec.{IsWorker}

-- `n` numbers from `start` on.
unfoldable pub numbers_from : ℕ → ℕ → List ℕ
numbers_from zero start = []
numbers_from (suc n) start = start ∷ numbers_from n (start + 1)

pub count-numbers_from :
    (j n start : ℕ)
    → count j (numbers_from n start) ≡ (if leb start j && ltb j (start + n) then 1 else 0)
unfolding count numbers_from
count-numbers_from j zero start = ground arith
count-numbers_from j (suc n) start = ground (arith, count-numbers_from j n (start + 1))

partition : (j n : ℕ) → 0 + 0 + count j (numbers_from n 0) ≡ (if ltb j n then 1 else 0)
partition j n = ground (arith, count-numbers_from j n 0)

zero_entry : 0 ≢ no_entry
zero_entry q = omega (arith, q)

pub first-numbers_from : (n start : ℕ) → first (numbers_from (suc n) start) ≡ start
unfolding first numbers_from
first-numbers_from n start = refl

pub last-numbers_from : (n start p : ℕ) → last p (numbers_from (suc n) start) ≡ start + n
unfolding last numbers_from
last-numbers_from zero start p = omega arith
last-numbers_from (suc n) start p = omega (arith, last-numbers_from n (start + 1) start)

next_of :
    (zeroed : ℕ → IoWork) (i : ℕ)
    → i + 1 < nr_max_parallel_io
    → (init_work_queue zeroed i).next ≡ i + 1
unfolding init_work_queue
next_of zeroed i h = ground arith

pub IsLinked-numbers_from :
    (zeroed : ℕ → IoWork) (n start : ℕ)
    → start + suc n ≡ nr_max_parallel_io
    → IsLinked (λ i. (init_work_queue zeroed i).next) (numbers_from (suc n) start)
unfolding IsLinked numbers_from first init_work_queue
IsLinked-numbers_from zeroed zero start h = (ground arith, tt)
IsLinked-numbers_from zeroed (suc n) start h = (
  next_of zeroed start (omega (arith, h)),
  IsLinked-numbers_from zeroed n (start + 1) (omega (arith, h)),
)

-- A worker that has just been set up serves nothing and has every entry free.
pub init_worker-IsWorker :
    (zeroed : ℕ → IoWork) → IsWorker (init_worker zeroed) [] [] (numbers_from nr_max_parallel_io 0)
unfolding init_worker count IsChain first
init_worker-IsWorker zeroed = record {
  linked = tt;
  head = refl;
  tail = λ h. absurd (h refl);
  free = IsLinked-numbers_from zeroed 16383 0 refl;
  free_head = sym (first-numbers_from 16383 0);
  free_tail = sym (last-numbers_from 16383 0 no_entry);
  some_free = λ q. absurd (zero_entry (sym (first-numbers_from 16383 0) ∙ q));
  in_one = λ j. partition j nr_max_parallel_io;
}
