-- ===== src/WorkQueue/Completion.antt =====
-- NVMevirt/io.c, nvmev.h and nvme.h: completions are posted in a ring; the phase bit of an entry tells
-- the host whether it is new.
use xharvest.Base.{
  ℕ, suc, ◌+◌, ◌*◌, ◌/◌, ◌%◌, ◌^◌, ◌≡◌, ◌≢◌, ◌<◌, refl, arith, sym, ◌∙◌, true, Bool, Bool-cases,
  inl, inr, ==→≡, not_==→≢, ≢→==, update, update_self, not, ◌==◌, if◌then◌else◌,
}
use mathlib.Core.Path.{subst}
use native.Mathlib.Nat.{
  div-add-mod', mul-add-mod_self_right, mul-add-div_right, mod-eq_of_lt, div-eq_of_lt, suc-mul,
  mod-lt,
}
use xharvest.WorkQueue.{IoWork}

-- `struct nvme_completion`
pub record Completion : Type 0 where
  pub result0 : ℕ
  pub result1 : ℕ
  pub sq_head : ℕ
  pub sq_id : ℕ
  pub command_id : ℕ
  pub status : ℕ

-- The fields of a completion queue that posting uses; `phase` is 0 or 1.
pub record CompletionQueue : Type 0 where
  pub queue_size : ℕ
  pub phase : Bool
  pub cq_head : ℕ
  pub interrupt_ready : Bool
  pub cq : ℕ → Completion

unfoldable pub completion_of : Bool → IoWork → Completion
completion_of phase w = record {
  result0 = w.result0;
  result1 = w.result1;
  sq_head = w.sq_entry % 2 ^ 16;
  sq_id = w.sqid % 2 ^ 16;
  command_id = w.command_id % 2 ^ 16;
  status = (2 * w.status + (if phase then 1 else 0)) % 2 ^ 16;
}

unfoldable pub fill_cq_result : CompletionQueue → IoWork → CompletionQueue
fill_cq_result q w =
    let head = q.cq_head + 1 in
    let wraps = head == q.queue_size in
    record q {
      cq = update q.cq q.cq_head (completion_of q.phase w);
      cq_head = if wraps then 0 else head;
      phase = if wraps then not q.phase else q.phase;
      interrupt_ready = true;
    }

-- The phase of the `n`-th completion of a ring of `size` entries.
unfoldable pub phase_of : ℕ → ℕ → Bool
phase_of size n = n / size % 2 == 0

-- `n` completions have been posted since the queue was made.
pub record IsPosted (q : CompletionQueue) (n : ℕ) : Type 0 where
  pub head : q.cq_head ≡ n % q.queue_size
  pub phase : q.phase ≡ phase_of q.queue_size n

-- The next number, in the ring.
record IsNext (size n : ℕ) : Type 0 where
  pub wraps : n % size + 1 ≡ size → (suc n % size ≡ 0) × (suc n / size ≡ n / size + 1)
  pub stays : n % size + 1 ≢ size → (suc n % size ≡ n % size + 1) × (suc n / size ≡ n / size)

in_round : (size q s : ℕ) → s < size → ((q * size + s) % size ≡ s) × ((q * size + s) / size ≡ q)
in_round size q s h = (
  mul-add-mod_self_right q size s ∙ mod-eq_of_lt h,
  omega (arith, mul-add-div_right (above s size h) q s, div-eq_of_lt h),
)
  where
    above : (s size : ℕ) → s < size → 0 < size
    above s size h = omega (arith, h)

suc-IsNext : (size n : ℕ) → 0 < size → IsNext size n
suc-IsNext size n h =
    let q = n / size in
    let r = n % size in
    let split = div-add-mod' n size in
    record {
      wraps = λ e.
          subst (λ m. (m % size ≡ 0) × (m / size ≡ q + 1)) (omega (arith, split, e, suc-mul q size))
            (in_round size (q + 1) 0 h);
      stays = λ e.
          subst (λ m. (m % size ≡ r + 1) × (m / size ≡ q)) (omega (arith, split))
            (in_round size q (r + 1) (omega (arith, e, mod-lt n h)));
    }

other_phase : (r : ℕ) → not (r % 2 == 0) ≡ ((r + 1) % 2 == 0)
other_phase r = ground arith

-- Posting one more writes it at the next place of the ring with the phase of its round, and leaves the
-- other entries and the count right.
pub fill_cq_result-IsPosted :
    (q : CompletionQueue) (w : IoWork) (n : ℕ)
    → 0 < q.queue_size
    → IsPosted q n
    → IsPosted (fill_cq_result q w) (suc n)
      × ((fill_cq_result q w).cq (n % q.queue_size) ≡ completion_of (phase_of q.queue_size n) w)
      × ((j : ℕ) → j ≢ n % q.queue_size → (fill_cq_result q w).cq j ≡ q.cq j)
unfolding fill_cq_result phase_of
fill_cq_result-IsPosted q w n h k =
    let step = suc-IsNext q.queue_size n h in
    (
      elim (Bool-cases (q.cq_head + 1 == q.queue_size)) [
        | inl e ↦
            let (m, d) = step.wraps (omega (arith, k.head, ==→≡ (q.cq_head + 1) q.queue_size e)) in
            record {
              head = rw e (sym m);
              phase = rw (e, d, k.phase) (other_phase (n / q.queue_size));
            }
        | inr e ↦
            let (m, d) =
              step.stays
                (λ i. not_==→≢ (q.cq_head + 1) q.queue_size e (omega (arith, k.head, i))) in
            record { head = rw e (omega (arith, m, k.head)); phase = rw (e, d) k.phase }
      ],
      rw (k.head, k.phase) (update_self q.cq (n % q.queue_size) _),
      λ j l. rw (k.head, ≢→== j (n % q.queue_size) l) refl,
    )
