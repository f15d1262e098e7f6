-- ===== src/WorkQueue/Order.antt =====
-- The order in which a worker serves its queue.
use xharvest.Base.{
  ℕ, ◌≡◌, ◌<◌, ◌≤◌, max, List, [], ◌∷◌, ◌++◌, ◌==◌, refl, arith, Bool, Bool-cases, inl, inr, ==→≡,
  sym, ap, ◌⊎◌,
}
use mathlib.Core.Path.{subst}
use xharvest.WorkQueue.{IoWorker, stops}
use xharvest.WorkQueue.Chain.{count, rev_onto, count-append, count-here, count-there}
use xharvest.WorkQueue.Enqueue.{passed-reached}
use xharvest.WorkQueue.Spec.{passed, reached, inserted, stops_at}

-- Each entry stands in the relation to all that come after it.
unfoldable pub IsOrdered : (ℕ → ℕ → Type 0) → List ℕ → Type 0
IsOrdered R [] = Unit
IsOrdered R (x ∷ xs) = ((j : ℕ) → 0 < count j xs → R x j) × IsOrdered R xs

-- The first entry is due, or not after the second.
unfoldable pub Precedes : IoWorker → ℕ → ℕ → Type 0
Precedes w i j = (w.work_queue i).nsecs_target ≤ max w.latest_nsecs (w.work_queue j).nsecs_target

member-cons : (j x : ℕ) (xs : List ℕ) → 0 < count j (x ∷ xs) → (j ≡ x) ⊎ (0 < count j xs)
unfolding count
member-cons j x xs h = elim (Bool-cases (x == j)) [
  | inl q ↦ inl (sym (==→≡ x j q))
  | inr q ↦ inr (ground arith)
]

no_member : (j : ℕ) → 0 < count j [] → ⊥
unfolding count
no_member j h = omega (arith, h)

IsOrdered-rev_onto :
    (R : ℕ → ℕ → Type 0) (xs ys : List ℕ)
    → IsOrdered R xs
    → IsOrdered (λ i j. R j i) ys
    → ((i j : ℕ) → 0 < count i ys → 0 < count j xs → R i j)
    → IsOrdered (λ i j. R j i) (rev_onto xs ys)
unfolding IsOrdered rev_onto
IsOrdered-rev_onto R [] ys h k c = k
IsOrdered-rev_onto R (x ∷ xs) ys (hx, h) k c =
    IsOrdered-rev_onto R xs (x ∷ ys) h (λ j e. c j x e (count-here x x xs refl), k)
      (λ i j e l. elim (member-cons i x ys e) [
        | inl q ↦ subst (λ z. R z j) (sym q) (hx j l)
        | inr m ↦ c i j m (count-there j x xs l)
      ])

member-inserted :
    (stop : ℕ → Bool) (e j : ℕ) (ys : List ℕ)
    → 0 < count j (passed stop ys ++ (e ∷ reached stop ys))
    → (j ≡ e) ⊎ (0 < count j ys)
unfolding count
member-inserted stop e j ys h =
    let before = passed stop ys in
    let after = reached stop ys in
    member-cons j e ys (
      omega (
        arith,
        h,
        count-append j before (e ∷ after),
        count-append j before after,
        ap (count j) (passed-reached stop ys),
      ))

-- Seen from the tail.
inserted-IsOrdered_back :
    (w : IoWorker) (e : ℕ) (ys : List ℕ)
    → IsOrdered (λ i j. Precedes w j i) ys
    → IsOrdered
        (λ i j. Precedes w j i)
        (passed (stops_at w (w.work_queue e).nsecs_target) ys
          ++ (e ∷ reached (stops_at w (w.work_queue e).nsecs_target) ys))
unfolding IsOrdered passed reached stops_at Precedes count
inserted-IsOrdered_back w e [] k = (λ j h. absurd (omega (arith, h)), tt)
inserted-IsOrdered_back w e (y ∷ ys) (ky, k) =
    let target = (w.work_queue e).nsecs_target in
    elim (Bool-cases (stops w.latest_nsecs target (w.work_queue y).nsecs_target)) [
      | inl q ↦ rw q (
        λ j h. elim (member-cons j y ys h) [
          | inl m ↦ subst (λ z. Precedes w z e) (sym m) (ground arith)
          | inr m ↦ let o = ky j m in ground arith
        ],
        (ky, k),
      )
      | inr q ↦ rw q (
        λ j h. elim (member-inserted (stops_at w target) e j ys h) [
          | inl m ↦ subst (λ z. Precedes w z y) (sym m) (ground arith)
          | inr m ↦ ky j m
        ],
        inserted-IsOrdered_back w e ys k,
      )
    ]

-- A queue in which each entry is due or not after those behind it is still one after a new entry has
-- been put in.
pub inserted-IsOrdered :
    (w : IoWorker) (entry : ℕ) (xs : List ℕ)
    → IsOrdered (Precedes w) xs
    → IsOrdered (Precedes w) (inserted (stops_at w (w.work_queue entry).nsecs_target) entry xs)
unfolding inserted IsOrdered
inserted-IsOrdered w entry xs k =
    let from_tail =
      IsOrdered-rev_onto (Precedes w) xs [] k tt (λ i j h l. absurd (no_member i h)) in
    IsOrdered-rev_onto (λ i j. Precedes w j i) _ []
      (inserted-IsOrdered_back w entry (rev_onto xs []) from_tail) tt
      (λ i j h l. absurd (no_member i h))
