-- ===== src/WorkQueue/Insert.antt =====
-- Inserting a request: the walk from the tail ends, and the links are those of the new list.
use xharvest.Base.{
  ℕ, zero, suc, ◌+◌, ◌≡◌, ◌≢◌, ◌<◌, some, List, [], ◌∷◌, ◌++◌, ◌==◌, if◌then◌else◌, refl, arith,
  sym, ◌∙◌, ap, true, false, Bool, Bool-cases, inl, inr, ≢→==, ==→≡,
}
use xharvest.WorkQueue.{
  no_entry, IoWork, IoWorker, find_place, link_entry, stops, set_next, set_prev,
}
use xharvest.WorkQueue.Chain.{first, last, count, IsChain, count-here}
use xharvest.WorkQueue.Spec.{reached, stops_at}
use xharvest.WorkQueue.Splice.{IsSpliced, not_member, count-none_shorter}

unfoldable pub size : List ℕ → ℕ
size [] = 0
size (x ∷ xs) = size xs + 1

pub find_place-reached :
    (fuel : ℕ) (w : IoWorker) (target p : ℕ) (ys : List ℕ)
    → count no_entry ys ≡ 0
    → size ys < fuel
    → IsChain (λ i. (w.work_queue i).prev) (λ i. (w.work_queue i).next) p ys
    → find_place fuel w.work_queue w.latest_nsecs target (first ys)
      ≡ some (first (reached (stops_at w target) ys))
unfolding find_place first reached stops_at size IsChain
find_place-reached zero w target p ys bounded h c = absurd (omega (arith, h))
find_place-reached (suc fuel) w target p [] bounded h c = refl
find_place-reached (suc fuel) w target p (y ∷ ys) bounded h (ef, eg, c) =
    let entry = not_member y no_entry (y ∷ ys) bounded (count-here y y ys refl) in
    let rest =
      find_place-reached fuel w target y ys (count-none_shorter no_entry y ys bounded)
        (omega (arith, h)) c in
    elim (Bool-cases (stops w.latest_nsecs target (w.work_queue y).nsecs_target)) [
      | inl e ↦ rw (≢→== y no_entry entry, e) refl
      | inr e ↦ rw (≢→== y no_entry entry, e, ef) rest
    ]

-- A work item without its links.
abbrev pub unlinked : IoWork → IoWork
unlinked x = record x { next = no_entry; prev = no_entry }

-- The worker after the entry has been linked in between `xs` and `ys`, seen from the tail.
pub record IsPlaced (w w' : IoWorker) (e : ℕ) (xs ys : List ℕ) : Type 0 where
  pub spliced :
      IsSpliced
        (λ i. (w.work_queue i).prev)
        (λ i. (w.work_queue i).next)
        (λ i. (w'.work_queue i).prev)
        (λ i. (w'.work_queue i).next)
        no_entry
        e
        xs
        ys
  pub head : w'.io_seq ≡ last e ys
  pub tail : w'.io_seq_end ≡ first (xs ++ (e ∷ ys))
  pub free_seq : w'.free_seq ≡ w.free_seq
  pub free_seq_end : w'.free_seq_end ≡ w.free_seq_end
  pub latest_nsecs : w'.latest_nsecs ≡ w.latest_nsecs
  pub others : (j : ℕ) → j ≢ e → j ≢ first ys → (w'.work_queue j).next ≡ (w.work_queue j).next
  pub contents : (j : ℕ) → unlinked (w'.work_queue j) ≡ unlinked (w.work_queue j)

pub unlinked-set_next :
    (wq : ℕ → IoWork) (i n j : ℕ) → unlinked (set_next wq i n j) ≡ unlinked (wq j)
unlinked-set_next wq i n j = elim (Bool-cases (j == i)) [
  | inl e ↦ rw e (ap (λ z. unlinked (wq z)) (sym (==→≡ j i e)))
  | inr e ↦ rw e refl
]

pub unlinked-set_prev :
    (wq : ℕ → IoWork) (i n j : ℕ) → unlinked (set_prev wq i n j) ≡ unlinked (wq j)
unlinked-set_prev wq i n j = elim (Bool-cases (j == i)) [
  | inl e ↦ rw e (ap (λ z. unlinked (wq z)) (sym (==→≡ j i e)))
  | inr e ↦ rw e refl
]

pub unlinked-set :
    (wq : ℕ → IoWork) (i n i2 n2 j : ℕ)
    → unlinked (set_next (set_prev wq i n) i2 n2 j) ≡ unlinked (wq j)
unlinked-set wq i n i2 n2 j =
    unlinked-set_next (set_prev wq i n) i2 n2 j ∙ unlinked-set_prev wq i n j

pub either {ℓ κ} :
    {A : Type ℓ} (P : A → Type κ) (b : Bool) (x y : A) → P x → P y → P (if b then x else y)
either P true x y p q = p
either P false x y p q = q

link_entry-contents :
    (w : IoWorker) (e c j : ℕ)
    → unlinked ((link_entry w e c).work_queue j) ≡ unlinked (w.work_queue j)
unfolding link_entry
link_entry-contents w e c j =
    let wq = w.work_queue in
    let P : IoWorker → Type 0 = λ w'. unlinked (w'.work_queue j) ≡ unlinked (wq j) in
    let between = set_next (set_prev wq e c) e (wq c).next in
    either P (c == no_entry) _ _ (unlinked-set wq w.io_seq e e w.io_seq j) (
      either P ((wq c).next == no_entry) _ _ (unlinked-set wq e c c e j)
        (unlinked-set between (between e).next e c e j ∙ unlinked-set wq e c e (wq c).next j))

-- No list holds the new entry, nor the index -1.
pub record IsFresh (e : ℕ) (zs : List ℕ) : Type 0 where
  pub absent : count e zs ≡ 0
  pub bounded : count no_entry zs ≡ 0
  pub entry : e ≢ no_entry

pub link_entry-head :
    (w : IoWorker) (e : ℕ) (x : ℕ) (xs : List ℕ)
    → (w.work_queue e).next ≡ no_entry
    → (w.work_queue e).prev ≡ no_entry
    → w.io_seq ≡ last x xs
    → w.io_seq_end ≡ x
    → IsFresh e ((x ∷ xs) ++ [])
    → last x xs ≢ e
    → IsPlaced w (link_entry w e no_entry) e (x ∷ xs) []
unfolding link_entry first last count
link_entry-head w e x xs en ep hd tl k ne = record {
  spliced = record {
    new_fwd = ground arith;
    new_bwd = ground arith;
    same_fwd = λ j h l. ground arith;
    same_bwd = λ j h l. let q = not_member j e ((x ∷ xs) ++ []) k.absent h in ground arith;
    into = λ h. ground arith;
    back = λ h. absurd (omega (arith, h));
  };
  head = refl;
  tail = tl;
  free_seq = refl;
  free_seq_end = refl;
  latest_nsecs = refl;
  others = λ j h l. ground arith;
  contents = link_entry-contents w e no_entry;
}

pub link_entry-tail :
    (w : IoWorker) (e y : ℕ) (ys : List ℕ)
    → (w.work_queue e).next ≡ no_entry
    → (w.work_queue y).next ≡ no_entry
    → w.io_seq ≡ last y ys
    → IsFresh e (y ∷ ys)
    → y ≢ e
    → y ≢ no_entry
    → IsPlaced w (link_entry w e y) e [] (y ∷ ys)
unfolding link_entry first last count
link_entry-tail w e y ys en yn hd k ne ny = record {
  spliced = record {
    new_fwd = ground arith;
    new_bwd = ground arith;
    same_fwd = λ j h l. let q = not_member j e (y ∷ ys) k.absent h in ground arith;
    same_bwd = λ j h l. ground arith;
    into = λ h. absurd (omega (arith, h));
    back = λ h. ground arith;
  };
  head = ground arith;
  tail = ground arith;
  free_seq = ground arith;
  free_seq_end = ground arith;
  latest_nsecs = ground arith;
  others = λ j h l. ground arith;
  contents = link_entry-contents w e y;
}

pub link_entry-between :
    (w : IoWorker) (e y x : ℕ) (xs ys : List ℕ)
    → (w.work_queue y).next ≡ last x xs
    → w.io_seq ≡ last y ys
    → w.io_seq_end ≡ x
    → IsFresh e ((x ∷ xs) ++ (y ∷ ys))
    → y ≢ e
    → y ≢ no_entry
    → last x xs ≢ e
    → last x xs ≢ no_entry
    → IsPlaced w (link_entry w e y) e (x ∷ xs) (y ∷ ys)
unfolding link_entry first last count
link_entry-between w e y x xs ys yn hd tl k ne ny le ln =
    let fresh = λ (j : ℕ). not_member j e ((x ∷ xs) ++ (y ∷ ys)) k.absent in
    record {
      spliced = record {
        new_fwd = ground arith;
        new_bwd = ground arith;
        same_fwd = λ j h l. let q = fresh j h in ground arith;
        same_bwd = λ j h l. let q = fresh j h in ground arith;
        into = λ h. ground arith;
        back = λ h. ground arith;
      };
      head = ground arith;
      tail = ground arith;
      free_seq = ground arith;
      free_seq_end = ground arith;
      latest_nsecs = ground arith;
      others = λ j h l. ground arith;
      contents = link_entry-contents w e y;
    }
