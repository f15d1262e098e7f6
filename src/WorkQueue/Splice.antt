-- ===== src/WorkQueue/Splice.antt =====
-- An entry is linked in between two parts of a chain.
use xharvest.Base.{ℕ, ◌≡◌, ◌≢◌, ◌<◌, ◌≤◌, List, [], ◌∷◌, ◌++◌, refl, arith, sym, ◌∙◌}
use mathlib.Core.Path.{subst}
use xharvest.WorkQueue.{no_entry}
use xharvest.WorkQueue.Chain.{
  first, last, count, IsChain, IsChain-frame, count-append, count-here, count-there, count-last,
}

-- The links `f'` and `g'` are those of `f` and `g` but for the new entry `e` between `xs` and `ys`.
pub record IsSpliced (f g f' g' : ℕ → ℕ) (p e : ℕ) (xs ys : List ℕ) : Type 0 where
  pub new_fwd : f' e ≡ first ys
  pub new_bwd : g' e ≡ last p xs
  pub same_fwd : (j : ℕ) → 0 < count j (xs ++ ys) → j ≢ last p xs → f' j ≡ f j
  pub same_bwd : (j : ℕ) → 0 < count j (xs ++ ys) → j ≢ first ys → g' j ≡ g j
  pub into : 0 < count (last p xs) xs → f' (last p xs) ≡ e
  pub back : 0 < count (first ys) ys → g' (first ys) ≡ e

count-none : (j x : ℕ) (xs : List ℕ) → count j (x ∷ xs) ≤ 1 → 0 < count j xs → j ≢ x
unfolding count
count-none j x xs h k = ground arith

-- The first of two parts has none of the second's entries.
count-head : (x : ℕ) (xs ys : List ℕ) → count x (x ∷ (xs ++ ys)) ≤ 1 → count x ys ≡ 0
unfolding count
count-head x xs ys h = ground (arith, count-append x xs ys)

count-head-front : (x : ℕ) (xs ys : List ℕ) → count x (x ∷ (xs ++ ys)) ≤ 1 → count x xs ≡ 0
unfolding count
count-head-front x xs ys h = ground (arith, count-append x xs ys)

pub count-none_shorter : (j x : ℕ) (xs : List ℕ) → count j (x ∷ xs) ≡ 0 → count j xs ≡ 0
unfolding count
count-none_shorter j x xs h = omega (arith, h)

pub count-tail : (x : ℕ) (xs : List ℕ) → count x (x ∷ xs) ≤ 1 → count x xs ≡ 0
unfolding count
count-tail x xs h = ground arith

pub count-shorter : (j x n : ℕ) (xs : List ℕ) → count j (x ∷ xs) ≤ n → count j xs ≤ n
unfolding count
count-shorter j x n xs h = omega (arith, h)

pub not_member : (j x : ℕ) (xs : List ℕ) → count x xs ≡ 0 → 0 < count j xs → j ≢ x
not_member j x xs z h e = absurd (omega (arith, subst (λ i. 0 < count i xs) e h, z))

not_first : (x : ℕ) (ys : List ℕ) → count x ys ≡ 0 → x ≢ no_entry → x ≢ first ys
unfolding first count
not_first x [] z h = h
not_first x (y ∷ ys) z h = ground arith

-- The part after the new entry.
IsChain-after :
    (f g f' g' : ℕ → ℕ) (p e : ℕ) (ys : List ℕ)
    → ((j : ℕ) → count j ys ≤ 1)
    → ((j : ℕ) → 0 < count j ys → f' j ≡ f j)
    → ((j : ℕ) → 0 < count j ys → j ≢ first ys → g' j ≡ g j)
    → (0 < count (first ys) ys → g' (first ys) ≡ e)
    → IsChain f g p ys
    → IsChain f' g' e ys
unfolding IsChain first
IsChain-after f g f' g' p e [] once hf hg hb c = tt
IsChain-after f g f' g' p e (y ∷ ys) once hf hg hb (ef, eg, c) = (
  hf y (count-here y y ys refl) ∙ ef,
  hb (count-here y y ys refl),
  IsChain-frame f g f' g' y ys (λ j h. hf j (count-there j y ys h))
      (λ j h. hg j (count-there j y ys h) (count-none j y ys (once j) h)) c,
)

pub IsChain-spliced :
    (f g f' g' : ℕ → ℕ) (p e : ℕ) (xs ys : List ℕ)
    → ((j : ℕ) → count j (xs ++ ys) ≤ 1)
    → count p (xs ++ ys) ≡ 0
    → count no_entry (xs ++ ys) ≡ 0
    → IsSpliced f g f' g' p e xs ys
    → IsChain f g p (xs ++ ys)
    → IsChain f' g' p (xs ++ (e ∷ ys))
unfolding IsChain first last
IsChain-spliced f g f' g' p e [] ys once outside bounded k c =
    let hf : (j : ℕ) → 0 < count j ys → f' j ≡ f j =
      λ j h. k.same_fwd j h (not_member j p ys outside h) in
    (k.new_fwd, k.new_bwd, IsChain-after f g f' g' p e ys once hf k.same_bwd k.back c)
IsChain-spliced f g f' g' p e (x ∷ []) ys once outside bounded k (ef, eg, c) =
    let alone = count-tail x ys (once x) in
    let entry : x ≢ no_entry =
      λ q. not_member x no_entry (x ∷ ys) bounded (count-here x x ys refl) q in
    let hf : (j : ℕ) → 0 < count j ys → f' j ≡ f j =
      λ j h. k.same_fwd j (count-there j x ys h) (not_member j x ys alone h) in
    (
      k.into (count-here x x [] refl),
      k.same_bwd x (count-here x x ys refl) (not_first x ys alone entry) ∙ eg,
      (
        k.new_fwd,
        k.new_bwd,
        IsChain-after f g f' g' x e ys (λ j. count-shorter j x 1 ys (once j)) hf
            (λ j h. k.same_bwd j (count-there j x ys h)) k.back c,
      ),
    )
IsChain-spliced f g f' g' p e (x ∷ x2 ∷ xs) ys once outside bounded k (ef, eg, c) =
    let part = x2 ∷ (xs ++ ys) in
    let here = count-here x x part refl in
    let alone = count-head x (x2 ∷ xs) ys (once x) in
    let before = count-head-front x (x2 ∷ xs) ys (once x) in
    let entry : x ≢ no_entry = λ q. not_member x no_entry (x ∷ part) bounded here q in
    (
      k.same_fwd x here (λ q. not_member _ x (x2 ∷ xs) before (count-last x2 xs) (sym q)) ∙ ef,
      k.same_bwd x here (not_first x ys alone entry) ∙ eg,
      IsChain-spliced f g f' g' x e (x2 ∷ xs) ys (λ j. count-shorter j x 1 part (once j))
          (count-tail x part (once x)) (count-none_shorter no_entry x part bounded)
          (record {
            new_fwd = k.new_fwd;
            new_bwd = k.new_bwd;
            same_fwd = λ j h. k.same_fwd j (count-there j x part h);
            same_bwd = λ j h. k.same_bwd j (count-there j x part h);
            into = λ h. k.into (count-there _ x (x2 ∷ xs) h);
            back = k.back;
          })
          c,
    )

-- The entry after a part of a chain is linked back to its last one.
pub IsChain-middle :
    (f g : ℕ → ℕ) (p y : ℕ) (xs ys : List ℕ) → IsChain f g p (xs ++ (y ∷ ys)) → g y ≡ last p xs
unfolding IsChain last
IsChain-middle f g p y [] ys (ef, eg, c) = eg
IsChain-middle f g p y (x ∷ xs) ys (ef, eg, c) = IsChain-middle f g x y xs ys c
