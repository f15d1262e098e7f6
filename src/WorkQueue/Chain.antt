-- ===== src/WorkQueue/Chain.antt =====
-- Linked lists through an array of indices.
use xharvest.Base.{ℕ, ◌+◌, ◌≡◌, ◌<◌, List, [], ◌∷◌, ◌++◌, ◌==◌, if◌then◌else◌, refl, arith, ◌∙◌}
use xharvest.WorkQueue.{no_entry}

unfoldable pub first : List ℕ → ℕ
first [] = no_entry
first (x ∷ xs) = x

-- The last entry, or `p` when there is none.
unfoldable pub last : ℕ → List ℕ → ℕ
last p [] = p
last p (x ∷ xs) = last x xs

unfoldable pub count : ℕ → List ℕ → ℕ
count j [] = 0
count j (x ∷ xs) = (if x == j then 1 else 0) + count j xs

-- The entries of the first list, reversed, before those of the second.
unfoldable pub rev_onto : List ℕ → List ℕ → List ℕ
rev_onto [] ys = ys
rev_onto (x ∷ xs) ys = rev_onto xs (x ∷ ys)

-- From each entry one link leads to the entry after it and one to the entry before it, which is `p`
-- for the first.
unfoldable pub IsChain : (ℕ → ℕ) → (ℕ → ℕ) → ℕ → List ℕ → Type 0
unfolding first
IsChain fwd bwd p [] = Unit
IsChain fwd bwd p (x ∷ xs) = (fwd x ≡ first xs) × (bwd x ≡ p) × IsChain fwd bwd x xs

-- The links to the entries after.
unfoldable pub IsLinked : (ℕ → ℕ) → List ℕ → Type 0
unfolding first
IsLinked fwd [] = Unit
IsLinked fwd (x ∷ xs) = (fwd x ≡ first xs) × IsLinked fwd xs

pub count-append : (j : ℕ) (xs ys : List ℕ) → count j (xs ++ ys) ≡ count j xs + count j ys
unfolding count
count-append j [] ys = omega arith
count-append j (x ∷ xs) ys = grind (arith, count-append j xs ys)

pub count-rev_onto : (j : ℕ) (xs ys : List ℕ) → count j (rev_onto xs ys) ≡ count j xs + count j ys
unfolding count rev_onto
count-rev_onto j [] ys = omega arith
count-rev_onto j (x ∷ xs) ys = grind (arith, count-rev_onto j xs (x ∷ ys))

pub count-here : (j x : ℕ) (xs : List ℕ) → j ≡ x → 0 < count j (x ∷ xs)
unfolding count
count-here j x xs e = ground arith

pub count-there : (j x : ℕ) (xs : List ℕ) → 0 < count j xs → 0 < count j (x ∷ xs)
unfolding count
count-there j x xs h = omega (arith, h)

-- The last entry is one of the list's, or the one before it.
pub count-last : (p : ℕ) (xs : List ℕ) → 0 < count (last p xs) (p ∷ xs)
unfolding last
count-last p [] = count-here p p [] refl
count-last p (x ∷ xs) = count-there _ p (x ∷ xs) (count-last x xs)

-- A chain stays one when the links of its entries do not change.
pub IsChain-frame :
    (f g f' g' : ℕ → ℕ) (p : ℕ) (xs : List ℕ)
    → ((j : ℕ) → 0 < count j xs → f' j ≡ f j)
    → ((j : ℕ) → 0 < count j xs → g' j ≡ g j)
    → IsChain f g p xs
    → IsChain f' g' p xs
unfolding IsChain first
IsChain-frame f g f' g' p [] hf hg c = tt
IsChain-frame f g f' g' p (x ∷ xs) hf hg (ef, eg, c) = (
  hf x (count-here x x xs refl) ∙ ef,
  hg x (count-here x x xs refl) ∙ eg,
  IsChain-frame f g f' g' x xs (λ j h. hf j (count-there j x xs h))
      (λ j h. hg j (count-there j x xs h)) c,
)

pub IsLinked-frame :
    (f f' : ℕ → ℕ) (xs : List ℕ)
    → ((j : ℕ) → 0 < count j xs → f' j ≡ f j)
    → IsLinked f xs
    → IsLinked f' xs
unfolding IsLinked first
IsLinked-frame f f' [] hf c = tt
IsLinked-frame f f' (x ∷ xs) hf (ef, c) = (
  hf x (count-here x x xs refl) ∙ ef,
  IsLinked-frame f f' xs (λ j h. hf j (count-there j x xs h)) c,
)

-- Read backwards, a chain is a chain with its links exchanged.
pub IsChain-rev_onto :
    (f g : ℕ → ℕ) (xs ys : List ℕ)
    → IsChain f g (first ys) xs
    → IsChain g f (first xs) ys
    → IsChain g f no_entry (rev_onto xs ys)
unfolding IsChain first rev_onto
IsChain-rev_onto f g [] ys c d = d
IsChain-rev_onto f g (x ∷ xs) ys (ef, eg, c) d = IsChain-rev_onto f g xs (x ∷ ys) c (eg, ef, d)

pub IsChain-reverse :
    (f g : ℕ → ℕ) (xs : List ℕ) → IsChain f g no_entry xs → IsChain g f no_entry (rev_onto xs [])
unfolding first IsChain
IsChain-reverse f g xs c = IsChain-rev_onto f g xs [] c tt

pub first-rev_onto : (xs ys : List ℕ) → first (rev_onto xs ys) ≡ last (first ys) xs
unfolding first rev_onto last
first-rev_onto [] ys = refl
first-rev_onto (x ∷ xs) ys = first-rev_onto xs (x ∷ ys)

last-rev_onto : (p x : ℕ) (xs ys : List ℕ) → last p (rev_onto xs (x ∷ ys)) ≡ last x ys
unfolding rev_onto last
last-rev_onto p x [] ys = refl
last-rev_onto p x (z ∷ xs) ys = last-rev_onto p z xs (x ∷ ys)

pub last-reverse : (xs : List ℕ) → last no_entry (rev_onto xs []) ≡ first xs
unfolding rev_onto last first
last-reverse [] = refl
last-reverse (x ∷ xs) = last-rev_onto no_entry x xs []
