-- ===== src/Base/Arrays.antt =====
-- C arrays as functions of the index, and lists under native indices.
use Prim.Native.Nat.{ℕ, zero, suc, ◌+◌, ◌≤◌, ◌<◌}
use mathlib.Core.Path.{◌≡◌, refl}
use mathlib.Core.Bool.{◌&&◌}
use native.Mathlib.Omega.{arith}
use xharvest.Base.Tests.{ltb, leb, ◌==◌, if◌then◌else◌}

-- `a[i] = v`
abbrev pub update {ℓ} : {A : Type ℓ} → (ℕ → A) → ℕ → A → ℕ → A
update a i v j = if j == i then v else a j

-- `memset(&a[start], v, n)`
abbrev pub fill {ℓ} : {A : Type ℓ} → (ℕ → A) → ℕ → A → ℕ → ℕ → A
fill a start v n j = if leb start j && ltb j (start + n) then v else a j

-- The sum of `a[0 .. n)`.
unfoldable pub sum_below : ℕ → (ℕ → ℕ) → ℕ
sum_below zero a = 0
sum_below (suc n) a = sum_below n a + a n

-- A write at or past `n` does not show in the sum.
pub sum_below-update_ge :
    (n : ℕ) (a : ℕ → ℕ) (i v : ℕ) → n ≤ i → sum_below n (update a i v) ≡ sum_below n a
unfolding sum_below
sum_below-update_ge zero a i v h = refl
sum_below-update_ge (suc n) a i v h = ground (arith, sum_below-update_ge n a i v)

-- A write below `n` trades the old entry for the new one.
pub sum_below-update :
    (n : ℕ) (a : ℕ → ℕ) (i v : ℕ) → i < n → sum_below n (update a i v) + a i ≡ sum_below n a + v
unfolding sum_below
sum_below-update zero a i v h = absurd (omega arith)
sum_below-update (suc n) a i v h =
    ground (arith, sum_below-update n a i v, sum_below-update_ge n a i v)

pub update_self {ℓ} : {A : Type ℓ} (f : ℕ → A) (i : ℕ) (v : A) → update f i v i ≡ v
update_self f i v = ground arith
