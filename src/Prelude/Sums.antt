-- ===== src/Prelude/Sums.antt =====
-- Sums over lists and over the first numbers, and predicates on every element of a list.
use Prim.Native.Nat.{ℕ, zero, suc, ◌+◌, ◌*◌, ◌≤◌, ◌<◌}
use mathlib.Core.Path.{◌≡◌, refl, ap, ◌∙◌}
use mathlib.Core.Bool.{true, false}
use mathlib.Core.List.{List, [], ◌∷◌, ◌++◌}
use native.Mathlib.Decide.{dec_lt}
use native.Mathlib.Omega.{arith}
use zfs_slab_mobility.Prelude.Tests.{ltb, if◌then◌else◌}
use zfs_slab_mobility.Prelude.Lists.{length, replicate}

module _ {ℓ} {A : Type ℓ} where
  abbrev pub total_by : (A → ℕ) → List A → ℕ
  total_by w [] = 0
  total_by w (x ∷ xs) = w x + total_by w xs

  -- One element among others.
  pub total_by-at :
      (w : A → ℕ) (pre : List A) (x : A) (post : List A)
      → total_by w (pre ++ x ∷ post) ≡ total_by w (pre ++ post) + w x
  total_by-at w [] x post = omega arith
  total_by-at w (y ∷ pre) x post = omega (arith, total_by-at w pre x post)

  -- An element is replaced by one that weighs as much or more.
  pub total_by-grows :
      (w : A → ℕ) (pre : List A) (x y : A) (post : List A)
      → w x ≤ w y
      → 1 ≤ total_by w (pre ++ x ∷ post)
      → 1 ≤ total_by w (pre ++ y ∷ post)
  total_by-grows w pre x y post le h =
      omega (arith, total_by-at w pre x post, total_by-at w pre y post)

  pub total_by-replicate : (w : A → ℕ) (n : ℕ) (x : A) → total_by w (replicate n x) ≡ n * w x
  total_by-replicate w zero x = omega arith
  total_by-replicate w (suc n) x = grind (arith, total_by-replicate w n x)

  pub total_by-le :
      (v w : A → ℕ) → ((x : A) → v x ≤ w x) → (xs : List A) → total_by v xs ≤ total_by w xs
  total_by-le v w h [] = omega arith
  total_by-le v w h (x ∷ xs) = omega (arith, h x, total_by-le v w h xs)

  -- Where one weight is zero on every element, so is one that is zero wherever the other is.
  pub total_by-zero :
      (v w : A → ℕ)
      → ((x : A) → v x ≡ 0 → w x ≡ 0)
      → (xs : List A) → total_by v xs ≡ 0
      → total_by w xs ≡ 0
  total_by-zero v w h [] e = refl
  total_by-zero v w h (x ∷ xs) e =
      omega (arith, h x (omega arith), total_by-zero v w h xs (omega arith))

  -- If each element weighs at least one under one of two weights, none is lost.
  pub length-total_by :
      (v w : A → ℕ)
      → ((x : A) → 1 ≤ v x + w x)
      → (xs : List A) → length xs ≤ total_by v xs + total_by w xs
  length-total_by v w h [] = omega arith
  length-total_by v w h (x ∷ xs) = omega (arith, h x, length-total_by v w h xs)

  pub Every : (A → Type 0) → List A → Type 0
  Every P [] = Unit
  Every P (x ∷ xs) = P x × Every P xs

  pub Every-at :
      (P : A → Type 0) (pre : List A) (x : A) (post : List A) → Every P (pre ++ x ∷ post) → P x
  unfolding Every
  Every-at P [] x post e = e.0
  Every-at P (y ∷ pre) x post e = Every-at P pre x post e.1

  pub Every-change :
      (P : A → Type 0) (pre : List A) (x y : A) (post : List A)
      → Every P (pre ++ x ∷ post)
      → P y
      → Every P (pre ++ y ∷ post)
  unfolding Every
  Every-change P [] x y post e p = (p, e.1)
  Every-change P (z ∷ pre) x y post e p = (e.0, Every-change P pre x y post e.1 p)

  pub Every-replicate : (P : A → Type 0) (n : ℕ) {x : A} → P x → Every P (replicate n x)
  unfolding Every
  Every-replicate P zero p = tt
  Every-replicate P (suc n) p = (p, Every-replicate P n p)

-- `f 0 + ... + f (n - 1)`.
abbrev pub sum_below : (ℕ → ℕ) → ℕ → ℕ
sum_below f zero = 0
sum_below f (suc n) = sum_below f n + f n

-- What a number outside a range counts for.
abbrev pub capped : ℕ → (ℕ → ℕ) → ℕ → ℕ
capped n f i = if ltb i n then f i else 0

pub sum_below-next : (f : ℕ → ℕ) (n : ℕ) → sum_below f (n + 1) ≡ sum_below f n + f n
sum_below-next f n = let e : n + 1 ≡ suc n = omega arith in rw e refl

pub capped-inside : (n : ℕ) (f : ℕ → ℕ) (i : ℕ) → ltb i n ≡ true → capped n f i ≡ f i
capped-inside n f i h = rw h refl

pub capped-outside : (n : ℕ) (f : ℕ → ℕ) (i : ℕ) → ltb i n ≡ false → capped n f i ≡ 0
capped-outside n f i h = rw h refl

sum_below-inside : (n : ℕ) (f : ℕ → ℕ) (k : ℕ) → k ≤ n → sum_below (capped n f) k ≡ sum_below f k
sum_below-inside n f zero h = refl
sum_below-inside n f (suc k) h = ground (arith, sum_below-inside n f k (omega arith))

-- Past the end of the range nothing is added.
pub sum_below-capped :
    (n : ℕ) (f : ℕ → ℕ) (k : ℕ) → n ≤ k → sum_below (capped n f) k ≡ sum_below f n
sum_below-capped n f zero h = let e : n ≡ 0 = omega arith in rw e refl
sum_below-capped n f (suc k) h = elim (dec_lt k n) [
  | yes last ↦
      let e : suc k ≡ n = omega arith in
      ap (sum_below (capped n f)) e ∙ sum_below-inside n f n (omega arith)
  | no past ↦ ground (arith, sum_below-capped n f k (omega arith))
]

pub sum_below-zero : (f : ℕ → ℕ) (n : ℕ) → sum_below f n ≡ 0 → (i : ℕ) → i < n → f i ≡ 0
sum_below-zero f zero h i lt = absurd (omega arith)
sum_below-zero f (suc n) h i lt = elim (dec_lt i n) [
  | yes below ↦ sum_below-zero f n (omega arith) i below
  | no last ↦ let e : i ≡ n = omega arith in rw e (omega arith)
]

pub sum_below-all : (f : ℕ → ℕ) (n : ℕ) → ((i : ℕ) → i < n → f i ≡ 0) → sum_below f n ≡ 0
sum_below-all f zero h = refl
sum_below-all f (suc n) h =
    omega (arith, h n (omega arith), sum_below-all f n (λ i lt. h i (omega arith)))
