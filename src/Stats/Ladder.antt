-- ===== src/Stats/Ladder.antt =====
-- The unusable index of packages/fragview/stats.go.
use zfs_slab_mobility.Prelude.{
  ℕ, zero, suc, ◌+◌, ◌*◌, ◌^◌, ◌%◌, ◌⊎◌, sym, ap, ◌∙◌, ltb, get_or, sum_below, ◌≤◌, ◌<◌, ◌≡◌, refl,
  arith, true, none, some, List, [], ◌∷◌, ◌==◌, length, get_elem?, Bool-cases, inl, inr,
}
use zfs_slab_mobility.Stats.{FreeLadder, pages_below, index_loop, unusable_index}

pages_below_mono :
    (o : ℕ) (orders : List ℕ) (a b : ℕ) → a ≤ b → pages_below o orders a ≤ pages_below o orders b
unfolding pages_below
pages_below_mono o [] a b h = omega arith
pages_below_mono o (n ∷ orders) a b h = ground (arith, pages_below_mono (o + 1) orders a b h)

pages_below_first : (o : ℕ) (orders : List ℕ) (a : ℕ) → a ≤ o → pages_below o orders a ≡ 0
unfolding pages_below
pages_below_first o [] a h = refl
pages_below_first o (n ∷ orders) a h =
    ground (arith, pages_below_first (o + 1) orders a (omega arith))

-- The entry for one order.
index_loop-at :
    (orders : List ℕ) (total want : ℕ) (rest : List ℕ) (i : ℕ)
    → i < length rest
    → get_elem? (index_loop orders total want rest) i
      ≡ some (pages_below 0 orders (want + i), total)
unfolding index_loop
index_loop-at orders total want [] i h = absurd (omega arith)
index_loop-at orders total want (n ∷ rest) zero h =
    let e : want + 0 ≡ want = omega arith in rw e refl
index_loop-at orders total want (n ∷ rest) (suc i) h =
    let e : want + suc i ≡ want + 1 + i = omega arith in
    rw e (index_loop-at orders total (want + 1) rest i (omega arith))

sum_below-same : (f g : ℕ → ℕ) (k : ℕ) → ((i : ℕ) → f i ≡ g i) → sum_below f k ≡ sum_below g k
sum_below-same f g zero h = refl
sum_below-same f g (suc k) h = omega (arith, sum_below-same f g k h, h k)

sum_below-first : (f : ℕ → ℕ) (k : ℕ) → sum_below f (suc k) ≡ f 0 + sum_below (λ i. f (suc i)) k
sum_below-first f zero = omega arith
sum_below-first f (suc k) = omega (arith, sum_below-first f k)

-- The free pages in blocks of the orders below `k`.
abbrev pub smaller_pages : List ℕ → ℕ → ℕ
smaller_pages orders k = sum_below (λ o. get_or orders o 0 * (2 ^ o % 2 ^ 64)) k

pages_below-sum :
    (o : ℕ) (orders : List ℕ) (k : ℕ)
    → k ≤ length orders
    → pages_below o orders (o + k) ≡ sum_below (λ j. get_or orders j 0 * (2 ^ (o + j) % 2 ^ 64)) k
unfolding pages_below
pages_below-sum o orders zero h = pages_below_first o orders (o + 0) (omega arith)
pages_below-sum o [] (suc k) h = absurd (omega arith)
pages_below-sum o (n ∷ orders) (suc k) h =
    let f = λ (j : ℕ). get_or (n ∷ orders) j 0 * (2 ^ (o + j) % 2 ^ 64) in
    let g = λ (j : ℕ). get_or orders j 0 * (2 ^ (o + 1 + j) % 2 ^ 64) in
    let here : ltb o (o + suc k) ≡ true = ground arith in
    let on : o + suc k ≡ o + 1 + k = omega arith in
    let up : o + 0 ≡ o = omega arith in
    let first : f 0 ≡ n * (2 ^ o % 2 ^ 64) = rw up refl in
    let same : sum_below (λ i. f (suc i)) k ≡ sum_below g k =
      sum_below-same (λ i. f (suc i)) g k
        (λ i. let e : o + suc i ≡ o + 1 + i = omega arith in rw e refl) in
    let rest : pages_below (o + 1) orders (o + suc k) ≡ sum_below g k =
      rw on (pages_below-sum (o + 1) orders k (omega arith)) in
    rw here (omega (arith, first, same, rest, sum_below-first f k))

smaller_pages-below :
    (orders : List ℕ) (k : ℕ) → k ≤ length orders → pages_below 0 orders k ≡ smaller_pages orders k
smaller_pages-below orders k h =
    let e : 0 + k ≡ k = omega arith in
    let f = λ (j : ℕ). get_or orders j 0 * (2 ^ (0 + j) % 2 ^ 64) in
    let g = λ (j : ℕ). get_or orders j 0 * (2 ^ j % 2 ^ 64) in
    rw e at (pages_below-sum 0 orders k h)
    ∙ sum_below-same f g k (λ i. let z : 0 + i ≡ i = omega arith in rw z refl)

length-index_loop :
    (orders : List ℕ) (total want : ℕ) (rest : List ℕ)
    → length (index_loop orders total want rest) ≡ length rest
unfolding index_loop
length-index_loop orders total want [] = refl
length-index_loop orders total want (n ∷ rest) =
    omega (arith, length-index_loop orders total (want + 1) rest)

-- Without free pages there is no index. With them there is a fraction for every order: of all free
-- pages, those in blocks of smaller orders, of which an order `o` has 2 to the `o` (none from 64
-- on). So it is 0 for the smallest order, never falls from one order to a larger, and is at most 1.
pub unusable_index-bounds :
    (l : FreeLadder)
    → (let pages = smaller_pages l.orders in
        let total = pages (length l.orders) in
        ((total ≡ 0) × (unusable_index l ≡ none))
        ⊎ ((0 < total)
            × (index : List (ℕ × ℕ)) × (unusable_index l ≡ some index)
            × (length index ≡ length l.orders)
            × ((i : ℕ) → i < length l.orders → get_elem? index i ≡ some (pages i, total))
            × (pages 0 ≡ 0)
            × ((i j : ℕ) → i ≤ j → j ≤ length l.orders → pages i ≤ pages j)))
unfolding unusable_index
unusable_index-bounds l =
    let orders = l.orders in
    let all = pages_below 0 orders (length orders) in
    let sum = λ (k : ℕ) (h : k ≤ length orders). smaller_pages-below orders k h in
    let whole = sum (length orders) (omega arith) in
    elim (Bool-cases (all == 0)) [
      | inl empty ↦
          let nothing : all ≡ 0 = ground arith in
          inl (sym whole ∙ nothing, rw (empty, unusable_index) refl)
      | inr some_free ↦
          let pos : 0 < all = ground arith in
          inr (
            omega (arith, whole, pos),
            index_loop orders all 0 orders,
            rw (some_free, unusable_index) refl,
            length-index_loop orders all 0 orders,
            λ i lt. entry orders all i lt ∙ ap some (pair (sum i (omega arith)) whole),
            refl,
            λ i j le h.
                omega (arith, sum i (omega arith), sum j h, pages_below_mono 0 orders i j le),
          )
    ]
  where
    entry :
        (orders : List ℕ) (total i : ℕ)
        → i < length orders
        → get_elem? (index_loop orders total 0 orders) i ≡ some (pages_below 0 orders i, total)
    entry orders total i lt =
        let e : 0 + i ≡ i = omega arith in rw e at (index_loop-at orders total 0 orders i lt)

    pair : {a b c d : ℕ} → a ≡ b → c ≡ d → ◌≡◌ {A = ℕ × ℕ} (a, c) (b, d)
    pair e1 e2 = cc
