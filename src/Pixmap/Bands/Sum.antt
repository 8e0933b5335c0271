-- ===== src/Pixmap/Bands/Sum.antt =====
-- The heights of packages/fragview/pixmap.go's bands add up.
use native.Mathlib.Nat.{mod-lt}
use zfs_slab_mobility.Prelude.{
  ℕ, zero, suc, ◌+◌, ◌-◌, ◌%◌, ◌≤◌, ◌<◌, ◌≡◌, refl, inl, inr, arith, false, ◌&&◌, List, [], ◌∷◌,
  ltb, ◌==◌, if◌then◌else◌, length, get_or, Bool-cases, ltb→lt, ltb→le, if_intro, total_by,
}
use zfs_slab_mobility.Pixmap.Bands.{
  first_bands, present, height, tallest, lower_at, raise_at, lower_first, shrink, stretch,
  band_heights,
}

height-lower_at :
    (out : List ℕ) (t : ℕ) → 0 < get_or out t 0 → height (lower_at out t) + 1 ≡ height out
height-lower_at [] t h = absurd (omega arith)
height-lower_at (n ∷ out) zero h = omega arith
height-lower_at (n ∷ out) (suc t) h = omega (arith, height-lower_at out t h)

height-raise_at : (out : List ℕ) (t : ℕ) → t < length out → height (raise_at out t) ≡ height out + 1
height-raise_at [] t h = absurd (omega arith)
height-raise_at (n ∷ out) zero h = omega arith
height-raise_at (n ∷ out) (suc t) h = omega (arith, height-raise_at out t (omega arith))

length-raise_at : (out : List ℕ) (t : ℕ) → length (raise_at out t) ≡ length out
length-raise_at [] t = refl
length-raise_at (n ∷ out) zero = refl
length-raise_at (n ∷ out) (suc t) = omega (arith, length-raise_at out t)

length-lower_at : (out : List ℕ) (t : ℕ) → length (lower_at out t) ≡ length out
length-lower_at [] t = refl
length-lower_at (n ∷ out) zero = refl
length-lower_at (n ∷ out) (suc t) = omega (arith, length-lower_at out t)

height-lower_first :
    (out : List ℕ)
    → 0 < height out
    → (height (lower_first out) + 1 ≡ height out) × (length (lower_first out) ≡ length out)
height-lower_first [] h = absurd (omega arith)
height-lower_first (zero ∷ out) h =
    let (e, l) = height-lower_first out (omega arith) in (omega (arith, e), omega (arith, l))
height-lower_first (suc n ∷ out) h = (omega arith, refl)

-- What is found tallest is a band of that height.
tallest-found :
    (min_band i : ℕ) (out : List ℕ) (whole : List ℕ) (best : ℕ × ℕ)
    → ((j : ℕ) → j < length out → get_or whole (i + j) 0 ≡ get_or out j 0)
    → (0 < best.1 → get_or whole best.0 0 ≡ best.1)
    → (let r = tallest min_band i out best in 0 < r.1 → get_or whole r.0 0 ≡ r.1)
unfolding tallest
tallest-found min_band i [] whole best same h = h
tallest-found min_band i (n ∷ out) whole (t, m) same h =
    tallest-found min_band (i + 1) out whole (if ltb min_band n && ltb m n then (i, n) else (t, m))
      (λ j lt. let e : i + 1 + j ≡ i + suc j = omega arith in rw e (same (suc j) (omega arith)))
      (if_intro (λ (b : ℕ × ℕ). 0 < b.1 → get_or whole b.0 0 ≡ b.1) (ltb min_band n && ltb m n)
        (i, n) (t, m) (λ _ pos. let e : i + 0 ≡ i = omega arith in rw e at (same 0 (omega arith)))
        (λ _. h))

-- One round takes one pixel.
abbrev lowered : List ℕ → ℕ × ℕ → List ℕ
lowered out best = if best.1 == 0 then lower_first out else lower_at out best.0

lowered-height :
    (min_band : ℕ) (out : List ℕ)
    → 0 < height out
    → (let low = lowered out (tallest min_band 0 out (0, 0)) in
        (height low + 1 ≡ height out) × (length low ≡ length out))
lowered-height min_band out h =
    let best = tallest min_band 0 out (0, 0) in
    let found =
      tallest-found min_band 0 out out (0, 0) (λ j lt. let e : 0 + j ≡ j = omega arith in rw e refl)
        (λ none_yet. absurd (omega arith)) in
    if_intro (λ (low : List ℕ). (height low + 1 ≡ height out) × (length low ≡ length out))
      (best.1 == 0) (lower_first out) (lower_at out best.0) (λ _. height-lower_first out h)
      (λ some_tall.
        let pos : 0 < best.1 = ground arith in
        (height-lower_at out best.0 (omega (arith, found pos)), length-lower_at out best.0))

-- The first loop takes what is above the height, and nothing else.
shrink-sum :
    (fuel h min_band : ℕ) (out : List ℕ) (total : ℕ)
    → height out ≡ total
    → total ≤ h + fuel
    → (let r = shrink fuel h min_band out total in
        (height r.0 ≡ r.1) × (r.1 ≤ h) × (length r.0 ≡ length out))
unfolding shrink
shrink-sum zero h min_band out total e le = (e, omega arith, refl)
shrink-sum (suc fuel) h min_band out total e le = elim (Bool-cases (ltb h total)) [
  | inr fits ↦ rw fits (e, ltb→le h total fits, refl)
  | inl over ↦
      let more = ltb→lt h total over in
      let (one, same) = lowered-height min_band out (omega arith) in
      let (sum, less, len) =
        shrink-sum fuel h min_band (lowered out (tallest min_band 0 out (0, 0))) (total - 1)
          (omega (arith, one)) (omega arith) in
      rw over (sum, less, omega (arith, len, same))
]

stretch-sum :
    (fuel h : ℕ) (fracs : List ℕ) (i : ℕ) (out : List ℕ) (total : ℕ)
    → height out ≡ total
    → h ≤ total + fuel
    → total ≤ h
    → ((k : ℕ) → get_or fracs (k % length fracs) 0 < length out)
    → height (stretch fuel h fracs i out total).0 ≡ h
unfolding stretch
stretch-sum zero h fracs i out total e le ge inside = omega arith
stretch-sum (suc fuel) h fracs i out total e le ge inside = elim (Bool-cases (ltb total h)) [
  | inr full ↦ rw full (omega (arith, ltb→le total h full))
  | inl short ↦ rw short (
      let t = get_or fracs (i % length fracs) 0 in
      stretch-sum fuel h fracs (i + 1) (raise_at out t) (total + 1)
        (omega (arith, height-raise_at out t (inside i))) (omega arith)
        (omega (arith, ltb→lt total h short)) (λ k. omega (arith, length-raise_at out t, inside k)))
]

present-inside :
    (i : ℕ) (sums : List ℕ) (j : ℕ)
    → j < length (present i sums)
    → get_or (present i sums) j 0 < i + length sums
unfolding present
present-inside i [] j h = absurd (omega arith)
present-inside i (s ∷ sums) j h = elim (Bool-cases (s == 0)) [
  | inl absent ↦ rw absent (omega (arith, present-inside (i + 1) sums j (rw absent at h)))
  | inr there ↦ rw there (at j (rw there at h) (λ k lt. present-inside (i + 1) sums k lt))
]
  where
    at :
        (j : ℕ)
        → j < length (i ∷ present (i + 1) sums)
        → ((k : ℕ)
            → k < length (present (i + 1) sums)
            → get_or (present (i + 1) sums) k 0 < i + 1 + length sums)
        → get_or (i ∷ present (i + 1) sums) j 0 < i + suc (length sums)
    at zero h inside = omega arith
    at (suc k) h inside = omega (arith, inside k (omega arith))

length-first_bands :
    (scaled : ℕ → ℕ) (min_band : ℕ) (sums : List ℕ)
    → length (first_bands scaled min_band sums) ≡ length sums
unfolding first_bands
length-first_bands scaled min_band [] = refl
length-first_bands scaled min_band (s ∷ sums) =
    omega (arith, length-first_bands scaled min_band sums)

length-stretch :
    (fuel h : ℕ) (fracs : List ℕ) (i : ℕ) (out : List ℕ) (total : ℕ)
    → length (stretch fuel h fracs i out total).0 ≡ length out
unfolding stretch
length-stretch zero h fracs i out total = refl
length-stretch (suc fuel) h fracs i out total =
    let t = get_or fracs (i % length fracs) 0 in
    let next = length-stretch fuel h fracs (i + 1) (raise_at out t) (total + 1) in
    ground (arith, next, length-raise_at out t)

-- There is a band, perhaps of no height, for each class.
pub length-band_heights :
    (by_frac : List ℕ → List ℕ) (scaled : ℕ → ℕ) (h min_band : ℕ) (sums : List ℕ)
    → length (band_heights by_frac scaled h min_band sums) ≡ length sums
unfolding band_heights
length-band_heights by_frac scaled h min_band sums =
    let out = first_bands scaled min_band sums in
    let fracs = by_frac (present 0 sums) in
    let low = shrink (height out - h) h min_band out (height out) in
    let (_, _, len) = shrink-sum (height out - h) h min_band out (height out) refl (omega arith) in
    let same = length-first_bands scaled min_band sums in
    if_intro (λ (r : List ℕ). length r ≡ length sums) (length (present 0 sums) == 0) out
      (stretch (h - low.1) h fracs 0 low.0 low.1).0 (λ _. same)
      (λ _. omega (arith, length-stretch (h - low.1) h fracs 0 low.0 low.1, len, same))

-- Where a class has pages, it is present.
pub present-some :
    (i : ℕ) (sums : List ℕ) → 0 < total_by (λ n. n) sums → 0 < length (present i sums)
unfolding present
present-some i [] h = h
present-some i (s ∷ sums) h = ground (arith, present-some (i + 1) sums)

-- If some class is present, both loops come to an end and the bands are together exactly as high as
-- the tile, whatever the rounding and the order of the fractions. (Sorting keeps the number of the
-- positions and gives no others.)
pub band_heights-sum :
    (by_frac : List ℕ → List ℕ) (scaled : ℕ → ℕ) (h min_band : ℕ) (sums : List ℕ)
    → ((xs : List ℕ) → length (by_frac xs) ≡ length xs)
    → ((xs : List ℕ) (k : ℕ)
        → k < length xs
        → (j : ℕ) × (j < length xs) × (get_or (by_frac xs) k 0 ≡ get_or xs j 0))
    → 0 < length (present 0 sums)
    → height (band_heights by_frac scaled h min_band sums) ≡ h
unfolding band_heights
band_heights-sum by_frac scaled h min_band sums keeps among some_there =
    let out = first_bands scaled min_band sums in
    let fracs = by_frac (present 0 sums) in
    let low = shrink (height out - h) h min_band out (height out) in
    let (sum, less, len) =
      shrink-sum (height out - h) h min_band out (height out) refl (omega arith) in
    let is_some : (length (present 0 sums) == 0) ≡ false = ground arith in
    rw is_some (
      stretch-sum (h - low.1) h fracs 0 low.0 low.1 sum (omega arith) less (λ k.
        let (j, lt, e) = among (present 0 sums) (k % length fracs) (
          omega (
            arith,
            keeps (present 0 sums),
            mod-lt k {m = length fracs} (omega (arith, keeps (present 0 sums))),
          )) in
        omega (arith, e, len, present-inside 0 sums j lt, length-first_bands scaled min_band sums)))
