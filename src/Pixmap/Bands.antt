-- ===== src/Pixmap/Bands.antt =====
-- packages/fragview/pixmap.go: `bandHeights`.
--
-- The classes are those of `stackOrder`, by their positions there; a class that is not in it has no
-- band. `scaled` is `int(exact)`, and `by_frac` the positions of the classes present after
-- `sort.Slice` by falling fractions.
pub mod Sum
use zfs_slab_mobility.Prelude.{
  ℕ, zero, suc, ◌+◌, ◌-◌, ◌%◌, max, ◌&&◌, List, [], ◌∷◌, ltb, ◌==◌, if◌then◌else◌, length, get_or,
  total_by,
}

-- `out` after the first loop.
unfoldable pub first_bands : (ℕ → ℕ) → ℕ → List ℕ → List ℕ
first_bands scaled min_band [] = []
first_bands scaled min_band (s ∷ sums) =
    (if s == 0 then 0 else max (scaled s) min_band) ∷ first_bands scaled min_band sums

-- The positions of the classes present, from position `i` on.
unfoldable pub present : ℕ → List ℕ → List ℕ
present i [] = []
present i (s ∷ sums) = let rest = present (i + 1) sums in if s == 0 then rest else i ∷ rest

abbrev pub height : List ℕ → ℕ
height out = total_by (λ n. n) out

-- The search for the tallest band above the minimum, from position `i` on.
unfoldable pub tallest : ℕ → ℕ → List ℕ → ℕ × ℕ → ℕ × ℕ
tallest min_band i [] best = best
tallest min_band i (n ∷ out) (t, m) =
    tallest min_band (i + 1) out (if ltb min_band n && ltb m n then (i, n) else (t, m))

abbrev pub lower_at : List ℕ → ℕ → List ℕ
lower_at [] i = []
lower_at (n ∷ out) zero = (n - 1) ∷ out
lower_at (n ∷ out) (suc i) = n ∷ lower_at out i

abbrev pub raise_at : List ℕ → ℕ → List ℕ
raise_at [] i = []
raise_at (n ∷ out) zero = (n + 1) ∷ out
raise_at (n ∷ out) (suc i) = n ∷ raise_at out i

-- The first band that is there loses a pixel.
abbrev pub lower_first : List ℕ → List ℕ
lower_first [] = []
lower_first (zero ∷ out) = 0 ∷ lower_first out
lower_first (suc n ∷ out) = n ∷ out

-- The first loop on `total`.
unfoldable pub shrink : ℕ → ℕ → ℕ → List ℕ → ℕ → List ℕ × ℕ
unfolding tallest
shrink zero h min_band out total = (out, total)
shrink (suc fuel) h min_band out total =
    let (t, n) = tallest min_band 0 out (0, 0) in
    let rest =
      shrink fuel h min_band (if n == 0 then lower_first out else lower_at out t) (total - 1) in
    if ltb h total then rest else (out, total)

-- The second loop on `total`, at the `i`-th of the classes by fraction.
unfoldable pub stretch : ℕ → ℕ → List ℕ → ℕ → List ℕ → ℕ → List ℕ × ℕ
stretch zero h fracs i out total = (out, total)
stretch (suc fuel) h fracs i out total =
    let rest =
      stretch fuel h fracs (i + 1) (raise_at out (get_or fracs (i % length fracs) 0)) (total + 1) in
    if ltb total h then rest else (out, total)

module _ (by_frac : List ℕ → List ℕ) (scaled : ℕ → ℕ) (h min_band : ℕ) where
  unfoldable pub band_heights : List ℕ → List ℕ
  unfolding first_bands present shrink stretch
  band_heights sums =
      let out = first_bands scaled min_band sums in
      let total = height out in
      let fracs = by_frac (present 0 sums) in
      let (low, less) = shrink (total - h) h min_band out total in
      if length (present 0 sums) == 0 then out else (stretch (h - less) h fracs 0 low less).0
