-- ===== src/Render/Bar.antt =====
-- packages/fragview/render.go: `compositionLines`, what all blocks together are made of.
--
-- `exact` is `int(float64(sum) / float64(known) * float64(width))`, of a sum.
use zfs_slab_mobility.Prelude.{
  ℕ, ◌+◌, ◌-◌, ◌*◌, ◌≤◌, ◌<◌, ◌≡◌, sym, ap, inl, inr, ◌&&◌, List, [], ◌∷◌, Option, none, some,
  arith, ltb, ◌==◌, if◌then◌else◌, total_by, Bool-cases, nothing_there, some_injective,
}
use zfs_slab_mobility.Kpage.Classes.{
  Class, Counts, no_pages, classes_from_free, sum_over, free, file, shmem, anon, abd, slab,
  compound, uncached, kernel, pgtab, reserved, unknown,
}

abbrev pub bar_order : List Class
bar_order =
    free ∷ file ∷ shmem ∷ anon ∷ abd ∷ slab ∷ compound ∷ uncached ∷ kernel ∷ pgtab ∷ reserved
    ∷ unknown ∷ []

-- The pages of each class in all blocks.
unfoldable pub composition : List Counts → Counts
composition [] = no_pages
composition (c ∷ cs) = λ k. c k + composition cs k

-- The classes of the legend: those with half a percent at least.
unfoldable pub legend_of : Counts → ℕ → List Class → List Class
legend_of sum known [] = []
legend_of sum known (c ∷ cs) =
    let rest = legend_of sum known cs in if ltb (sum c * 200) known then rest else c ∷ rest

-- One class's part of the bar, `drawn` columns being taken.
abbrev pub columns : (ℕ → ℕ) → ℕ → ℕ → ℕ → ℕ
columns exact width drawn sum =
    let n = if (exact sum == 0) && ltb 0 sum then 1 else exact sum in
    if ltb width (drawn + n) then width - drawn else n

unfoldable pub bar_loop : (ℕ → ℕ) → ℕ → Counts → ℕ → List Class → List ℕ
bar_loop exact width sum drawn [] = []
bar_loop exact width sum drawn (c ∷ cs) =
    let n = columns exact width drawn (sum c) in n ∷ bar_loop exact width sum (drawn + n) cs

-- The legend and the bar of a pane of `w` columns; both lines are empty if no page is known. The
-- pane is at least two columns wide.
unfoldable pub composition_lines : (ℕ → ℕ) → ℕ → List Counts → Option (List Class × List ℕ)
unfolding composition legend_of bar_loop sum_over
composition_lines exact w counts =
    let sum = composition counts in
    let known = sum_over classes_from_free sum in
    if known == 0
    then none
    else some (legend_of sum known bar_order, bar_loop exact (w - 2) sum 0 bar_order)

-- Each class with pages has a column, unless those before it fill the bar.
abbrev pub Seen : ℕ → Counts → ℕ → List Class → List ℕ → Type 0
Seen width sum drawn [] ns = Unit {0}
Seen width sum drawn (c ∷ cs) [] = ⊥
Seen width sum drawn (c ∷ cs) (n ∷ ns) =
    (0 < sum c → drawn < width → 0 < n) × Seen width sum (drawn + n) cs ns

bar_loop-Seen :
    (exact : ℕ → ℕ) (width : ℕ) (sum : Counts) (drawn : ℕ) (cs : List Class)
    → drawn ≤ width
    → let ns = bar_loop exact width sum drawn cs in
      (drawn + total_by (λ n. n) ns ≤ width) × Seen width sum drawn cs ns
unfolding bar_loop
bar_loop-Seen exact width sum drawn [] h = (omega arith, tt)
bar_loop-Seen exact width sum drawn (c ∷ cs) h =
    let n = columns exact width drawn (sum c) in
    let fits : drawn + n ≤ width = ground arith in
    let there : 0 < sum c → drawn < width → 0 < n = λ pos room. ground arith in
    let (all, rest) = bar_loop-Seen exact width sum (drawn + n) cs fits in
    (omega (arith, all), (there, rest))

-- The bar is no wider than the pane less its two margins, and each class with pages has a column of
-- it, unless those before it fill the bar, whatever the rounding.
pub composition_lines-fit :
    (exact : ℕ → ℕ) (w : ℕ) (counts : List Counts) {legend : List Class} {bar : List ℕ}
    → composition_lines exact w counts ≡ some (legend, bar)
    → (total_by (λ n. n) bar ≤ w - 2) × Seen (w - 2) (composition counts) 0 bar_order bar
unfolding composition_lines
composition_lines-fit exact w counts h =
    let sum = composition counts in
    elim (Bool-cases (sum_over classes_from_free sum == 0)) [
      | inl nothing ↦ absurd (nothing_there (rw nothing at h))
      | inr pages ↦
          let same = ap (λ lines. lines.1) (some_injective (rw pages at h)) in
          let (all, there) = bar_loop-Seen exact (w - 2) sum 0 bar_order (omega arith) in
          rw (sym same) (omega (arith, all), there)
    ]
