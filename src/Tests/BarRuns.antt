-- ===== src/Tests/BarRuns.antt =====
-- The bar of packages/fragview/render.go over one block.
use zfs_slab_mobility.Prelude.{ℕ, ◌*◌, ◌/◌, ◌≤◌, refl, List, [], ◌∷◌, if◌then◌else◌, total_by}
use zfs_slab_mobility.Kpage.Classes.{Counts, free, slab, file, same_class}
use zfs_slab_mobility.Render.Bar.{
  bar_order, composition, composition_lines, Seen, composition_lines-fit,
}

-- Of 1000 pages one is slab, five are file pages and the rest is free.
abbrev mostly_free : Counts
mostly_free k =
    if same_class k slab
    then 1
    else if same_class k file
    then 5
    else if same_class k free
    then 994
    else 0

abbrev eighths : ℕ → ℕ
eighths sum = sum * 8 / 1000

abbrev eight_columns : List ℕ
eight_columns = 7 ∷ 1 ∷ 0 ∷ 0 ∷ 0 ∷ 0 ∷ 0 ∷ 0 ∷ 0 ∷ 0 ∷ 0 ∷ 0 ∷ []

-- The slab page finds the bar full.
composition_lines-fit_example :
    (total_by (λ n. n) eight_columns ≤ 8)
    × Seen 8 (composition (mostly_free ∷ [])) 0 bar_order eight_columns
unfolding composition_lines
composition_lines-fit_example =
    composition_lines-fit eighths 10 (mostly_free ∷ []) {legend = free ∷ file ∷ []}
      {bar = eight_columns} refl
