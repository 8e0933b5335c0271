-- ===== src/Tests/PixmapRuns.antt =====
-- The layout and the bands of packages/fragview/pixmap.go at small inputs.
use zfs_slab_mobility.Prelude.{ℕ, List, [], ◌∷◌, ◌/◌, ◌+◌, ◌*◌, ◌≤◌, ◌<◌, ◌≡◌, ◌⊎◌, refl, arith}
use zfs_slab_mobility.Pixmap.Bands.{height, present, band_heights}
use zfs_slab_mobility.Pixmap.Bands.Sum.{band_heights-sum}
use zfs_slab_mobility.Pixmap.Layout.{PixLayout, pix_layout_for, grow, hover_cell}
use zfs_slab_mobility.Pixmap.Layout.Fits.{IsTiled, IsSummed, pix_layout_for-fits}
use zfs_slab_mobility.Pixmap.Layout.Hover.{hover_cell_range, hover_cell_exact}

-- 300 blocks on 20 rows of 100 cells of 8 by 16 pixels.
abbrev tiles : PixLayout
tiles = pix_layout_for 300 800 8 16 20

-- One row of 15 blocks would leave them 53 pixels wide; on two rows a block is 26 by 32 or so.
tiles_run :
    (tiles.row_span ≡ 2)
    × (tiles.tile_rows ≡ 10)
    × (tiles.blocks_per_row ≡ 30)
    × (tiles.block_px ≡ 26)
unfolding pix_layout_for grow
tiles_run = (refl, refl, refl, refl)

pix_layout_for-fits_example :
    (300 ≤ tiles.tile_rows * tiles.blocks_per_row)
    × (0 < tiles.blocks_per_row)
    × (tiles.tile_rows * tiles.row_span ≤ 20)
    × (tiles.px_w ≡ 800)
    × (IsTiled tiles ⊎ IsSummed tiles)
pix_layout_for-fits_example =
    pix_layout_for-fits 300 800 8 16 20 (omega arith) (omega arith) (omega arith)

-- The same picture, written out.
abbrev drawn : PixLayout
drawn = record {
  view_from = 7;
  px_w = 800;
  cell_w = 8;
  cell_h = 16;
  map_rows = 20;
  tile_rows = 10;
  row_span = 2;
  blocks_per_row = 30;
  block_px = 26;
  per_col = 0;
  inset = 2;
}

hover_cell_range_run :
    let r = hover_cell drawn 1000 34 5 in (r.0 ≤ r.1) × (r.1 ≤ 1000) × (r.1 ≤ 7 + 10 * 30)
hover_cell_range_run = hover_cell_range drawn 1000 34 5

hover_cell_exact_example : hover_cell drawn 1000 34 5 ≡ (77, 78)
hover_cell_exact_example =
    hover_cell_exact drawn 1000 34 5 2 10 (omega arith) (omega arith) (omega arith) (omega arith)
      (omega arith) (omega arith) (omega arith) (omega arith) (omega arith) (omega arith)
      (omega arith) (omega arith)

abbrev kept_order : List ℕ → List ℕ
kept_order xs = xs

abbrev to_pixels : ℕ → ℕ
to_pixels n = n * 12 / 510

-- Eight slab pages, no ARC, two pages of the kernel and the rest free.
abbrev few_pinned : List ℕ
few_pinned = 8 ∷ 0 ∷ 2 ∷ 500 ∷ []

band_heights-sum_example : height (band_heights kept_order to_pixels 12 2 few_pinned) ≡ 12
unfolding present
band_heights-sum_example =
    band_heights-sum kept_order to_pixels 12 2 few_pinned (λ xs. refl) (λ xs k lt. (k, lt, refl))
      (omega arith)

bands_run : band_heights kept_order to_pixels 12 2 few_pinned ≡ 2 ∷ 0 ∷ 2 ∷ 8 ∷ []
unfolding band_heights
bands_run = refl
