-- ===== src/Tests/PictureRuns.antt =====
-- Pictures of packages/fragview/pixmap.go at small inputs.
use zfs_slab_mobility.Prelude.{ℕ, ◌*◌, ◌/◌, ◌≡◌, ◌≢◌, refl, arith, true, List, [], ◌∷◌}
use zfs_slab_mobility.Kpage.Classes.{Counts, free, slab, sum_over, same_class}
use zfs_slab_mobility.Kpage.Blocks.{BlockMap}
use zfs_slab_mobility.Render.Summary.{BlockView, no_view}
use zfs_slab_mobility.Prelude.{if◌then◌else◌}
use zfs_slab_mobility.Pixmap.Layout.{PixLayout, pix_layout_for, grow}
use zfs_slab_mobility.Pixmap.Palette.{class_rgb, hostage_px, hover_px, clear}
use zfs_slab_mobility.Pixmap.Palette.Distinct.{class_rgb-distinct}
use zfs_slab_mobility.Pixmap.Bands.{band_heights}
use zfs_slab_mobility.Pixmap.Paint.Rows.{class_at}
use zfs_slab_mobility.Pixmap.Paint.Tile.{tile_pixel}
use zfs_slab_mobility.Pixmap.Encode.{encode}
use zfs_slab_mobility.Pixmap.Encode.Joined.{Delivers, encode-received}
use zfs_slab_mobility.Pixmap.Picture.{paint_pixels}
use zfs_slab_mobility.Pixmap.Picture.Pixels.{paint_pixels-tile}

-- Exact quotients in place of float64.
abbrev to_pixels : List ℕ → ℕ → ℕ → ℕ → ℕ
to_pixels sums known h n = n * h / known

abbrev kept_order : List ℕ → ℕ → ℕ → List ℕ → List ℕ
kept_order sums known h xs = xs

abbrev quarter : ℕ → ℕ → ℕ → ℕ
quarter v held n = v / 4

abbrev some_slab : Counts
some_slab k = if same_class k slab then 3 else if same_class k free then 5 else 0

-- Two blocks: one with three slab pages that is a hostage, one of free pages.
abbrev two_blocks : BlockMap
two_blocks = record {
  first_pfn = 0;
  nblocks = 2;
  counts = some_slab ∷ (λ k. if same_class k free then 8 else 0) ∷ [];
  ranges = [];
}

abbrev two_views : List BlockView
two_views =
    record no_view { valid = true; known = 8; hostage = true }
    ∷ record no_view { valid = true }
    ∷ []

-- Inside the first tile, one pixel above its bottom, there is slab.
paint_pixels-tile_example :
    (paint_pixels to_pixels kept_order quarter two_blocks two_views 0 2 1 2 10 1 8 16).pix 5 12
    ≡ class_rgb slab
unfolding pix_layout_for grow tile_pixel sum_over band_heights class_at class_rgb
paint_pixels-tile_example =
    paint_pixels-tile to_pixels kept_order (λ s k h xs. refl) (λ s k h xs i lt. (i, lt, refl))
      quarter two_blocks two_views 0 2 1 2 10 1 8 16 (omega arith) (omega arith) (omega arith) 5 12
      0 0 (omega arith) (omega arith) (omega arith) refl

-- The whole picture, at its border and under the pointer.
border_run :
    (let p = paint_pixels to_pixels kept_order quarter two_blocks two_views 0 2 1 2 10 1 8 16 in
      (p.pix 0 5 ≡ hostage_px)
      × (p.pix 40 5 ≡ hover_px)
      × (p.pix 1 5 ≡ clear)
      × (p.pix 5 3 ≡ class_rgb free))
unfolding paint_pixels pix_layout_for grow sum_over band_heights class_rgb
border_run = (refl, refl, refl, refl)

-- The two blocks on one pixel column of four rows.
abbrev one_column : PixLayout
one_column = record {
  view_from = 0;
  px_w = 1;
  cell_w = 1;
  cell_h = 4;
  map_rows = 1;
  tile_rows = 1;
  row_span = 1;
  blocks_per_row = 2;
  block_px = 0;
  per_col = 2;
  inset = 0;
}

abbrev as_is : List ℕ → List ℕ
as_is s = s

encode-received_example :
    let r = encode as_is as_is [] (1 ∷ 2 ∷ 3 ∷ []) 3 1 10 5 in
    (r.0 ≡ 1 ∷ 2 ∷ 3 ∷ []) × Delivers [] (1 ∷ 2 ∷ 3 ∷ []) 3 1 (1 ∷ 2 ∷ 3 ∷ []) r.1
encode-received_example = encode-received as_is as_is [] (1 ∷ 2 ∷ 3 ∷ []) 3 1 10 5 (omega arith)

-- Colour 136 of the terminal, and a shade of grey.
colour_run :
    (class_rgb slab ≡ record { r = 175; g = 135; b = 0; a = 255 })
    × (class_rgb free ≡ record { r = 68; g = 68; b = 68; a = 255 })
unfolding class_rgb
colour_run = (refl, refl)

class_rgb-distinct_example :
    (slab ≡ slab) × (class_rgb slab ≢ hostage_px) × (class_rgb slab ≢ hover_px)
class_rgb-distinct_example = class_rgb-distinct slab slab refl
