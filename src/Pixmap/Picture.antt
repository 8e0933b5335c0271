-- ===== src/Pixmap/Picture.antt =====
-- packages/fragview/pixmap.go: `markHover`, and `paintPixels`, which lays the picture out and paints
-- it.
--
-- What `canvas` gives is cleared before it is painted, so it does not matter whether it is new.
pub mod Pixels
use zfs_slab_mobility.Prelude.{
  ℕ, ◌+◌, ◌-◌, ◌*◌, ◌/◌, ◌%◌, ◌||◌, List, ltb, leb, ◌==◌, if◌then◌else◌,
}
use zfs_slab_mobility.Kpage.Blocks.{BlockMap}
use zfs_slab_mobility.Render.Summary.{BlockView}
use zfs_slab_mobility.Pixmap.Layout.{PixLayout, span_start, pix_layout_for}
use zfs_slab_mobility.Pixmap.Palette.{hover_px}
use zfs_slab_mobility.Pixmap.Paint.{Canvas, blank, box, row_top, row_bottom, span_end, paint_blocks}
use zfs_slab_mobility.Pixmap.Columns.{paint_aggregated}

-- The box around the blocks from `box_from` to `box_to`, where the pointer came to rest.
unfoldable pub mark_hover : PixLayout → ℕ → ℕ → Canvas → Canvas
unfolding box
mark_hover l box_from box_to p =
    let i = box_from - l.view_from in
    let t = i / l.blocks_per_row in
    let j = i % l.blocks_per_row in
    let last = (box_to - l.view_from - 1 - t * l.blocks_per_row) / l.per_col in
    let tile = box p (span_start l j) (span_end l j) (row_top l t) (row_bottom l t) hover_px in
    let strip = box p (j / l.per_col) last (row_top l t) (row_bottom l t) hover_px in
    if (leb box_to box_from || ltb box_from l.view_from) || leb l.tile_rows t
    then p
    else if ltb 0 l.block_px
    then tile
    else strip

-- The layout of `paintPixels`, of a map of `width` cells and `map_rows` rows.
abbrev pub layout_of : ℕ → ℕ → ℕ → ℕ → ℕ → ℕ → PixLayout
layout_of view_from view_to width map_rows cell_w cell_h =
    record (pix_layout_for (view_to - view_from) (width * cell_w) cell_w cell_h map_rows) {
      view_from = view_from;
    }

module _ (scaled : List ℕ → ℕ → ℕ → ℕ → ℕ) (by_frac : List ℕ → ℕ → ℕ → List ℕ → List ℕ)
    (mix : ℕ → ℕ → ℕ → ℕ) (m : BlockMap) (views : List BlockView)
    (view_from view_to box_from box_to : ℕ) where
  -- The picture that `paintPixels` leaves in `f.px.img`.
  unfoldable pub paint_pixels : ℕ → ℕ → ℕ → ℕ → Canvas
  unfolding mark_hover paint_blocks paint_aggregated
  paint_pixels width map_rows cell_w cell_h =
      let l = layout_of view_from view_to width map_rows cell_w cell_h in
      let p = blank (width * cell_w) (map_rows * cell_h) in
      let tiles = paint_blocks scaled by_frac m views l view_to p in
      let columns = paint_aggregated scaled by_frac mix m views l view_to p in
      mark_hover l box_from box_to (if l.block_px == 0 then columns else tiles)
