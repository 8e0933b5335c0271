-- ===== src/Pixmap/Layout.antt =====
-- packages/fragview/pixmap.go: how blocks line up with pixels, and which block a pointer is on.
--
-- Sizes and counts are never negative here, so an `int` is a natural number; only the pointer may
-- stand left of the map or above it. A map has at least one row and one pixel column.
pub mod Fits
pub mod Hover
use zfs_slab_mobility.Prelude.{
  ℕ, zero, suc, ◌+◌, ◌-◌, ◌*◌, ◌/◌, min, max, Bool, true, false, not, ◌&&◌, ◌||◌, ltb, leb, ◌==◌,
  if◌then◌else◌,
}
use zfs_slab_mobility.Prelude.Int.{ℤ, pos, negsuc, ◌-ℤ◌}

pub record PixLayout : Type 0 where
  pub view_from : ℕ
  pub px_w : ℕ
  pub cell_w : ℕ
  pub cell_h : ℕ
  pub map_rows : ℕ
  pub tile_rows : ℕ
  pub row_span : ℕ
  pub blocks_per_row : ℕ
  pub block_px : ℕ
  pub per_col : ℕ
  pub inset : ℕ

abbrev max_tile_aspect : ℕ
max_tile_aspect = 2

-- `(n + d - 1) / d`, and one at least.
abbrev pub share_out : ℕ → ℕ → ℕ
share_out n d = max ((n + d - 1) / d) 1

-- The body of the loop at one row span.
abbrev pub at_row_span : ℕ → PixLayout → ℕ → PixLayout
at_row_span span l row_span =
    let tile_rows = l.map_rows / row_span in
    let per_row = share_out span tile_rows in
    record l {
      row_span = row_span;
      tile_rows = tile_rows;
      blocks_per_row = per_row;
      block_px = l.px_w / per_row;
    }

abbrev pub settled : PixLayout → Bool
settled l = leb l.block_px (max_tile_aspect * l.row_span * l.cell_h) || l.tile_rows == 1

-- `for l.rowSpan = 1; l.rowSpan <= mapRows; l.rowSpan++`: `left` more values of the row span. The
-- layout of one row of tiles ends it, so `map_rows` rounds are enough.
unfoldable pub grow : ℕ → ℕ → PixLayout → ℕ → PixLayout
grow zero span l row_span = at_row_span span l row_span
grow (suc left) span l row_span =
    let next = grow left span l (row_span + 1) in
    let here = at_row_span span l row_span in if settled here then here else next

abbrev inset_of : PixLayout → ℕ
inset_of l =
    if leb 8 l.block_px && leb 12 (l.row_span * l.cell_h)
    then 2
    else if leb 4 l.block_px
    then 1
    else 0

-- The layout before either branch fills it in.
abbrev pub bare_layout : ℕ → ℕ → ℕ → ℕ → PixLayout
bare_layout px_w cell_w cell_h map_rows = record {
  view_from = 0;
  px_w = px_w;
  cell_w = cell_w;
  cell_h = cell_h;
  map_rows = map_rows;
  tile_rows = map_rows;
  row_span = 1;
  blocks_per_row = 0;
  block_px = 0;
  per_col = 0;
  inset = 0;
}

abbrev pub with_inset : PixLayout → PixLayout
with_inset l = record l { inset = inset_of l }

abbrev pub summed_layout : ℕ → PixLayout → PixLayout
summed_layout per_row l =
    let per_col = (per_row + l.px_w - 1) / l.px_w in
    record l { per_col = per_col; blocks_per_row = per_col * l.px_w }

unfoldable pub pix_layout_for : ℕ → ℕ → ℕ → ℕ → ℕ → PixLayout
unfolding grow
pix_layout_for span px_w cell_w cell_h map_rows =
    let l = bare_layout px_w cell_w cell_h map_rows in
    let per_row = share_out span map_rows in
    if ltb px_w per_row then summed_layout per_row l else with_inset (grow (map_rows - 1) span l 1)

-- `blockSpan`: the first pixel of the j-th block, and the first one past it; the source returns
-- the last one, which is one less.
abbrev pub span_start : PixLayout → ℕ → ℕ
span_start l j = j * l.px_w / l.blocks_per_row

-- Where the pointer's cell stands in the picture, in pixels, for the tiles.
abbrev pub cell_centre : PixLayout → ℕ → ℕ
cell_centre l col = col * l.cell_w + l.cell_w / 2

-- `resolveHover` from a cell of the map on: the blocks under it, none if both ends are 0.
unfoldable pub hover_cell : PixLayout → ℕ → ℕ → ℕ → ℕ × ℕ
hover_cell l nblocks col row =
    let x = col * l.cell_w in
    let t = row * l.cell_h / (l.row_span * l.cell_h) in
    let tile = (x + l.cell_w / 2) * l.blocks_per_row / l.px_w in
    let from = if ltb 0 l.block_px then tile else x * l.per_col in
    let to = if ltb 0 l.block_px then tile + 1 else min (x + l.cell_w) l.px_w * l.per_col in
    let last = min (l.view_from + l.tile_rows * l.blocks_per_row) nblocks in
    if leb l.map_rows row || leb l.px_w x || leb l.tile_rows t then (0, 0) else (
      min (l.view_from + t * l.blocks_per_row + from) last,
      min (l.view_from + t * l.blocks_per_row + to) last,
    )

abbrev map_label : ℕ
map_label = 6

on_map : PixLayout → ℕ → ℤ → ℤ → ℕ × ℕ
unfolding hover_cell
on_map l nblocks (pos col) (pos row) = hover_cell l nblocks col row
on_map l nblocks (pos col) (negsuc row) = (0, 0)
on_map l nblocks (negsuc col) row = (0, 0)

-- `resolveHover`, of the pointer's cell on the screen.
unfoldable pub resolve_hover : PixLayout → ℕ → Bool → ℕ → ℤ → ℤ → ℕ × ℕ
unfolding on_map ◌-ℤ◌
resolve_hover l nblocks pixels map_top hover_col hover_row =
    if not pixels || l.blocks_per_row == 0 || map_top == 0
    then (0, 0)
    else on_map l nblocks (hover_col -ℤ pos map_label) (hover_row -ℤ pos map_top)
