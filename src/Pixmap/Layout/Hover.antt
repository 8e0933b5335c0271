-- ===== src/Pixmap/Layout/Hover.antt =====
-- The pointer of packages/fragview/pixmap.go against the picture it points at.
use zfs_slab_mobility.Prelude.{
  ℕ, ◌+◌, ◌*◌, ◌/◌, min, ◌≤◌, ◌<◌, ◌≡◌, Bool, false, arith, ltb, leb, ◌||◌, if◌then◌else◌, if_intro,
  mul_mono, div_unique, div_bounds,
}
use zfs_slab_mobility.Pixmap.Layout.{PixLayout, span_start, cell_centre, hover_cell}

inside_of : (a b : Bool) (px_w x : ℕ) → (a || leb px_w x || b) ≡ false → x < px_w
inside_of a b px_w x h = ground arith

-- The two ends of what a cell covers, in blocks of its row of tiles, are in order.
ends_le :
    (l : PixLayout) (x tile : ℕ)
    → x < l.px_w
    → (if ltb 0 l.block_px then tile else x * l.per_col)
      ≤ (if ltb 0 l.block_px then tile + 1 else min (x + l.cell_w) l.px_w * l.per_col)
ends_le l x tile inside =
    ground (arith, mul_mono x (min (x + l.cell_w) l.px_w) l.per_col (omega arith))

-- The blocks under the pointer lie in the window that was drawn, and in the map.
pub hover_cell_range :
    (l : PixLayout) (nblocks col row : ℕ)
    → let r = hover_cell l nblocks col row in
      (r.0 ≤ r.1) × (r.1 ≤ nblocks) × (r.1 ≤ l.view_from + l.tile_rows * l.blocks_per_row)
unfolding hover_cell
hover_cell_range l nblocks col row =
    let x = col * l.cell_w in
    let t = row * l.cell_h / (l.row_span * l.cell_h) in
    let tile = (x + l.cell_w / 2) * l.blocks_per_row / l.px_w in
    let from = if ltb 0 l.block_px then tile else x * l.per_col in
    let to = if ltb 0 l.block_px then tile + 1 else min (x + l.cell_w) l.px_w * l.per_col in
    let last = min (l.view_from + l.tile_rows * l.blocks_per_row) nblocks in
    if_intro
      (λ (r : ℕ × ℕ).
        (r.0 ≤ r.1) × (r.1 ≤ nblocks) × (r.1 ≤ l.view_from + l.tile_rows * l.blocks_per_row))
      (leb l.map_rows row || leb l.px_w x || leb l.tile_rows t) (0, 0)
      (
        min (l.view_from + t * l.blocks_per_row + from) last,
        min (l.view_from + t * l.blocks_per_row + to) last,
      )
      (λ _. (omega arith, omega arith, omega arith))
      (λ inside.
        let le =
          ends_le l x tile (inside_of (leb l.map_rows row) (leb l.tile_rows t) l.px_w x inside) in
        (omega arith, omega arith, omega arith))

-- The row of tiles that a row of the map belongs to.
tile_row :
    (row row_span cell_h t : ℕ)
    → 0 < cell_h
    → t * row_span ≤ row
    → row < (t + 1) * row_span
    → row * cell_h / (row_span * cell_h) ≡ t
tile_row row row_span cell_h t tall lo hi =
    div_unique (row * cell_h) (row_span * cell_h) t
      (omega (arith, mul_mono (t * row_span) row cell_h lo))
      (omega (arith, mul_mono (row + 1) ((t + 1) * row_span) cell_h (omega arith)))

-- Strictly between the first pixel of a block and the next block's, the block is found.
tile_col :
    (l : PixLayout) (y j : ℕ)
    → 0 < l.blocks_per_row
    → span_start l j < y
    → y < span_start l (j + 1)
    → y * l.blocks_per_row / l.px_w ≡ j
tile_col l y j some lo hi =
    let n = l.blocks_per_row in
    let (_, after) = div_bounds (j * l.px_w) n some in
    let (before, _) = div_bounds ((j + 1) * l.px_w) n some in
    div_unique (y * n) l.px_w j (omega (arith, mul_mono (span_start l j + 1) y n (omega arith)))
      (omega (arith, mul_mono (y + 1) (span_start l (j + 1)) n (omega arith)))

-- In a tiled layout, a cell in the `t`-th row of tiles whose centre is past the first pixel of the
-- `j`-th block and before the next block resolves to exactly that block, if the map has it. So it
-- does where tiles are narrower than a cell, too, whatever other blocks stand under the cell.
pub hover_cell_exact :
    (l : PixLayout) (nblocks col row t j : ℕ)
    → 0 < l.block_px
    → 0 < l.blocks_per_row
    → 0 < l.cell_h
    → row < l.map_rows
    → col * l.cell_w < l.px_w
    → t < l.tile_rows
    → j < l.blocks_per_row
    → t * l.row_span ≤ row
    → row < (t + 1) * l.row_span
    → span_start l j < cell_centre l col
    → cell_centre l col < span_start l (j + 1)
    → let block = l.view_from + t * l.blocks_per_row + j in
      block < nblocks → hover_cell l nblocks col row ≡ (block, block + 1)
unfolding hover_cell
hover_cell_exact l nblocks col row t j tiled some tall inside left above within lo hi after before
      known =
    rw
      (
        tile_row row l.row_span l.cell_h t tall lo hi,
        tile_col l (cell_centre l col) j some after before,
      )
      (ground (arith, mul_mono (t + 1) l.tile_rows l.blocks_per_row (omega arith)))
