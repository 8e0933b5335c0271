-- ===== src/Pixmap/Paint/Grid.antt =====
-- The tiles of packages/fragview/pixmap.go lie in the picture, and no two of them share a pixel.
use native.Mathlib.Decide.{dec_lt}
use zfs_slab_mobility.Prelude.{
  ℕ, ◌+◌, ◌*◌, ◌≤◌, ◌<◌, ◌≡◌, ◌≢◌, ◌⊎◌, inl, inr, Bool, true, false, arith, mul_mono, div_bounds,
  div_unique, mul_lt,
}
use zfs_slab_mobility.Pixmap.Layout.{PixLayout, span_start}
use zfs_slab_mobility.Pixmap.Paint.{blank, inside, row_top, row_bottom, span_end}
use zfs_slab_mobility.Pixmap.Paint.Tile.{within}

-- The blocks of a row start in order, each with a pixel at least.
pub span_start_mono :
    (l : PixLayout) (i j : ℕ) → 0 < l.blocks_per_row → i ≤ j → span_start l i ≤ span_start l j
span_start_mono l i j nonzero h =
    let n = l.blocks_per_row in
    let (lo, _) = div_bounds (i * l.px_w) n nonzero in
    let (_, hi) = div_bounds (j * l.px_w) n nonzero in
    let lt : span_start l i < span_start l j + 1 =
      mul_lt (span_start l i) (span_start l j + 1) n (omega (arith, mul_mono i j l.px_w h)) in
    omega arith

pub span_start_next :
    (l : PixLayout) (j : ℕ)
    → 0 < l.blocks_per_row
    → l.blocks_per_row ≤ l.px_w
    → span_start l j < span_start l (j + 1)
span_start_next l j nonzero fits =
    let n = l.blocks_per_row in
    let (lo, _) = div_bounds (j * l.px_w) n nonzero in
    let (_, hi) = div_bounds ((j + 1) * l.px_w) n nonzero in
    let lt : span_start l j + 1 < span_start l (j + 1) + 1 =
      mul_lt (span_start l j + 1) (span_start l (j + 1) + 1) n (omega arith) in
    omega arith

pub row_top_mono : (l : PixLayout) (s t : ℕ) → s ≤ t → row_top l s ≤ row_top l t
row_top_mono l s t h =
    mul_mono (s * l.row_span) (t * l.row_span) l.cell_h (mul_mono s t l.row_span h)

pub row_top_next :
    (l : PixLayout) (t : ℕ) → 0 < l.row_span → 0 < l.cell_h → row_top l t < row_top l (t + 1)
row_top_next l t h k =
    let e : (t + 1) * l.row_span * l.cell_h ≡ t * l.row_span * l.cell_h + l.row_span * l.cell_h =
      grind arith in
    omega (arith, e, mul_mono 1 l.row_span l.cell_h h)

within-apart :
    (x0 x1 top bottom x0' x1' top' bottom' a b : ℕ)
    → within x0 x1 top bottom a b ≡ true
    → ((x1' < x0) ⊎ (x1 < x0')) ⊎ ((bottom' < top) ⊎ (bottom < top'))
    → within x0' x1' top' bottom' a b ≡ false
within-apart x0 x1 top bottom x0' x1' top' bottom' a b h apart = ground arith

within_lem :
    (x0 x1 top bottom a b : ℕ) → within x0 x1 top bottom a b ≡ true → (a ≤ x1) × (b ≤ bottom)
within_lem x0 x1 top bottom a b h = ground arith

module _ (l : PixLayout) (a b : ℕ) where
  -- The point is in the tile of the `j`-th block of the `t`-th row.
  abbrev pub In : ℕ → ℕ → Bool
  In t j = within (span_start l j) (span_end l j) (row_top l t) (row_bottom l t) a b

module _ (l : PixLayout) (nonzero : 0 < l.blocks_per_row) (fits : l.blocks_per_row ≤ l.px_w)
    (spans : 0 < l.row_span) (tall : 0 < l.cell_h) (a b : ℕ) where
  -- Every tile is in the picture.
  pub inside_picture :
      (t j : ℕ)
      → t < l.tile_rows
      → j < l.blocks_per_row
      → l.tile_rows * l.row_span ≤ l.map_rows
      → In l a b t j ≡ true
      → inside (blank l.px_w (l.map_rows * l.cell_h)) a b ≡ true
  inside_picture t j t_in j_in rows_in here_in =
      let right = span_start_mono l (j + 1) l.blocks_per_row nonzero (omega arith) in
      let width : span_start l l.blocks_per_row ≡ l.px_w =
        div_unique (l.blocks_per_row * l.px_w) l.blocks_per_row l.px_w (omega arith)
          (omega arith) in
      let down = row_top_mono l (t + 1) l.tile_rows (omega arith) in
      let height = mul_mono (l.tile_rows * l.row_span) l.map_rows l.cell_h rows_in in
      ground (
        arith,
        within_lem (span_start l j) (span_end l j) (row_top l t) (row_bottom l t) a b here_in,
        right,
        width,
        down,
        height,
        span_start_next l j nonzero fits,
        row_top_next l t spans tall,
      )

  -- At most one tile holds the point.
  pub apart : (t j r k : ℕ) → In l a b t j ≡ true → (r ≢ t) ⊎ (k ≢ j) → In l a b r k ≡ false
  apart t j r k here_in (inl ne) =
      within-apart (span_start l j) (span_end l j) (row_top l t) (row_bottom l t) (span_start l k)
        (span_end l k) (row_top l r) (row_bottom l r) a b here_in
        (inr (elim (dec_lt r t) [
          | yes lt ↦
              inl
                (omega (arith, row_top_mono l (r + 1) t (omega arith), row_top_next l r spans tall))
          | no ge ↦
              inr
                (omega (arith, row_top_mono l (t + 1) r (omega arith), row_top_next l t spans tall))
        ]))
  apart t j r k here_in (inr ne) =
      within-apart (span_start l j) (span_end l j) (row_top l t) (row_bottom l t) (span_start l k)
        (span_end l k) (row_top l r) (row_bottom l r) a b here_in
        (inl (elim (dec_lt k j) [
          | yes lt ↦ inl (
              omega (
                arith,
                span_start_mono l (k + 1) j nonzero (omega arith),
                span_start_next l k nonzero fits,
              ))
          | no ge ↦ inr (
              omega (
                arith,
                span_start_mono l (j + 1) k nonzero (omega arith),
                span_start_next l j nonzero fits,
              ))
        ]))
