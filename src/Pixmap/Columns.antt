-- ===== src/Pixmap/Columns.antt =====
-- packages/fragview/pixmap.go: `paintAggregated`, which draws many blocks on one pixel column.
pub mod Shown
use zfs_slab_mobility.Prelude.{
  ℕ, zero, suc, ◌+◌, ◌-◌, ◌*◌, min, Bool, true, false, ◌&&◌, List, Option, none, some, ltb, ◌==◌,
  if◌then◌else◌, get_elem?, length,
}
use zfs_slab_mobility.Kpage.Classes.{Class, Counts, classes_from_free, no_pages, sum_over}
use zfs_slab_mobility.Kpage.Blocks.{BlockMap}
use zfs_slab_mobility.Render.Summary.{BlockView}
use zfs_slab_mobility.Pixmap.Layout.{PixLayout}
use zfs_slab_mobility.Pixmap.Palette.{Rgba, hostage_px}
use zfs_slab_mobility.Pixmap.Paint.{Canvas, set, counts_at, is_hostage, stack}

-- What a column adds up; `known` is the sum of all classes.
pub record Column : Type 0 where
  pub sum : Counts
  pub held : ℕ
  pub n : ℕ

abbrev pub no_column : Column
no_column = record { sum = no_pages; held = 0; n = 0 }

abbrev is_valid : List BlockView → ℕ → Bool
is_valid views blk = elim (get_elem? views blk) [ none ↦ false | some v ↦ v.valid ]

abbrev add_block : BlockMap → List BlockView → ℕ → Column → Column
add_block m views blk c = record {
  sum = λ k. c.sum k + counts_at m blk k;
  held = if is_valid views blk && is_hostage views blk then c.held + 1 else c.held;
  n = if is_valid views blk then c.n + 1 else c.n;
}

-- The loop over `left` blocks from `blk` on; it ends at the last block of the map.
unfoldable pub column_loop : BlockMap → List BlockView → ℕ → ℕ → Column → Column
column_loop m views blk zero c = c
column_loop m views blk (suc left) c =
    let rest = column_loop m views (blk + 1) left (add_block m views blk c) in
    if ltb blk (length m.counts) then rest else c

unfoldable pub column_at : BlockMap → List BlockView → PixLayout → ℕ → ℕ → ℕ → Column
unfolding column_loop
column_at m views l view_to r x =
    let lo = l.view_from + r * l.blocks_per_row + x * l.per_col in
    let hi = min (lo + l.per_col) view_to in column_loop m views lo (hi - lo) no_column

-- `fade`; `mix v held n` is `float64(v) * (0.25 + 0.75*frac)` as a byte, with the share of `held`
-- in `n` for `frac`.
abbrev pub fade : (ℕ → ℕ → ℕ → ℕ) → Rgba → ℕ → ℕ → Rgba
fade mix c held n = record { r = mix c.r held n; g = mix c.g held n; b = mix c.b held n; a = 255 }

-- `for i := from; ...` with `left` rounds.
unfoldable pub sweep : (ℕ → Canvas → Canvas) → ℕ → ℕ → Canvas → Canvas
sweep step from zero p = p
sweep step from (suc left) p = sweep step (from + 1) left (step from p)

module _ (scaled : List ℕ → ℕ → ℕ → ℕ → ℕ) (by_frac : List ℕ → ℕ → ℕ → List ℕ → List ℕ)
    (mix : ℕ → ℕ → ℕ → ℕ) (m : BlockMap) (views : List BlockView) (l : PixLayout)
    (view_to : ℕ) where
  -- The body of the inner loop.
  unfoldable pub paint_column : ℕ → ℕ → Canvas → Canvas
  unfolding column_at stack set
  paint_column r x p =
      let c = column_at m views l view_to r x in
      let known = sum_over classes_from_free c.sum in
      let top = r * l.cell_h in
      let bottom = (r + 1) * l.cell_h - 1 in
      let filled = stack scaled by_frac c.sum known x x top bottom p in
      if known == 0
      then p
      else if ltb 0 c.held
      then set filled x top (fade mix hostage_px c.held c.n)
      else filled

  unfoldable pub paint_columns : ℕ → Canvas → Canvas
  unfolding sweep paint_column
  paint_columns r p = sweep (paint_column r) 0 l.px_w p

  unfoldable pub paint_aggregated : Canvas → Canvas
  unfolding sweep paint_columns
  paint_aggregated p = sweep paint_columns 0 l.map_rows p
