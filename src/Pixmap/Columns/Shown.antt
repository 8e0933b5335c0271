-- ===== src/Pixmap/Columns/Shown.antt =====
-- The picture that `paintAggregated` of packages/fragview/pixmap.go paints, at every pixel.
use zfs_slab_mobility.Prelude.{ℕ, ◌+◌, ◌-◌, ◌*◌, ◌≡◌, Bool, ◌&&◌, List, ltb, ◌==◌, if◌then◌else◌}
use zfs_slab_mobility.Kpage.Classes.{classes_from_free, sum_over}
use zfs_slab_mobility.Kpage.Blocks.{BlockMap}
use zfs_slab_mobility.Render.Summary.{BlockView}
use zfs_slab_mobility.Pixmap.Layout.{PixLayout}
use zfs_slab_mobility.Pixmap.Palette.{Rgba, class_rgb, hostage_px}
use zfs_slab_mobility.Pixmap.Paint.{Canvas, inside, opaque}
use zfs_slab_mobility.Pixmap.Paint.Rows.{Sized}
use zfs_slab_mobility.Pixmap.Paint.Tile.{shown_class}
use zfs_slab_mobility.Pixmap.Columns.{fade, column_at}

-- A step paints a point, where it does, by a function of what was there.
abbrev Swept : Bool → (Rgba → Rgba) → ℕ → ℕ → Canvas → Canvas → Type 0
Swept c f a b p q =
    Sized p q × (q.pix a b ≡ (if c && inside p a b then f (p.pix a b) else p.pix a b))

module _ (scaled : List ℕ → ℕ → ℕ → ℕ → ℕ) (by_frac : List ℕ → ℕ → ℕ → List ℕ → List ℕ)
    (mix : ℕ → ℕ → ℕ → ℕ) where
  -- What the column at `x` shows at the height `y` of the `r`-th row.
  unfoldable pub cell_pixel : BlockMap → List BlockView → PixLayout → ℕ → ℕ → ℕ → ℕ → Rgba → Rgba
  cell_pixel m views l view_to r x y old =
      let c = column_at m views l view_to r x in
      let shown =
        opaque
          (class_rgb (shown_class scaled by_frac c.sum l.cell_h ((r + 1) * l.cell_h - 1 - y))) in
      if sum_over classes_from_free c.sum == 0
      then old
      else if ltb 0 c.held && (y == r * l.cell_h)
      then fade mix hostage_px c.held c.n
      else shown
