-- ===== src/Pixmap/Paint.antt =====
-- packages/fragview/pixmap.go: what paints the picture, pixel by pixel.
--
-- Coordinates are never negative: a tile has at least one pixel each way, and the inset is smaller
-- than that. A loop's bound is written as the number of its rounds, so it is the source's loop from
-- `x0` to `x1` when given `x1 + 1 - x0`.
pub mod Rows
pub mod Tile
pub mod Grid
pub mod Whole
use zfs_slab_mobility.Prelude.{
  ℕ, zero, suc, ◌+◌, ◌-◌, ◌*◌, Bool, true, false, ◌&&◌, ◌||◌, List, [], ◌∷◌, map, Option, none,
  some, ltb, leb, ◌==◌, if◌then◌else◌, get_elem?, length,
}
use zfs_slab_mobility.Kpage.Classes.{
  Class, Counts, classes_from_free, no_pages, sum_over, absent, free, file, shmem, anon, abd, slab,
  pgtab, compound, uncached, kernel, reserved, unknown,
}
use zfs_slab_mobility.Kpage.Blocks.{BlockMap}
use zfs_slab_mobility.Render.Summary.{BlockView, no_view}
use zfs_slab_mobility.Pixmap.Bands.{band_heights}
use zfs_slab_mobility.Pixmap.Layout.{PixLayout, span_start}
use zfs_slab_mobility.Pixmap.Palette.{Rgba, class_rgb, clear, hostage_px, hover_px}

-- `image.RGBA`, with the pixel at each point.
pub record Canvas : Type 0 where
  pub w : ℕ
  pub h : ℕ
  pub pix : ℕ → ℕ → Rgba

-- What `canvas` makes, and what the loop at the head of `paintPixels` leaves of an old picture.
abbrev pub blank : ℕ → ℕ → Canvas
blank w h = record { w = w; h = h; pix = λ x y. clear }

abbrev pub opaque : Rgba → Rgba
opaque k = record k { a = 255 }

abbrev pub inside : Canvas → ℕ → ℕ → Bool
inside p x y = ltb x p.w && ltb y p.h

unfoldable pub set : Canvas → ℕ → ℕ → Rgba → Canvas
set p x y k =
    if inside p x y
    then record p { pix = λ a b. if (a == x) && (b == y) then opaque k else p.pix a b }
    else p

-- `n` pixels of row `y`, from `x` on.
unfoldable pub paint_row : Canvas → ℕ → Rgba → ℕ → ℕ → Canvas
paint_row p y k x zero = p
paint_row p y k x (suc n) = paint_row (set p x y k) y k (x + 1) n

-- One band of `stack`, at most `left` rows; `y` is one more than the source's.
unfoldable pub paint_band : ℕ → ℕ → ℕ → Rgba → ℕ → Canvas → ℕ → Canvas × ℕ
unfolding paint_row
paint_band x0 n top k zero p y = (p, y)
paint_band x0 n top k (suc left) p y =
    let rest = paint_band x0 n top k left (paint_row p (y - 1) k x0 n) (y - 1) in
    if ltb top y then rest else (p, y)

-- The loop of `stack` over `stackOrder`, with the height of each band.
unfoldable pub paint_bands : ℕ → ℕ → ℕ → List ℕ → List Class → Canvas → ℕ → Canvas
unfolding paint_band
paint_bands x0 n top [] ks p y = p
paint_bands x0 n top (m ∷ ms) [] p y = p
paint_bands x0 n top (m ∷ ms) (k ∷ ks) p y =
    let (p', y') = paint_band x0 n top (class_rgb k) m p y in paint_bands x0 n top ms ks p' y'

-- `stackOrder`, bottom to top.
abbrev pub stack_order : List Class
stack_order =
    slab ∷ abd ∷ kernel ∷ uncached ∷ pgtab ∷ compound ∷ reserved ∷ unknown ∷ anon ∷ shmem ∷ file
    ∷ free ∷ []

-- The sums of the classes, in that order.
abbrev pub stack_sums : Counts → List ℕ
stack_sums sum = map sum stack_order

unfoldable pub box_rows : Canvas → ℕ → ℕ → Rgba → ℕ → ℕ → Canvas
unfolding set
box_rows p top bottom k x zero = p
box_rows p top bottom k x (suc n) = box_rows (set (set p x top k) x bottom k) top bottom k (x + 1) n

unfoldable pub box_cols : Canvas → ℕ → ℕ → Rgba → ℕ → ℕ → Canvas
unfolding set
box_cols p x0 x1 k y zero = p
box_cols p x0 x1 k y (suc n) = box_cols (set (set p x0 y k) x1 y k) x0 x1 k (y + 1) n

unfoldable pub box : Canvas → ℕ → ℕ → ℕ → ℕ → Rgba → Canvas
unfolding box_rows box_cols
box p x0 x1 top bottom k =
    box_cols (box_rows p top bottom k x0 (x1 + 1 - x0)) x0 x1 k top (bottom + 1 - top)

-- `rowSpanY`, and `blockSpan`: both ends are in the range.
abbrev pub row_top : PixLayout → ℕ → ℕ
row_top l t = t * l.row_span * l.cell_h

abbrev pub row_bottom : PixLayout → ℕ → ℕ
row_bottom l t = row_top l (t + 1) - 1

abbrev pub span_end : PixLayout → ℕ → ℕ
span_end l j = span_start l (j + 1) - 1

abbrev pub block_at : PixLayout → ℕ → ℕ → ℕ
block_at l t j = l.view_from + t * l.blocks_per_row + j

-- `f.m.counts[blk]` and `blk < len(f.views) && f.views[blk].hostage`.
abbrev pub counts_at : BlockMap → ℕ → Counts
counts_at m blk = elim (get_elem? m.counts blk) [ none ↦ no_pages | some c ↦ c ]

abbrev pub is_hostage : List BlockView → ℕ → Bool
is_hostage views blk = elim (get_elem? views blk) [ none ↦ false | some v ↦ v.hostage ]

abbrev pub min_band : ℕ → ℕ
min_band h = if leb 10 h then 2 else 1

-- The arithmetic of `bandHeights` on float64: `int(exact)` of a sum, and the sort of the positions
-- by falling fractions. Both depend on the sums, `known` and the height.
module _ (scaled : List ℕ → ℕ → ℕ → ℕ → ℕ) (by_frac : List ℕ → ℕ → ℕ → List ℕ → List ℕ) where
  -- `bandHeights`, as `stack` calls it.
  abbrev pub heights : List ℕ → ℕ → ℕ → List ℕ
  heights sums known h =
      band_heights (by_frac sums known h) (scaled sums known h) h (min_band h) sums

  unfoldable pub stack : Counts → ℕ → ℕ → ℕ → ℕ → ℕ → Canvas → Canvas
  unfolding paint_bands
  stack sum known x0 x1 top bottom p =
      let h = bottom + 1 - top in
      let painted =
        paint_bands x0 (x1 + 1 - x0) top (heights (stack_sums sum) known h) stack_order p
          (bottom + 1) in
      if (h == 0) || ltb x1 x0 then p else painted

  -- The body of the inner loop of `paintBlocks`, of a block of the map.
  unfoldable pub paint_tile : BlockMap → List BlockView → PixLayout → ℕ → ℕ → ℕ → Canvas → Canvas
  unfolding stack box
  paint_tile m views l t j blk p =
      let sum = counts_at m blk in
      let known = sum_over classes_from_free sum in
      let filled =
        stack sum known (span_start l j + l.inset) (span_end l j - l.inset) (row_top l t + l.inset)
          (row_bottom l t - l.inset) p in
      let boxed =
        box filled (span_start l j) (span_end l j) (row_top l t) (row_bottom l t) hostage_px in
      if known == 0 then p else if is_hostage views blk then boxed else filled

  module _ (m : BlockMap) (views : List BlockView) (l : PixLayout) (view_to : ℕ) where
    -- The inner loop, from `j` on; whether it returned from `paintBlocks`.
    unfoldable pub paint_tiles : ℕ → ℕ → ℕ → Canvas → Canvas × Bool
    unfolding paint_tile
    paint_tiles t j zero p = (p, false)
    paint_tiles t j (suc left) p =
        let blk = block_at l t j in
        let rest = paint_tiles t (j + 1) left (paint_tile m views l t j blk p) in
        if leb view_to blk || leb (length m.counts) blk then (p, true) else rest

    -- The outer loop, from `t` on.
    unfoldable pub paint_tile_rows : ℕ → ℕ → Canvas → Canvas
    unfolding paint_tiles
    paint_tile_rows t zero p = p
    paint_tile_rows t (suc left) p =
        let (p', returned) = paint_tiles t 0 l.blocks_per_row p in
        let rest = paint_tile_rows (t + 1) left p' in if returned then p' else rest

    -- `paintBlocks`; the layout is that of the window, whose first block it holds.
    unfoldable pub paint_blocks : Canvas → Canvas
    unfolding paint_tile_rows
    paint_blocks p = paint_tile_rows 0 l.tile_rows p
