-- ===== src/Pixmap/Picture/Pixels.antt =====
-- The picture of packages/fragview/pixmap.go, from the layout to the box under the pointer.
use native.Mathlib.Nat.{div-add-mod'}
use native.Mathlib.Decide.{ℕ_discrete}
use zfs_slab_mobility.Prelude.{
  ℕ, zero, suc, ◌+◌, ◌-◌, ◌*◌, ◌/◌, ◌%◌, ◌≤◌, ◌<◌, ◌≡◌, ◌≢◌, ◌⊎◌, inl, inr, refl, ◌∙◌, Bool, true,
  false, ◌&&◌, ◌||◌, arith, List, ltb, leb, ◌==◌, if◌then◌else◌, if_intro, Bool-cases, length,
  get_or, div_unique,
}
use zfs_slab_mobility.Kpage.Blocks.{BlockMap}
use zfs_slab_mobility.Render.Summary.{BlockView}
use zfs_slab_mobility.Pixmap.Layout.{
  PixLayout, span_start, share_out, at_row_span, settled, grow, bare_layout, with_inset,
  summed_layout, pix_layout_for,
}
use zfs_slab_mobility.Pixmap.Layout.Fits.{IsTiled, IsSummed, pix_layout_for-fits}
use zfs_slab_mobility.Pixmap.Palette.{Rgba, clear, hover_px}
use zfs_slab_mobility.Pixmap.Paint.{
  Canvas, blank, inside, opaque, box, row_top, row_bottom, span_end, block_at, paint_blocks,
}
use zfs_slab_mobility.Pixmap.Paint.Rows.{inside-Sized, box-pix}
use zfs_slab_mobility.Pixmap.Paint.Tile.{on_edge, tile_pixel, edges}
use zfs_slab_mobility.Pixmap.Paint.Grid.{In, apart, inside_picture, span_start_next, row_top_next}
use zfs_slab_mobility.Pixmap.Paint.Whole.{paint_blocks-pix}
use zfs_slab_mobility.Pixmap.Picture.{mark_hover, layout_of, paint_pixels}

-- What the layout takes over, and that a row of tiles spans a row of the map at least.
abbrev Kept : ℕ → ℕ → ℕ → PixLayout → Type 0
Kept px_w cell_h map_rows l =
    (l.px_w ≡ px_w) × (l.cell_h ≡ cell_h) × (l.map_rows ≡ map_rows) × (0 < l.row_span)

grow-Kept :
    (left span : ℕ) (l : PixLayout) (r : ℕ)
    → 0 < r
    → Kept l.px_w l.cell_h l.map_rows (grow left span l r)
unfolding grow
grow-Kept zero span l r h = (refl, refl, refl, h)
grow-Kept (suc left) span l r h =
    if_intro (Kept l.px_w l.cell_h l.map_rows) (settled (at_row_span span l r))
      (at_row_span span l r) (grow left span l (r + 1)) (λ _. (refl, refl, refl, h))
      (λ _. grow-Kept left span l (r + 1) (omega arith))

layout-Kept :
    (span px_w cell_w cell_h map_rows : ℕ)
    → Kept px_w cell_h map_rows (pix_layout_for span px_w cell_w cell_h map_rows)
unfolding pix_layout_for
layout-Kept span px_w cell_w cell_h map_rows =
    let l = bare_layout px_w cell_w cell_h map_rows in
    let per_row = share_out span map_rows in
    if_intro (Kept px_w cell_h map_rows) (ltb px_w per_row) (summed_layout per_row l)
      (with_inset (grow (map_rows - 1) span l 1)) (λ _. (refl, refl, refl, omega arith))
      (λ _. grow-Kept (map_rows - 1) span l 1 (omega arith))

-- The pointer rests on a block, or on blocks of which it is the first.
abbrev hovered : PixLayout → ℕ → ℕ → ℕ → ℕ → Bool
hovered l box_from box_to t j = ltb box_from box_to && (box_from == block_at l t j)

abbrev edge : PixLayout → ℕ → ℕ → ℕ → ℕ → Bool
edge l a b t j = on_edge (span_start l j) (span_end l j) (row_top l t) (row_bottom l t) a b

fits_of : (l : PixLayout) → IsTiled l ⊎ IsSummed l → 0 < l.block_px → l.blocks_per_row ≤ l.px_w
fits_of l (inl tiled) h = tiled.2
fits_of l (inr summed) h = absurd (omega (arith, summed.0))

column_of : (i n t j : ℕ) → i / n ≡ t → i ≡ t * n + j → i % n ≡ j
column_of i n t j e h =
    let back : t * n + i % n ≡ i = rw e at (div-add-mod' i n) in omega (arith, back)

if_true : (c : Bool) (x y : Rgba) → (if c && true then x else y) ≡ (if c then x else y)
if_true c x y = ground arith

module _ (l : PixLayout) (box_from box_to : ℕ) (nonzero : 0 < l.blocks_per_row)
    (fits : l.blocks_per_row ≤ l.px_w) (spans : 0 < l.row_span) (tall : 0 < l.cell_h)
    (tiled : 0 < l.block_px) (a b : ℕ) where
  box_at-pix :
      (t j : ℕ) (p : Canvas)
      → (box p (span_start l j) (span_end l j) (row_top l t) (row_bottom l t) hover_px).pix a b
        ≡ (if edge l a b t j && inside p a b then opaque hover_px else p.pix a b)
  box_at-pix t j p =
      let x0 = span_start l j in
      let (_, pix) = box-pix a b p x0 (span_end l j) (row_top l t) (row_bottom l t) hover_px in
      pix
      ∙ rw
          (edges x0 (span_end l j) (row_top l t) (row_bottom l t) a b
            (omega (arith, span_start_next l j nonzero fits))
            (omega (arith, row_top_next l t spans tall)))
          refl

  hovered_lem :
      (t j : ℕ)
      → hovered l box_from box_to t j ≡ true
      → (box_from < box_to) × (box_from ≡ block_at l t j)
  hovered_lem t j h = ground arith

  off_edge : (r k : ℕ) → In l a b r k ≡ false → edge l a b r k ≡ false
  off_edge r k h = rw h refl

  -- If the box is drawn, and not around a tile, it is around another.
  other :
      (t j : ℕ)
      → (let i = box_from - l.view_from in
          ((leb box_to box_from || ltb box_from l.view_from)
            || leb l.tile_rows (i / l.blocks_per_row))
          ≡ false)
      → hovered l box_from box_to t j ≡ false
      → (let i = box_from - l.view_from in (i / l.blocks_per_row ≢ t) ⊎ (i % l.blocks_per_row ≢ j))
  other t j on no_here =
      let i = box_from - l.view_from in
      elim (ℕ_discrete (i / l.blocks_per_row) t) [
        | no ne ↦ inl ne
        | yes row ↦ elim (ℕ_discrete (i % l.blocks_per_row) j) [
          | no ne ↦ inr ne
          | yes col ↦
              let back : t * l.blocks_per_row + j ≡ i =
                rw (row, col) at (div-add-mod' i l.blocks_per_row) in
              absurd (ground (arith, back))
        ]
      ]

  -- The box is drawn around the tile of the first block under the pointer, if it is there.
  mark_hover-pix :
      (t j : ℕ) (p : Canvas)
      → t < l.tile_rows
      → j < l.blocks_per_row
      → In l a b t j ≡ true
      → inside p a b ≡ true
      → (mark_hover l box_from box_to p).pix a b
        ≡ (if hovered l box_from box_to t j && edge l a b t j then opaque hover_px else p.pix a b)
  unfolding mark_hover
  mark_hover-pix t j p t_in j_in here_in in_p =
      let i = box_from - l.view_from in
      let t' = i / l.blocks_per_row in
      let j' = i % l.blocks_per_row in
      let back = div-add-mod' i l.blocks_per_row in
      elim (Bool-cases (hovered l box_from box_to t j)) [
        | inl yes_here ↦
            let (on, at) = hovered_lem t j yes_here in
            let row : t' ≡ t =
              div_unique i l.blocks_per_row t (omega (arith, at)) (omega (arith, at)) in
            let col : j' ≡ j = column_of i l.blocks_per_row t j row (omega (arith, at)) in
            let drawn : ((leb box_to box_from || ltb box_from l.view_from) || leb l.tile_rows t)
                ≡ false =
              ground (arith, on, at) in
            let tiles : ltb 0 l.block_px ≡ true = ground arith in
            rw (row, col, drawn, tiles, yes_here)
              (box_at-pix t j p ∙ rw in_p (if_true (edge l a b t j) _ _))
        | inr no_here ↦
            let tile =
              box p (span_start l j') (span_end l j') (row_top l t') (row_bottom l t') hover_px in
            let tiles : ltb 0 l.block_px ≡ true = ground arith in
            rw (no_here, tiles)
              (if_intro (λ (q : Canvas). q.pix a b ≡ p.pix a b)
                ((leb box_to box_from || ltb box_from l.view_from) || leb l.tile_rows t') p tile
                (λ _. refl)
                (λ on.
                  let off : edge l a b t' j' ≡ false = off_edge t' j' (
                    apart l nonzero fits spans tall a b t j t' j' here_in (other t j on no_here)) in
                  box_at-pix t' j' p ∙ rw off refl))
      ]

module _ (scaled : List ℕ → ℕ → ℕ → ℕ → ℕ) (by_frac : List ℕ → ℕ → ℕ → List ℕ → List ℕ)
    (keeps : (s : List ℕ) (k h : ℕ) (xs : List ℕ) → length (by_frac s k h xs) ≡ length xs)
    (among : (s : List ℕ) (k h : ℕ) (xs : List ℕ) (i : ℕ)
      → i < length xs
      → (j : ℕ) × (j < length xs) × (get_or (by_frac s k h xs) i 0 ≡ get_or xs j 0))
    (mix : ℕ → ℕ → ℕ → ℕ) (m : BlockMap) (views : List BlockView)
    (view_from view_to box_from box_to width map_rows cell_w cell_h : ℕ) (wide : 0 < width * cell_w)
    (tall : 0 < cell_h) (some_rows : 0 < map_rows) (a b : ℕ) where
  abbrev l : PixLayout
  l = layout_of view_from view_to width map_rows cell_w cell_h

  -- In a layout of tiles, each pixel of the tile of a block shows the hover box if the pointer rests
  -- on the block and the pixel is on the edge, else what the tile of the block shows there; it is
  -- clear if the window or the map lacks the block.
  pub paint_pixels-tile :
      (t j : ℕ)
      → 0 < l.block_px
      → t < l.tile_rows
      → j < l.blocks_per_row
      → In l a b t j ≡ true
      → let blk = block_at l t j in
        (paint_pixels scaled by_frac mix m views view_from view_to box_from box_to width map_rows
            cell_w cell_h).pix
          a b
        ≡ (if hovered l box_from box_to t j && edge l a b t j
            then opaque hover_px
            else if ltb blk view_to && ltb blk (length m.counts)
            then tile_pixel scaled by_frac m views l t j blk a b clear
            else clear)
  unfolding paint_pixels
  paint_pixels-tile t j tiled t_in j_in here_in =
      let (px_w, high, rows, spans) =
        layout-Kept (view_to - view_from) (width * cell_w) cell_w cell_h map_rows in
      let (_, some_blocks, rows_in, _, kind) =
        pix_layout_for-fits (view_to - view_from) (width * cell_w) cell_w cell_h map_rows wide tall
          some_rows in
      let fits : l.blocks_per_row ≤ l.px_w = fits_of l kind tiled in
      let tall' : 0 < l.cell_h = omega (arith, high) in
      let rows_in' : l.tile_rows * l.row_span ≤ l.map_rows = omega (arith, rows_in, rows) in
      let p = blank l.px_w (l.map_rows * l.cell_h) in
      let new : blank (width * cell_w) (map_rows * cell_h) ≡ p = rw (px_w, high, rows) refl in
      let here_in_p =
        inside_picture l some_blocks fits spans tall' a b t j t_in j_in rows_in' here_in in
      let (sized, painted) =
        paint_blocks-pix scaled by_frac keeps among m views l view_to some_blocks fits spans tall' a
          b t j t_in j_in rows_in' here_in in
      let is_tiled : (l.block_px == 0) ≡ false = ground arith in
      rw (is_tiled, new)
        (mark_hover-pix l box_from box_to some_blocks fits spans tall' tiled a b t j
            (paint_blocks scaled by_frac m views l view_to p) t_in j_in here_in
            (inside-Sized a b p (paint_blocks scaled by_frac m views l view_to p) sized ∙ here_in_p)
          ∙ rw painted refl)
